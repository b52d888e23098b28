-- ===== src/Base/Strings/Order.antt =====
-- The order of Go strings is a strict total order.
use zentao_mcp.Base.Strings.{text_less}
use zentao_mcp.Base.Text.{Text, text_eq}
use mathlib.Core.Path.{◌≡◌, refl}
use mathlib.Core.Bool.{true, false}
use mathlib.Core.List.{[], ◌∷◌}
use native.Mathlib.Omega.{arith}

pub text_less_asym : (s t : Text) → text_less s t ≡ true → text_less t s ≡ false
unfolding text_less
text_less_asym [] [] h = refl
text_less_asym [] (d ∷ t) h = refl
text_less_asym (c ∷ s) [] h = absurd (ground arith)
text_less_asym (c ∷ s) (d ∷ t) h = ground (arith, text_less_asym s t)

pub text_less_trans :
    (s t u : Text) → text_less t s ≡ false → text_less u t ≡ false → text_less u s ≡ false
unfolding text_less
text_less_trans [] [] u h k = k
text_less_trans [] (d ∷ t) [] h k = refl
text_less_trans [] (d ∷ t) (e ∷ u) h k = refl
text_less_trans (c ∷ s) [] u h k = absurd (ground arith)
text_less_trans (c ∷ s) (d ∷ t) [] h k = k
text_less_trans (c ∷ s) (d ∷ t) (e ∷ u) h k = ground (arith, text_less_trans s t u)

pub text_less_eq : (s t : Text) → text_less s t ≡ false → text_less t s ≡ false → text_eq s t ≡ true
unfolding text_less text_eq
text_less_eq [] [] h k = refl
text_less_eq [] (d ∷ t) h k = absurd (ground arith)
text_less_eq (c ∷ s) [] h k = absurd (ground arith)
text_less_eq (c ∷ s) (d ∷ t) h k = ground (arith, text_less_eq s t)
