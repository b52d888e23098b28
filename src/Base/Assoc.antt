-- ===== src/Base/Assoc.antt =====
-- Go maps with string keys, as association lists. The order of a list stands for the order in
-- which `range` meets the entries, which Go leaves open.
use zentao_mcp.Base.Tests.{if◌then◌else◌, is_some, Bool-cases}
use zentao_mcp.Base.Lists.{length, All}
use zentao_mcp.Base.Text.{Text, text_eq, text_eq_iff, text_eq_refl}
use Prim.Native.Nat.{suc, ◌≤◌, ◌<◌}
use mathlib.Core.Path.{◌≡◌, refl, subst}
use mathlib.Core.Logic.{inl, inr}
use mathlib.Core.Bool.{Bool, true, false}
use mathlib.Core.Option.{Option, none, some}
use mathlib.Core.List.{List, [], ◌∷◌}
use native.Mathlib.Omega.{arith}

abbrev pub Assoc {ℓ} : Type ℓ → Type ℓ
Assoc V = List (Text × V)

module _ {ℓ} {V : Type ℓ} where
  -- `m[k]`
  unfoldable pub lookup : Text → Assoc V → Option V
  lookup k [] = none
  lookup k ((j, v) ∷ m) = if text_eq j k then some v else lookup k m

  -- `m[k] = v`
  unfoldable pub insert : Text → V → Assoc V → Assoc V
  insert k v [] = (k, v) ∷ []
  insert k v ((j, w) ∷ m) = if text_eq j k then (k, v) ∷ m else (j, w) ∷ insert k v m

  -- `for k, v := range m { if drop(k, v) { delete(m, k) } }`
  unfoldable pub drop_where : (Text → V → Bool) → Assoc V → Assoc V
  drop_where drop [] = []
  drop_where drop ((j, w) ∷ m) = if drop j w then drop_where drop m else (j, w) ∷ drop_where drop m

  -- `delete(m, k)`
  unfoldable pub delete : Text → Assoc V → Assoc V
  delete k [] = []
  delete k ((j, w) ∷ m) = if text_eq j k then delete k m else (j, w) ∷ delete k m

  pub lookup-insert :
      (k j : Text) (v : V) (m : Assoc V)
      → lookup j (insert k v m) ≡ (if text_eq k j then some v else lookup j m)
  unfolding lookup insert
  lookup-insert k j v [] = refl
  lookup-insert k j v ((i, w) ∷ m) = ground (
    arith,
    text_eq_iff k j,
    text_eq_iff i k,
    text_eq_iff i j,
    text_eq_refl j,
    lookup-insert k j v m,
  )

  pub lookup-delete :
      (k j : Text) (m : Assoc V)
      → lookup j (delete k m) ≡ (if text_eq k j then none else lookup j m)
  unfolding lookup delete
  lookup-delete k j [] = ground arith
  lookup-delete k j ((i, w) ∷ m) = ground (
    arith,
    text_eq_iff k j,
    text_eq_iff i k,
    text_eq_iff i j,
    text_eq_refl j,
    lookup-delete k j m,
  )

  -- An entry that is not dropped is still found.
  pub lookup-drop_where :
      (drop : Text → V → Bool) (k : Text) (m : Assoc V) {v : V}
      → lookup k m ≡ some v
      → drop k v ≡ false
      → lookup k (drop_where drop m) ≡ some v
  unfolding lookup drop_where
  lookup-drop_where drop k [] h n = h
  lookup-drop_where drop k ((i, w) ∷ m) {v} h n =
      ground (arith, text_eq_iff i k, lookup-drop_where drop k m {v = v})

  pub length-insert :
      (k : Text) (v : V) (m : Assoc V)
      → length (insert k v m) ≡ (if is_some (lookup k m) then length m else suc (length m))
  unfolding lookup insert
  length-insert k v [] = refl
  length-insert k v ((i, w) ∷ m) = ground (arith, length-insert k v m)

  pub length-delete : (k : Text) (m : Assoc V) → length (delete k m) ≤ length m
  unfolding delete
  length-delete k [] = omega arith
  length-delete k ((i, w) ∷ m) = ground (arith, length-delete k m)

  pub length-delete_found :
      (k : Text) (m : Assoc V) → is_some (lookup k m) ≡ true → length (delete k m) < length m
  unfolding delete lookup
  length-delete_found k [] h = absurd (ground arith)
  length-delete_found k ((i, w) ∷ m) h = ground (arith, length-delete k m, length-delete_found k m)

  pub length-drop_where :
      (drop : Text → V → Bool) (m : Assoc V) → length (drop_where drop m) ≤ length m
  unfolding drop_where
  length-drop_where drop [] = omega arith
  length-drop_where drop ((i, w) ∷ m) = ground (arith, length-drop_where drop m)

  -- Facts about every value that a map holds.
  module _ {κ} (P : V → Type κ) where
    abbrev pub Values : Assoc V → Type κ
    Values m = All (λ e. P e.1) m

    pub Values-insert : (k : Text) (v : V) (m : Assoc V) → P v → Values m → Values (insert k v m)
    unfolding insert
    Values-insert k v [] p h = (p, tt)
    Values-insert k v ((i, w) ∷ m) p h = ground (arith, Values-insert k v m p h.1)

    pub Values-delete : (k : Text) (m : Assoc V) → Values m → Values (delete k m)
    unfolding delete
    Values-delete k [] h = tt
    Values-delete k ((i, w) ∷ m) h = ground (arith, Values-delete k m h.1)

    pub Values-drop_where :
        (drop : Text → V → Bool) (m : Assoc V) → Values m → Values (drop_where drop m)
    unfolding drop_where
    Values-drop_where drop [] h = tt
    Values-drop_where drop ((i, w) ∷ m) h = ground (arith, Values-drop_where drop m h.1)

    pub Values-lookup : (k : Text) (m : Assoc V) {v : V} → Values m → lookup k m ≡ some v → P v
    unfolding lookup
    Values-lookup k [] h e = absurd (ground arith)
    Values-lookup k ((i, w) ∷ m) {v} h e = elim (Bool-cases (text_eq i k)) [
      | inl hit ↦ let q : w ≡ v = ground arith in subst P q h.0
      | inr miss ↦ Values-lookup k m {v = v} h.1 (ground arith)
    ]
