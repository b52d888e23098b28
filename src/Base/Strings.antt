-- ===== src/Base/Strings.antt =====
-- What the program uses of package strings beside the functions of Text.
pub mod Order
pub mod Suffix
use zentao_mcp.Base.Tests.{ltb, leb, ◌==◌, if◌then◌else◌}
use zentao_mcp.Base.Lists.{length, take}
use zentao_mcp.Base.Text.{Text, text_eq, has_prefix, trim_space}
use Prim.Native.Nat.{ℕ, zero, suc, ◌-◌}
use mathlib.Core.Bool.{Bool, true, false, not, ◌&&◌, ◌||◌}
use mathlib.Core.Option.{Option, none, some}
use mathlib.Core.List.{List, [], ◌∷◌, ◌++◌, reverse, map}

-- `<` of Go strings: the bytes of UTF-8 are ordered like the code points.
unfoldable pub text_less : Text → Text → Bool
text_less [] [] = false
text_less [] (d ∷ t) = true
text_less (c ∷ s) [] = false
text_less (c ∷ s) (d ∷ t) = ltb c d || (c == d && text_less s t)

-- strings.Contains
unfoldable pub has_infix : Text → Text → Bool
has_infix [] p = has_prefix [] p
has_infix (c ∷ s) p = has_prefix (c ∷ s) p || has_infix s p

unfoldable pub drop : ℕ → Text → Text
drop zero s = s
drop (suc n) [] = []
drop (suc n) (c ∷ s) = drop n s

-- strings.CutSuffix
unfoldable pub cut_suffix : Text → Text → Option Text
unfolding drop
cut_suffix s suffix =
    if has_prefix (reverse s) (reverse suffix)
    then some (reverse (drop (length suffix) (reverse s)))
    else none

-- strings.ReplaceAll for a text that is not empty; the first argument counts the characters of a
-- match that are still to be passed over.
replace_from : ℕ → (old new : Text) → Text → Text
replace_from skip old new [] = []
replace_from zero old new (c ∷ s) =
    let kept = c ∷ replace_from zero old new s in
    let replaced = new ++ replace_from (length old - 1) old new s in
    if has_prefix (c ∷ s) old then replaced else kept
replace_from (suc skip) old new (c ∷ s) = replace_from skip old new s

unfoldable pub replace_all : Text → (old new : Text) → Text
unfolding replace_from
replace_all s old new = replace_from zero old new s

-- strings.Split at one character.
split_from : ℕ → Text → Text → List Text
split_from sep part [] = part ∷ []
split_from sep part (c ∷ s) =
    let cut = part ∷ split_from sep [] s in
    let on = split_from sep (part ++ c ∷ []) s in if c == sep then cut else on

unfoldable pub split : Text → ℕ → List Text
unfolding split_from
split s sep = split_from sep [] s

-- strings.Join
unfoldable pub join : List Text → Text → Text
join [] sep = []
join (s ∷ []) sep = s
join (s ∷ t ∷ ts) sep = s ++ sep ++ join (t ∷ ts) sep

-- strings.EqualFold, with the comparison of two characters.
unfoldable pub equal_fold : (ℕ → ℕ → Bool) → Text → Text → Bool
equal_fold same [] [] = true
equal_fold same [] (d ∷ t) = false
equal_fold same (c ∷ s) [] = false
equal_fold same (c ∷ s) (d ∷ t) = same c d && equal_fold same s t

-- strings.ToLower
unfoldable pub to_lower : (ℕ → ℕ) → Text → Text
to_lower lower s = map lower s
