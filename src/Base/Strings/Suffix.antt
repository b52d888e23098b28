-- ===== src/Base/Strings/Suffix.antt =====
-- strings.CutSuffix
use zentao_mcp.Base.Text.{Text, has_prefix}
use zentao_mcp.Base.Strings.{drop, cut_suffix}
use zentao_mcp.Base.{
  ◌≡◌, refl, sym, ap, ◌∙◌, true, none, some, [], ◌∷◌, ◌++◌, length, length-append, arith,
  Bool-cases, inl, inr,
}
use mathlib.Core.List.{reverse, reverse-cons, reverse-append, reverse-reverse}

has_prefix-append : (p s : Text) → has_prefix (p ++ s) p ≡ true
unfolding has_prefix
has_prefix-append [] s = refl
has_prefix-append (c ∷ p) s = ground (arith, has_prefix-append p s)

prefix-drop : (s p : Text) → has_prefix s p ≡ true → s ≡ p ++ drop (length p) s
unfolding has_prefix drop
prefix-drop s [] h = refl
prefix-drop [] (d ∷ p) h = absurd (ground arith)
prefix-drop (c ∷ s) (d ∷ p) h = ground (arith, prefix-drop s p)

-- A text that ends in a suffix is cut.
pub cut_suffix-none : (s t suffix : Text) → cut_suffix s suffix ≡ none → s ≡ t ++ suffix → ⊥
unfolding cut_suffix
cut_suffix-none s t suffix h e =
    let q : has_prefix (reverse s) (reverse suffix) ≡ true =
      rw e (rw reverse-append (has_prefix-append (reverse suffix) (reverse t))) in
    ground (arith, h, q)

length-reverse : (s : Text) → length (reverse s) ≡ length s
length-reverse [] = refl
length-reverse (c ∷ s) =
    ap length (reverse-cons c s)
    ∙ omega (arith, length-append (reverse s) (c ∷ []), length-reverse s)

-- What is cut off is the suffix.
pub cut_suffix-some : (s t suffix : Text) → cut_suffix s suffix ≡ some t → s ≡ t ++ suffix
unfolding cut_suffix
cut_suffix-some s t suffix h =
    let front : Text = drop (length suffix) (reverse s) in
    elim (Bool-cases (has_prefix (reverse s) (reverse suffix))) [
      | inr no_suffix ↦ absurd (ground (arith, h, no_suffix))
      | inl there ↦
          let t_is : reverse front ≡ t = ground (arith, h, there) in
          let parts : reverse s ≡ reverse suffix ++ front =
            rw (← length-reverse suffix) (prefix-drop (reverse s) (reverse suffix) there) in
          sym (reverse-reverse s)
          ∙ ap reverse parts
          ∙ reverse-append (reverse suffix) front
          ∙ rw reverse-reverse (ap (λ x. x ++ suffix) t_is)
    ]
