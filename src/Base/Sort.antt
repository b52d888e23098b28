-- ===== src/Base/Sort.antt =====
-- Package sort: `sort_by before` is the one stable order of a list under a comparison that is a
-- strict weak order, which sort.SliceStable gives, and sort.Slice where no two elements tie.
use zentao_mcp.Base.Tests.{if◌then◌else◌, if_cases}
use zentao_mcp.Base.Lists.{length, All}
use Prim.Native.Nat.{suc}
use mathlib.Core.Path.{◌≡◌, refl}
use mathlib.Core.Bool.{Bool, true, false}
use mathlib.Core.List.{List, [], ◌∷◌, Perm}
use mathlib.Core.List.Perm
use native.Mathlib.Omega.{arith}

module _ {A : Type 0} (before : A → A → Bool) where
  unfoldable pub insert_by : A → List A → List A
  insert_by a [] = a ∷ []
  insert_by a (x ∷ xs) = let rest = insert_by a xs in if before x a then x ∷ rest else a ∷ x ∷ xs

  unfoldable pub sort_by : List A → List A
  unfolding insert_by
  sort_by [] = []
  sort_by (x ∷ xs) = insert_by x (sort_by xs)

  insert_by-perm : (a : A) (xs : List A) → Perm (insert_by a xs) (a ∷ xs)
  unfolding insert_by
  insert_by-perm a [] = Perm.refl (a ∷ [])
  insert_by-perm a (x ∷ xs) =
      if_cases {A = List A} (λ l. Perm l (a ∷ x ∷ xs)) (before x a)
        (λ h. Perm.trans (Perm.cons x (insert_by-perm a xs)) (Perm.swap a x xs))
        (λ h. Perm.refl (a ∷ x ∷ xs))

  -- Sorting loses and adds nothing.
  pub sort_by-perm : (xs : List A) → Perm (sort_by xs) xs
  unfolding sort_by
  sort_by-perm [] = Perm.refl []
  sort_by-perm (x ∷ xs) = Perm.trans (insert_by-perm x (sort_by xs)) (Perm.cons x (sort_by-perm xs))

  pub insert_by-All {κ} :
      (P : A → Type κ) (a : A) (xs : List A) → P a → All P xs → All P (insert_by a xs)
  unfolding insert_by
  insert_by-All P a [] p all = (p, tt)
  insert_by-All P a (x ∷ xs) p all =
      if_cases {A = List A} (All P) (before x a) (λ h. (all.0, insert_by-All P a xs p all.1))
        (λ h. (p, all))

  pub sort_by-All {κ} : (P : A → Type κ) (xs : List A) → All P xs → All P (sort_by xs)
  unfolding sort_by
  sort_by-All P [] all = tt
  sort_by-All P (x ∷ xs) all = insert_by-All P x (sort_by xs) all.0 (sort_by-All P xs all.1)

  length-insert_by : (a : A) (xs : List A) → length (insert_by a xs) ≡ suc (length xs)
  unfolding insert_by
  length-insert_by a [] = refl
  length-insert_by a (x ∷ xs) = ground (arith, length-insert_by a xs)

  pub length-sort_by : (xs : List A) → length (sort_by xs) ≡ length xs
  unfolding sort_by
  length-sort_by [] = refl
  length-sort_by (x ∷ xs) = omega (arith, length-insert_by x (sort_by xs), length-sort_by xs)

  -- No element comes after one that it should come before.
  abbrev pub Sorted : List A → Type 0
  Sorted [] = Unit
  Sorted (x ∷ xs) = All (λ y. before y x ≡ false) xs × Sorted xs

  -- `before` is a strict weak order on the elements that are `Good`.
  module _ (Good : A → Type 0)
      (asym : (a b : A) → Good a → Good b → before a b ≡ true → before b a ≡ false)
      (trans : (a b c : A)
        → Good a
        → Good b
        → Good c
        → before b a ≡ false
        → before c b ≡ false
        → before c a ≡ false) where
    lower_bound :
        (a b : A) (xs : List A)
        → Good a
        → Good b
        → All Good xs
        → before b a ≡ false
        → All (λ y. before y b ≡ false) xs
        → All (λ y. before y a ≡ false) xs
    lower_bound a b [] ga gb g h all = tt
    lower_bound a b (x ∷ xs) ga gb g h all =
        (trans a b x ga gb g.0 h all.0, lower_bound a b xs ga gb g.1 h all.1)

    insert_by-Sorted :
        (a : A) (xs : List A) → Good a → All Good xs → Sorted xs → Sorted (insert_by a xs)
    unfolding insert_by
    insert_by-Sorted a [] ga g s = (tt, tt)
    insert_by-Sorted a (x ∷ xs) ga g s =
        if_cases {A = List A} Sorted (before x a)
          (λ h. (
            insert_by-All (λ y. before y x ≡ false) a xs (asym x a g.0 ga h) s.0,
            insert_by-Sorted a xs ga g.1 s.1,
          ))
          (λ h. ((h, lower_bound a x xs ga g.0 g.1 h s.0), s))

    pub sort_by-Sorted : (xs : List A) → All Good xs → Sorted (sort_by xs)
    unfolding sort_by
    sort_by-Sorted [] g = tt
    sort_by-Sorted (x ∷ xs) g =
        insert_by-Sorted x (sort_by xs) g.0 (sort_by-All Good xs g.1) (sort_by-Sorted xs g.1)

-- Two comparisons that agree on the elements of a list sort it alike.
module _ {A : Type 0} (f g : A → A → Bool) (Good : A → Type 0)
    (agree : (a b : A) → Good a → Good b → f a b ≡ g a b) where
  All-agree :
      (a : A) (xs : List A)
      → Good a
      → All Good xs
      → All (λ y. f y a ≡ false) xs
      → All (λ y. g y a ≡ false) xs
  All-agree a [] ga h all = tt
  All-agree a (x ∷ xs) ga h all = (rw (← agree x a h.0 ga) all.0, All-agree a xs ga h.1 all.1)

  pub Sorted-agree : (xs : List A) → All Good xs → Sorted f xs → Sorted g xs
  Sorted-agree [] h s = tt
  Sorted-agree (x ∷ xs) h s = (All-agree x xs h.0 h.1 s.0, Sorted-agree xs h.1 s.1)
