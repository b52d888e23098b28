-- ===== src/Base/Pairs.antt =====
-- A symmetric relation between any two elements of a list.
use zentao_mcp.Base.Tests.{if_cases}
use zentao_mcp.Base.Lists.{All, All-map, take}
use zentao_mcp.Base.Sort.{insert_by, sort_by, insert_by-All, sort_by-All}
use Prim.Native.Nat.{ℕ, zero, suc}
use mathlib.Core.Bool.{Bool}
use mathlib.Core.List.{List, [], ◌∷◌, ◌++◌, Mem, mem-cons_self, mem-cons_of_mem}

module _ {A : Type 0} where
  pub All-append : (P : A → Type 0) (xs ys : List A) → All P xs → All P ys → All P (xs ++ ys)
  All-append P [] ys h k = k
  All-append P (x ∷ xs) ys h k = (h.0, All-append P xs ys h.1 k)

  pub All-take : (P : A → Type 0) (n : ℕ) (xs : List A) → All P xs → All P (take n xs)
  All-take P zero xs h = tt
  All-take P (suc n) [] h = tt
  All-take P (suc n) (x ∷ xs) h = (h.0, All-take P n xs h.1)

  module _ (R : A → A → Type 0) where
    abbrev pub Pairs : List A → Type 0
    Pairs [] = Unit
    Pairs (x ∷ xs) = All (R x) xs × Pairs xs

    pub Pairs-append_one :
        (xs : List A) (y : A) → Pairs xs → All (λ x. R x y) xs → Pairs (xs ++ y ∷ [])
    Pairs-append_one [] y p h = (tt, tt)
    Pairs-append_one (x ∷ xs) y p h =
        (All-append (R x) xs (y ∷ []) p.0 (h.0, tt), Pairs-append_one xs y p.1 h.1)

    pub Pairs-take : (n : ℕ) (xs : List A) → Pairs xs → Pairs (take n xs)
    Pairs-take zero xs p = tt
    Pairs-take (suc n) [] p = tt
    Pairs-take (suc n) (x ∷ xs) p = (All-take (R x) n xs p.0, Pairs-take n xs p.1)

    module _ (symmetric : (a b : A) → R a b → R b a) (before : A → A → Bool) where
      insert_by-Pairs :
          (a : A) (xs : List A) → All (R a) xs → Pairs xs → Pairs (insert_by before a xs)
      unfolding insert_by
      insert_by-Pairs a [] h p = (tt, tt)
      insert_by-Pairs a (x ∷ xs) h p =
          if_cases {A = List A} Pairs (before x a)
            (λ e. (
              insert_by-All before (R x) a xs (symmetric a x h.0) p.0,
              insert_by-Pairs a xs h.1 p.1,
            ))
            (λ e. (h, p))

      pub sort_by-Pairs : (xs : List A) → Pairs xs → Pairs (sort_by before xs)
      unfolding sort_by
      sort_by-Pairs [] p = tt
      sort_by-Pairs (x ∷ xs) p =
          insert_by-Pairs x (sort_by before xs) (sort_by-All before (R x) xs p.0)
            (sort_by-Pairs xs p.1)

pub All-Mem : {A : Type 0} (xs : List A) → All (λ x. Mem x xs) xs
All-Mem [] = tt
All-Mem (x ∷ xs) = (
  mem-cons_self,
  All-map (λ y. Mem y xs) (λ y. Mem y (x ∷ xs)) xs (λ y m. mem-cons_of_mem x m) (All-Mem xs),
)
