-- ===== src/Zentao/Arguments/Ranking.antt =====
-- internal/service/zentao/values.go: what topN and argInts return.
use zentao_mcp.Base.{
  ℕ, zero, suc, ◌≤◌, ◌≡◌, refl, ap, true, false, ◌&&◌, ◌⊎◌, inl, inr, List, [], ◌∷◌, ◌++◌, map,
  arith, if_cases, Bool-cases, ltb, All, length, take,
}
use zentao_mcp.Base.Int.{ℤ, to_nat}
use zentao_mcp.Base.Text.{text_eq}
use zentao_mcp.Base.Assoc.{Assoc, drop_where}
use zentao_mcp.Zentao.Arguments.{NameCount, counts_of, ranks_before, insert_ranked, ranked, top_n}
use mathlib.Core.List.{Perm, append-nil}
use mathlib.Core.List.Perm
use mathlib.Core.Path.{subst}

abbrev Below : ℕ → NameCount → Type 0
Below n e = e.count ≤ n

-- The counts do not rise along the list.
abbrev pub Falling : List NameCount → Type 0
Falling [] = Unit
Falling (e ∷ es) = All (Below e.count) es × Falling es

insert_ranked-Below :
    (n : ℕ) (e : NameCount) (xs : List NameCount)
    → e.count ≤ n
    → All (Below n) xs
    → All (Below n) (insert_ranked e xs)
unfolding insert_ranked
insert_ranked-Below n e [] b all = (b, tt)
insert_ranked-Below n e (x ∷ xs) b all =
    if_cases {A = List NameCount} (All (Below n)) (ranks_before x e)
      (λ h. (all.0, insert_ranked-Below n e xs b all.1)) (λ h. (b, all))

Below-trans : (m n : ℕ) (xs : List NameCount) → m ≤ n → All (Below m) xs → All (Below n) xs
Below-trans m n [] h all = tt
Below-trans m n (x ∷ xs) h all = (omega (arith, h, all.0), Below-trans m n xs h all.1)

ranks_before-le : (a b : NameCount) → ranks_before a b ≡ true → b.count ≤ a.count
unfolding ranks_before
ranks_before-le a b h = ground arith

ranks_before-ge : (a b : NameCount) → ranks_before a b ≡ false → a.count ≤ b.count
unfolding ranks_before
ranks_before-ge a b h = ground arith

insert_ranked-Falling :
    (e : NameCount) (xs : List NameCount) → Falling xs → Falling (insert_ranked e xs)
unfolding insert_ranked
insert_ranked-Falling e [] f = (tt, tt)
insert_ranked-Falling e (x ∷ xs) f =
    if_cases {A = List NameCount} Falling (ranks_before x e)
      (λ h. (
        insert_ranked-Below x.count e xs (ranks_before-le x e h) f.0,
        insert_ranked-Falling e xs f.1,
      ))
      (λ h.
        let l : x.count ≤ e.count = ranks_before-ge x e h in
        ((l, Below-trans x.count e.count xs l f.0), f))

ranked-Falling : (es : List NameCount) → Falling (ranked es)
unfolding ranked
ranked-Falling [] = tt
ranked-Falling (e ∷ es) = insert_ranked-Falling e (ranked es) (ranked-Falling es)

insert_ranked-perm : (e : NameCount) (xs : List NameCount) → Perm (insert_ranked e xs) (e ∷ xs)
unfolding insert_ranked
insert_ranked-perm e [] = Perm.refl (e ∷ [])
insert_ranked-perm e (x ∷ xs) =
    if_cases {A = List NameCount} (λ l. Perm l (e ∷ x ∷ xs)) (ranks_before x e)
      (λ h. Perm.trans (Perm.cons x (insert_ranked-perm e xs)) (Perm.swap e x xs))
      (λ h. Perm.refl (e ∷ x ∷ xs))

ranked-perm : (es : List NameCount) → Perm (ranked es) es
unfolding ranked
ranked-perm [] = Perm.refl []
ranked-perm (e ∷ es) = Perm.trans (insert_ranked-perm e (ranked es)) (Perm.cons e (ranked-perm es))

-- The counters with a name.
abbrev pub named : Assoc ℕ → List NameCount
named counts =
    map (λ e. record { name = e.0; count = e.1 }) (drop_where (λ k n. text_eq k []) counts)

counts_of_lem : (counts : Assoc ℕ) → counts_of counts ≡ named counts
unfolding counts_of drop_where
counts_of_lem [] = refl
counts_of_lem ((k, n) ∷ counts) = elim (Bool-cases (text_eq k [])) [
  | inl blank ↦ rw blank (counts_of_lem counts)
  | inr given ↦ rw given (ap (λ es. record { name = k; count = n } ∷ es) (counts_of_lem counts))
]

-- What `take` leaves.
take-rest :
    {A : Type 0} (n : ℕ) (xs : List A)
    → n ≤ length xs
    → (rest : List A) × (xs ≡ take n xs ++ rest) × (length (take n xs) ≡ n)
take-rest zero xs h = (xs, refl, refl)
take-rest (suc n) [] h = absurd (omega (arith, h))
take-rest (suc n) (x ∷ xs) h =
    let (rest, e, l) = take-rest n xs (omega (arith, h)) in (rest, ap (λ ys. x ∷ ys) e, ap suc l)

-- The ranking is the beginning of all named counters in the order of their counts; it leaves some
-- out only to keep a limit.
abbrev pub Ranking : Assoc ℕ → ℕ → List NameCount → Type 0
Ranking counts limit out =
    (rest : List NameCount) × Perm (out ++ rest) (named counts)
    × Falling (out ++ rest)
    × ((rest ≡ []) ⊎ ((1 ≤ limit) × (length out ≡ limit)))

-- topN lists the counters that have a name, in the order of their counts, the highest first: all
-- of them, or, to keep a limit that is positive, exactly as many of the first as the limit allows.
pub top_n-Ranking : (counts : Assoc ℕ) (n : ℤ) → Ranking counts (to_nat n) (top_n counts n)
unfolding top_n
top_n-Ranking counts n =
    let all : List NameCount = ranked (counts_of counts) in
    let p : Perm all (named counts) =
      rw (← counts_of_lem counts) (ranked-perm (counts_of counts)) in
    let f : Falling all = ranked-Falling (counts_of counts) in
    if_cases {A = List NameCount} (Ranking counts (to_nat n))
      (ltb 0 (to_nat n) && ltb (to_nat n) (length all))
      (λ more.
        let (rest, e, l) = take-rest (to_nat n) all (ground (arith, more)) in
        (
          rest,
          subst (λ xs. Perm xs (named counts)) e p,
          subst Falling e f,
          inr (ground (arith, more), l),
        ))
      (λ fits. ([], rw append-nil p, rw append-nil f, inl refl))
