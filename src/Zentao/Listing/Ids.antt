-- ===== src/Zentao/Listing/Ids.antt =====
-- internal/service/zentao/client.go: the ids that `listAll` notes, as lists of numbers.
use zentao_mcp.Base.{
  ℕ, ◌≡◌, refl, Bool, true, false, not, ◌&&◌, ◌||◌, List, ◌<◌, [], ◌∷◌, ◌++◌, ltb, ◌==◌, arith,
  ==_iff,
}
use zentao_mcp.Zentao.Listing.{member, note_id}

-- No positive id stands twice.
unfoldable pub distinct : List ℕ → Bool
unfolding member
distinct [] = true
distinct (x ∷ xs) = not (ltb 0 x && member x xs) && distinct xs

-- Every positive number of the first list is in the second.
unfoldable pub covered : List ℕ → List ℕ → Bool
unfolding member
covered [] ys = true
covered (x ∷ xs) ys = (not (ltb 0 x) || member x ys) && covered xs ys

member-append : (n y : ℕ) (xs : List ℕ) → member n (xs ++ y ∷ []) ≡ (member n xs || n == y)
unfolding member
member-append n y [] = ground arith
member-append n y (x ∷ xs) = ground (arith, member-append n y xs)

pub member-covered :
    (n : ℕ) (xs ys : List ℕ)
    → covered xs ys ≡ true
    → 0 < n
    → member n ys ≡ false
    → member n xs ≡ false
unfolding member covered
member-covered n [] ys c p h = refl
member-covered n (x ∷ xs) ys c p h = ground (arith, member-covered n xs ys, ==_iff n x)

pub distinct-append :
    (y : ℕ) (xs : List ℕ)
    → distinct xs ≡ true
    → (ltb 0 y && member y xs) ≡ false
    → distinct (xs ++ y ∷ []) ≡ true
unfolding distinct member
distinct-append y [] d h = ground arith
distinct-append y (x ∷ xs) d h = ground (arith, distinct-append y xs, member-append x y xs)

pub covered-note :
    (xs ys : List ℕ) (id : ℕ) → covered xs ys ≡ true → covered xs (note_id id ys) ≡ true
unfolding covered member note_id
covered-note [] ys id h = refl
covered-note (x ∷ xs) ys id h = ground (arith, covered-note xs ys id)

pub covered-append :
    (xs ys : List ℕ) (id : ℕ)
    → covered xs ys ≡ true
    → covered (xs ++ id ∷ []) (note_id id ys) ≡ true
unfolding covered member note_id
covered-append [] ys id h = ground arith
covered-append (x ∷ xs) ys id h = ground (arith, covered-append xs ys id)
