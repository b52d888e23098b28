-- ===== src/Zentao/History/Verify/Rounds.antt =====
-- internal/service/zentao/history.go: the rounds of verifyHits are one pass over the candidates.
use zentao_mcp.Base.{
  ℕ, zero, suc, ◌-◌, ◌≤◌, ◌<◌, ◌≡◌, refl, sym, ◌∙◌, ap, ◌&&◌, ◌⊎◌, Option, some, List, [], ◌∷◌,
  ◌++◌, arith, if_cases, ltb, length, take,
}
use zentao_mcp.Base.Int.{ℤ}
use zentao_mcp.Zentao.Runtime.{Runtime}
use zentao_mcp.Zentao.Client.{RequestFault, Payload}
use zentao_mcp.Zentao.History.Verify.{
  Verified, none_verified, drop_hits, verify_hit, verify_batch, verify_rounds, verify_hits,
}
use zentao_mcp.Bugindex.{Hit}

take-drop_hits : {A : Type 0} (n : ℕ) (xs : List A) → take n xs ++ drop_hits n xs ≡ xs
unfolding drop_hits
take-drop_hits zero xs = refl
take-drop_hits (suc n) [] = refl
take-drop_hits (suc n) (x ∷ xs) = ap (λ ys. x ∷ ys) (take-drop_hits n xs)

length-drop_hits : {A : Type 0} (n : ℕ) (xs : List A) → length (drop_hits n xs) ≡ length xs - n
unfolding drop_hits
length-drop_hits zero xs = omega arith
length-drop_hits (suc n) [] = omega arith
length-drop_hits (suc n) (x ∷ xs) = omega (arith, length-drop_hits n xs)

module _ (rt : Runtime) where
  open rt use {floats}

  module _ {S E : Type 0} (read : (id : ℤ) → RequestFault E ⊎ Payload floats.F) (limit : ℕ) where
    -- Nothing is verified once there are enough.
    verify_batch-full :
        (hits : List (Hit S)) (st : Verified S E)
        → limit ≤ length st.visible
        → verify_batch rt read limit hits st ≡ st
    unfolding verify_batch
    verify_batch-full [] st h = refl
    verify_batch-full (hit ∷ hits) st h = ground (arith, h)

    verify_batch-append :
        (xs ys : List (Hit S)) (st : Verified S E)
        → verify_batch rt read limit (xs ++ ys) st
          ≡ verify_batch rt read limit ys (verify_batch rt read limit xs st)
    unfolding verify_batch
    verify_batch-append [] ys st = refl
    verify_batch-append (hit ∷ xs) ys st = ground (
      arith,
      verify_batch-full ys st,
      verify_batch-append xs ys (verify_hit rt hit (read hit.id) st),
    )

    verify_batch-nil : (st : Verified S E) → some st ≡ some (verify_batch rt read limit [] st)
    unfolding verify_batch
    verify_batch-nil st = refl

    verify_rounds_lem :
        (fuel : ℕ) (hits : List (Hit S)) (st : Verified S E)
        → 0 < limit
        → length hits < fuel
        → verify_rounds rt read limit fuel hits st ≡ some (verify_batch rt read limit hits st)
    unfolding verify_rounds
    verify_rounds_lem zero hits st p h = ground (arith, h)
    verify_rounds_lem (suc fuel) [] st p h = verify_batch-nil st
    verify_rounds_lem (suc fuel) (hit ∷ hits) st p h =
        let all : List (Hit S) = hit ∷ hits in
        let left : List (Hit S) = drop_hits limit all in
        let next : Verified S E = verify_batch rt read limit (take limit all) st in
        let n : length left ≡ length all - limit = length-drop_hits limit all in
        if_cases {A = Option (Verified S E)} (λ o. o ≡ some (verify_batch rt read limit all st))
          (ltb 0 (length all) && ltb (length st.visible) limit)
          {x = verify_rounds rt read limit fuel left next} {y = some st}
          (λ more.
            verify_rounds_lem fuel left next p (omega (arith, n, h, p))
            ∙ ap some (
                sym (verify_batch-append (take limit all) left st)
                ∙ ap (λ (l : List (Hit S)). verify_batch rt read limit l st)
                    (take-drop_hits limit all)))
          (λ enough. ap some (sym (verify_batch-full all st (ground (arith, enough)))))

    -- With a positive limit verifyHits returns, after no more rounds than there are candidates, and
    -- its rounds, each of as many candidates as the limit, amount to one pass over the candidates
    -- that stops once enough of them are visible.
    pub verify_hits_lem :
        (hits : List (Hit S))
        → 0 < limit
        → verify_hits rt read limit hits ≡ some (verify_batch rt read limit hits none_verified)
    unfolding verify_hits
    verify_hits_lem hits p =
        verify_rounds_lem (suc (length hits)) hits none_verified p (omega arith)
