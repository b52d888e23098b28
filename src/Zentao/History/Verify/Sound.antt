-- ===== src/Zentao/History/Verify/Sound.antt =====
-- internal/service/zentao/history.go: what verifyHits shows a caller.
use zentao_mcp.Base.{
  ℕ, suc, ◌+◌, ◌≤◌, ◌<◌, ◌≡◌, refl, ap, Bool, true, not, ◌⊎◌, inl, inr, Option, none, some, List,
  [], ◌∷◌, ◌++◌, arith, if◌then◌else◌, if_cases, leb, length, length-append, All,
}
use zentao_mcp.Base.Int.{ℤ, int_eq}
use zentao_mcp.Base.Pairs.{All-append, All-Mem}
use zentao_mcp.Base.Results.{Returns}
use zentao_mcp.Base.Text.{codes}
use zentao_mcp.Json.{Fields}
use zentao_mcp.Zentao.Values.{field_int}
use zentao_mcp.Zentao.Runtime.{Runtime}
use zentao_mcp.Zentao.Client.{RequestFault, Payload, is_auth_failure, is_denied}
use zentao_mcp.Zentao.History.{SimilarBug}
use zentao_mcp.Zentao.History.Verify.{
  Verified, none_verified, similar_from, add_hidden, add_unavailable, note_auth_error, refused,
  echoed, verify_hit, verify_batch, verify_hits,
}
use zentao_mcp.Zentao.History.Verify.Rounds.{verify_hits_lem}
use zentao_mcp.Bugindex.{Hit}
use mathlib.Core.List.{Mem}

module _ (rt : Runtime) where
  open rt use {floats}

  module _ {S E : Type 0} (read : (id : ℤ) → RequestFault E ⊎ Payload floats.F)
      (hits : List (Hit S)) where
    -- The bug is made of a candidate and of what the caller read of it, a record that carries the
    -- id of the candidate.
    abbrev pub IsRead : SimilarBug S → Type 0
    IsRead b =
        (hit : Hit S) × (rec : Fields floats.F) × Mem hit hits
        × (read hit.id ≡ inr (some rec))
        × (int_eq (field_int floats (codes "id" ∷ []) rec) hit.id ≡ true)
        × (b ≡ similar_from rt hit rec)

    -- At most `limit` bugs are shown, each of them read, and every one of the `n` candidates that
    -- were examined is counted at most once.
    pub record IsSafe (limit n : ℕ) (st : Verified S E) : Type 0 where
      pub shown : All IsRead st.visible
      pub few : length st.visible ≤ limit
      pub counted : length st.visible + (st.hidden + st.unavailable) ≤ n

    module _ (limit : ℕ) where
      raise-IsSafe : (m n : ℕ) (st : Verified S E) → m ≤ n → IsSafe limit m st → IsSafe limit n st
      raise-IsSafe m n st h s = record {
        shown = s.shown;
        few = s.few;
        counted = omega (arith, h, s.counted);
      }

      more-IsSafe :
          (n : ℕ) (st next : Verified S E)
          → next.visible ≡ st.visible
          → next.hidden + next.unavailable ≤ suc (st.hidden + st.unavailable)
          → IsSafe limit n st
          → IsSafe limit (suc n) next
      more-IsSafe n st next e le s = record {
        shown = rw e s.shown;
        few = rw e s.few;
        counted =
            let v : length next.visible ≡ length st.visible = ap length e in
            omega (arith, v, le, s.counted);
      }

      hidden-IsSafe :
          (n : ℕ) (st : Verified S E) → IsSafe limit n st → IsSafe limit (suc n) (add_hidden rt st)
      unfolding add_hidden
      hidden-IsSafe n st s = more-IsSafe n st _ refl (omega arith) s

      unavailable-IsSafe :
          (n : ℕ) (st : Verified S E)
          → IsSafe limit n st
          → IsSafe limit (suc n) (add_unavailable rt st)
      unfolding add_unavailable
      unavailable-IsSafe n st s = more-IsSafe n st _ refl (omega arith) s

      note-IsSafe :
          (n : ℕ) (e : RequestFault E) (o : Option (RequestFault E)) (st : Verified S E)
          → IsSafe limit n st
          → IsSafe limit (suc n) (note_auth_error rt e o st)
      unfolding note_auth_error
      note-IsSafe n e none st s = more-IsSafe n st _ refl (omega arith) s
      note-IsSafe n e (some first) st s = more-IsSafe n st st refl (omega arith) s

      refused-IsSafe :
          (n : ℕ) (e : RequestFault E) (st : Verified S E)
          → IsSafe limit n st
          → IsSafe limit (suc n) (refused rt e st)
      unfolding refused
      refused-IsSafe n e st s =
          if_cases {A = Verified S E} (IsSafe limit (suc n)) (is_auth_failure e)
            {x = note_auth_error rt e st.auth_error st}
            {y = if is_denied e then add_hidden rt st else add_unavailable rt st}
            (λ login. note-IsSafe n e st.auth_error st s)
            (λ other.
              if_cases {A = Verified S E} (IsSafe limit (suc n)) (is_denied e)
                (λ denied. hidden-IsSafe n st s) (λ down. unavailable-IsSafe n st s))

      echoed-IsSafe :
          (n : ℕ) (hit : Hit S) (rec : Fields floats.F) (st : Verified S E)
          → Mem hit hits
          → read hit.id ≡ inr (some rec)
          → length st.visible < limit
          → IsSafe limit n st
          → IsSafe limit (suc n) (echoed rt hit rec st)
      unfolding echoed
      echoed-IsSafe n hit rec st m r room s =
          let same : Bool = int_eq (field_int floats (codes "id" ∷ []) rec) hit.id in
          let l : length (st.visible ++ similar_from rt hit rec ∷ []) ≡ length st.visible + 1 =
            length-append st.visible (similar_from rt hit rec ∷ []) in
          if_cases {A = Verified S E} (IsSafe limit (suc n)) (not same) {x = add_hidden rt st}
            (λ other. hidden-IsSafe n st s)
            (λ echo. record {
              shown =
                  All-append IsRead st.visible (similar_from rt hit rec ∷ []) s.shown
                    ((hit, rec, m, r, ground (arith, echo), refl), tt);
              few = omega (arith, l, room);
              counted = omega (arith, l, s.counted);
            })

      verify_hit-IsSafe :
          (n : ℕ) (hit : Hit S) (answer : RequestFault E ⊎ Payload floats.F) (st : Verified S E)
          → Mem hit hits
          → read hit.id ≡ answer
          → length st.visible < limit
          → IsSafe limit n st
          → IsSafe limit (suc n) (verify_hit rt hit answer st)
      unfolding verify_hit
      verify_hit-IsSafe n hit (inl e) st m r room s = refused-IsSafe n e st s
      verify_hit-IsSafe n hit (inr none) st m r room s = unavailable-IsSafe n st s
      verify_hit-IsSafe n hit (inr (some rec)) st m r room s = echoed-IsSafe n hit rec st m r room s

      verify_batch-IsSafe :
          (n : ℕ) (todo : List (Hit S)) (st : Verified S E)
          → All (λ hit. Mem hit hits) todo
          → IsSafe limit n st
          → IsSafe limit (length todo + n) (verify_batch rt read limit todo st)
      unfolding verify_batch
      verify_batch-IsSafe n [] st all s = raise-IsSafe n _ st (omega arith) s
      verify_batch-IsSafe n (hit ∷ todo) st all s =
          if_cases {A = Verified S E} (IsSafe limit (suc (length todo) + n))
            (leb limit (length st.visible)) {x = st} (λ full. raise-IsSafe n _ st (omega arith) s)
            (λ room. raise-IsSafe (length todo + suc n) _ _ (omega arith) (
              verify_batch-IsSafe (suc n) todo (verify_hit rt hit (read hit.id) st) all.1
                (verify_hit-IsSafe n hit (read hit.id) st all.0 refl (ground (arith, room)) s)))

      -- With a positive limit verifyHits returns, and whatever the reads of the caller answer: each
      -- bug that it shows is made of a candidate and of a record that the caller read for it and
      -- that carries its id; it shows no more bugs than the limit, and what it shows, hides and
      -- finds unavailable is together no more than the candidates.
      pub verify_hits-IsSafe :
          0 < limit → Returns (IsSafe limit (length hits)) (verify_hits rt read limit hits)
      verify_hits-IsSafe p = rw (verify_hits_lem rt read limit hits p) (
          raise-IsSafe (length hits + 0) _ _ (omega arith) (
            verify_batch-IsSafe 0 hits none_verified (All-Mem hits)
              (record { shown = tt; few = omega arith; counted = omega arith })))
