-- ===== src/Zentao/History/Verify.antt =====
-- internal/service/zentao/history.go: verifyHits, which reads each candidate again as the caller.
pub mod Rounds
pub mod Sound
use zentao_mcp.Base.{
  ℕ, zero, suc, Bool, true, false, not, ◌||◌, ◌&&◌, ◌⊎◌, inl, inr, Option, none, some, List, [],
  ◌∷◌, ◌++◌, if◌then◌else◌, ltb, leb, ◌==◌, length, take, is_some,
}
use zentao_mcp.Base.Int.{ℤ, int_eq}
use zentao_mcp.Base.Results.{and_then}
use zentao_mcp.Base.Text.{Text, codes, text_eq}
use zentao_mcp.Base.Strings.{equal_fold}
use zentao_mcp.Json.{Fields}
use zentao_mcp.Zentao.Values.{truncate, field, field_int, field_string}
use zentao_mcp.Zentao.Dates.{date_only}
use zentao_mcp.Zentao.PlainText.{plain_text}
use zentao_mcp.Zentao.Runtime.{Runtime}
use zentao_mcp.Zentao.Client.{RequestFault, Payload, is_auth_failure, is_denied}
use zentao_mcp.Zentao.Insights.{TimelineEntry, action_insights}
use zentao_mcp.Zentao.History.{SimilarBug, steps_clip, fix_note_clip}
use zentao_mcp.Bugindex.{Hit}

-- The local variables of verifyHits.
pub record Verified (S E : Type 0) : Type 0 where
  pub visible : List (SimilarBug S)
  pub hidden : ℕ
  pub unavailable : ℕ
  pub auth_error : Option (RequestFault E)

abbrev pub none_verified : {S E : Type 0} → Verified S E
none_verified = record { visible = []; hidden = 0; unavailable = 0; auth_error = none }

unfoldable pub drop_hits {ℓ} : {A : Type ℓ} → ℕ → List A → List A
drop_hits zero xs = xs
drop_hits (suc n) [] = []
drop_hits (suc n) (x ∷ xs) = drop_hits n xs

module _ (rt : Runtime) where
  open rt use {floats, calendar, same_letter}

  -- The comment of the first entry that resolves the bug and has one.
  unfoldable pub fix_note_of : List TimelineEntry → Text
  unfolding equal_fold
  fix_note_of [] = []
  fix_note_of (e ∷ es) =
      let rest = fix_note_of es in
      if equal_fold same_letter e.action (codes "resolved") && not (text_eq e.comment [])
      then truncate e.comment fix_note_clip
      else rest

  unfoldable pub similar_from : {S : Type 0} → Hit S → Fields floats.F → SimilarBug S
  unfolding fix_note_of
  similar_from hit rec =
      let found = action_insights rt rec in
      record {
        id = hit.id;
        score = hit.score;
        product = field_int floats (codes "product" ∷ codes "productID" ∷ []) rec;
        product_name = field_string floats (codes "productName" ∷ codes "productTitle" ∷ []) rec;
        title = field_string floats (codes "title" ∷ []) rec;
        kind = field_string floats (codes "type" ∷ []) rec;
        status = field_string floats (codes "status" ∷ []) rec;
        resolution = field_string floats (codes "resolution" ∷ []) rec;
        severity = field_int floats (codes "severity" ∷ []) rec;
        opened_date = date_only floats calendar (field floats (codes "openedDate" ∷ []) rec);
        resolved_date = date_only floats calendar (field floats (codes "resolvedDate" ∷ []) rec);
        resolved_by = field_string floats (codes "resolvedBy" ∷ []) rec;
        matched_keys = hit.matched_keys;
        steps = truncate (plain_text rt (field floats (codes "steps" ∷ []) rec)) steps_clip;
        fix_note = fix_note_of found.timeline;
        comments = found.metrics.comments;
        reopens = found.metrics.reopens;
      }

  module _ {S E : Type 0} where
    unfoldable pub add_hidden : Verified S E → Verified S E
    add_hidden st = record st { hidden = suc st.hidden }

    unfoldable pub add_unavailable : Verified S E → Verified S E
    add_unavailable st = record st { unavailable = suc st.unavailable }

    unfoldable pub note_auth_error :
        RequestFault E → Option (RequestFault E) → Verified S E → Verified S E
    note_auth_error e none st = record st { auth_error = some e }
    note_auth_error e (some first) st = st

    unfoldable pub refused : RequestFault E → Verified S E → Verified S E
    unfolding add_hidden add_unavailable note_auth_error
    refused e st =
        if is_auth_failure e
        then note_auth_error e st.auth_error st
        else if is_denied e
        then add_hidden st
        else add_unavailable st

    -- A record that was read: it counts only if it echoes the id that was asked for.
    unfoldable pub echoed : Hit S → Fields floats.F → Verified S E → Verified S E
    unfolding add_hidden
    echoed hit rec st =
        if not (int_eq (field_int floats (codes "id" ∷ []) rec) hit.id)
        then add_hidden st
        else record st { visible = st.visible ++ similar_from hit rec ∷ [] }

    -- The body of the loop over a batch, with the answer to the candidate.
    unfoldable pub verify_hit :
        Hit S → RequestFault E ⊎ Payload floats.F → Verified S E → Verified S E
    unfolding refused echoed add_unavailable
    verify_hit hit (inl e) st = refused e st
    verify_hit hit (inr none) st = add_unavailable st
    verify_hit hit (inr (some rec)) st = echoed hit rec st

    -- `read` answers the detail of a bug to the caller.
    module _ (read : (id : ℤ) → RequestFault E ⊎ Payload floats.F) (limit : ℕ) where
      -- The loop over a batch.
      unfoldable pub verify_batch : List (Hit S) → Verified S E → Verified S E
      unfolding verify_hit
      verify_batch [] st = st
      verify_batch (hit ∷ hits) st =
          let rest = verify_batch hits (verify_hit hit (read hit.id) st) in
          if leb limit (length st.visible) then st else rest

      -- The loop over the batches, with the candidates from `start` on; `none` is a loop that goes
      -- on.
      unfoldable pub verify_rounds : ℕ → List (Hit S) → Verified S E → Option (Verified S E)
      unfolding verify_batch
      verify_rounds zero hits st = none
      verify_rounds (suc fuel) hits st =
          let rest =
            verify_rounds fuel (drop_hits limit hits) (verify_batch (take limit hits) st) in
          if ltb 0 (length hits) && ltb (length st.visible) limit then rest else some st

      unfoldable pub verify_hits : List (Hit S) → Option (Verified S E)
      unfolding verify_rounds
      verify_hits hits = verify_rounds (suc (length hits)) hits none_verified
