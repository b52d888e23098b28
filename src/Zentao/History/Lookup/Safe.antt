-- ===== src/Zentao/History/Lookup/Safe.antt =====
-- internal/service/zentao/history.go: what FindSimilarBugs shows a caller.
use zentao_mcp.Base.{
  ℕ, ◌+◌, ◌≤◌, ◌<◌, ◌≡◌, refl, not, ◌⊎◌, inl, inr, Option, none, some, List, [], ◌∷◌, ◌++◌, arith,
  if◌then◌else◌, if_cases, ◌==◌, length, All,
}
use zentao_mcp.Base.Int.{ℤ}
use zentao_mcp.Base.Results.{Returns, and_then-Returns}
use zentao_mcp.Base.Text.{text_eq, trim_space}
use zentao_mcp.Zentao.Runtime.{Runtime}
use zentao_mcp.Zentao.Client.{RequestFault, Payload}
use zentao_mcp.Zentao.History.{HistoryRequest}
use zentao_mcp.Zentao.History.Corpus.{IndexState}
use zentao_mcp.Zentao.History.Verify.{Verified, verify_hits}
use zentao_mcp.Zentao.History.Verify.Sound.{IsRead, IsSafe, verify_hits-IsSafe}
use zentao_mcp.Zentao.History.Lookup.{
  IndexClock, HistoryResult, LookupError, no_symptom, not_ready, limit_of, similar_query,
  empty_result, verified_result, answered, look_up, find_similar_bugs, no_hit_note,
}
use zentao_mcp.Bugindex.{Arithmetic, Hit}
use zentao_mcp.Bugindex.Build.{is_ready}
use zentao_mcp.Bugindex.Search.{search}

limit_of-positive : (req : HistoryRequest) → 0 < limit_of req
unfolding limit_of
limit_of-positive req = ground arith

module _ (ar : Arithmetic) (clock : IndexClock ar.F) (now : ℕ) {E : Type 0} (rt : Runtime)
    (read : (id : ℤ) → RequestFault E ⊎ Payload rt.floats.F) where
  open ar use {F}

  -- The bugs of a result are made of what the caller read, for candidates of the list.
  pub record IsShown (limit : ℕ) (hits : List (Hit F)) (res : HistoryResult F) : Type 0 where
    pub shown : All (IsRead rt read hits) res.bugs
    pub returned : res.returned ≡ length res.bugs
    pub few : res.returned ≤ limit
    pub counted : res.returned + (res.hidden + res.unavailable) ≤ length hits

  abbrev pub Shows : (limit : ℕ) → List (Hit F) → LookupError E ⊎ HistoryResult F → Type 0
  Shows limit hits (inl e) = Unit
  Shows limit hits (inr res) = IsShown limit hits res

  answered-Shows :
      (limit : ℕ) (hits : List (Hit F)) (out : HistoryResult F) (v : Verified F E)
      (o : Option (RequestFault E))
      → IsSafe rt read hits limit (length hits) v
      → Shows limit hits (answered ar clock now out v o)
  unfolding answered verified_result
  answered-Shows limit hits out v none s = record {
    shown = s.shown;
    returned = refl;
    few = s.few;
    counted = s.counted;
  }
  answered-Shows limit hits out v (some e) s =
      if_cases {A = LookupError E ⊎ HistoryResult F} (Shows limit hits) (length v.visible == 0)
        {y = inr (verified_result ar clock now out v)} (λ nothing. tt)
        (λ something. record { shown = s.shown; returned = refl; few = s.few; counted = s.counted })

  -- The candidates of a request.
  abbrev pub candidates : HistoryRequest → IndexState F E → List (Hit F)
  candidates req st = (search ar st.index (similar_query req)).0

  look_up-Shows :
      (req : HistoryRequest) (st : IndexState F E)
      → Returns (Shows (limit_of req) (candidates req st)) (look_up ar clock now rt read req st)
  unfolding look_up empty_result
  look_up-Shows req st =
      let hits : List (Hit F) = candidates req st in
      let out : HistoryResult F =
        empty_result ar clock now req st (search ar st.index (similar_query req)).1 in
      if_cases {A = Option (LookupError E ⊎ HistoryResult F)} (Returns (Shows (limit_of req) hits))
        (length hits == 0) {x = some (inr (record out { notes = out.notes ++ no_hit_note ∷ [] }))}
        (λ nothing. record {
          shown = tt;
          returned = refl;
          few = omega arith;
          counted = omega arith;
        })
        (λ something.
          and_then-Returns (IsSafe rt read hits (limit_of req) (length hits))
            (Shows (limit_of req) hits) (verify_hits rt read (limit_of req) hits) _
            (verify_hits-IsSafe rt read hits (limit_of req) (limit_of-positive req))
            (λ v s. answered-Shows (limit_of req) hits out v v.auth_error s))

  -- FindSimilarBugs returns, whatever the index holds and the reads of the caller answer. Each bug
  -- of a result is made of a candidate of the index and of a record that the caller read for it and
  -- that carries its id; there are no more bugs than the limit of the request, or 8 where it has
  -- none, and what is shown, hidden and unavailable is together no more than the candidates.
  pub find_similar_bugs-Shows :
      (st : IndexState F E) (req : HistoryRequest)
      → Returns
          (Shows (limit_of req) (candidates req st))
          (find_similar_bugs ar clock now rt read (some st) req)
  unfolding find_similar_bugs
  find_similar_bugs-Shows st req =
      if_cases {A = Option (LookupError E ⊎ HistoryResult F)}
        (Returns (Shows (limit_of req) (candidates req st))) (text_eq (trim_space req.symptom) [])
        {x = some (inl no_symptom)}
        {y = if not (is_ready st.index)
          then some (inl (not_ready st.build_state))
          else look_up ar clock now rt read req st}
        (λ blank. tt)
        (λ asked.
          if_cases {A = Option (LookupError E ⊎ HistoryResult F)}
            (Returns (Shows (limit_of req) (candidates req st))) (not (is_ready st.index))
            {x = some (inl (not_ready st.build_state))} {y = look_up ar clock now rt read req st}
            (λ waiting. tt) (λ ready. look_up-Shows req st))
