-- ===== src/Zentao/History/Lookup.antt =====
-- internal/service/zentao/history.go: FindSimilarBugs and indexStatus.
pub mod Safe
use zentao_mcp.Base.{
  ℕ, ◌*◌, Bool, true, false, not, ◌||◌, ◌&&◌, ◌⊎◌, inl, inr, Option, none, some, List, [], ◌∷◌,
  ◌++◌, if◌then◌else◌, ltb, ◌==◌, length, is_some,
}
use zentao_mcp.Base.Int.{ℤ, pos}
use zentao_mcp.Base.Results.{and_then}
use zentao_mcp.Base.Text.{Text, codes, text_eq, trim_space}
use zentao_mcp.Json.Numbers.{format_int}
use zentao_mcp.Zentao.Values.{clamp}
use zentao_mcp.Zentao.Runtime.{Runtime}
use zentao_mcp.Zentao.Client.{RequestFault, Payload}
use zentao_mcp.Zentao.History.{
  HistoryRequest, SimilarBug, default_similar_limit, over_fetch, max_verify_candidate,
}
use zentao_mcp.Zentao.History.Corpus.{
  CorpusCoverage, BuildError, BuildState, IndexState, no_coverage, coverage_of,
}
use zentao_mcp.Zentao.History.Verify.{Verified, verify_hits}
use zentao_mcp.Bugindex.{Arithmetic, SearchQuery, Hit, Stats}
use zentao_mcp.Bugindex.Build.{Snapshot, is_ready}
use zentao_mcp.Bugindex.Search.{search}

-- What indexStatus uses of packages time and fmt.
pub record IndexClock (F : Type 0) : Type 0 where
  -- time.Since(built).Hours() at the time `now`
  pub hours_since : (now built : ℕ) → F
  -- built.In(currentLocation()).Format("2006-01-02 15:04:05")
  pub show_time : ℕ → Text
  -- age > 24
  pub is_stale : F → Bool
  -- fmt.Sprintf("%.0f", age)
  pub show_hours : F → Text

pub record IndexStatus (F : Type 0) : Type 0 where
  pub documents : ℕ
  pub built_at : Text
  pub age_hours : F
  pub is_partial : Bool
  pub product_list_truncated : Bool
  pub truncated_products : ℕ
  pub failed_products : ℕ
  pub last_refresh_failed : Bool

pub record HistoryResult (F : Type 0) : Type 0 where
  pub symptom : Text
  pub index : IndexStatus F
  pub terms : ℕ
  pub returned : ℕ
  pub hidden : ℕ
  pub unavailable : ℕ
  pub bugs : List (SimilarBug F)
  pub notes : List Text

pub data LookupError (E : Type 0) : Type 0 where
  not_enabled : LookupError E
  no_symptom : LookupError E
  first_build_running : LookupError E
  build_failed : BuildError E → LookupError E
  no_records : LookupError E
  cannot_verify : RequestFault E → LookupError E

abbrev pub partial_note : Text
partial_note = codes "索引覆盖不完整：部分产品或 Bug 被截断，或产品读取失败；未命中不代表历史上不存在。请维护者检查抓取上限、分页和索引账号权限。"

abbrev pub refresh_note : Text
refresh_note = codes "最近一次索引刷新失败，当前继续使用上一代索引；请维护者检查索引构建日志。"

abbrev pub no_hit_note : Text
no_hit_note = codes "没有命中。换用更具体的现象词，或补上设备型号；也可以放宽 openedAfter/type 等过滤条件。"

abbrev pub wording_note : Text
wording_note = codes "命中是词面相似，不是语义判断。请自行确认现象、设备型号和版本是否真的对得上，再参考其修复方式。"

unfoldable pub note_if : Bool → Text → List Text → List Text
note_if true note notes = notes ++ note ∷ []
note_if false note notes = notes

-- An index without a document: why it has none.
unfoldable pub not_ready : {E : Type 0} → Option (BuildState E) → LookupError E
not_ready none = first_build_running
not_ready (some st) =
    if not st.is_done
    then first_build_running
    else elim st.err [ none ↦ no_records | some e ↦ build_failed e ]

unfoldable pub refresh_failed : {E : Type 0} → Option (BuildState E) → Bool
refresh_failed none = false
refresh_failed (some st) = is_some st.err

unfoldable pub limit_of : HistoryRequest → ℕ
limit_of req = if req.limit == 0 then default_similar_limit else req.limit

unfoldable pub similar_query : HistoryRequest → SearchQuery
unfolding limit_of
similar_query req = record {
  text = req.symptom;
  product = req.product;
  kind = req.kind;
  resolution = req.resolution;
  opened_after = req.opened_after;
  opened_before = req.opened_before;
  fixed_only = req.fixed_only;
  prefer_fixed = true;
  limit = pos (clamp (pos (limit_of req * over_fetch)) (limit_of req) max_verify_candidate);
}

module _ (ar : Arithmetic) (clock : IndexClock ar.F) (now : ℕ) {E : Type 0} where
  open ar use {F, of_nat}

  unfoldable pub index_status : IndexState F E → IndexStatus F
  unfolding refresh_failed coverage_of
  index_status st =
      let c = coverage_of st.build_state in
      let built = st.index.built_at in
      record {
        documents = length st.index.docs;
        built_at = if built == 0 then [] else clock.show_time built;
        age_hours = if built == 0 then of_nat 0 else clock.hours_since now built;
        is_partial =
            c.product_list_truncated || ltb 0 c.truncated_products || ltb 0 c.failed_products;
        product_list_truncated = c.product_list_truncated;
        truncated_products = c.truncated_products;
        failed_products = c.failed_products;
        last_refresh_failed = refresh_failed st.build_state;
      }

  -- The result before the candidates are verified.
  unfoldable pub empty_result : HistoryRequest → IndexState F E → Stats → HistoryResult F
  unfolding index_status note_if
  empty_result req st stats =
      let status = index_status st in
      record {
        symptom = req.symptom;
        index = status;
        terms = stats.terms;
        returned = 0;
        hidden = 0;
        unavailable = 0;
        bugs = [];
        notes =
            note_if status.last_refresh_failed refresh_note
              (note_if status.is_partial partial_note []);
      }

  unfoldable pub verified_notes : HistoryResult F → Verified F E → List Text
  unfolding note_if
  verified_notes out v =
      let age = out.index.age_hours in
      let hidden_note =
        format_int (pos v.hidden) ++ codes " 条候选当前账号读不到（无权限或记录已删除），已丢弃，仅统计数量、不返回其内容。重试不会改变结果。" in
      let unavailable_note =
        format_int (pos v.unavailable) ++ codes " 条候选回查失败（超时、限流或服务端错误，非权限问题），稍后重试可能会多出结果。" in
      let age_note = codes "索引已有 " ++ clock.show_hours age ++ codes " 小时未刷新，最近新建的 Bug 可能不在其中。" in
      let hidden_notes = note_if (ltb 0 v.hidden) hidden_note out.notes in
      let notes = note_if (ltb 0 v.unavailable) unavailable_note hidden_notes in
      note_if (clock.is_stale age) age_note notes ++ wording_note ∷ []

  unfoldable pub verified_result : HistoryResult F → Verified F E → HistoryResult F
  unfolding verified_notes
  verified_result out v = record out {
    bugs = v.visible;
    returned = length v.visible;
    hidden = v.hidden;
    unavailable = v.unavailable;
    notes = verified_notes out v;
  }

  -- A caller that could not log in gets an error in place of no bugs.
  unfoldable pub answered :
      HistoryResult F → Verified F E → Option (RequestFault E) → LookupError E ⊎ HistoryResult F
  unfolding verified_result
  answered out v none = inr (verified_result out v)
  answered out v (some e) =
      if length v.visible == 0 then inl (cannot_verify e) else inr (verified_result out v)

  module _ (rt : Runtime) (read : (id : ℤ) → RequestFault E ⊎ Payload rt.floats.F) where
    -- The lookup in an index that is ready.
    unfoldable pub look_up :
        HistoryRequest → IndexState F E → Option (LookupError E ⊎ HistoryResult F)
    unfolding empty_result answered
    look_up req st =
        let found = search ar st.index (similar_query req) in
        let out = empty_result req st found.1 in
        let verified = verify_hits rt read (limit_of req) found.0 in
        if length found.0 == 0
        then some (inr (record out { notes = out.notes ++ no_hit_note ∷ [] }))
        else and_then verified (λ v. some (answered out v v.auth_error))

    -- `none` in place of a state is a server without an index.
    unfoldable pub find_similar_bugs :
        Option (IndexState F E) → HistoryRequest → Option (LookupError E ⊎ HistoryResult F)
    unfolding look_up not_ready
    find_similar_bugs none req = some (inl not_enabled)
    find_similar_bugs (some st) req =
        if text_eq (trim_space req.symptom) []
        then some (inl no_symptom)
        else if not (is_ready st.index)
        then some (inl (not_ready st.build_state))
        else look_up req st
