-- ===== src/Zentao/Analysis.antt =====
-- internal/service/zentao/analysis.go: AnalyzeBug and relatedBugs. `read` answers the detail of a
-- bug to the caller and `get_json` each page of a list.
pub mod Bug
pub mod Candidates
pub mod Related
pub mod Packet
use zentao_mcp.Base.{
  ℕ, suc, ◌*◌, ◌-◌, Bool, true, false, not, ◌||◌, ◌&&◌, ◌⊎◌, inl, inr, Option, none, some, List, [],
  ◌∷◌, ◌++◌, if◌then◌else◌, ltb, leb, ◌==◌, length, take,
}
use zentao_mcp.Base.Int.{ℤ, pos, is_positive, int_eq, int_less, or_default}
use zentao_mcp.Base.Results.{and_then}
use zentao_mcp.Base.Sort.{sort_by}
use zentao_mcp.Base.Text.{Text, codes}
use zentao_mcp.Json.{Fields}
use zentao_mcp.Json.Numbers.{format_int}
use zentao_mcp.Zentao.Values.{clamp, field, field_int, field_string, arg_int}
use zentao_mcp.Zentao.Arguments.{arg_bool}
use zentao_mcp.Zentao.Dates.{date_only}
use zentao_mcp.Zentao.PlainText.{plain_text, days_between}
use zentao_mcp.Zentao.Listing.{Listing, Outcome, done, failed, list_all}
use zentao_mcp.Zentao.Runtime.{Runtime}
use zentao_mcp.Zentao.Similarity.{title_tokens, similarity}
use zentao_mcp.Zentao.Bugs.{BugSummary}
use zentao_mcp.Zentao.Bugs.Filters.{bug_summary}
use zentao_mcp.Zentao.Bugs.State.{Query}
use zentao_mcp.Zentao.Client.{RequestFault, Payload}
use zentao_mcp.Zentao.Insights.{TimelineEntry, ActionMetrics, action_insights, resolution_note}
use zentao_mcp.Zentao.History.{over_fetch}
use zentao_mcp.Zentao.History.Verify.{drop_hits}
use zentao_mcp.Bugindex.{Arithmetic, SearchQuery, Hit}
use zentao_mcp.Bugindex.Build.{Snapshot, is_ready}
use zentao_mcp.Bugindex.Search.{search}

abbrev pub default_related_limit : ℕ
default_related_limit = 5

abbrev pub max_related_limit : ℕ
max_related_limit = 20

abbrev pub related_scan : ℕ
related_scan = 400

-- What the ranking of related bugs uses of float64, and `\p{Han}`.
pub record Ranker (F : Type 0) : Type 0 where
  -- math.Round(float64(n)/float64(d)*1000) / 1000
  pub rounded_ratio : (n d : ℕ) → F
  -- score < minSimilarity
  pub is_unlike : F → Bool
  pub less : F → F → Bool
  pub same : F → F → Bool
  pub is_han : ℕ → Bool

pub record RelatedBug (F : Type 0) : Type 0 where
  pub id : ℤ
  pub title : Text
  pub status : Text
  pub resolution : Text
  pub module_id : ℤ
  pub opened_date : Text
  pub similarity : F
  pub same_module : Bool

unfoldable pub related_query : {F : Type 0} → BugSummary F → (limit : ℕ) → SearchQuery
related_query bug limit = record {
  text = bug.title;
  product = bug.product_id;
  kind = [];
  resolution = [];
  opened_after = [];
  opened_before = [];
  fixed_only = false;
  prefer_fixed = false;
  limit = pos (limit * over_fetch);
}

-- The candidates are the hits but the bug itself.
unfoldable pub other_hits : {S : Type 0} → (id : ℤ) → List (Hit S) → List (Hit S)
other_hits id [] = []
other_hits id (h ∷ hs) = let rest = other_hits id hs in if int_eq h.id id then rest else h ∷ rest

-- `limit` of relatedBugs.
unfoldable pub related_limit : ℤ → ℕ
related_limit limit = clamp (pos (or_default default_related_limit limit)) 1 max_related_limit

module _ (rt : Runtime) (rk : Ranker rt.floats.F) where
  open rt use {floats, calendar, lower, zero_float}

  -- The related bug that a record is listed as, under an id.
  unfoldable pub related_from :
      BugSummary floats.F → (id : ℤ) → Fields floats.F → RelatedBug floats.F
  related_from bug id rec =
      let title = field_string floats (codes "title" ∷ []) rec in
      let module_id = field_int floats (codes "module" ∷ []) rec in
      record {
        id = id;
        title = title;
        status = field_string floats (codes "status" ∷ []) rec;
        resolution = field_string floats (codes "resolution" ∷ []) rec;
        module_id = module_id;
        opened_date = date_only floats calendar (field floats (codes "openedDate" ∷ []) rec);
        similarity =
            similarity zero_float rk.rounded_ratio (title_tokens lower rk.is_han bug.title)
              (title_tokens lower rk.is_han title);
        same_module = is_positive bug.module_id && int_eq module_id bug.module_id;
      }

  module _ {E : Type 0} (bug : BugSummary floats.F) where
    -- The body of the loop over the candidates that were read, with `rest` for the next ones.
    unfoldable pub take_candidate :
        (limit : ℕ) (id : ℤ)
        → RequestFault E ⊎ Payload floats.F
        → List (RelatedBug floats.F)
        → List (RelatedBug floats.F)
    unfolding related_from
    take_candidate limit id (inl e) found = found
    take_candidate limit id (inr none) found = found
    take_candidate limit id (inr (some rec)) found =
        if not (int_eq (field_int floats (codes "id" ∷ []) rec) id) || leb limit (length found)
        then found
        else found ++ related_from bug id rec ∷ []

    unfoldable pub take_candidates :
        {S : Type 0}
        → (read : (id : ℤ) → RequestFault E ⊎ Payload floats.F) → (limit : ℕ) → List (Hit S)
        → List (RelatedBug floats.F)
        → List (RelatedBug floats.F)
    unfolding take_candidate
    take_candidates read limit [] found = found
    take_candidates read limit (h ∷ hs) found =
        take_candidates read limit hs (take_candidate limit h.id (read h.id) found)

  -- The loop over the records of the product.
  unfoldable pub alike : BugSummary floats.F → List (Fields floats.F) → List (RelatedBug floats.F)
  unfolding related_from
  alike bug [] = []
  alike bug (rec ∷ recs) =
      let rest = alike bug recs in
      let id = field_int floats (codes "id" ∷ []) rec in
      let b = related_from bug id rec in
      if int_eq id bug.id || not (is_positive id)
      then rest
      else if rk.is_unlike b.similarity && not b.same_module
      then rest
      else b ∷ rest

  -- The order of `sort.Slice`.
  unfoldable pub more_alike : RelatedBug floats.F → RelatedBug floats.F → Bool
  more_alike a b =
      if not (rk.same a.similarity b.similarity)
      then rk.less b.similarity a.similarity
      else int_less b.id a.id

  unfoldable pub first_related :
      (limit : ℕ) → List (RelatedBug floats.F) → List (RelatedBug floats.F)
  first_related limit found = if ltb limit (length found) then take limit found else found

  -- The result of the scan of the product.
  unfoldable pub scanned_related :
      BugSummary floats.F → (limit : ℕ) → Listing floats.F → List (RelatedBug floats.F) × List Text
  unfolding alike more_alike first_related
  scanned_related bug limit list =
      let note =
        codes "related bugs were matched against the "
        ++ format_int (pos (length list.records))
        ++ codes " most recent bugs of product "
        ++ format_int bug.product_id
        ++ codes " only" in
      (
        first_related limit (sort_by more_alike (alike bug list.records)),
        if list.truncated then note ∷ [] else [],
      )

  -- What the index finds, if that is anything.
  unfoldable pub usable_related :
      List (RelatedBug floats.F) → Option (List (RelatedBug floats.F) × List Text)
  usable_related [] = none
  usable_related (b ∷ bs) = some (b ∷ bs, codes "相似 Bug 来自全量索引（整个产品，不只最近几百条），每条都已用当前账号回查。" ∷ [])

  unfoldable pub related_without_index :
      {G : Type 0}
      → (show_error : G → Text) → BugSummary floats.F
      → (limit : ℕ) → Outcome G floats.F
      → List (RelatedBug floats.F) × List Text
  unfolding scanned_related
  related_without_index show_error bug limit (done list) = scanned_related bug limit list
  related_without_index show_error bug limit (failed e list) =
      ([], (codes "related bugs are unavailable: " ++ show_error e) ∷ [])

  -- A read of the index, or of the product where the index has nothing to offer.
  unfoldable pub or_scan : {A : Type 0} → Option A → Option A → Option A
  or_scan (some found) scan = some found
  or_scan none scan = scan

  module _ {E G : Type 0} (ar : Arithmetic) (show_error : G → Text)
      (read : (id : ℤ) → RequestFault E ⊎ Payload floats.F)
      (get_json : (path : Text) → Query → (page_size page : ℕ) → G ⊎ Fields floats.F) where
    unfoldable pub related_from_index :
        Snapshot ar.F
        → BugSummary floats.F
        → (limit : ℕ) → Option (List (RelatedBug floats.F) × List Text)
    unfolding related_query other_hits take_candidates usable_related
    related_from_index snap bug limit =
        let hits = (search ar snap (related_query bug limit)).0 in
        usable_related (take_candidates bug read limit (other_hits bug.id hits) [])

    -- `none` in place of a snapshot is a server without an index.
    unfoldable pub from_index :
        Option (Snapshot ar.F)
        → BugSummary floats.F
        → (limit : ℕ) → Option (List (RelatedBug floats.F) × List Text)
    unfolding related_from_index
    from_index none bug limit = none
    from_index (some snap) bug limit =
        if is_ready snap then related_from_index snap bug limit else none

    unfoldable pub scan_product_bugs :
        BugSummary floats.F → (limit : ℕ) → Option (List (RelatedBug floats.F) × List Text)
    unfolding related_without_index
    scan_product_bugs bug limit =
        let path = codes "/products/" ++ format_int bug.product_id ++ codes "/bugs" in
        let query = (codes "status", codes "all") ∷ (codes "orderBy", codes "id_desc") ∷ [] in
        and_then (list_all floats (get_json path query) (pos related_scan))
          (λ out. some (related_without_index show_error bug limit out))

    -- `relatedBugs`; `none` is a list whose reading goes on.
    unfoldable pub related_bugs :
        Option (Snapshot ar.F)
        → BugSummary floats.F
        → ℤ
        → Option (List (RelatedBug floats.F) × List Text)
    unfolding from_index scan_product_bugs or_scan related_limit
    related_bugs index bug limit =
        let n = related_limit limit in
        if not (is_positive bug.product_id)
        then some
            ([], codes "related bugs were skipped because this bug carries no product id" ∷ [])
        else or_scan (from_index index bug n) (scan_product_bugs bug n)
