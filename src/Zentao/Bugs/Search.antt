-- ===== src/Zentao/Bugs/Search.antt =====
-- internal/service/zentao/bugs.go: SearchBugs and bugScopes. `get_json` answers each page of a list
-- that is read with a path and a query.
pub mod Totals
pub mod Sound
pub mod Result
use zentao_mcp.Base.{
  ℕ, Bool, not, ◌&&◌, ◌⊎◌, inl, inr, Option, some, List, [], ◌∷◌, ◌++◌, if◌then◌else◌, ◌==◌, ltb,
  length,
}
use zentao_mcp.Base.Int.{pos, to_nat}
use zentao_mcp.Base.Results.{either, and_then}
use zentao_mcp.Base.Text.{Text, codes, text_eq}
use zentao_mcp.Json.{Fields}
use zentao_mcp.Json.Numbers.{format_int}
use zentao_mcp.Zentao.Values.{field_int, field_string}
use zentao_mcp.Zentao.Listing.{Outcome, done, failed, member, list_all}
use zentao_mcp.Zentao.Runtime.{Runtime}
use zentao_mcp.Zentao.Scope.{missing_scope, product, collection_path}
use zentao_mcp.Zentao.Bugs.{BugSearchRequest, default_scope_probe, first_non_empty_text}
use zentao_mcp.Zentao.Bugs.Filters.{matches, bug_summary}
use zentao_mcp.Zentao.Bugs.State.{
  Query, ReadError, no_path, unread, ScopeStat, new_target, SearchState, BugSearchResult,
  distinct_targets, empty_search, exhausted, add_scope, scanned_target, charge, add_match,
  finish_search,
}

module _ (rt : Runtime) where
  open rt use {floats, lower}

  unfoldable pub scope_label : {E : Type 0} → ScopeStat E → Text
  scope_label t = t.scope ++ codes ":" ++ format_int (pos t.id)

  module _ {E : Type 0} where
    -- The loop over the records of a scope; an id that is not positive is never looked up.
    unfoldable pub take_bug :
        BugSearchRequest
        → ScopeStat E
        → Fields floats.F
        → SearchState E floats.F
        → SearchState E floats.F
    unfolding scope_label add_match member
    take_bug req t rec st =
        let summary = bug_summary rt rec in
        if not (matches rt req rec)
        then st
        else if ltb 0 (to_nat summary.id) && member (to_nat summary.id) st.seen
        then st
        else add_match (record summary { scope = scope_label t }) st

    unfoldable pub take_bugs :
        BugSearchRequest
        → ScopeStat E
        → List (Fields floats.F)
        → SearchState E floats.F
        → SearchState E floats.F
    unfolding take_bug
    take_bugs req t [] st = st
    take_bugs req t (rec ∷ recs) st = take_bugs req t recs (take_bug req t rec st)

    unfoldable pub after_list :
        BugSearchRequest
        → ScopeStat E
        → Outcome E floats.F
        → SearchState E floats.F
        → SearchState E floats.F
    unfolding take_bugs scanned_target add_scope charge
    after_list req t (failed e list) st =
        add_scope (record (scanned_target list t) { error = some (unread e) }) st
    after_list req t (done list) st =
        let t' = scanned_target list t in
        add_scope t' (take_bugs req t' list.records (charge list st))

    module _ (get_json : (path : Text) → Query → (page_size page : ℕ) → E ⊎ Fields floats.F) where
      unfoldable pub read_list : Text → Query → ℕ → Option (Outcome E floats.F)
      read_list path query max_scan = list_all floats (get_json path query) (pos max_scan)

      abbrev pub bug_query : BugSearchRequest → Query
      bug_query req =
          (codes "status", codes "all")
          ∷ (codes "orderBy", first_non_empty_text (req.order_by ∷ codes "id_desc" ∷ []))
          ∷ []

      -- The loop over the scopes; `none` is a list whose reading goes on.
      unfoldable pub scan_targets :
          BugSearchRequest
          → List (ScopeStat E)
          → SearchState E floats.F
          → Option (SearchState E floats.F)
      unfolding read_list after_list exhausted add_scope
      scan_targets req [] st = some st
      scan_targets req (t ∷ ts) st =
          let rest = scan_targets req ts in
          let read = λ (path : Text).
            and_then (read_list path (bug_query req) st.budget)
              (λ out. rest (after_list req t out st)) in
          if st.budget == 0
          then some (exhausted st)
          else either (λ e. rest (add_scope (record t { error = some (no_path e) }) st)) read
              (collection_path t.scope (pos t.id) (codes "bugs"))

      unfoldable pub product_targets : List (Fields floats.F) → List (ScopeStat E)
      product_targets [] = []
      product_targets (rec ∷ recs) =
          let rest = product_targets recs in
          let id = to_nat (field_int floats (codes "id" ∷ []) rec) in
          if id == 0
          then rest
          else new_target product id (field_string floats (codes "name" ∷ []) rec) ∷ rest

      unfoldable pub probe_notes : Bool → ℕ → List Text
      probe_notes truncated n =
          (codes "no scope id was given, so "
            ++ format_int (pos n)
            ++ codes
                " readable products were scanned; pass productID for a faster and more precise search")
          ∷ (if truncated
              then codes
                  "more products exist than were scanned; pass productID or productIDs to target them"
                ∷ []
              else [])

      -- The products that can be read stand for a scope that is not given.
      unfoldable pub product_scopes :
          Outcome E floats.F → ReadError E ⊎ (List (ScopeStat E) × List Text)
      unfolding product_targets probe_notes
      product_scopes (failed e list) = inl (unread e)
      product_scopes (done list) =
          let targets = product_targets list.records in
          inr (targets, probe_notes list.truncated (length targets))

      unfoldable pub bug_scopes :
          BugSearchRequest → Option (ReadError E ⊎ (List (ScopeStat E) × List Text))
      unfolding read_list product_scopes distinct_targets
      bug_scopes req =
          let given = to_nat req.scope_id in
          let ids = if ltb 0 given then given ∷ req.scope_ids else req.scope_ids in
          if ltb 0 (length ids)
          then some (inr (distinct_targets req.scope [] ids, []))
          else if not (text_eq req.scope product)
          then some (inl (no_path missing_scope))
          else and_then (read_list (codes "/products") [] default_scope_probe)
              (λ out. some (product_scopes out))

      unfoldable pub search_bugs :
          BugSearchRequest → Option (ReadError E ⊎ BugSearchResult E floats.F)
      unfolding bug_scopes scan_targets finish_search
      search_bugs req = and_then (bug_scopes req) (
          either (λ e. some (inl e))
            (λ scopes.
              and_then (scan_targets req scopes.0 (empty_search scopes.1 req.max_scan))
                (λ st. some (inr (finish_search lower req st)))))
