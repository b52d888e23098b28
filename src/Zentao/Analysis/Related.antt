-- ===== src/Zentao/Analysis/Related.antt =====
-- internal/service/zentao/analysis.go: which bugs relatedBugs proposes.
use zentao_mcp.Base.{
  ℕ, ◌≤◌, ◌≡◌, refl, not, ◌⊎◌, inl, inr, Option, none, some, List, [], ◌∷◌, ◌++◌, arith, if_cases,
  All, All-map,
}
use zentao_mcp.Base.Int.{ℤ, pos, is_positive}
use zentao_mcp.Base.Results.{Returns, and_then-Returns}
use zentao_mcp.Base.Text.{Text, codes}
use zentao_mcp.Json.{Fields}
use zentao_mcp.Json.Numbers.{format_int}
use zentao_mcp.Zentao.Values.{clamp}
use zentao_mcp.Zentao.Listing.{Outcome, done, failed}
use zentao_mcp.Zentao.Listing.Pages.{listing_of, Ended, list_all-Ended}
use zentao_mcp.Zentao.Listing.Origin.{FromPage, IsFrom, page_size_of, list_all-IsFrom}
use zentao_mcp.Zentao.Runtime.{Runtime}
use zentao_mcp.Zentao.Bugs.{BugSummary}
use zentao_mcp.Zentao.Bugs.State.{Query}
use zentao_mcp.Zentao.Client.{RequestFault, Payload}
use zentao_mcp.Zentao.Analysis.{
  Ranker, RelatedBug, max_related_limit, related_scan, other_hits, related_limit, take_candidates,
  usable_related, related_without_index, or_scan, related_from_index, from_index, scan_product_bugs,
  related_bugs, related_query,
}
use zentao_mcp.Bugindex.{Arithmetic, Hit}
use zentao_mcp.Bugindex.Build.{Snapshot, is_ready}
use zentao_mcp.Bugindex.Search.{search}
use zentao_mcp.Zentao.Analysis.Candidates.{
  IsOwn, Result, Usable, take_candidates-Proposes, other_hits-All, usable_related-Usable,
  or_scan-Returns, scanned_related-Proposes,
}

related_limit-bounds : (limit : ℤ) → related_limit limit ≤ max_related_limit
unfolding related_limit clamp
related_limit-bounds limit = ground arith

module _ (rt : Runtime) (bug : BugSummary rt.floats.F) {G : Type 0}
    (get_json : (path : Text) → Query → (page_size page : ℕ) → G ⊎ Fields rt.floats.F) where
  open rt use {floats}

  -- The bugs of the product, as the server lists them.
  abbrev pub product_page : (page_size page : ℕ) → G ⊎ Fields floats.F
  product_page =
      get_json (codes "/products/" ++ format_int bug.product_id ++ codes "/bugs")
        ((codes "status", codes "all") ∷ (codes "orderBy", codes "id_desc") ∷ [])

  -- A record of a page of that list.
  abbrev pub IsListed : Fields floats.F → Type 0
  IsListed rec = (n : ℕ) × FromPage floats product_page (page_size_of (pos related_scan)) n rec

-- `Source` says of an id and a record that the server answered with the record.
module _ (rt : Runtime) (rk : Ranker rt.floats.F) (bug : BugSummary rt.floats.F)
    (Source : ℤ → Fields rt.floats.F → Type 0) where
  open rt use {floats}

  related_without_index-Proposes :
      {G : Type 0} (show_error : G → Text) (limit : ℕ) (out : Outcome G floats.F)
      → All (IsOwn rt rk bug Source) (listing_of floats 0 out).records
      → Result rt rk bug Source limit (related_without_index rt rk show_error bug limit out)
  unfolding related_without_index
  related_without_index-Proposes show_error limit (done list) o =
      scanned_related-Proposes rt rk bug Source limit list o
  related_without_index-Proposes show_error limit (failed e list) o = (tt, omega arith)

  module _ {E G : Type 0} (ar : Arithmetic) (show_error : G → Text)
      (read : (id : ℤ) → RequestFault E ⊎ Payload floats.F)
      (get_json : (path : Text) → Query → (page_size page : ℕ) → G ⊎ Fields floats.F) where
    from_index-Usable :
        (index : Option (Snapshot ar.F)) (limit : ℕ)
        → ((id : ℤ) (rec : Fields floats.F) → read id ≡ inr (some rec) → Source id rec)
        → Usable rt rk bug Source limit
            (from_index rt rk ar show_error read get_json index bug limit)
    unfolding from_index related_from_index
    from_index-Usable none limit r = tt
    from_index-Usable (some snap) limit r =
        let hits : List (Hit ar.F) = (search ar snap (related_query bug limit)).0 in
        let found : List (RelatedBug floats.F) =
          take_candidates rt rk bug read limit (other_hits bug.id hits) [] in
        if_cases {A = Option (List (RelatedBug floats.F) × List Text)}
          (Usable rt rk bug Source limit) (is_ready snap) {x = usable_related rt rk found}
          {y = none}
          (λ ready. usable_related-Usable rt rk bug Source limit found (
            take_candidates-Proposes rt rk bug Source read limit (other_hits bug.id hits) []
              (other_hits-All rt rk bug Source hits) r (tt, omega arith)))
          (λ empty. tt)

    -- The records of an outcome are of the list.
    abbrev AllListed : Outcome G floats.F → Type 0
    AllListed out = All (IsListed rt bug get_json) (listing_of floats 0 out).records

    IsFrom-AllListed :
        (out : Outcome G floats.F)
        → IsFrom floats (product_page rt bug get_json) (page_size_of (pos related_scan)) out
        → AllListed out
    IsFrom-AllListed (done list) (n, p, x) =
        All-map (FromPage floats (product_page rt bug get_json) (page_size_of (pos related_scan)) n)
          (IsListed rt bug get_json) list.records (λ rec f. (n, f)) x.records
    IsFrom-AllListed (failed e list) (n, p, x) =
        All-map (FromPage floats (product_page rt bug get_json) (page_size_of (pos related_scan)) n)
          (IsListed rt bug get_json) list.records (λ rec f. (n, f)) x.records

    Ended-Returns :
        (n : ℕ) (o : Option (Outcome G floats.F))
        → ((out : Outcome G floats.F) → o ≡ some out → AllListed out)
        → Ended floats n o
        → Returns AllListed o
    Ended-Returns n none f h = h
    Ended-Returns n (some out) f h = f out refl

    scan_product_bugs-Returns :
        (limit : ℕ)
        → ((rec : Fields floats.F) → IsListed rt bug get_json rec → IsOwn rt rk bug Source rec)
        → Returns
            (Result rt rk bug Source limit)
            (scan_product_bugs rt rk ar show_error read get_json bug limit)
    unfolding scan_product_bugs
    scan_product_bugs-Returns limit own =
        and_then-Returns AllListed (Result rt rk bug Source limit) _ _
          (Ended-Returns _ _
            (λ out e.
              IsFrom-AllListed out
                (list_all-IsFrom floats (product_page rt bug get_json) (pos related_scan) out e))
            (list_all-Ended floats (product_page rt bug get_json) (pos related_scan)))
          (λ out u. related_without_index-Proposes show_error limit out (
            All-map (IsListed rt bug get_json) (IsOwn rt rk bug Source)
              (listing_of floats 0 out).records own u))

    related_bugs-Returns :
        (index : Option (Snapshot ar.F)) (limit : ℤ)
        → ((id : ℤ) (rec : Fields floats.F) → read id ≡ inr (some rec) → Source id rec)
        → ((rec : Fields floats.F) → IsListed rt bug get_json rec → IsOwn rt rk bug Source rec)
        → Returns
            (Result rt rk bug Source (related_limit limit))
            (related_bugs rt rk ar show_error read get_json index bug limit)
    unfolding related_bugs
    related_bugs-Returns index limit r own =
        if_cases {A = Option (List (RelatedBug floats.F) × List Text)}
          (Returns (Result rt rk bug Source (related_limit limit)))
          (not (is_positive bug.product_id))
          {y = or_scan rt rk
            (from_index rt rk ar show_error read get_json index bug (related_limit limit))
            (scan_product_bugs rt rk ar show_error read get_json bug (related_limit limit))}
          (λ none_given. (tt, omega arith))
          (λ given.
            or_scan-Returns rt rk bug Source (related_limit limit) _ _
              (from_index-Usable index (related_limit limit) r)
              (scan_product_bugs-Returns (related_limit limit) own))

module _ (rt : Runtime) (rk : Ranker rt.floats.F) {E G : Type 0} (ar : Arithmetic)
    (show_error : G → Text) (read : (id : ℤ) → RequestFault E ⊎ Payload rt.floats.F)
    (get_json : (path : Text) → Query → (page_size page : ℕ) → G ⊎ Fields rt.floats.F)
    (index : Option (Snapshot ar.F)) where
  open rt use {floats}

  -- The record was read under the id, or stands on a page of the list of the product's bugs.
  abbrev pub IsAnswered : BugSummary floats.F → ℤ → Fields floats.F → Type 0
  IsAnswered bug id rec = (read id ≡ inr (some rec)) ⊎ IsListed rt bug get_json rec

  -- The proposals of a result, made of records of the server.
  abbrev pub Related : BugSummary floats.F → ℕ → List (RelatedBug floats.F) × List Text → Type 0
  Related bug = Result rt rk bug (IsAnswered bug)

  -- Whatever the index holds and the upstream server answers, relatedBugs returns, and it proposes
  -- no more bugs than its limit, which is at most 20. Each is made of a record that carries its id
  -- and that was read under this id or stands on a page, as the server answered it, of the list of
  -- the product's bugs; and none has the id of the bug itself.
  pub related_bugs-Proposes :
      (bug : BugSummary floats.F) (limit : ℤ)
      → (related_limit limit ≤ max_related_limit)
        × Returns
            (Related bug (related_limit limit))
            (related_bugs rt rk ar show_error read get_json index bug limit)
  related_bugs-Proposes bug limit = (
    related_limit-bounds limit,
    related_bugs-Returns rt rk bug (IsAnswered bug) ar show_error read get_json index limit
        (λ id rec e. inl e) (λ rec l. inr l),
  )
