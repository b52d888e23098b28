-- ===== src/Zentao/Bugs/Search/Result.antt =====
-- internal/service/zentao/bugs.go: SearchBugs returns, and what its result says.
use zentao_mcp.Base.{ℕ, ◌≤◌, ◌≡◌, ◌⊎◌, inl, inr, length, All}
use zentao_mcp.Base.Pairs.{Pairs}
use zentao_mcp.Base.Text.{Text}
use zentao_mcp.Json.{Fields}
use zentao_mcp.Zentao.Listing.{Outcome}
use zentao_mcp.Zentao.Listing.Pages.{listing_of}
use zentao_mcp.Zentao.Listing.Origin.{FromPage}
use zentao_mcp.Zentao.Runtime.{Runtime}
use zentao_mcp.Zentao.Bugs.{BugSearchRequest}
use zentao_mcp.Zentao.Bugs.State.{
  distinct_targets, BugCounts, facets_of, Query, ReadError, BugSearchResult, BugCounts, facets_of,
  distinct_targets,
}
use zentao_mcp.Zentao.Bugs.Search.{bug_query}
use zentao_mcp.Zentao.Bugs.Search.Totals.{Counts}
use zentao_mcp.Zentao.Bugs.Search.Sound.{Apart, FromMatch}

module _ (rt : Runtime) (req : BugSearchRequest) {E : Type 0}
    (get_json : (path : Text) → Query → (page_size page : ℕ) → E ⊎ Fields rt.floats.F) where
  open rt use {floats, lower}

  -- A record of a page of a list of bugs, as the server answered it.
  abbrev pub IsListed : Query → Fields floats.F → Type 0
  IsListed query rec =
      (path : Text) × (page_size : ℕ) × (n : ℕ) × FromPage floats (get_json path query) page_size n
        rec

  abbrev pub IsBug : Fields floats.F → Type 0
  IsBug = IsListed (bug_query rt get_json req)

  -- An outcome within a budget, of records that the server answered with.
  abbrev Within : Query → ℕ → Outcome E floats.F → Type 0
  Within query n out =
      (length (listing_of floats 0 out).records ≤ n)
      × All (IsListed query) (listing_of floats 0 out).records

  -- What SearchBugs promises of a result.
  pub record Correct (res : BugSearchResult E floats.F) : Type 0 where
    pub matching : All (FromMatch rt req IsBug) res.bugs
    pub apart : Pairs Apart res.bugs
    pub returned : res.returned ≡ length res.bugs
    pub limited : res.returned ≤ req.limit
    pub listed : res.returned ≤ res.matched
    pub paid : res.scanned ≤ req.max_scan
    pub counted : (c : BugCounts) × Counts res.matched c × (facets_of c ≡ res.facets)

  -- A search that is refused, or its result.
  abbrev pub Answered : ReadError E ⊎ BugSearchResult E floats.F → Type 0
  Answered (inl e) = Unit
  Answered (inr res) = Correct res
