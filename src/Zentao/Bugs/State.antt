-- ===== src/Zentao/Bugs/State.antt =====
-- internal/service/zentao/bugs.go: the data of SearchBugs, and the steps of its loops.
use zentao_mcp.Base.{
  ℕ, ◌+◌, ◌-◌, Bool, true, false, ◌||◌, Option, none, List, [], ◌∷◌, ◌++◌, if◌then◌else◌, ◌==◌, ltb,
  length, take,
}
use zentao_mcp.Base.Int.{pos, to_nat}
use zentao_mcp.Base.Text.{Text, codes}
use zentao_mcp.Base.Assoc.{Assoc}
use zentao_mcp.Json.{Fields}
use zentao_mcp.Json.Numbers.{format_int}
use zentao_mcp.Zentao.Arguments.{NameCount, top_n, bump}
use zentao_mcp.Zentao.Listing.{Listing, member}
use zentao_mcp.Zentao.Scope.{ScopeError}
use zentao_mcp.Zentao.Bugs.Describe.{describe}
use zentao_mcp.Zentao.Bugs.{BugSummary, BugSearchRequest, sort_bugs}

-- The query of a list, by its keys.
abbrev pub Query : Type 0
Query = List (Text × Text)

pub data ReadError (E : Type 0) : Type 0 where
  no_path : ScopeError → ReadError E
  unread : E → ReadError E

pub record ScopeStat (E : Type 0) : Type 0 where
  pub scope : Text
  pub id : ℕ
  pub name : Text
  pub scanned : ℕ
  pub total : ℕ
  pub truncated : Bool
  pub error : Option (ReadError E)

abbrev pub new_target : {E : Type 0} → (scope : Text) (id : ℕ) (name : Text) → ScopeStat E
new_target scope id name = record {
  scope = scope;
  id = id;
  name = name;
  scanned = 0;
  total = 0;
  truncated = false;
  error = none;
}

-- `counts`, a map for each of six names.
pub record BugCounts : Type 0 where
  pub status : Assoc ℕ
  pub severity : Assoc ℕ
  pub kind : Assoc ℕ
  pub resolution : Assoc ℕ
  pub assigned_to : Assoc ℕ
  pub opened_by : Assoc ℕ

-- The local variables of the loop over the scopes.
pub record SearchState (E F : Type 0) : Type 0 where
  pub scopes : List (ScopeStat E)
  pub scanned : ℕ
  pub truncated : Bool
  pub notes : List Text
  pub budget : ℕ
  pub matched : List (BugSummary F)
  pub seen : List ℕ
  pub counts : BugCounts

pub record BugSearchResult (E F : Type 0) : Type 0 where
  pub query : Fields F
  pub scopes : List (ScopeStat E)
  pub scanned : ℕ
  pub matched : ℕ
  pub returned : ℕ
  pub truncated : Bool
  pub facets : List (Text × List NameCount)
  pub bugs : List (BugSummary F)
  pub notes : List Text

abbrev pub budget_note : Text
budget_note =
    codes "scan budget exhausted before every scope was read; raise maxScan or narrow the scope"

-- The ids that are asked for, each once.
unfoldable pub distinct_targets : {E : Type 0} → Text → List ℕ → List ℕ → List (ScopeStat E)
unfolding member
distinct_targets scope seen [] = []
distinct_targets scope seen (id ∷ ids) =
    let skipped = distinct_targets scope seen ids in
    let taken = new_target scope id [] ∷ distinct_targets scope (id ∷ seen) ids in
    if id == 0 || member id seen then skipped else taken

unfoldable pub count_bug : {F : Type 0} → BugSummary F → BugCounts → BugCounts
count_bug b c = record {
  status = bump c.status b.status;
  severity = bump c.severity (format_int b.severity);
  kind = bump c.kind b.kind;
  resolution = bump c.resolution b.resolution;
  assigned_to = bump c.assigned_to b.assigned_to;
  opened_by = bump c.opened_by b.opened_by;
}

unfoldable pub add_facet :
    Text → List NameCount → List (Text × List NameCount) → List (Text × List NameCount)
add_facet name [] facets = facets
add_facet name (e ∷ es) facets = (name, e ∷ es) ∷ facets

unfoldable pub facets_of : BugCounts → List (Text × List NameCount)
unfolding add_facet
facets_of c = add_facet (codes "status") (top_n c.status (pos 0)) (
    add_facet (codes "severity") (top_n c.severity (pos 0)) (
      add_facet (codes "type") (top_n c.kind (pos 0)) (
        add_facet (codes "resolution") (top_n c.resolution (pos 0)) (
          add_facet (codes "assignedTo") (top_n c.assigned_to (pos 10))
            (add_facet (codes "openedBy") (top_n c.opened_by (pos 10)) [])))))

unfoldable pub limit_note : (limit matched : ℕ) → Text
limit_note limit matched =
    codes "only the first "
    ++ format_int (pos limit)
    ++ codes " of "
    ++ format_int (pos matched)
    ++ codes " matched bugs are listed; facets cover all matches"

abbrev pub empty_search : {E F : Type 0} → List Text → ℕ → SearchState E F
empty_search notes budget = record {
  scopes = [];
  scanned = 0;
  truncated = false;
  notes = notes;
  budget = budget;
  matched = [];
  seen = [];
  counts = record {
    status = [];
    severity = [];
    kind = [];
    resolution = [];
    assigned_to = [];
    opened_by = [];
  };
}

module _ {E F : Type 0} where
  -- The loop over the scopes ends without one that it cannot pay for.
  unfoldable pub exhausted : SearchState E F → SearchState E F
  exhausted st = record st { truncated = true; notes = st.notes ++ budget_note ∷ [] }

  unfoldable pub add_scope : ScopeStat E → SearchState E F → SearchState E F
  add_scope t st = record st { scopes = st.scopes ++ t ∷ [] }

  unfoldable pub scanned_target : Listing F → ScopeStat E → ScopeStat E
  scanned_target list t = record t {
    scanned = length list.records;
    total = list.total;
    truncated = list.truncated;
  }

  -- The budget that a list has used up.
  unfoldable pub charge : Listing F → SearchState E F → SearchState E F
  charge list st = record st {
    budget = st.budget - length list.records;
    scanned = st.scanned + length list.records;
    truncated = st.truncated || list.truncated;
  }

  unfoldable pub add_match : BugSummary F → SearchState E F → SearchState E F
  unfolding count_bug
  add_match b st = record st {
    counts = count_bug b st.counts;
    matched = st.matched ++ b ∷ [];
    seen = to_nat b.id ∷ st.seen;
  }

  -- The end of SearchBugs.
  unfoldable pub finish_search :
      (lower : ℕ → ℕ) → BugSearchRequest → SearchState E F → BugSearchResult E F
  unfolding facets_of limit_note describe
  finish_search lower req st =
      let sorted = sort_bugs lower st.matched req.order_by in
      let bugs = if ltb req.limit (length sorted) then take req.limit sorted else sorted in
      record {
        query = describe req;
        scopes = st.scopes;
        scanned = st.scanned;
        matched = length sorted;
        returned = length bugs;
        truncated = st.truncated;
        facets = facets_of st.counts;
        bugs = bugs;
        notes =
            if ltb req.limit (length sorted)
            then st.notes ++ limit_note req.limit (length sorted) ∷ []
            else st.notes;
      }
