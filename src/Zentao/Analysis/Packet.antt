-- ===== src/Zentao/Analysis/Packet.antt =====
-- internal/service/zentao/analysis.go: AnalyzeBug returns, and what its answer says.
use zentao_mcp.Base.{ℕ, ◌≤◌, ◌≡◌, false, ◌⊎◌, inl, inr, Option, List, [], ◌++◌, length}
use zentao_mcp.Base.Int.{ℤ, is_positive, to_nat}
use zentao_mcp.Base.Text.{Text}
use zentao_mcp.Json.{Fields}
use zentao_mcp.Zentao.Runtime.{Runtime}
use zentao_mcp.Zentao.Bugs.{BugSummary}
use zentao_mcp.Zentao.Bugs.Filters.{bug_summary}
use zentao_mcp.Zentao.Bugs.State.{Query}
use zentao_mcp.Zentao.Client.{RequestFault, Payload}
use zentao_mcp.Zentao.Insights.{TimelineEntry, action_insights}
use zentao_mcp.Zentao.Analysis.{Ranker, RelatedBug, related_limit, related_bugs}
use zentao_mcp.Zentao.Analysis.Bug.{AnalyzeRequest, BugAnalysis, fields_of}
use zentao_mcp.Zentao.Analysis.Related.{Related}
use zentao_mcp.Bugindex.{Arithmetic}
use zentao_mcp.Bugindex.Build.{Snapshot}

module _ (rt : Runtime) (rk : Ranker rt.floats.F) (req : AnalyzeRequest) {E G : Type 0}
    (ar : Arithmetic) (show_error : G → Text)
    (read : (id : ℤ) → RequestFault E ⊎ Payload rt.floats.F)
    (get_json : (path : Text) → Query → (page_size page : ℕ) → G ⊎ Fields rt.floats.F)
    (index : Option (Snapshot ar.F)) where
  open rt use {floats}

  -- What relatedBugs promises of its bugs.
  abbrev Near : BugSummary floats.F → List (RelatedBug floats.F) × List Text → Type 0
  Near bug = Related rt rk ar show_error read get_json index bug (related_limit req.related_limit)

  -- The packet of the record `rec`: its summary and its actions, the last of its comments, and the
  -- related bugs.
  pub record IsPacket (rec : Fields floats.F) (out : BugAnalysis floats.F) : Type 0 where
    pub bug : out.bug ≡ record (bug_summary rt rec) { steps = [] }
    pub timeline : out.timeline ≡ (action_insights rt rec).timeline
    pub comments :
        (earlier : List TimelineEntry) × ((action_insights rt rec).comments
          ≡ earlier ++ out.comments)
    pub limited :
        (is_positive req.comment_limit ≡ false) ⊎ (length out.comments ≤ to_nat req.comment_limit)
    pub related : Near (record (bug_summary rt rec) { steps = [] }) (out.related, [])

  -- relatedBugs on the index, the reads and the lists of the server.
  abbrev pub related_to : BugSummary floats.F → ℤ → Option (List (RelatedBug floats.F) × List Text)
  related_to bug limit = related_bugs rt rk ar show_error read get_json index bug limit

  -- The answer for what the bug was read as.
  abbrev pub Analyzes :
      RequestFault E ⊎ Payload floats.F → RequestFault E ⊎ BugAnalysis floats.F → Type 0
  Analyzes (inl e) (inl d) = e ≡ d
  Analyzes (inl e) (inr out) = ⊥
  Analyzes (inr payload) (inl d) = ⊥
  Analyzes (inr payload) (inr out) = IsPacket (fields_of payload) out
