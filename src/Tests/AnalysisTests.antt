-- ===== src/Tests/AnalysisTests.antt =====
-- internal/service/zentao/analysis.go on concrete inputs: the actions of a bug, and related bugs.
use zentao_mcp.Base.{
  ℕ, zero, suc, ◌≡◌, refl, ◌≤◌, ◌⊎◌, inl, inr, Option, none, some, List, [], ◌∷◌, ltb, leb, ◌==◌,
  false, true,
}
use zentao_mcp.Base.Int.{ℤ, pos}
use zentao_mcp.Base.Results.{Returns}
use zentao_mcp.Base.Text.{Text, codes, text_eq}
use zentao_mcp.Json.{Fields, Value, end, entry, float, arr, nil, cons, obj, str}
use zentao_mcp.Zentao.Client.{RequestFault, Payload}
use zentao_mcp.Zentao.Bugs.State.{Query}
use zentao_mcp.Zentao.Insights.{
  TimelineEntry, action_insights, resolution_note, resolution_note_from,
}
use zentao_mcp.Zentao.Insights.Counts.{IsCounted, action_insights-IsCounted}
use zentao_mcp.Zentao.Analysis.{Ranker, max_related_limit, related_limit, related_bugs}
use zentao_mcp.Zentao.Analysis.Related.{Related, related_bugs-Proposes}
use zentao_mcp.Zentao.Analysis.Bug.{AnalyzeRequest}
use zentao_mcp.Bugindex.Build.{build}
use zentao_mcp.Tests.BugTests.{machine, bug}
use zentao_mcp.Tests.IndexTests.{whole, docs}

abbrev action : (name comment : Text) → Value ℕ
action name comment =
    obj (entry (codes "action") (str name) (entry (codes "comment") (str comment) end))

abbrev fixed : Fields ℕ
fixed =
    entry (codes "actions")
      (arr (
        cons (action (codes "Assigned") []) (
          cons (action (codes "commented") (codes "Leak in cache."))
            (cons (action (codes "resolved") []) nil))))
      end

action_insights-IsCounted_example : IsCounted machine (action_insights machine fixed)
action_insights-IsCounted_example = action_insights-IsCounted machine fixed

abbrev noted : (name comment : Text) → TimelineEntry
noted name comment = record {
  date = [];
  action = name;
  actor = [];
  comment = comment;
  ai_score = [];
}

-- The comment before the resolution explains it where the resolution has none.
explained_before :
    resolution_note machine.lower (
      noted (codes "commented") (codes "Leak.")
      ∷ noted (codes "resolved") []
      ∷ noted (codes "commented") (codes "Thanks.")
      ∷ [])
    ≡ codes "Leak."
unfolding resolution_note resolution_note_from text_eq zentao_mcp.Base.Strings.to_lower
explained_before = refl

abbrev ranker : Ranker ℕ
ranker = record {
  rounded_ratio = λ n d. n;
  is_unlike = λ n. n == 0;
  less = λ a b. ltb a b;
  same = λ a b. a == b;
  is_han = λ c. false;
}

abbrev read : ℤ → RequestFault Text ⊎ Payload ℕ
read id = inr (some (entry (codes "id") (float 13) end))

abbrev server : (path : Text) → Query → (page_size page : ℕ) → Text ⊎ Fields ℕ
server path query page_size page = inl (codes "down")

related_bugs-Proposes_example :
    (related_limit (pos 3) ≤ max_related_limit)
    × Returns
        (Related machine ranker whole
          (λ e. e)
          read
          server
          (some (build whole 1 docs))
          (bug 11 3)
          (related_limit (pos 3)))
        (related_bugs machine ranker whole
          (λ e. e)
          read
          server
          (some (build whole 1 docs))
          (bug 11 3)
          (pos 3))
related_bugs-Proposes_example =
    related_bugs-Proposes machine ranker whole (λ e. e) read server (some (build whole 1 docs))
      (bug 11 3) (pos 3)

abbrev analyze_eleven : AnalyzeRequest
analyze_eleven = record {
  bug_id = pos 11;
  include_related = true;
  related_limit = pos 3;
  comment_limit = pos 1;
}
