-- ===== src/Zentao/Analysis/Bug.antt =====
-- internal/service/zentao/analysis.go: AnalyzeRequestFrom and AnalyzeBug.
use zentao_mcp.Base.{
  ℕ, Bool, true, not, ◌&&◌, ◌⊎◌, inl, inr, Option, none, some, List, [], ◌∷◌, ◌++◌, if◌then◌else◌,
  ltb, ◌==◌, length,
}
use zentao_mcp.Base.Int.{ℤ, pos, is_positive, to_nat}
use zentao_mcp.Base.Results.{and_then}
use zentao_mcp.Base.Text.{Text, codes}
use zentao_mcp.Json.{Fields, end}
use zentao_mcp.Json.Numbers.{format_int}
use zentao_mcp.Zentao.Values.{field, field_int, field_string, arg_int}
use zentao_mcp.Zentao.Arguments.{arg_bool}
use zentao_mcp.Zentao.Dates.{date_only}
use zentao_mcp.Zentao.PlainText.{plain_text, days_between}
use zentao_mcp.Zentao.Runtime.{Runtime}
use zentao_mcp.Zentao.Bugs.{BugSummary}
use zentao_mcp.Zentao.Bugs.Filters.{bug_summary}
use zentao_mcp.Zentao.Client.{RequestFault, Payload}
use zentao_mcp.Zentao.Insights.{TimelineEntry, ActionMetrics, action_insights, resolution_note}
use zentao_mcp.Zentao.Analysis.{RelatedBug}

pub record AnalyzeRequest : Type 0 where
  pub bug_id : ℤ
  pub include_related : Bool
  pub related_limit : ℤ
  pub comment_limit : ℤ

-- errInvalidArgument
pub data AnalyzeError : Type 0 where
  missing_bug_id : AnalyzeError

pub record BugContent : Type 0 where
  pub steps : Text
  pub resolution_note : Text
  pub keywords : Text
  pub mailto : Text
  pub deadline : Text
  pub linked_story : ℤ
  pub linked_task : ℤ
  pub resolved_build : Text

-- `BugMetrics`: what actionInsights counts, and the days of the life of the bug.
pub record BugMetrics (F : Type 0) : Type 0 where
  pub open_to_resolve_days : Option F
  pub resolve_to_close_days : Option F
  pub open_to_close_days : Option F
  pub actions : ActionMetrics F

-- `BugAnalysis`, without the checklist, a constant.
pub record BugAnalysis (F : Type 0) : Type 0 where
  pub bug : BugSummary F
  pub content : BugContent
  pub metrics : BugMetrics F
  pub timeline : List TimelineEntry
  pub comments : List TimelineEntry
  pub related : List (RelatedBug F)
  pub notes : List Text

-- The fields of a decoded object; a nil map has none.
unfoldable pub fields_of : {F : Type 0} → Payload F → Fields F
fields_of none = end
fields_of (some rec) = rec

-- The last `n` of a list.
unfoldable pub last_entries : ℕ → List TimelineEntry → List TimelineEntry
last_entries n [] = []
last_entries n (e ∷ es) =
    let rest = last_entries n es in if ltb n (length (e ∷ es)) then rest else e ∷ es

unfoldable pub comments_note : (limit comments : ℕ) → Text
comments_note limit comments =
    codes "only the last "
    ++ format_int (pos limit)
    ++ codes " of "
    ++ format_int (pos comments)
    ++ codes " comments are included"

abbrev pub no_actions_note : Text
no_actions_note =
    codes
      "this bug detail carried no actions list, so the timeline, comment count and AI scores are unavailable"

unfoldable pub limit_comments : {F : Type 0} → ℤ → BugAnalysis F → BugAnalysis F
unfolding last_entries comments_note
limit_comments limit out =
    let n = to_nat limit in
    if is_positive limit && ltb n (length out.comments)
    then record out {
      notes = out.notes ++ comments_note n (length out.comments) ∷ [];
      comments = last_entries n out.comments;
    }
    else out

unfoldable pub note_no_actions : {F : Type 0} → BugAnalysis F → BugAnalysis F
note_no_actions out =
    if length out.timeline == 0
    then record out { notes = out.notes ++ no_actions_note ∷ [] }
    else out

unfoldable pub with_related :
    {F : Type 0} → List (RelatedBug F) × List Text → BugAnalysis F → BugAnalysis F
with_related found out = record out { related = found.0; notes = out.notes ++ found.1 }

module _ (rt : Runtime) where
  open rt use {floats, calendar, lower}

  unfoldable pub analyze_request_from : Fields floats.F → AnalyzeError ⊎ AnalyzeRequest
  analyze_request_from args =
      let id = arg_int floats (codes "bugID") (pos 0) args in
      if not (is_positive id)
      then inl missing_bug_id
      else inr (record {
        bug_id = id;
        include_related = arg_bool floats (codes "includeRelated") true args;
        related_limit = arg_int floats (codes "relatedLimit") (pos 0) args;
        comment_limit = arg_int floats (codes "commentLimit") (pos 0) args;
      })

  unfoldable pub content_of : Fields floats.F → (timeline : List TimelineEntry) → BugContent
  content_of rec timeline = record {
    steps = plain_text rt (field floats (codes "steps" ∷ []) rec);
    resolution_note = resolution_note lower timeline;
    keywords = field_string floats (codes "keywords" ∷ []) rec;
    mailto = field_string floats (codes "mailto" ∷ []) rec;
    deadline = date_only floats calendar (field floats (codes "deadline" ∷ []) rec);
    linked_story = field_int floats (codes "story" ∷ []) rec;
    linked_task = field_int floats (codes "task" ∷ []) rec;
    resolved_build = field_string floats (codes "resolvedBuild" ∷ []) rec;
  }

  unfoldable pub metrics_of : Fields floats.F → ActionMetrics floats.F → BugMetrics floats.F
  metrics_of rec actions =
      let opened = field floats (codes "openedDate" ∷ []) rec in
      let resolved = field floats (codes "resolvedDate" ∷ []) rec in
      let closed = field floats (codes "closedDate" ∷ []) rec in
      record {
        open_to_resolve_days = days_between rt opened resolved;
        resolve_to_close_days = days_between rt resolved closed;
        open_to_close_days = days_between rt opened closed;
        actions = actions;
      }

  -- The analysis of a record with all comments and no notes.
  unfoldable pub packet_of : Fields floats.F → BugAnalysis floats.F
  unfolding content_of metrics_of
  packet_of rec =
      let found = action_insights rt rec in
      record {
        bug = record (bug_summary rt rec) { steps = [] };
        content = content_of rec found.timeline;
        metrics = metrics_of rec found.metrics;
        timeline = found.timeline;
        comments = found.comments;
        related = [];
        notes = [];
      }

  -- The analysis of a record, before the related bugs.
  unfoldable pub analysis_of : (comment_limit : ℤ) → Fields floats.F → BugAnalysis floats.F
  unfolding packet_of limit_comments note_no_actions
  analysis_of comment_limit rec = note_no_actions (limit_comments comment_limit (packet_of rec))

  -- `read` answers the detail of a bug, `related` is relatedBugs.
  module _ {E : Type 0} (read : (id : ℤ) → RequestFault E ⊎ Payload floats.F)
      (related : BugSummary floats.F → ℤ → Option (List (RelatedBug floats.F) × List Text)) where
    unfoldable pub analyze_read :
        AnalyzeRequest
        → RequestFault E ⊎ Payload floats.F
        → Option (RequestFault E ⊎ BugAnalysis floats.F)
    unfolding analysis_of with_related fields_of
    analyze_read req (inl e) = some (inl e)
    analyze_read req (inr payload) =
        let out = analysis_of req.comment_limit (fields_of payload) in
        let found = related out.bug req.related_limit in
        if req.include_related
        then and_then found (λ r. some (inr (with_related r out)))
        else some (inr out)

    unfoldable pub analyze_bug : AnalyzeRequest → Option (RequestFault E ⊎ BugAnalysis floats.F)
    unfolding analyze_read
    analyze_bug req = analyze_read req (read req.bug_id)
