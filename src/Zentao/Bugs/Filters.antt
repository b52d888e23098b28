-- ===== src/Zentao/Bugs/Filters.antt =====
-- internal/service/zentao/bugs.go: matches, and bugSummary.
use zentao_mcp.Base.{Bool, true, false, not, ◌||◌, [], ◌∷◌, if◌then◌else◌}
use zentao_mcp.Base.Int.{ℤ, is_positive, int_eq}
use zentao_mcp.Base.Text.{Text, codes, text_eq}
use zentao_mcp.Base.Strings.{join, equal_fold}
use zentao_mcp.Json.{Fields}
use zentao_mcp.Zentao.Values.{truncate, field, field_string, field_int}
use zentao_mcp.Zentao.Arguments.{match_user}
use zentao_mcp.Zentao.Dates.{within_range, date_only}
use zentao_mcp.Zentao.PlainText.{plain_text, contains_fold, days_between}
use zentao_mcp.Zentao.Runtime.{Runtime}
use zentao_mcp.Zentao.Bugs.{BugSummary, BugSearchRequest, steps_preview}

module _ (rt : Runtime) where
  open rt use {floats, calendar, lower, same_letter}

  -- A filter on a text: `want` is empty or equal up to case.
  unfoldable pub same_text : (want : Text) → Text → Fields floats.F → Bool
  same_text want name rec =
      text_eq want [] || equal_fold same_letter (field_string floats (name ∷ []) rec) want

  unfoldable pub same_int : (want : ℤ) → Text → Fields floats.F → Bool
  same_int want name rec = not (is_positive want) || int_eq (field_int floats (name ∷ []) rec) want

  unfoldable pub same_person : (want : Text) → Text → Fields floats.F → Bool
  same_person want name rec = match_user floats lower (field floats (name ∷ []) rec) want

  unfoldable pub haystack_of : Fields floats.F → Text
  haystack_of rec =
      join
        (field_string floats (codes "title" ∷ []) rec
          ∷ plain_text rt (field floats (codes "steps" ∷ []) rec)
          ∷ field_string floats (codes "keywords" ∷ []) rec
          ∷ field_string floats (codes "moduleName" ∷ []) rec
          ∷ [])
        (10 ∷ [])

  unfoldable pub matches : BugSearchRequest → Fields floats.F → Bool
  unfolding same_text same_int same_person haystack_of
  matches req rec =
      if not (text_eq req.status (codes "all") || same_text req.status (codes "status") rec)
      then false
      else if not (same_text req.resolution (codes "resolution") rec)
      then false
      else if not (same_text req.kind (codes "type") rec)
      then false
      else if not (same_int req.severity (codes "severity") rec)
      then false
      else if not (same_int req.pri (codes "pri") rec)
      then false
      else if not (same_int req.module_id (codes "module") rec)
      then false
      else if not (same_person req.assigned_to (codes "assignedTo") rec)
      then false
      else if not (same_person req.opened_by (codes "openedBy") rec)
      then false
      else if not (same_person req.resolved_by (codes "resolvedBy") rec)
      then false
      else if not (
          within_range floats calendar (field floats (codes "openedDate" ∷ []) rec) req.opened_after
            req.opened_before)
      then false
      else if not (
          within_range floats calendar (field floats (codes "resolvedDate" ∷ []) rec)
            req.resolved_after req.resolved_before)
      then false
      else if not (text_eq req.keyword [])
      then contains_fold rt (haystack_of rec) req.keyword
      else true

  unfoldable pub bug_summary : Fields floats.F → BugSummary floats.F
  bug_summary rec = record {
    id = field_int floats (codes "id" ∷ []) rec;
    title = field_string floats (codes "title" ∷ []) rec;
    status = field_string floats (codes "status" ∷ []) rec;
    severity = field_int floats (codes "severity" ∷ []) rec;
    pri = field_int floats (codes "pri" ∷ []) rec;
    kind = field_string floats (codes "type" ∷ []) rec;
    product_id = field_int floats (codes "product" ∷ codes "productID" ∷ []) rec;
    project_id = field_int floats (codes "project" ∷ []) rec;
    execution_id = field_int floats (codes "execution" ∷ []) rec;
    module_id = field_int floats (codes "module" ∷ []) rec;
    confirmed = field_int floats (codes "confirmed" ∷ []) rec;
    activated_num = field_int floats (codes "activatedCount" ∷ []) rec;
    opened_by = field_string floats (codes "openedBy" ∷ []) rec;
    opened_date = date_only floats calendar (field floats (codes "openedDate" ∷ []) rec);
    assigned_to = field_string floats (codes "assignedTo" ∷ []) rec;
    resolved_by = field_string floats (codes "resolvedBy" ∷ []) rec;
    resolved_date = date_only floats calendar (field floats (codes "resolvedDate" ∷ []) rec);
    resolution = field_string floats (codes "resolution" ∷ []) rec;
    closed_by = field_string floats (codes "closedBy" ∷ []) rec;
    closed_date = date_only floats calendar (field floats (codes "closedDate" ∷ []) rec);
    opened_build = field_string floats (codes "openedBuild" ∷ []) rec;
    ai_score = field_string floats (codes "aiScore" ∷ []) rec;
    fix_days =
        days_between rt (field floats (codes "openedDate" ∷ []) rec)
          (field floats (codes "resolvedDate" ∷ []) rec);
    steps = truncate (plain_text rt (field floats (codes "steps" ∷ []) rec)) steps_preview;
    scope = [];
  }
