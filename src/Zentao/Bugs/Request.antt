-- ===== src/Zentao/Bugs/Request.antt =====
-- internal/service/zentao/bugs.go: BugSearchRequestFrom.
pub mod Limits
use zentao_mcp.Base.{not, ◌&&◌, ◌⊎◌, inr, [], ◌∷◌, if◌then◌else◌}
use zentao_mcp.Base.Int.{ℤ, pos}
use zentao_mcp.Base.Results.{◌>>=◌, with_error}
use zentao_mcp.Base.Text.{Text, codes, text_eq}
use zentao_mcp.Base.Strings.{to_lower}
use zentao_mcp.Json.{Fields}
use zentao_mcp.Zentao.Values.{clamp, arg_string, arg_int}
use zentao_mcp.Zentao.Arguments.{arg_ints}
use zentao_mcp.Zentao.Dates.{normalize_day, month_window}
use zentao_mcp.Zentao.Runtime.{Runtime}
use zentao_mcp.Zentao.Scope.{product, scope_selector}
use zentao_mcp.Zentao.Bugs.{
  BugSearchRequest, RequestError, bad_scope, bad_argument, default_bug_limit, max_bug_limit,
  default_bug_scan, max_bug_scan,
}

module _ (rt : Runtime) where
  open rt use {floats, calendar, lower, same_letter}

  unfoldable pub day_argument : Text → Fields floats.F → RequestError ⊎ Text
  day_argument name args =
      with_error bad_argument
        (normalize_day floats calendar name (arg_string floats (name ∷ []) args))

  -- The arguments that cannot be refused, with the scope and the days.
  unfoldable pub decoded_request :
      Fields floats.F
      → Text × ℤ
      → (opened_after opened_before resolved_after resolved_before : Text) → BugSearchRequest
  unfolding to_lower
  decoded_request args sel opened_after opened_before resolved_after resolved_before = record {
    scope = sel.0;
    scope_id = sel.1;
    scope_ids = arg_ints floats (codes "scopeIDs" ∷ codes "productIDs" ∷ []) args;
    keyword = arg_string floats (codes "keyword" ∷ []) args;
    status = to_lower lower (arg_string floats (codes "status" ∷ []) args);
    resolution = to_lower lower (arg_string floats (codes "resolution" ∷ []) args);
    kind = to_lower lower (arg_string floats (codes "type" ∷ []) args);
    severity = arg_int floats (codes "severity") (pos 0) args;
    pri = arg_int floats (codes "pri") (pos 0) args;
    module_id = arg_int floats (codes "module") (pos 0) args;
    assigned_to = arg_string floats (codes "assignedTo" ∷ []) args;
    opened_by = arg_string floats (codes "openedBy" ∷ []) args;
    resolved_by = arg_string floats (codes "resolvedBy" ∷ []) args;
    opened_after = opened_after;
    opened_before = opened_before;
    resolved_after = resolved_after;
    resolved_before = resolved_before;
    month = arg_string floats (codes "month" ∷ []) args;
    order_by = arg_string floats (codes "orderBy" ∷ []) args;
    limit = clamp (arg_int floats (codes "limit") (pos default_bug_limit) args) 1 max_bug_limit;
    max_scan = clamp (arg_int floats (codes "maxScan") (pos default_bug_scan) args) 1 max_bug_scan;
  }

  -- A month stands for the opening days if none were given.
  unfoldable pub with_month : Text × Text → BugSearchRequest → BugSearchRequest
  with_month w req =
      if not (text_eq w.0 []) && text_eq req.opened_after [] && text_eq req.opened_before []
      then record req { opened_after = w.0; opened_before = w.1 }
      else req

  unfoldable pub bug_search_request_from : Fields floats.F → RequestError ⊎ BugSearchRequest
  unfolding day_argument decoded_request with_month
  bug_search_request_from args = do
    sel ← with_error bad_scope (scope_selector lower floats args product)
    opened_after ← day_argument (codes "openedAfter") args
    opened_before ← day_argument (codes "openedBefore") args
    resolved_after ← day_argument (codes "resolvedAfter") args
    resolved_before ← day_argument (codes "resolvedBefore") args
    let req = decoded_request args sel opened_after opened_before resolved_after resolved_before
    w ← with_error bad_argument (month_window floats calendar req.month)
    inr (with_month w req)
