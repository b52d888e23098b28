-- ===== src/Zentao/Bugs.antt =====
-- internal/service/zentao/bugs.go: the data of a bug search, and the order of bugs.
pub mod Request
pub mod Filters
pub mod Order
pub mod Describe
pub mod State
pub mod Search
use zentao_mcp.Base.{
  ℕ, zero, suc, Bool, true, false, not, ◌&&◌, ◌||◌, ◌⊎◌, inl, inr, Option, none, some, List, [],
  ◌∷◌, ◌++◌, if◌then◌else◌, ◌==◌,
}
use zentao_mcp.Base.Int.{ℤ, pos, to_nat, is_positive, is_negative, int_eq, int_less, ◌-ℤ◌}
use zentao_mcp.Base.Results.{◌>>=◌, with_error}
use zentao_mcp.Base.Sort.{sort_by}
use zentao_mcp.Base.Text.{Text, codes, text_eq, trim_space}
use zentao_mcp.Base.Strings.{text_less, cut_suffix, join, equal_fold, to_lower}
use zentao_mcp.Json.{Value, str, int, arr, Items, nil, cons, Fields, end, entry}
use zentao_mcp.Zentao.Values.{clamp, truncate, field, field_string, field_int, arg_string, arg_int}
use zentao_mcp.Zentao.Arguments.{arg_ints, match_user}
use zentao_mcp.Zentao.Dates.{InvalidArgument, normalize_day, month_window, within_range, date_only}
use zentao_mcp.Zentao.PlainText.{plain_text, contains_fold, days_between}
use zentao_mcp.Zentao.Runtime.{Runtime}
use zentao_mcp.Zentao.Scope.{ScopeError, product, scope_selector}

abbrev pub default_bug_limit : ℕ
default_bug_limit = 20

abbrev pub max_bug_limit : ℕ
max_bug_limit = 200

abbrev pub default_bug_scan : ℕ
default_bug_scan = 600

abbrev pub max_bug_scan : ℕ
max_bug_scan = 5000

abbrev pub default_scope_probe : ℕ
default_scope_probe = 30

abbrev pub steps_preview : ℕ
steps_preview = 200

pub record BugSummary (F : Type 0) : Type 0 where
  pub id : ℤ
  pub title : Text
  pub status : Text
  pub severity : ℤ
  pub pri : ℤ
  pub kind : Text
  pub product_id : ℤ
  pub project_id : ℤ
  pub execution_id : ℤ
  pub module_id : ℤ
  pub confirmed : ℤ
  pub activated_num : ℤ
  pub opened_by : Text
  pub opened_date : Text
  pub assigned_to : Text
  pub resolved_by : Text
  pub resolved_date : Text
  pub resolution : Text
  pub closed_by : Text
  pub closed_date : Text
  pub opened_build : Text
  pub ai_score : Text
  pub fix_days : Option F
  pub steps : Text
  pub scope : Text

pub record BugSearchRequest : Type 0 where
  pub scope : Text
  pub scope_id : ℤ
  pub scope_ids : List ℕ
  pub keyword : Text
  pub status : Text
  pub resolution : Text
  pub kind : Text
  pub severity : ℤ
  pub pri : ℤ
  pub module_id : ℤ
  pub assigned_to : Text
  pub opened_by : Text
  pub resolved_by : Text
  pub opened_after : Text
  pub opened_before : Text
  pub resolved_after : Text
  pub resolved_before : Text
  pub month : Text
  pub order_by : Text
  pub limit : ℕ
  pub max_scan : ℕ

pub data RequestError : Type 0 where
  bad_scope : ScopeError → RequestError
  bad_argument : InvalidArgument → RequestError

-- The field and whether the order is descending.
unfoldable pub parse_order_by : (lower : ℕ → ℕ) → Text → Text × Bool
unfolding cut_suffix to_lower
parse_order_by lower order_by =
    let s = to_lower lower (trim_space order_by) in
    if text_eq s [] then (codes "id", true) else elim (cut_suffix s (codes "_asc")) [
      | some trimmed ↦ (trimmed, false)
      | none ↦ elim (cut_suffix s (codes "_desc")) [
        | some trimmed ↦ (trimmed, true)
        | none ↦ (s, true)
      ]
    ]

-- strings.Compare
unfoldable pub compare_texts : Text → Text → ℤ
compare_texts s t = if text_less s t then ℤ.negsuc 0 else if text_less t s then pos 1 else pos 0

unfoldable pub compare_bugs : {F : Type 0} → BugSummary F → BugSummary F → Text → ℤ
unfolding compare_texts
compare_bugs a b name =
    if text_eq name (codes "severity")
    then a.severity -ℤ b.severity
    else if text_eq name (codes "pri")
    then a.pri -ℤ b.pri
    else if text_eq name (codes "openeddate")
    then compare_texts a.opened_date b.opened_date
    else if text_eq name (codes "resolveddate")
    then compare_texts a.resolved_date b.resolved_date
    else if text_eq name (codes "status")
    then compare_texts a.status b.status
    else a.id -ℤ b.id

-- The comparison that `sortBugs` passes to sort.SliceStable, with what compareBugs gives.
unfoldable pub goes_first : (desc : Bool) (c id_a id_b : ℤ) → Bool
goes_first desc c id_a id_b =
    if int_eq c (pos 0) then int_less id_b id_a else if desc then is_positive c else is_negative c

unfoldable pub bug_before : {F : Type 0} → Text × Bool → BugSummary F → BugSummary F → Bool
unfolding compare_bugs goes_first
bug_before order a b = goes_first order.1 (compare_bugs a b order.0) a.id b.id

unfoldable pub sort_bugs :
    {F : Type 0} → (lower : ℕ → ℕ) → List (BugSummary F) → Text → List (BugSummary F)
unfolding parse_order_by bug_before
sort_bugs lower bugs order_by = sort_by (bug_before (parse_order_by lower order_by)) bugs

unfoldable pub first_non_empty_text : List Text → Text
first_non_empty_text [] = []
first_non_empty_text (v ∷ vs) =
    let rest = first_non_empty_text vs in if text_eq (trim_space v) [] then rest else trim_space v
