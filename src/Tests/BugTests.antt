-- ===== src/Tests/BugTests.antt =====
-- internal/service/zentao/bugs.go on concrete inputs: the order of bugs, the request and a search.
use zentao_mcp.Base.{
  Bool, ℕ, ◌≡◌, refl, ◌+◌, ◌&&◌, zero, suc, Option, ◌<◌, ◌^◌, true, false, none, some, inl, inr,
  ◌⊎◌, List, [], ◌∷◌, ◌==◌, ltb, take, length, if◌then◌else◌, arith,
}
use zentao_mcp.Base.Results.{Accepts}
use zentao_mcp.Base.Int.{ℤ, pos}
use zentao_mcp.Base.Sort.{Sorted}
use zentao_mcp.Base.Text.{Text, codes, text_eq}
use zentao_mcp.Json.{Value, str, float, arr, nil, cons, Fields, end, entry, obj}
use zentao_mcp.Zentao.Runtime.{Runtime}
use zentao_mcp.Zentao.Bugs.{BugSummary, BugSearchRequest, sort_bugs, parse_order_by}
use zentao_mcp.Zentao.Bugs.Order.{HasSmallNumbers, ordered_before}
use zentao_mcp.Zentao.Bugs.Order.Asked.{Asks, sort_bugs_lem}
use zentao_mcp.Zentao.Bugs.Request.{bug_search_request_from}
use zentao_mcp.Zentao.Bugs.Request.Limits.{IsValid, bug_search_request_from-IsValid}
use zentao_mcp.Zentao.Bugs.State.{Query, ReadError, BugSearchResult}
use zentao_mcp.Zentao.Bugs.Search.{search_bugs}
use zentao_mcp.Base.Int.{
  or_default, to_nat, is_positive, is_negative, int_less, int_eq, to_word, of_word, ◌-ℤ◌,
}
use zentao_mcp.Base.Text.{has_prefix, byte_len, is_space, trim_left, trim_space}
use zentao_mcp.Base.Strings.{
  text_less, has_infix, drop, cut_suffix, replace_all, split, join, equal_fold, to_lower,
}
use zentao_mcp.Base.Sort.{insert_by, sort_by}
use zentao_mcp.Json.{get, at}
use zentao_mcp.Json.Numbers.{format_nat, format_int, parse_int, parse_bool}
use zentao_mcp.Zentao.Values.{
  to_int, clamp, truncate, plain_string, user_ref_from, user_ref, as_string, float_to_int,
  text_to_int, int_or_zero, is_null, is_blank, field_from, field, field_string, field_int,
  arg_string, arg_int,
}
use zentao_mcp.Zentao.Payload.{to_records, first_array, pick_list}
use zentao_mcp.Zentao.Listing.{
  member, note_id, append_record, truncate_for, finish_listing, raise_total, take_record,
  over_budget, count_total, after_page, after_turn, after_fetch, record_id, note_total, scan_page,
  read_page, read_pages, list_all,
}
use zentao_mcp.Zentao.Scope.{
  one_of, allowed, path_of, collection_path, checked_scope, is_zero_int, choose_scope, folded,
  resolve_object, object_path, normalize_scope, alias_value, scan_aliases, scope_selector,
}
use zentao_mcp.Zentao.Arguments.{
  keep_positive, is_separator, fields_func, parts_to_ints, counts_of, ranks_before, insert_ranked,
  ranked, top_n, count_at, bump, items_to_ints, value_to_ints, arg_ints, bool_or, value_to_bool,
  arg_bool, to_float, comment_score, same_user, match_ref, match_value, match_user,
}
use zentao_mcp.Zentao.Dates.{
  first_parsed, parse_date, formatted, date_only, date_time, day_of, normalize_day, month_days,
  month_range, window_of, month_window, date_within, within_range,
}
use zentao_mcp.Zentao.PlainText.{
  replace_each, close_length, is_latin_letter, name_length, tag_length, replace_tags, is_blank_char,
  join_spaces, join_lines, clean_text, plain_text, contains_fold, days_of, days_between,
}
use zentao_mcp.Zentao.Bugs.{
  compare_texts, compare_bugs, goes_first, bug_before, first_non_empty_text,
}
use zentao_mcp.Zentao.Bugs.Filters.{
  same_text, same_int, same_person, haystack_of, matches, bug_summary,
}
use zentao_mcp.Zentao.Bugs.State.{
  distinct_targets, count_bug, add_facet, facets_of, limit_note, exhausted, add_scope,
  scanned_target, charge, add_match, finish_search,
}
use zentao_mcp.Zentao.Bugs.Search.{
  scope_label, take_bug, take_bugs, after_list, read_list, scan_targets, product_targets,
  probe_notes, product_scopes, bug_scopes,
}
use zentao_mcp.Base.Assoc.{lookup, insert, drop_where, delete}
use mathlib.Core.List.{Perm}

-- Numbers are whole, days are their first ten characters, and only ASCII has a lower case.
abbrev pub machine : Runtime
machine = record {
  floats = record {
    F = ℕ;
    truncate = pos;
    small_int = λ n. none;
    format_float = λ n. [];
    parse_float = λ s. none;
    is_zero = λ n. n == 0;
    is_whole = λ n. true;
    sprint = λ v. [];
  };
  calendar = record {
    Time = Text;
    parse_zoned = λ layout s. none;
    parse_local = λ layout s. if length s == length layout then some s else none;
    parse_month = λ s. none;
    last_day = λ t. t;
    format = λ t layout. take (length layout) t;
  };
  lower = λ c. if ltb 64 c && ltb c 91 then c + 32 else c;
  same_letter = λ a b. a == b;
  unescape = λ s. s;
  is_earlier = λ t u. false;
  rounded_days = λ t u. 0;
  zero_float = 0;
  add_float = λ a b. a + b;
  rounded_mean = λ a n. a;
}

abbrev pub bug : (id severity : ℕ) → BugSummary ℕ
bug id severity = record {
  id = pos id;
  title = [];
  status = [];
  severity = pos severity;
  pri = pos 1;
  kind = [];
  product_id = pos 1;
  project_id = pos 0;
  execution_id = pos 0;
  module_id = pos 0;
  confirmed = pos 0;
  activated_num = pos 0;
  opened_by = [];
  opened_date = [];
  assigned_to = [];
  resolved_by = [];
  resolved_date = [];
  resolution = [];
  closed_by = [];
  closed_date = [];
  opened_build = [];
  ai_score = [];
  fix_days = none;
  steps = [];
  scope = [];
}

abbrev bugs : List (BugSummary ℕ)
bugs = bug 1 3 ∷ bug 2 1 ∷ bug 3 3 ∷ []

bug-HasSmallNumbers :
    {id severity : ℕ} → id < 2 ^ 62 → severity < 2 ^ 62 → HasSmallNumbers (bug id severity)
bug-HasSmallNumbers h k = record { severity = k; pri = omega arith; id = h }

sort_bugs_lem_example :
    (order : Text × Bool) × Asks (to_lower machine.lower (trim_space (codes "severity_asc"))) order
    × Perm (sort_bugs machine.lower bugs (codes "severity_asc")) bugs
    × Sorted (ordered_before order) (sort_bugs machine.lower bugs (codes "severity_asc"))
sort_bugs_lem_example = sort_bugs_lem machine.lower bugs (codes "severity_asc") (
  bug-HasSmallNumbers (omega arith) (omega arith),
  (
    bug-HasSmallNumbers (omega arith) (omega arith),
    (bug-HasSmallNumbers (omega arith) (omega arith), tt),
  ),
)

abbrev args : Fields ℕ
args =
    entry (codes "productID") (float 7) (
      entry (codes "openedAfter") (str (codes "2026-08-01"))
        (entry (codes "limit") (float 999) end))

bug_search_request_from-IsValid_example :
    Accepts (IsValid machine) (bug_search_request_from machine args)
bug_search_request_from-IsValid_example = bug_search_request_from-IsValid machine args

abbrev active_bugs : BugSearchRequest
active_bugs = record {
  scope = codes "product";
  scope_id = pos 7;
  scope_ids = [];
  keyword = [];
  status = codes "active";
  resolution = [];
  kind = [];
  severity = pos 0;
  pri = pos 0;
  module_id = pos 0;
  assigned_to = [];
  opened_by = [];
  resolved_by = [];
  opened_after = [];
  opened_before = [];
  resolved_after = [];
  resolved_before = [];
  month = [];
  order_by = codes "severity_desc";
  limit = 1;
  max_scan = 100;
}

abbrev record_of : (id severity : ℕ) (status : Text) → Value ℕ
record_of id severity status = obj (
    entry (codes "id") (float id)
      (entry (codes "severity") (float severity) (entry (codes "status") (str status) end)))

-- A server with three bugs, one of them closed, that answers every path alike.
abbrev server : (path : Text) → Query → (page_size page : ℕ) → Text ⊎ Fields ℕ
server path query page_size zero = inl (codes "no page")
server path query page_size (suc n) = inr (
    entry (codes "total") (float 3) (
      entry (codes "bugs")
        (arr (
          cons (record_of 1 2 (codes "active"))
            (cons (record_of 2 3 (codes "closed")) (cons (record_of 3 3 (codes "active")) nil))))
        end))

program : Unit {0}
unfolding or_default to_nat is_positive is_negative int_less int_eq to_word of_word ◌-ℤ◌ text_eq
    has_prefix byte_len is_space trim_left trim_space text_less has_infix drop cut_suffix
    replace_all split join equal_fold to_lower insert_by sort_by get at format_nat format_int
    parse_int parse_bool clamp truncate plain_string user_ref_from user_ref as_string float_to_int
    text_to_int int_or_zero is_null is_blank field_from field field_string field_int arg_string
    arg_int to_records first_array pick_list member note_id append_record truncate_for
    finish_listing raise_total take_record over_budget count_total after_page after_turn after_fetch
    record_id note_total scan_page read_page read_pages list_all one_of allowed path_of
    collection_path checked_scope is_zero_int choose_scope folded resolve_object object_path
    normalize_scope alias_value scan_aliases scope_selector keep_positive is_separator fields_func
    parts_to_ints counts_of ranks_before insert_ranked ranked top_n count_at bump items_to_ints
    value_to_ints arg_ints bool_or value_to_bool arg_bool to_float comment_score same_user match_ref
    match_value match_user first_parsed parse_date formatted date_only date_time day_of
    normalize_day month_days month_range window_of month_window date_within within_range
    replace_each close_length is_latin_letter name_length tag_length replace_tags is_blank_char
    join_spaces join_lines clean_text plain_text contains_fold days_of days_between parse_order_by
    compare_texts compare_bugs goes_first bug_before sort_bugs first_non_empty_text same_text
    same_int same_person haystack_of matches bug_summary distinct_targets count_bug add_facet
    facets_of limit_note exhausted add_scope scanned_target charge add_match finish_search
    scope_label take_bug take_bugs after_list read_list scan_targets product_targets probe_notes
    product_scopes bug_scopes search_bugs lookup insert drop_where delete
program = tt

abbrev summary_of : Option (ReadError Text ⊎ BugSearchResult Text ℕ) → List ℤ × ℕ
summary_of none = ([], 0)
summary_of (some (inl e)) = ([], 0)
summary_of (some (inr res)) = (ids res.bugs, res.matched)
  where
    ids : List (BugSummary ℕ) → List ℤ
    ids [] = []
    ids (b ∷ bs) = b.id ∷ ids bs

finds_the_worst : summary_of (search_bugs machine server active_bugs) ≡ (pos 3 ∷ [], 2)
unfolding program to_int
finds_the_worst = refl
