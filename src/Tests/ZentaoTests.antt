-- ===== src/Tests/ZentaoTests.antt =====
-- internal/service/zentao/client.go and values.go on concrete inputs.
use zentao_mcp.Base.{
  ℕ, zero, suc, ◌≡◌, refl, true, ◌⊎◌, inl, inr, Option, none, some, List, [], ◌∷◌, not, ◌==◌,
}
use zentao_mcp.Base.Int.{pos, or_default, to_nat}
use zentao_mcp.Base.Text.{Text, codes, text_eq, trim_space}
use zentao_mcp.Json.{
  Value, null, float, str, arr, obj, nil, cons, Fields, end, entry, Floats, get, at,
}
use zentao_mcp.Zentao.Values.{
  field, field_from, field_int, is_null, is_blank, int_or_zero, to_int, arg_int, arg_string,
  as_string, plain_string, user_ref,
}
use zentao_mcp.Zentao.Values.Aliases.{field_lem, first_with, is_populated, or_else}
use zentao_mcp.Zentao.Payload.{first_array, to_records, pick_list}
use zentao_mcp.Zentao.Listing.{
  Outcome, done, failed, list_all, read_pages, after_fetch, after_turn, read_page, after_page,
  scan_page, take_record, over_budget, note_total, count_total, raise_total, append_record,
  truncate_for, finish_listing, note_id, record_id, member,
}
use zentao_mcp.Zentao.Listing.Pages.{Ended, list_all-Ended}
use zentao_mcp.Zentao.Listing.Origin.{IsFrom, page_size_of}
use zentao_mcp.Zentao.Listing.Result.{Promise, list_all-Promise}
use zentao_mcp.Zentao.Scope.{
  scope_selector, choose_scope, scan_aliases, alias_value, normalize_scope, folded, one_of, product,
  project,
}
use zentao_mcp.Zentao.Scope.Agreement.{Agreed, scope_selector-Agreed}

program : Unit {0}
unfolding list_all read_pages after_fetch after_turn read_page after_page scan_page take_record
    over_budget note_total count_total raise_total append_record truncate_for finish_listing note_id
    record_id member pick_list first_array to_records field field_from field_int is_null is_blank
    int_or_zero to_int at get text_eq to_nat or_default trim_space scope_selector choose_scope
    scan_aliases alias_value normalize_scope folded one_of arg_int arg_string as_string plain_string
    user_ref
program = tt

-- Whole numbers for float64.
abbrev whole : Floats
whole = record {
  F = ℕ;
  truncate = pos;
  small_int = λ n. some (pos n);
  format_float = λ n. [];
  parse_float = λ s. none;
  is_zero = λ n. n == 0;
  is_whole = λ n. true;
  sprint = λ v. [];
}

abbrev bug : ℕ → Value ℕ
bug n = obj (entry (codes "id") (float n) end)

-- A server with the bugs 1, 2, 2 and 3, two on a page.
abbrev bugs : (page_size page : ℕ) → Text ⊎ Fields ℕ
bugs page_size zero = inl (codes "no page")
bugs page_size (suc zero) = inr (
    entry (codes "total") (float 3)
      (entry (codes "bugs") (arr (cons (bug 1) (cons (bug 2) nil))) end))
bugs page_size (suc (suc n)) = inr (
    entry (codes "total") (float 3)
      (entry (codes "bugs") (arr (cons (bug 2) (cons (bug 3) nil))) end))

abbrev ids : List (Fields ℕ) → List ℕ
ids [] = []
ids (rec ∷ rs) = record_id whole rec ∷ ids rs

abbrev ids_of : Option (Outcome Text ℕ) → List ℕ
ids_of (some (done r)) = ids r.records
ids_of (some (failed e r)) = []
ids_of none = []

lists_three : ids_of (list_all whole bugs (pos 0)) ≡ 1 ∷ 2 ∷ []
unfolding program
lists_three = refl

list_all-Ended_example : Ended whole 2 (list_all whole bugs (pos 2))
unfolding or_default
list_all-Ended_example = list_all-Ended whole bugs (pos 2)

list_all-Promise_example :
    (out : Outcome Text ℕ) × (list_all whole bugs (pos 2) ≡ some out)
    × Promise whole out
    × IsFrom whole bugs (page_size_of (pos 2)) out
list_all-Promise_example = list_all-Promise whole bugs (pos 2)

abbrev of_product : Fields ℕ
of_product = entry (codes "productID") (float 10) (entry (codes "scopeID") (float 10) end)

scope_selector-Agreed_example : Agreed (λ c. c) whole of_product (product, pos 10)
unfolding program
scope_selector-Agreed_example =
    scope_selector-Agreed (λ c. c) whole of_product project (product, pos 10) refl

abbrev unset : Fields ℕ
unset = entry (codes "product") (str (codes " ")) (entry (codes "productID") (float 654) end)

abbrev aliases : List Text
aliases = codes "product" ∷ codes "productID" ∷ []

skips_blank : field whole aliases unset ≡ float 654
unfolding program
skips_blank = refl

field_lem_example :
    field whole aliases unset
    ≡ or_else whole
        (first_with whole (is_populated whole) aliases unset)
        (or_else whole (first_with whole (λ v. not (is_null whole v)) aliases unset) null)
field_lem_example = field_lem whole aliases unset
