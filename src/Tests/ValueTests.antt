-- ===== src/Tests/ValueTests.antt =====
-- internal/service/zentao/values.go on concrete inputs: dates, ids and counters.
use zentao_mcp.Base.{
  ℕ, ◌≡◌, refl, true, ◌&&◌, none, some, List, [], ◌∷◌, ◌==◌, take, length, if◌then◌else◌,
}
use zentao_mcp.Base.Int.{pos, to_nat}
use zentao_mcp.Base.Text.{Text, codes, text_eq, trim_space, has_prefix}
use zentao_mcp.Base.Assoc.{Assoc}
use zentao_mcp.Json.{str, Fields, end, entry, Floats, at}
use zentao_mcp.Json.Numbers.{parse_int}
use zentao_mcp.Zentao.Values.{field, field_from, is_null, is_blank, as_string, plain_string}
use zentao_mcp.Base.Strings.{text_less}
use zentao_mcp.Zentao.Dates.{
  Calendar, parse_date, normalize_day, within_range, date_within, first_parsed, day_of,
}
use zentao_mcp.Zentao.Dates.Windows.{
  is_after, is_before, within_range_lem, Normalized, normalize_day_lem,
}
use zentao_mcp.Zentao.Arguments.{
  arg_ints, value_to_ints, fields_func, parts_to_ints, keep_positive, is_separator, top_n, ranked,
  counts_of, insert_ranked, ranks_before, NameCount,
}
use zentao_mcp.Zentao.Arguments.Ranking.{Ranking, top_n-Ranking}
use zentao_mcp.Zentao.Arguments.Positive.{Positive, arg_ints-Positive}

program : Unit {0}
unfolding parse_date normalize_day within_range date_within first_parsed day_of text_less text_eq
    trim_space has_prefix as_string plain_string field field_from is_null is_blank at arg_ints
    value_to_ints fields_func parts_to_ints keep_positive is_separator parse_int to_nat top_n ranked
    counts_of insert_ranked ranks_before
program = tt

abbrev whole : Floats
whole = record {
  F = ℕ;
  truncate = pos;
  small_int = λ n. none;
  format_float = λ n. [];
  parse_float = λ s. none;
  is_zero = λ n. n == 0;
  is_whole = λ n. true;
  sprint = λ v. [];
}

-- Days as they are written: the first ten characters.
abbrev written : Calendar
written = record {
  Time = Text;
  parse_zoned = λ layout s. none;
  parse_local = λ layout s. if length s == length layout then some s else none;
  parse_month = λ s. none;
  last_day = λ t. t;
  format = λ t layout. take (length layout) t;
}

august :
    within_range whole written
      (str (codes "2026-08-31 16:18:28"))
      (codes "2026-08-01")
      (codes "2026-08-31")
    ≡ true
unfolding program
august = refl

within_range_lem_example :
    within_range whole written (str (codes "2026-08-31 16:18:28")) (codes "2026-08-01") [] ≡ (
      is_after whole written
        (codes "2026-08-01")
        (parse_date whole written (str (codes "2026-08-31 16:18:28")))
      && is_before whole written [] (parse_date whole written (str (codes "2026-08-31 16:18:28"))))
within_range_lem_example =
    within_range_lem whole written (str (codes "2026-08-31 16:18:28")) (codes "2026-08-01") []

normalize_day_lem_example :
    Normalized whole written
      (codes "2026-08-01")
      (normalize_day whole written (codes "after") (codes "2026-08-01"))
normalize_day_lem_example = normalize_day_lem whole written (codes "after") (codes "2026-08-01")

abbrev args : Fields ℕ
args = entry (codes "ids") (str (codes "3, 0;12")) end

reads_two : arg_ints whole (codes "ids" ∷ []) args ≡ 3 ∷ 12 ∷ []
unfolding program
reads_two = refl

arg_ints-Positive_example : Positive (arg_ints whole (codes "ids" ∷ []) args)
arg_ints-Positive_example = arg_ints-Positive whole (codes "ids" ∷ []) args

abbrev counters : Assoc ℕ
counters = (codes "a", 1) ∷ (codes "b", 3) ∷ ([], 9) ∷ (codes "c", 3) ∷ []

names_of : List NameCount → List Text
names_of [] = []
names_of (e ∷ es) = e.name ∷ names_of es

top_two : names_of (top_n counters (pos 2)) ≡ codes "b" ∷ codes "c" ∷ []
unfolding program names_of
top_two = refl

top_n-Ranking_example : Ranking counters 2 (top_n counters (pos 2))
unfolding to_nat
top_n-Ranking_example = top_n-Ranking counters (pos 2)
