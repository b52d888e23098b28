-- ===== src/Zentao/PlainText.antt =====
-- internal/service/zentao/values.go: plainText, containsFold and daysBetween.
use zentao_mcp.Base.{
  ℕ, zero, suc, Bool, true, false, ◌&&◌, ◌||◌, Option, none, some, List, [], ◌∷◌, map, ltb, leb,
  ◌==◌, if◌then◌else◌,
}
use zentao_mcp.Base.Text.{Text, codes, text_eq, trim_space}
use zentao_mcp.Base.Strings.{replace_all, split, join, has_infix, to_lower}
use zentao_mcp.Json.{Value}
use zentao_mcp.Zentao.Values.{as_string}
use zentao_mcp.Zentao.Dates.{parse_date}
use zentao_mcp.Zentao.Runtime.{Runtime}

abbrev pub line_breaks : List Text
line_breaks =
    codes "<br>"
    ∷ codes "<br/>"
    ∷ codes "<br />"
    ∷ codes "<BR>"
    ∷ codes "</p>"
    ∷ codes "</P>"
    ∷ codes "</div>"
    ∷ codes "</li>"
    ∷ codes "</tr>"
    ∷ []

unfoldable pub replace_each : List Text → Text → Text → Text
replace_each [] new s = s
replace_each (old ∷ olds) new s = replace_each olds new (replace_all s old new)

-- `[^>]*>`: the length of the match.
unfoldable pub close_length : Text → Option ℕ
close_length [] = none
close_length (c ∷ s) =
    let rest = close_length s in
    if c == b'>' then some 1 else elim rest [ none ↦ none | some n ↦ some (suc n) ]

unfoldable pub is_latin_letter : ℕ → Bool
is_latin_letter c = (leb b'A' c && leb c b'Z') || (leb b'a' c && leb c b'z')

-- `[A-Za-z][^>]*>`
unfoldable pub name_length : Text → Option ℕ
unfolding close_length is_latin_letter
name_length [] = none
name_length (c ∷ s) =
    if is_latin_letter c
    then elim (close_length s) [ none ↦ none | some n ↦ some (suc n) ]
    else none

-- `/?[A-Za-z][^>]*>`
unfoldable pub tag_length : Text → Option ℕ
unfolding name_length
tag_length [] = none
tag_length (c ∷ s) =
    if c == b'/'
    then elim (name_length s) [ none ↦ none | some n ↦ some (suc n) ]
    else name_length (c ∷ s)

-- `tagPattern.ReplaceAllString(s, " ")`; the first argument counts the characters of a tag that
-- are still to be passed over.
unfoldable pub replace_tags : ℕ → Text → Text
unfolding tag_length
replace_tags skip [] = []
replace_tags zero (c ∷ s) =
    let kept = c ∷ replace_tags zero s in
    let replaced = λ (n : ℕ). b' ' ∷ replace_tags n s in
    if c == b'<' then elim (tag_length s) [ none ↦ kept | some n ↦ replaced n ] else kept
replace_tags (suc skip) (c ∷ s) = replace_tags skip s

unfoldable pub is_blank_char : ℕ → Bool
is_blank_char c = c == b' ' || c == 9 || c == 0xa0

-- `spacePattern.ReplaceAllString(s, " ")`, inside a run of spaces or not.
unfoldable pub join_spaces : Bool → Text → Text
unfolding is_blank_char
join_spaces inside [] = []
join_spaces inside (c ∷ s) =
    let rest = join_spaces (is_blank_char c) s in
    if is_blank_char c then (if inside then rest else b' ' ∷ rest) else c ∷ rest

-- `blankPattern.ReplaceAllString(s, "\n\n")`, after a number of line feeds.
unfoldable pub join_lines : ℕ → Text → Text
join_lines count [] = []
join_lines count (c ∷ s) =
    let rest = join_lines (if c == 10 then suc count else 0) s in
    if c == 10 then (if ltb count 2 then c ∷ rest else rest) else c ∷ rest

module _ (rt : Runtime) where
  open rt use {floats, calendar, lower, unescape, is_earlier, rounded_days}

  -- `plainText` of a text that is not empty.
  unfoldable pub clean_text : Text → Text
  unfolding replace_each replace_tags join_spaces join_lines
  clean_text s =
      let broken = replace_each line_breaks (10 ∷ []) s in
      let plain = unescape (replace_tags 0 broken) in
      let unix = replace_all (replace_all plain (13 ∷ 10 ∷ []) (10 ∷ [])) (13 ∷ []) (10 ∷ []) in
      let lines = map trim_space (split (join_spaces false unix) 10) in
      trim_space (join_lines 0 (join lines (10 ∷ [])))

  unfoldable pub plain_text : Value floats.F → Text
  unfolding clean_text
  plain_text v = let s = as_string floats v in if text_eq s [] then [] else clean_text s

  unfoldable pub contains_fold : (haystack needle : Text) → Bool
  contains_fold haystack needle =
      if text_eq needle []
      then true
      else has_infix (to_lower lower haystack) (to_lower lower needle)

  -- `daysBetween`; `none` is (0, false).
  unfoldable pub days_of : (start stop : Option calendar.Time) → Option floats.F
  days_of none stop = none
  days_of (some start) none = none
  days_of (some start) (some stop) =
      if is_earlier stop start then none else some (rounded_days start stop)

  unfoldable pub days_between : (start stop : Value floats.F) → Option floats.F
  unfolding days_of
  days_between start stop =
      days_of (parse_date floats calendar start) (parse_date floats calendar stop)
