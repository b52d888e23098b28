-- ===== src/Bugindex/Tokenize.antt =====
-- internal/service/bugindex/tokenize.go, and the keys of search.go.
use zentao_mcp.Base.{
  ℕ, zero, suc, ◌+◌, ◌-◌, Bool, false, ◌&&◌, ◌||◌, Option, none, some, List, [], ◌∷◌, ◌++◌, ltb,
  leb, ◌==◌, if◌then◌else◌, length, take,
}
use zentao_mcp.Base.Int.{ℤ, to_nat}
use zentao_mcp.Base.Text.{Text, codes, text_eq, trim_space, byte_len, has_prefix}
use zentao_mcp.Base.Strings.{to_lower, drop}
use zentao_mcp.Zentao.PlainText.{replace_each, replace_tags}

abbrev pub min_latin_token : ℕ
min_latin_token = 2

unfoldable pub is_alphanumeric : ℕ → Bool
is_alphanumeric c =
    (leb b'A' c && leb c b'Z') || (leb b'a' c && leb c b'z') || (leb b'0' c && leb c b'9')

-- `[A-Za-z0-9_.\-]`
unfoldable pub is_word_char : ℕ → Bool
unfolding is_alphanumeric
is_word_char c = is_alphanumeric c || c == b'_' || c == b'.' || c == b'-'

-- The matches of a pattern that is a character of `start` and then characters of `more`, all of
-- them; `run` holds the match so far. A character of `start` is one of `more`.
unfoldable pub runs : (start more : ℕ → Bool) → (run : Text) → Text → List Text
runs start more run [] = if text_eq run [] then [] else run ∷ []
runs start more run (c ∷ s) =
    let begun = runs start more (c ∷ []) s in
    let longer = runs start more (run ++ c ∷ []) s in
    let passed = runs start more [] s in
    if text_eq run []
    then (if start c then begun else passed)
    else if more c
    then longer
    else run ∷ passed

-- `latinPattern.FindAllString(text, -1)`
unfoldable pub latin_runs : Text → List Text
unfolding runs is_alphanumeric is_word_char
latin_runs s = runs is_alphanumeric is_word_char [] s

unfoldable pub long_words : (lower : ℕ → ℕ) → List Text → List Text
unfolding to_lower
long_words lower [] = []
long_words lower (w ∷ ws) =
    let rest = long_words lower ws in
    if leb min_latin_token (byte_len w) then to_lower lower w ∷ rest else rest

-- The characters of a run, each followed by the pair that it begins.
unfoldable pub grams : Text → List Text
grams [] = []
grams (c ∷ []) = (c ∷ []) ∷ []
grams (c ∷ d ∷ s) = (c ∷ []) ∷ (c ∷ d ∷ []) ∷ grams (d ∷ s)

unfoldable pub all_grams : List Text → List Text
unfolding grams
all_grams [] = []
all_grams (run ∷ rest) = grams run ++ all_grams rest

unfoldable pub tokenize : (lower : ℕ → ℕ) → (is_han : ℕ → Bool) → Text → List Text
unfolding latin_runs long_words runs all_grams
tokenize lower is_han text =
    if text_eq text []
    then []
    else long_words lower (latin_runs text) ++ all_grams (runs is_han is_han [] text)

-- `[^】]*】`: what stands before the bracket.
unfoldable pub until_bracket : Text → Option Text
until_bracket [] = none
until_bracket (c ∷ s) =
    let rest = until_bracket s in
    if c == 0x3011 then some [] else elim rest [ none ↦ none | some t ↦ some (c ∷ t) ]

-- `[^】]{1,40}】`
unfoldable pub tag_at : Text → Option Text
unfolding until_bracket
tag_at s = elim (until_bracket s) [
  | none ↦ none
  | some t ↦ if ltb 0 (length t) && leb (length t) 40 then some t else none
]

-- The matches of `bracketTag`; the first argument counts the characters of a match that are still
-- to be passed over.
unfoldable pub bracket_tags : ℕ → Text → List Text
unfolding tag_at
bracket_tags skip [] = []
bracket_tags zero (c ∷ s) =
    let passed = bracket_tags zero s in
    let found = λ (t : Text). t ∷ bracket_tags (length t + 1) s in
    if c == 0x3010 then elim (tag_at s) [ none ↦ passed | some t ↦ found t ] else passed
bracket_tags (suc skip) (c ∷ s) = bracket_tags skip s

unfoldable pub trimmed_tags : List Text → List Text
trimmed_tags [] = []
trimmed_tags (t ∷ ts) =
    let rest = trimmed_tags ts in if text_eq (trim_space t) [] then rest else trim_space t ∷ rest

unfoldable pub extract_tags : Text → List Text
unfolding bracket_tags trimmed_tags
extract_tags title = trimmed_tags (bracket_tags 0 title)

unfoldable pub has_text : Text → List Text → Bool
has_text t [] = false
has_text t (s ∷ ss) = text_eq s t || has_text t ss

-- `dedupe`, with the tokens seen so far.
unfoldable pub dedupe_from : List Text → List Text → List Text
unfolding has_text
dedupe_from seen [] = []
dedupe_from seen (t ∷ ts) =
    let skipped = dedupe_from seen ts in
    let taken = t ∷ dedupe_from (t ∷ seen) ts in if has_text t seen then skipped else taken

unfoldable pub dedupe : List Text → List Text
unfolding dedupe_from
dedupe tokens = dedupe_from [] tokens

unfoldable pub normalize_key : (lower : ℕ → ℕ) → Text → Text
unfolding to_lower
normalize_key lower s = to_lower lower (trim_space s)

-- The keys that `add` of dedupedKeys does not drop for their length.
unfoldable pub long_keys : (lower : ℕ → ℕ) → List Text → List Text
unfolding normalize_key
long_keys lower [] = []
long_keys lower (s ∷ ss) =
    let rest = long_keys lower ss in
    let k = normalize_key lower s in
    if text_eq k [] || ltb (byte_len k) min_latin_token then rest else k ∷ rest

unfoldable pub deduped_keys : (lower : ℕ → ℕ) → (tags : List Text) → (title : Text) → List Text
unfolding dedupe long_keys latin_runs
deduped_keys lower tags title = dedupe (long_keys lower (tags ++ latin_runs title))

unfoldable pub query_boost_keys : (lower : ℕ → ℕ) → Text → List Text
unfolding deduped_keys extract_tags
query_boost_keys lower text = deduped_keys lower (extract_tags text) text

-- `.*?-->`: the length of the match.
unfoldable pub comment_length : Text → Option ℕ
comment_length [] = none
comment_length (c ∷ s) =
    let rest = comment_length s in
    if has_prefix (c ∷ s) (codes "-->")
    then some 3
    else elim rest [ none ↦ none | some n ↦ some (suc n) ]

-- `commentPattern.ReplaceAllString(s, " ")`
unfoldable pub replace_comments : ℕ → Text → Text
unfolding comment_length drop
replace_comments skip [] = []
replace_comments zero (c ∷ s) =
    let kept = c ∷ replace_comments zero s in
    let replaced = λ (n : ℕ). b' ' ∷ replace_comments n s in
    if has_prefix (c ∷ s) (codes "<!--")
    then elim (comment_length (drop 3 s)) [ none ↦ kept | some n ↦ replaced (n + 3) ]
    else kept
replace_comments (suc skip) (c ∷ s) = replace_comments skip s

-- The entity at the front of a text, with its length and what stands for it.
unfoldable pub entity_at : Text → Option (ℕ × Text)
entity_at s =
    if has_prefix s (codes "&nbsp;")
    then some (6, codes " ")
    else if has_prefix s (codes "&amp;")
    then some (5, codes "&")
    else if has_prefix s (codes "&lt;")
    then some (4, codes "<")
    else if has_prefix s (codes "&gt;")
    then some (4, codes ">")
    else if has_prefix s (codes "&quot;")
    then some (6, b'"' ∷ [])
    else none

-- `Replace` of the strings.Replacer for the entities.
unfoldable pub replace_entities : ℕ → Text → Text
unfolding entity_at
replace_entities skip [] = []
replace_entities zero (c ∷ s) =
    let kept = c ∷ replace_entities zero s in
    let replaced = λ (n : ℕ) (t : Text). t ++ replace_entities (n - 1) s in
    elim (entity_at (c ∷ s)) [ none ↦ kept | some (n, t) ↦ replaced n t ]
replace_entities (suc skip) (c ∷ s) = replace_entities skip s

-- `\s`
unfoldable pub is_white : ℕ → Bool
is_white c = c == 9 || c == 10 || c == 12 || c == 13 || c == b' '

-- `spacePattern.ReplaceAllString(s, " ")`, inside a run of white space or not.
unfoldable pub join_white : Bool → Text → Text
unfolding is_white
join_white inside [] = []
join_white inside (c ∷ s) =
    let rest = join_white (is_white c) s in
    if is_white c then (if inside then rest else b' ' ∷ rest) else c ∷ rest

abbrev pub block_ends : List Text
block_ends =
    codes "<br>"
    ∷ codes "<br/>"
    ∷ codes "<br />"
    ∷ codes "</p>"
    ∷ codes "</div>"
    ∷ codes "</li>"
    ∷ codes "</tr>"
    ∷ []

-- `PlainText`
unfoldable pub strip_markup : Text → Text
unfolding replace_comments replace_entities join_white
strip_markup s =
    if text_eq s []
    then []
    else let plain = replace_tags 0 (replace_comments 0 (replace_each block_ends (codes " ") s)) in
      trim_space (join_white false (replace_entities 0 plain))

unfoldable pub clip : Text → ℤ → Text
clip s limit =
    if to_nat limit == 0 || leb (length s) (to_nat limit) then s else take (to_nat limit) s
