-- ===== src/Zentao/Similarity.antt =====
-- internal/service/zentao/values.go: titleTokens and similarity.
use zentao_mcp.Base.{
  ℕ, suc, ◌+◌, ◌-◌, Bool, ◌&&◌, ◌||◌, List, [], ◌∷◌, if◌then◌else◌, ltb, leb, ◌==◌, length,
}
use zentao_mcp.Base.Text.{Text}
use zentao_mcp.Base.Strings.{to_lower}
use zentao_mcp.Bugindex.Tokenize.{runs, has_text, dedupe}

-- `[a-z0-9_]`
unfoldable pub is_title_char : ℕ → Bool
is_title_char c = (leb b'a' c && leb c b'z') || (leb b'0' c && leb c b'9') || c == b'_'

-- The runs of two or more characters; the characters of a run are single bytes.
unfoldable pub two_or_more : List Text → List Text
two_or_more [] = []
two_or_more (w ∷ ws) = let rest = two_or_more ws in if ltb (length w) 2 then rest else w ∷ rest

-- The pairs of neighbours in a run, before `rest`.
unfoldable pub bigrams : Text → List Text → List Text
bigrams [] rest = rest
bigrams (c ∷ []) rest = rest
bigrams (c ∷ d ∷ s) rest = (c ∷ d ∷ []) ∷ bigrams (d ∷ s) rest

unfoldable pub all_bigrams : List Text → List Text → List Text
unfolding bigrams
all_bigrams [] rest = rest
all_bigrams (run ∷ more) rest = bigrams run (all_bigrams more rest)

-- `titleTokens`: a set, as a list without repetitions.
unfoldable pub title_tokens : (lower : ℕ → ℕ) → (is_han : ℕ → Bool) → Text → List Text
unfolding two_or_more all_bigrams is_title_char
title_tokens lower is_han s =
    let words = two_or_more (runs is_title_char is_title_char [] (to_lower lower s)) in
    dedupe (all_bigrams (runs is_han is_han [] s) words)

-- How many of the first tokens are among the others.
unfoldable pub shared_tokens : (small large : List Text) → ℕ
unfolding has_text
shared_tokens [] large = 0
shared_tokens (k ∷ ks) large =
    let rest = shared_tokens ks large in if has_text k large then suc rest else rest

-- `similarity`; `rounded_ratio` is math.Round(float64(n)/float64(d)*1000) / 1000.
unfoldable pub similarity :
    {F : Type 0} → (zero_float : F) → (rounded_ratio : (n d : ℕ) → F) → (a b : List Text) → F
unfolding shared_tokens
similarity zero_float rounded_ratio a b =
    let inter = if ltb (length b) (length a) then shared_tokens b a else shared_tokens a b in
    let union = length a + length b - inter in
    if length a == 0 || length b == 0
    then zero_float
    else if union == 0
    then zero_float
    else rounded_ratio inter union
