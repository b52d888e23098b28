-- ===== src/Bugindex/Build/Counts.antt =====
-- internal/service/bugindex/package.go: the token counts of a document.
use zentao_mcp.Base.{
  ℕ, ◌+◌, ◌%◌, ◌^◌, ◌<◌, ◌≡◌, ◌||◌, List, [], ◌∷◌, arith, if◌then◌else◌, is_some, Bool-cases, inl,
  inr,
}
use zentao_mcp.Base.Text.{Text, text_eq, text_eq_iff}
use zentao_mcp.Base.Assoc.{Assoc, lookup, insert, lookup-insert}
use zentao_mcp.Base.Unique.{Unique, Unique-insert}
use zentao_mcp.Bugindex.{Arithmetic, Doc}
use zentao_mcp.Bugindex.Tokenize.{tokenize, has_text}
use zentao_mcp.Bugindex.Build.{tf_or_zero, count_tokens, doc_counts}

-- The weight of a token in a list: its occurrences times `weight`.
unfoldable pub weight_in : (weight : ℕ) → Text → List Text → ℕ
weight_in weight tok [] = 0
weight_in weight tok (t ∷ ts) = (if text_eq t tok then weight else 0) + weight_in weight tok ts

pub count_tokens-Unique :
    (weight : ℕ) (toks : List Text) (counts : Assoc ℕ)
    → Unique counts
    → Unique (count_tokens weight toks counts)
unfolding count_tokens
count_tokens-Unique weight [] counts u = u
count_tokens-Unique weight (tok ∷ toks) counts u =
    count_tokens-Unique weight toks _ (Unique-insert tok _ counts u)

is_some-count_tokens :
    (tok : Text) (weight : ℕ) (toks : List Text) (counts : Assoc ℕ)
    → is_some (lookup tok (count_tokens weight toks counts))
      ≡ (is_some (lookup tok counts) || has_text tok toks)
unfolding count_tokens has_text
is_some-count_tokens tok weight [] counts = ground arith
is_some-count_tokens tok weight (t ∷ toks) counts = ground (
  arith,
  is_some-count_tokens tok weight toks
      (insert t ((tf_or_zero (lookup t counts) + weight) % 2 ^ 32) counts),
  lookup-insert t tok ((tf_or_zero (lookup t counts) + weight) % 2 ^ 32) counts,
)

tf-insert :
    (tok t : Text) (n : ℕ) (counts : Assoc ℕ)
    → tf_or_zero (lookup tok (insert t n counts))
      ≡ (if text_eq t tok then n else tf_or_zero (lookup tok counts))
unfolding tf_or_zero
tf-insert tok t n counts = ground (arith, lookup-insert t tok n counts)

tf-count_tokens :
    (tok : Text) (weight : ℕ) (toks : List Text) (counts : Assoc ℕ)
    → tf_or_zero (lookup tok counts) + weight_in weight tok toks < 2 ^ 32
    → tf_or_zero (lookup tok (count_tokens weight toks counts))
      ≡ tf_or_zero (lookup tok counts) + weight_in weight tok toks
unfolding count_tokens weight_in
tf-count_tokens tok weight [] counts h = omega arith
tf-count_tokens tok weight (t ∷ toks) counts h =
    let n : ℕ = (tf_or_zero (lookup t counts) + weight) % 2 ^ 32 in
    elim (Bool-cases (text_eq t tok)) [
      | inl hit ↦
          let e : t ≡ tok = (text_eq_iff t tok).0 hit in
          let i : tf_or_zero (lookup tok (insert t n counts)) ≡ n =
            rw (tf-insert tok t n counts, hit) in
          let k : n ≡ tf_or_zero (lookup tok counts) + weight = rw e (ground arith) in
          ground (arith, tf-count_tokens tok weight toks (insert t n counts))
      | inr miss ↦
          let i : tf_or_zero (lookup tok (insert t n counts)) ≡ tf_or_zero (lookup tok counts) =
            rw (tf-insert tok t n counts, miss) in
          ground (arith, tf-count_tokens tok weight toks (insert t n counts))
    ]

module _ (ar : Arithmetic) where
  open ar use {lower, is_han}

  -- The weight of a token in a document: twice in the title, once in the body.
  unfoldable pub doc_weight : Text → Doc → ℕ
  doc_weight tok d =
      weight_in 2 tok (tokenize lower is_han d.title)
      + weight_in 1 tok (tokenize lower is_han d.body)

  -- A token is counted exactly when it stands in the title or in the body.
  pub is_some-doc_counts :
      (tok : Text) (d : Doc)
      → is_some (lookup tok (doc_counts ar d)) ≡ (
          has_text tok (tokenize lower is_han d.title)
          || has_text tok (tokenize lower is_han d.body))
  unfolding doc_counts lookup
  is_some-doc_counts tok d = ground (
    arith,
    is_some-count_tokens tok 1 (tokenize lower is_han d.body)
        (count_tokens 2 (tokenize lower is_han d.title) []),
    is_some-count_tokens tok 2 (tokenize lower is_han d.title) [],
  )

  -- The count of a token is twice its occurrences in the title plus those in the body, where that
  -- is below 2^32.
  pub tf-doc_counts :
      (tok : Text) (d : Doc)
      → doc_weight tok d < 2 ^ 32
      → tf_or_zero (lookup tok (doc_counts ar d)) ≡ doc_weight tok d
  unfolding doc_counts doc_weight lookup tf_or_zero
  tf-doc_counts tok d h = omega (
    arith,
    tf-count_tokens tok 1 (tokenize lower is_han d.body)
        (count_tokens 2 (tokenize lower is_han d.title) []),
    tf-count_tokens tok 2 (tokenize lower is_han d.title) [],
    h,
  )

  pub doc_counts-Unique : (d : Doc) → Unique (doc_counts ar d)
  unfolding doc_counts
  doc_counts-Unique d =
      count_tokens-Unique 1 (tokenize lower is_han d.body) _
        (count_tokens-Unique 2 (tokenize lower is_han d.title) [] tt)
