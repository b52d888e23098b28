-- ===== src/Tests/IndexTests.antt =====
-- internal/service/bugindex on concrete inputs: an index of three documents, and a search of it.
use zentao_mcp.Base.{
  ℕ, ◌≡◌, refl, ◌+◌, ◌-◌, ◌*◌, false, ◌&&◌, ◌||◌, is_some, List, [], ◌∷◌, ◌==◌, ltb, leb,
  if◌then◌else◌, arith,
}
use zentao_mcp.Base.Int.{
  or_default, to_nat, is_positive, is_negative, int_less, int_eq, to_word, of_word, ◌-ℤ◌, pos, ℤ,
}
use zentao_mcp.Base.Text.{
  text_eq, has_prefix, byte_len, is_space, trim_left, trim_space, Text, codes,
}
use zentao_mcp.Base.Strings.{
  text_less, has_infix, drop, cut_suffix, replace_all, split, join, equal_fold, to_lower,
}
use zentao_mcp.Base.Sort.{insert_by, sort_by}
use zentao_mcp.Base.Assoc.{lookup, insert, drop_where, delete}
use zentao_mcp.Bugindex.Tokenize.{
  is_alphanumeric, is_word_char, runs, latin_runs, long_words, grams, all_grams, tokenize,
  until_bracket, tag_at, bracket_tags, trimmed_tags, extract_tags, has_text, dedupe_from, dedupe,
  normalize_key, long_keys, deduped_keys, query_boost_keys, comment_length, replace_comments,
  entity_at, replace_entities, is_white, join_white, strip_markup, clip,
}
use zentao_mcp.Bugindex.Build.{
  tf_or_zero, count_tokens, postings_at, add_postings, sum_counts, sum_lengths, doc_counts,
  boost_keys, index_docs, doc_lengths, doc_keys, average_length, build, replace, is_ready,
  max_id_from, max_id,
}
use zentao_mcp.Bugindex.Search.{
  element_or, intersects, intersect, search_limit, add_score, denominator, score_postings,
  inverse_frequency, score_term, score_terms, same_fold, passes, boosted, keep_score, filter_scores,
  slot_id, scored_before, ranked, hits_of, query_terms, search,
}
use zentao_mcp.Bugindex.{Arithmetic, Doc, SearchQuery, Hit}
use zentao_mcp.Bugindex.Build.Counts.{doc_weight, weight_in, tf-doc_counts, is_some-doc_counts}
use zentao_mcp.Bugindex.Build.Postings.{postings_of, build-postings}
use zentao_mcp.Bugindex.Search.Hits.{Found, search-Found}

program : Unit {0}
unfolding or_default to_nat is_positive is_negative int_less int_eq to_word of_word ◌-ℤ◌ text_eq
    has_prefix byte_len is_space trim_left trim_space text_less has_infix drop cut_suffix
    replace_all split join equal_fold to_lower insert_by sort_by lookup insert drop_where delete
    is_alphanumeric is_word_char runs latin_runs long_words grams all_grams tokenize until_bracket
    tag_at bracket_tags trimmed_tags extract_tags has_text dedupe_from dedupe normalize_key
    long_keys deduped_keys query_boost_keys comment_length replace_comments entity_at
    replace_entities is_white join_white strip_markup clip tf_or_zero count_tokens postings_at
    add_postings sum_counts sum_lengths doc_counts boost_keys index_docs doc_lengths doc_keys
    average_length build replace is_ready max_id_from max_id intersects intersect search_limit
    add_score denominator score_postings inverse_frequency score_term score_terms same_fold passes
    boosted keep_score filter_scores slot_id scored_before ranked hits_of query_terms search
program = tt

-- Whole numbers in hundredths stand for floats, and there are no letters but ASCII.
abbrev pub whole : Arithmetic
whole = record {
  F = ℕ;
  of_nat = λ n. n * 100;
  ratio = λ n d. n * 10;
  add = λ a b. a + b;
  sub = λ a b. a - b;
  mul = λ a b. a + b;
  div = λ a b. a;
  log = λ a. a;
  round2 = λ a. a;
  less = λ a b. ltb a b;
  leq = λ a b. leb a b;
  same = λ a b. a == b;
  lower = λ c. if ltb 64 c && ltb c 91 then c + 32 else c;
  same_letter = λ a b. a == b;
  is_han = λ c. false;
}

abbrev doc : (id : ℕ) (title body kind : Text) → Doc
doc id title body kind = record {
  id = pos id;
  product = pos 1;
  product_name = [];
  module_id = pos 0;
  title = title;
  body = body;
  tags = [];
  severity = pos 3;
  kind = kind;
  status = [];
  resolution = [];
  opened_date = [];
  resolved_date = [];
}

abbrev pub docs : List Doc
docs =
    doc 11 (codes "log in") (codes "log") (codes "codeerror")
    ∷ doc 12 (codes "pay") (codes "card") (codes "codeerror")
    ∷ doc 13 (codes "log") (codes "out") (codes "design")
    ∷ []

abbrev query : SearchQuery
query = record {
  text = codes "log";
  product = pos 1;
  kind = codes "codeerror";
  resolution = [];
  opened_after = [];
  opened_before = [];
  fixed_only = false;
  prefer_fixed = false;
  limit = pos 5;
}

build-postings_example :
    postings_at (codes "log") (build whole 0 docs).postings ≡ postings_of whole (codes "log") 0 docs
build-postings_example = build-postings whole 0 docs (codes "log")

abbrev hit_ids : List (Hit ℕ) → List ℤ
hit_ids [] = []
hit_ids (h ∷ hs) = h.id ∷ hit_ids hs

finds_one : hit_ids (search whole (build whole 0 docs) query).0 ≡ pos 11 ∷ []
unfolding program element_or
finds_one = refl

three : doc_weight whole (codes "log") (doc 11 (codes "log in") (codes "log") []) ≡ 3
unfolding program doc_weight weight_in
three = refl

tf-doc_counts_example :
    tf_or_zero (lookup (codes "log") (doc_counts whole (doc 11 (codes "log in") (codes "log") [])))
    ≡ doc_weight whole (codes "log") (doc 11 (codes "log in") (codes "log") [])
tf-doc_counts_example =
    tf-doc_counts whole (codes "log") (doc 11 (codes "log in") (codes "log") [])
      (omega (arith, three))

is_some-doc_counts_example :
    is_some (lookup (codes "in") (doc_counts whole (doc 11 (codes "log in") (codes "log") []))) ≡ (
      has_text (codes "in") (tokenize whole.lower whole.is_han (codes "log in"))
      || has_text (codes "in") (tokenize whole.lower whole.is_han (codes "log")))
is_some-doc_counts_example =
    is_some-doc_counts whole (codes "in") (doc 11 (codes "log in") (codes "log") [])

search-Found_example : Found whole 0 docs query (search whole (build whole 0 docs) query).0
search-Found_example = search-Found whole 0 docs query (omega arith)
