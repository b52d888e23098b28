-- ===== src/Bugindex/Build.antt =====
-- internal/service/bugindex/package.go: the snapshot that `build` makes of the documents, and the
-- index that holds it.
pub mod Counts
pub mod Postings
use zentao_mcp.Base.{
  ℕ, zero, suc, ◌+◌, ◌%◌, ◌^◌, Bool, true, false, Option, none, some, List, [], ◌∷◌, ◌++◌, ltb,
  if◌then◌else◌, length,
}
use zentao_mcp.Base.Int.{ℤ, pos, int_less}
use zentao_mcp.Base.Text.{Text}
use zentao_mcp.Base.Assoc.{Assoc, lookup, insert}
use zentao_mcp.Bugindex.{Arithmetic, Doc}
use zentao_mcp.Bugindex.Tokenize.{tokenize, deduped_keys}

pub record Posting : Type 0 where
  pub slot : ℕ
  pub tf : ℕ

abbrev pub Postings : Type 0
Postings = Assoc (List Posting)

-- `snapshot`; `built_at` is the clock of the caller.
pub record Snapshot (F : Type 0) : Type 0 where
  pub docs : List Doc
  pub keys : List (List Text)
  pub postings : Postings
  pub doc_len : List ℕ
  pub avg_dl : F
  pub built_at : ℕ

unfoldable pub tf_or_zero : Option ℕ → ℕ
tf_or_zero none = 0
tf_or_zero (some n) = n

-- `for _, tok := range toks { counts[tok] += weight }`, of type uint32.
unfoldable pub count_tokens : (weight : ℕ) → List Text → Assoc ℕ → Assoc ℕ
unfolding tf_or_zero
count_tokens weight [] counts = counts
count_tokens weight (tok ∷ toks) counts =
    count_tokens weight toks
      (insert tok ((tf_or_zero (lookup tok counts) + weight) % 2 ^ 32) counts)

-- `snap.postings[tok]`
unfoldable pub postings_at : Text → Postings → List Posting
postings_at tok ps = elim (lookup tok ps) [ none ↦ [] | some l ↦ l ]

-- The loop over the counts of a document.
unfoldable pub add_postings : (slot : ℕ) → Assoc ℕ → Postings → Postings
unfolding postings_at
add_postings slot [] ps = ps
add_postings slot ((tok, tf) ∷ counts) ps =
    add_postings slot counts
      (insert tok (postings_at tok ps ++ record { slot = slot % 2 ^ 32; tf = tf } ∷ []) ps)

-- `length`, of type uint32.
unfoldable pub sum_counts : ℕ → Assoc ℕ → ℕ
sum_counts length [] = length
sum_counts length ((tok, tf) ∷ counts) = sum_counts ((length + tf) % 2 ^ 32) counts

unfoldable pub sum_lengths : List ℕ → ℕ
sum_lengths [] = 0
sum_lengths (n ∷ ns) = (n + sum_lengths ns) % 2 ^ 64

module _ (ar : Arithmetic) where
  open ar use {F, of_nat, div, same, lower, is_han}

  -- The counts of a document: a token of the title counts twice.
  unfoldable pub doc_counts : Doc → Assoc ℕ
  unfolding count_tokens
  doc_counts d =
      count_tokens 1 (tokenize lower is_han d.body)
        (count_tokens 2 (tokenize lower is_han d.title) [])

  unfoldable pub boost_keys : Doc → List Text
  boost_keys d = deduped_keys lower d.tags d.title

  -- The loop over the documents, for the postings.
  unfoldable pub index_docs : (slot : ℕ) → List Doc → Postings → Postings
  unfolding doc_counts add_postings
  index_docs slot [] ps = ps
  index_docs slot (d ∷ ds) ps = index_docs (suc slot) ds (add_postings slot (doc_counts d) ps)

  unfoldable pub doc_lengths : List Doc → List ℕ
  unfolding doc_counts sum_counts
  doc_lengths [] = []
  doc_lengths (d ∷ ds) = sum_counts 0 (doc_counts d) ∷ doc_lengths ds

  unfoldable pub doc_keys : List Doc → List (List Text)
  unfolding boost_keys
  doc_keys [] = []
  doc_keys (d ∷ ds) = boost_keys d ∷ doc_keys ds

  unfoldable pub average_length : List Doc → F
  unfolding doc_lengths sum_lengths
  average_length docs =
      let avg =
        if ltb 0 (length docs)
        then div (of_nat (sum_lengths (doc_lengths docs))) (of_nat (length docs))
        else of_nat 0 in
      if same avg (of_nat 0) then of_nat 1 else avg

  unfoldable pub build : (now : ℕ) → List Doc → Snapshot F
  unfolding index_docs doc_lengths doc_keys average_length
  build now docs = record {
    docs = docs;
    keys = doc_keys docs;
    postings = index_docs 0 docs [];
    doc_len = doc_lengths docs;
    avg_dl = average_length docs;
    built_at = now;
  }

-- `New`, and the methods of Index on its current snapshot.
abbrev pub empty_index : {F : Type 0} → F → Snapshot F
empty_index zero_dl = record {
  docs = [];
  keys = [];
  postings = [];
  doc_len = [];
  avg_dl = zero_dl;
  built_at = 0;
}

unfoldable pub replace : (ar : Arithmetic) → (now : ℕ) → List Doc → Snapshot ar.F → Snapshot ar.F
unfolding build
replace ar now docs old = build ar now docs

unfoldable pub is_ready : {F : Type 0} → Snapshot F → Bool
is_ready snap = ltb 0 (length snap.docs)

-- The loop of MaxID, with the best so far.
unfoldable pub max_id_from : ℤ → List Doc → ℤ
max_id_from best [] = best
max_id_from best (d ∷ ds) = max_id_from (if int_less best d.id then d.id else best) ds

unfoldable pub max_id : {F : Type 0} → Snapshot F → ℤ
unfolding max_id_from
max_id snap = max_id_from (pos 0) snap.docs
