-- ===== src/Bugindex/Build/Postings.antt =====
-- internal/service/bugindex/package.go: the postings are an inverted index of the documents.
use zentao_mcp.Base.{
  ℕ, suc, ◌%◌, ◌^◌, ◌≡◌, sym, ◌∙◌, ap, Option, none, some, List, [], ◌∷◌, ◌++◌, arith,
  if◌then◌else◌, Bool-cases, inl, inr,
}
use zentao_mcp.Base.Text.{Text, text_eq, text_eq_iff}
use zentao_mcp.Base.Assoc.{Assoc, lookup, insert, lookup-insert}
use zentao_mcp.Base.Unique.{Unique}
use zentao_mcp.Bugindex.{Arithmetic, Doc}
use zentao_mcp.Bugindex.Build.{
  Posting, Postings, postings_at, add_postings, doc_counts, index_docs, build,
}
use zentao_mcp.Bugindex.Build.Counts.{doc_counts-Unique}
use mathlib.Core.List.{append-nil, append_assoc}

-- The posting of a token in one document.
abbrev pub posting_of : (slot : ℕ) → Option ℕ → List Posting
posting_of slot none = []
posting_of slot (some tf) = record { slot = slot % 2 ^ 32; tf = tf } ∷ []

postings_at-insert :
    (tok t : Text) (l : List Posting) (ps : Postings)
    → postings_at tok (insert t l ps) ≡ (if text_eq t tok then l else postings_at tok ps)
unfolding postings_at
postings_at-insert tok t l ps = ground (arith, lookup-insert t tok l ps)

postings_at-add_postings :
    (tok : Text) (slot : ℕ) (counts : Assoc ℕ) (ps : Postings)
    → Unique counts
    → postings_at tok (add_postings slot counts ps)
      ≡ postings_at tok ps ++ posting_of slot (lookup tok counts)
unfolding add_postings lookup
postings_at-add_postings tok slot [] ps u = sym (append-nil (postings_at tok ps))
postings_at-add_postings tok slot ((t, tf) ∷ counts) ps u =
    let p : Posting = record { slot = slot % 2 ^ 32; tf = tf } in
    let l : List Posting = postings_at t ps ++ p ∷ [] in
    let ih : postings_at tok (add_postings slot counts (insert t l ps))
        ≡ postings_at tok (insert t l ps) ++ posting_of slot (lookup tok counts) =
      postings_at-add_postings tok slot counts (insert t l ps) u.1 in
    elim (Bool-cases (text_eq t tok)) [
      | inl hit ↦
          let e : t ≡ tok = (text_eq_iff t tok).0 hit in
          let gone : lookup tok counts ≡ none = rw (← e) u.0 in
          let i : postings_at tok (insert t l ps) ≡ l = rw (postings_at-insert tok t l ps, hit) in
          rw hit (
            ih
            ∙ ap (λ (x : List Posting). x ++ posting_of slot (lookup tok counts)) i
            ∙ ap (λ (o : Option ℕ). l ++ posting_of slot o) gone
            ∙ append-nil l
            ∙ ap (λ (x : Text). postings_at x ps ++ p ∷ []) e)
      | inr miss ↦
          let i : postings_at tok (insert t l ps) ≡ postings_at tok ps =
            rw (postings_at-insert tok t l ps, miss) in
          rw miss (ih ∙ ap (λ (x : List Posting). x ++ posting_of slot (lookup tok counts)) i)
    ]

module _ (ar : Arithmetic) where
  open ar use {F}

  -- The postings of a token by its definition: the documents in order, each that holds the token
  -- with its slot and the number of the token.
  unfoldable pub postings_of : (tok : Text) (slot : ℕ) → List Doc → List Posting
  postings_of tok slot [] = []
  postings_of tok slot (d ∷ ds) =
      posting_of slot (lookup tok (doc_counts ar d)) ++ postings_of tok (suc slot) ds

  index_docs_lem :
      (tok : Text) (slot : ℕ) (docs : List Doc) (ps : Postings)
      → postings_at tok (index_docs ar slot docs ps)
        ≡ postings_at tok ps ++ postings_of tok slot docs
  unfolding index_docs postings_of
  index_docs_lem tok slot [] ps = sym (append-nil (postings_at tok ps))
  index_docs_lem tok slot (d ∷ docs) ps =
      index_docs_lem tok (suc slot) docs (add_postings slot (doc_counts ar d) ps)
      ∙ ap (λ (x : List Posting). x ++ postings_of tok (suc slot) docs)
          (postings_at-add_postings tok slot (doc_counts ar d) ps (doc_counts-Unique ar d))
      ∙ append_assoc (postings_at tok ps) (posting_of slot (lookup tok (doc_counts ar d)))
          (postings_of tok (suc slot) docs)

  -- The map of postings that `build` makes refines the list of the documents: for every token it
  -- holds, in order, a posting for each document that counts the token, with the slot of the
  -- document and its count, and no other.
  pub build-postings :
      (now : ℕ) (docs : List Doc) (tok : Text)
      → postings_at tok (build ar now docs).postings ≡ postings_of tok 0 docs
  unfolding build postings_at lookup
  build-postings now docs tok = index_docs_lem tok 0 docs []
