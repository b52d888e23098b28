-- ===== src/Bugindex/Search/Hits.antt =====
-- internal/service/bugindex/search.go: which documents Search finds.
use zentao_mcp.Base.{
  ℕ, suc, ◌+◌, ◌%◌, ◌^◌, ◌≤◌, ◌<◌, ◌≡◌, refl, sym, ◌∙◌, ap, true, ◌||◌, Option, none, some, List,
  [], ◌∷◌, ◌++◌, arith, length, ◌==◌, is_some, All, All-map, get_elem?, length-append, if_cases,
}
use zentao_mcp.Base.Text.{Text}
use zentao_mcp.Base.Assoc.{lookup}
use zentao_mcp.Base.Pairs.{Pairs, All-append}
use zentao_mcp.Bugindex.{Arithmetic, Doc, SearchQuery, Hit, Stats}
use zentao_mcp.Bugindex.Build.{Snapshot, postings_at, doc_counts, build}
use zentao_mcp.Bugindex.Build.Postings.{posting_of, postings_of, build-postings}
use zentao_mcp.Bugindex.Tokenize.{has_text, query_boost_keys}
use zentao_mcp.Bugindex.Search.{
  Scored, search_limit, score_terms, passes, ranked, hits_of, query_terms, search,
}
use zentao_mcp.Bugindex.Search.Scores.{Apart, Slots, Passing, score_terms-Slots, ranked-Slots}
use mathlib.Core.List.{append_assoc}

get_elem?-append :
    {A : Type 0} (pre : List A) (a : A) (xs : List A)
    → get_elem? (pre ++ a ∷ xs) (length pre) ≡ some a
get_elem?-append [] a xs = refl
get_elem?-append (p ∷ pre) a xs = get_elem?-append pre a xs

module _ (ar : Arithmetic) where
  open ar use {F}

  module _ (docs : List Doc) where
    -- A slot is that of a document that counts the term.
    abbrev pub Holds : (term : Text) (slot : ℕ) → Type 0
    Holds term slot =
        (d : Doc) × (get_elem? docs slot ≡ some d)
        × (is_some (lookup term (doc_counts ar d)) ≡ true)

    posting_of-Holds :
        (term : Text) (slot : ℕ) (d : Doc)
        → slot < 2 ^ 32
        → get_elem? docs slot ≡ some d
        → All (λ p. Holds term p.slot) (posting_of slot (lookup term (doc_counts ar d)))
    posting_of-Holds term slot d h e = go (lookup term (doc_counts ar d)) refl
      where
        go :
            (o : Option ℕ)
            → lookup term (doc_counts ar d) ≡ o
            → All (λ p. Holds term p.slot) (posting_of slot o)
        go none q = tt
        go (some tf) q = let m : slot % 2 ^ 32 ≡ slot = omega (arith, h) in ((d, rw m e, rw q), tt)

    postings_of-Holds :
        (term : Text) (pre ds : List Doc)
        → docs ≡ pre ++ ds
        → length docs ≤ 2 ^ 32
        → All (λ p. Holds term p.slot) (postings_of ar term (length pre) ds)
    unfolding postings_of
    postings_of-Holds term pre [] e h = tt
    postings_of-Holds term pre (d ∷ ds) e h =
        let n : length docs ≡ length pre + suc (length ds) =
          ap length e ∙ length-append pre (d ∷ ds) in
        let l : length (pre ++ d ∷ []) ≡ suc (length pre) =
          omega (arith, length-append pre (d ∷ [])) in
        All-append (λ p. Holds term p.slot)
          (posting_of (length pre) (lookup term (doc_counts ar d)))
          (postings_of ar term (suc (length pre)) ds)
          (posting_of-Holds term (length pre) d (omega (arith, n, h))
            (rw e (get_elem?-append pre d ds)))
          (rw (← l)
            (postings_of-Holds term (pre ++ d ∷ []) ds (e ∙ sym (append_assoc pre (d ∷ []) ds)) h))

  -- A search of the snapshot that `build` makes of the documents.
  module _ (now : ℕ) (docs : List Doc) (q : SearchQuery) where
    -- The slot is of a document that counts a term of the query.
    abbrev pub HoldsTerm : ℕ → Type 0
    HoldsTerm slot =
        (term : Text) × (has_text term (query_terms ar q) ≡ true) × Holds docs term slot

    -- The hits are of documents of the list, no two of the same slot and no more than the limit;
    -- each document counts a term of the query and passes the filters.
    pub record Found (hits : List (Hit F)) : Type 0 where
      pub scores : List (Scored F)
      pub are : hits ≡ hits_of ar (build ar now docs) (query_boost_keys ar.lower q.text) scores
      pub hold : All (λ s. HoldsTerm s.slot) scores
      pub pass :
          All (λ s. (d : Doc) × (get_elem? docs s.slot ≡ some d) × (passes ar q d ≡ true)) scores
      pub apart : Pairs Apart scores
      pub few : length scores ≤ search_limit q.limit

    postings_at-HoldsTerm :
        length docs ≤ 2 ^ 32
        → (term : Text) → has_text term (query_terms ar q) ≡ true
        → All (λ p. HoldsTerm p.slot) (postings_at term (build ar now docs).postings)
    postings_at-HoldsTerm h term e = rw (build-postings ar now docs term) (
        All-map (λ p. Holds docs term p.slot) (λ p. HoldsTerm p.slot) _ (λ p k. (term, e, k))
          (postings_of-Holds docs term [] docs refl h))

    no_hits : Found []
    unfolding hits_of
    no_hits = record {
      scores = [];
      are = refl;
      hold = tt;
      pass = tt;
      apart = tt;
      few = omega arith;
    }

    -- For no more than 2^32 documents, each hit of a search of the snapshot that `build` makes of
    -- them is of a document of the list that counts a term of the query and passes its filters; no
    -- two are of the same document, and there are no more than the limit of the query.
    pub search-Found : length docs ≤ 2 ^ 32 → Found (search ar (build ar now docs) q).0
    unfolding search build
    search-Found h =
        let snap : Snapshot F = build ar now docs in
        let keys : List Text = query_boost_keys ar.lower q.text in
        let scores : List (Scored F) = score_terms ar snap (query_terms ar q) [] in
        let r : List (Scored F) = ranked ar snap q keys scores in
        let s : Slots ar HoldsTerm scores =
          score_terms-Slots ar HoldsTerm snap (query_terms ar q) [] (postings_at-HoldsTerm h)
            (tt, tt) in
        let k : Slots ar HoldsTerm r
            × All (λ s. Passing ar snap q keys s.slot) r
            × (length r ≤ search_limit q.limit) =
          ranked-Slots ar snap q keys HoldsTerm scores s in
        if_cases {A = List (Hit F) × Stats} (λ p. Found p.0)
          (length snap.docs == 0 || length (query_terms ar q) == 0) (λ e. no_hits)
          (λ e. record {
            scores = r;
            are = refl;
            hold = k.0.0;
            pass = k.1;
            apart = k.0.1;
            few = k.2;
          })
