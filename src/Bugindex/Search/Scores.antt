-- ===== src/Bugindex/Search/Scores.antt =====
-- internal/service/bugindex/search.go: which documents the scores of Search are of.
use zentao_mcp.Base.{
  ℕ, ◌≤◌, ◌≡◌, refl, ap, Bool, true, false, not, Option, none, some, List, [], ◌∷◌, arith,
  if◌then◌else◌, length, ltb, ◌==◌, ==_iff, All, get_elem?, take, length-take, if_cases,
}
use zentao_mcp.Base.Text.{Text, text_eq_refl}
use zentao_mcp.Base.Pairs.{Pairs, Pairs-take, All-take, sort_by-Pairs}
use zentao_mcp.Base.Sort.{sort_by, sort_by-All}
use zentao_mcp.Bugindex.{Arithmetic, Doc, SearchQuery}
use zentao_mcp.Bugindex.Build.{Posting, Snapshot, postings_at}
use zentao_mcp.Bugindex.Tokenize.{has_text}
use zentao_mcp.Bugindex.Search.{
  Scored, search_limit, add_score, denominator, score_postings, inverse_frequency, score_term,
  score_terms, passes, keep_score, filter_scores, scored_before, ranked,
}

-- Two scores are of different documents.
abbrev pub Apart : {F : Type 0} → Scored F → Scored F → Type 0
Apart a b = (a.slot == b.slot) ≡ false

Apart-sym : {F : Type 0} (a b : Scored F) → Apart a b → Apart b a
Apart-sym a b h = ground arith

module _ (ar : Arithmetic) where
  open ar use {F}

  -- A predicate on the slots of scores.
  module _ (P : ℕ → Type 0) where
    add_score-All :
        (slot : ℕ) (delta : F) (ss : List (Scored F))
        → P slot
        → All (λ s. P s.slot) ss
        → All (λ s. P s.slot) (add_score ar slot delta ss)
    unfolding add_score
    add_score-All slot delta [] p h = (p, tt)
    add_score-All slot delta (s ∷ ss) p h =
        if_cases {A = List (Scored F)} (All (λ s. P s.slot)) (s.slot == slot) (λ e. (p, h.1))
          (λ e. (h.0, add_score-All slot delta ss p h.1))

  add_score-Pairs :
      (slot : ℕ) (delta : F) (ss : List (Scored F))
      → Pairs Apart ss
      → Pairs Apart (add_score ar slot delta ss)
  unfolding add_score
  add_score-Pairs slot delta [] p = (tt, tt)
  add_score-Pairs slot delta (s ∷ ss) p =
      if_cases {A = List (Scored F)} (Pairs Apart) (s.slot == slot)
        (λ e. let q : s.slot ≡ slot = (==_iff s.slot slot).0 e in (rw (← q) p.0, p.1))
        (λ e. (
          add_score-All (λ n. (s.slot == n) ≡ false) slot delta ss e p.0,
          add_score-Pairs slot delta ss p.1,
        ))

  -- The scores are of different documents, and each slot has a property.
  abbrev pub Slots : (ℕ → Type 0) → List (Scored F) → Type 0
  Slots P ss = All (λ s. P s.slot) ss × Pairs Apart ss

  module _ (P : ℕ → Type 0) (snap : Snapshot F) where
    add_score-Slots :
        (slot : ℕ) (delta : F) (ss : List (Scored F))
        → P slot
        → Slots P ss
        → Slots P (add_score ar slot delta ss)
    add_score-Slots slot delta ss p h =
        (add_score-All P slot delta ss p h.0, add_score-Pairs slot delta ss h.1)

    score_postings-Slots :
        (idf : F) (ps : List Posting) (ss : List (Scored F))
        → All (λ p. P p.slot) ps
        → Slots P ss
        → Slots P (score_postings ar snap idf ps ss)
    unfolding score_postings
    score_postings-Slots idf [] ss ap h = h
    score_postings-Slots idf (p ∷ ps) ss all h = score_postings-Slots idf ps _ all.1 (
        if_cases {A = List (Scored F)} (Slots P) (ar.same (denominator ar snap p) (ar.of_nat 0))
          {x = ss}
          {y = add_score ar p.slot
            (ar.div (ar.mul idf (ar.mul (ar.of_nat p.tf) (ar.ratio 22 10))) (denominator ar snap p))
            ss}
          (λ z. h) (λ n. add_score-Slots p.slot _ ss all.0 h))

    score_term-Slots :
        (term : Text) (ss : List (Scored F))
        → All (λ p. P p.slot) (postings_at term snap.postings)
        → Slots P ss
        → Slots P (score_term ar snap term ss)
    unfolding score_term
    score_term-Slots term ss all h =
        let posts : List Posting = postings_at term snap.postings in
        let idf : F = inverse_frequency ar (length snap.docs) (length posts) in
        let scored : List (Scored F) = score_postings ar snap idf posts ss in
        if_cases {A = List (Scored F)} (Slots P) (length posts == 0) {x = ss}
          {y = if ar.leq idf (ar.of_nat 0) then ss else scored} (λ e. h)
          (λ some_posts.
            if_cases {A = List (Scored F)} (Slots P) (ar.leq idf (ar.of_nat 0)) {x = ss}
              {y = scored} (λ e. h) (λ e. score_postings-Slots idf posts ss all h))

    pub score_terms-Slots :
        (terms : List Text) (ss : List (Scored F))
        → ((term : Text)
            → has_text term terms ≡ true
            → All (λ p. P p.slot) (postings_at term snap.postings))
        → Slots P ss
        → Slots P (score_terms ar snap terms ss)
    unfolding score_terms has_text
    score_terms-Slots [] ss all h = h
    score_terms-Slots (term ∷ terms) ss all h =
        score_terms-Slots terms _ (λ t m. all t (ground arith))
          (score_term-Slots term ss (all term (ground (arith, text_eq_refl term))) h)

  module _ (snap : Snapshot F) (q : SearchQuery) (query_keys : List Text) where
    -- The document of a slot passes the filters.
    abbrev pub Passing : ℕ → Type 0
    Passing slot = (d : Doc) × (get_elem? snap.docs slot ≡ some d) × (passes ar q d ≡ true)

    module _ (P : Scored F → Type 0) where
      -- What holds of a kept score, however it is boosted, and of the rest.
      keep_score-All :
          (s : Scored F) (o : Option Doc) (rest : List (Scored F))
          → get_elem? snap.docs s.slot ≡ o
          → ((d : Doc) (score : F)
              → get_elem? snap.docs s.slot ≡ some d
              → passes ar q d ≡ true
              → P (record { slot = s.slot; score = score }))
          → All P rest
          → All P (keep_score ar snap q query_keys s o rest)
      unfolding keep_score
      keep_score-All s none rest e p h = h
      keep_score-All s (some d) rest e p h =
          if_cases {A = List (Scored F)} (All P) (not (passes ar q d)) (λ n. h)
            (λ n. (p d _ e (ground (arith, n)), h))

    filter_scores-All :
        (P : ℕ → Type 0) (ss : List (Scored F))
        → All (λ s. P s.slot) ss
        → All (λ s. P s.slot) (filter_scores ar snap q query_keys ss)
    unfolding filter_scores
    filter_scores-All P [] h = tt
    filter_scores-All P (s ∷ ss) h =
        keep_score-All (λ s. P s.slot) s _ _ refl (λ d score e p. h.0) (filter_scores-All P ss h.1)

    filter_scores-Passing :
        (ss : List (Scored F)) → All (λ s. Passing s.slot) (filter_scores ar snap q query_keys ss)
    unfolding filter_scores
    filter_scores-Passing [] = tt
    filter_scores-Passing (s ∷ ss) =
        keep_score-All (λ s. Passing s.slot) s _ _ refl (λ d score e p. (d, e, p))
          (filter_scores-Passing ss)

    keep_score-Pairs :
        (s : Scored F) (o : Option Doc) (rest : List (Scored F))
        → All (Apart s) rest
        → Pairs Apart rest
        → Pairs Apart (keep_score ar snap q query_keys s o rest)
    unfolding keep_score
    keep_score-Pairs s none rest all h = h
    keep_score-Pairs s (some d) rest all h =
        if_cases {A = List (Scored F)} (Pairs Apart) (not (passes ar q d)) (λ n. h) (λ n. (all, h))

    filter_scores-Pairs :
        (ss : List (Scored F))
        → Pairs Apart ss
        → Pairs Apart (filter_scores ar snap q query_keys ss)
    unfolding filter_scores
    filter_scores-Pairs [] h = tt
    filter_scores-Pairs (s ∷ ss) h =
        keep_score-Pairs s _ _ (filter_scores-All (λ n. (s.slot == n) ≡ false) ss h.0)
          (filter_scores-Pairs ss h.1)

    -- What ranking keeps of the scores: at most the limit, each of a document that passes.
    pub ranked-Slots :
        (P : ℕ → Type 0) (ss : List (Scored F))
        → Slots P ss
        → Slots P (ranked ar snap q query_keys ss)
          × All (λ s. Passing s.slot) (ranked ar snap q query_keys ss)
          × (length (ranked ar snap q query_keys ss) ≤ search_limit q.limit)
    unfolding ranked
    ranked-Slots P ss h =
        let kept : List (Scored F) = filter_scores ar snap q query_keys ss in
        let before : Scored F → Scored F → Bool = scored_before ar snap in
        let sorted : List (Scored F) = sort_by before kept in
        let all : All (λ s. P s.slot) sorted =
          sort_by-All before (λ s. P s.slot) kept (filter_scores-All P ss h.0) in
        let pass : All (λ s. Passing s.slot) sorted =
          sort_by-All before (λ s. Passing s.slot) kept (filter_scores-Passing ss) in
        let pairs : Pairs Apart sorted =
          sort_by-Pairs Apart Apart-sym before kept (filter_scores-Pairs ss h.1) in
        let n : ℕ = search_limit q.limit in
        if_cases {A = List (Scored F)}
          (λ l. Slots P l × All (λ s. Passing s.slot) l × (length l ≤ n)) (ltb n (length sorted))
          {x = take n sorted} {y = sorted}
          (λ e. (
            (All-take (λ s. P s.slot) n sorted all, Pairs-take Apart n sorted pairs),
            All-take (λ s. Passing s.slot) n sorted pass,
            ground (arith, length-take n sorted),
          ))
          (λ e. ((all, pairs), pass, ground arith))
