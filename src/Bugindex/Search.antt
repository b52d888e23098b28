-- ===== src/Bugindex/Search.antt =====
-- internal/service/bugindex/search.go: Search.
pub mod Scores
pub mod Hits
use zentao_mcp.Base.{
  ℕ, zero, suc, ◌+◌, Bool, true, false, not, ◌&&◌, ◌||◌, Option, none, some, List, [], ◌∷◌, ltb,
  leb, ◌==◌, if◌then◌else◌, length, take, get_elem?,
}
use zentao_mcp.Base.Int.{ℤ, to_nat, or_default, is_positive, int_eq, int_less}
use zentao_mcp.Base.Sort.{sort_by}
use zentao_mcp.Base.Text.{Text, codes, text_eq}
use zentao_mcp.Base.Strings.{text_less, equal_fold}
use zentao_mcp.Bugindex.{Arithmetic, Doc, SearchQuery, Hit, Stats}
use zentao_mcp.Bugindex.Build.{Posting, Snapshot, postings_at}
use zentao_mcp.Bugindex.Tokenize.{tokenize, dedupe, has_text, query_boost_keys}

abbrev pub default_limit : ℕ
default_limit = 10

abbrev pub max_limit : ℕ
max_limit = 50

pub record Scored (F : Type 0) : Type 0 where
  pub slot : ℕ
  pub score : F

unfoldable pub intersects : (doc_keys query_keys : List Text) → Bool
unfolding has_text
intersects [] query_keys = false
intersects (k ∷ ks) query_keys = has_text k query_keys || intersects ks query_keys

unfoldable pub intersect : (doc_keys query_keys : List Text) → List Text
unfolding has_text
intersect [] query_keys = []
intersect (k ∷ ks) query_keys =
    let rest = intersect ks query_keys in if has_text k query_keys then k ∷ rest else rest

-- The limit that a query stands for.
unfoldable pub search_limit : ℤ → ℕ
unfolding or_default
search_limit limit =
    let n = or_default default_limit limit in if ltb max_limit n then max_limit else n

-- `s[i]` of a slice. An index out of range panics; here it gives `d`, and the slots of a snapshot
-- are in range.
unfoldable pub element_or {ℓ} : {A : Type ℓ} → A → List A → ℕ → A
element_or d xs i = elim (get_elem? xs i) [ none ↦ d | some x ↦ x ]

module _ (ar : Arithmetic) where
  open ar use {
    F, of_nat, ratio, add, sub, mul, div, log, round2, less, leq, same, lower, same_letter, is_han,
  }

  -- `scores[slot] += delta`
  unfoldable pub add_score : (slot : ℕ) → F → List (Scored F) → List (Scored F)
  add_score slot delta [] = record { slot = slot; score = add (of_nat 0) delta } ∷ []
  add_score slot delta (s ∷ ss) =
      let rest = s ∷ add_score slot delta ss in
      if s.slot == slot then record { slot = slot; score = add s.score delta } ∷ ss else rest

  -- tf + k1*(1 - b + b*dl/avgDL); 1 - b is a constant of the code, and so is k1 + 1 below.
  unfoldable pub denominator : Snapshot F → Posting → F
  denominator snap p =
      let dl = of_nat (element_or 0 snap.doc_len p.slot) in
      let share = div (mul (ratio 75 100) dl) snap.avg_dl in
      add (of_nat p.tf) (mul (ratio 12 10) (add (ratio 25 100) share))

  -- The loop over the postings of a term.
  unfoldable pub score_postings :
      Snapshot F → (idf : F) → List Posting → List (Scored F) → List (Scored F)
  unfolding add_score denominator
  score_postings snap idf [] scores = scores
  score_postings snap idf (p ∷ ps) scores =
      let d = denominator snap p in
      let weight = div (mul idf (mul (of_nat p.tf) (ratio 22 10))) d in
      let next = if same d (of_nat 0) then scores else add_score p.slot weight scores in
      score_postings snap idf ps next

  -- log(1 + (n - len + 0.5)/(len + 0.5))
  unfoldable pub inverse_frequency : (documents postings : ℕ) → F
  inverse_frequency documents postings =
      let n = of_nat documents in
      let m = of_nat postings in
      log (add (of_nat 1) (div (add (sub n m) (ratio 5 10)) (add m (ratio 5 10))))

  unfoldable pub score_term : Snapshot F → Text → List (Scored F) → List (Scored F)
  unfolding score_postings inverse_frequency
  score_term snap term scores =
      let posts = postings_at term snap.postings in
      let idf = inverse_frequency (length snap.docs) (length posts) in
      if length posts == 0
      then scores
      else if leq idf (of_nat 0)
      then scores
      else score_postings snap idf posts scores

  -- The loop over the terms.
  unfoldable pub score_terms : Snapshot F → List Text → List (Scored F) → List (Scored F)
  unfolding score_term
  score_terms snap [] scores = scores
  score_terms snap (term ∷ terms) scores = score_terms snap terms (score_term snap term scores)

  unfoldable pub same_fold : Text → Text → Bool
  same_fold s t = equal_fold same_letter s t

  unfoldable pub passes : SearchQuery → Doc → Bool
  unfolding same_fold
  passes q d =
      if is_positive q.product && not (int_eq d.product q.product)
      then false
      else if not (text_eq q.kind []) && not (same_fold d.kind q.kind)
      then false
      else if not (text_eq q.resolution []) && not (same_fold d.resolution q.resolution)
      then false
      else if q.fixed_only && not (same_fold d.resolution (codes "fixed"))
      then false
      else if not (text_eq q.opened_after [])
          && (text_eq d.opened_date [] || text_less d.opened_date q.opened_after)
      then false
      else if not (text_eq q.opened_before [])
          && (text_eq d.opened_date [] || text_less q.opened_before d.opened_date)
      then false
      else true

  -- The factors on the score of a document.
  unfoldable pub boosted : SearchQuery → (query_keys doc_keys : List Text) → Doc → F → F
  unfolding same_fold
  boosted q query_keys doc_keys d score =
      let s1 =
        if q.prefer_fixed && same_fold d.resolution (codes "fixed")
        then mul score (ratio 135 100)
        else score in
      let s2 = if same_fold d.kind (codes "codeerror") then mul s1 (ratio 115 100) else s1 in
      if intersects doc_keys query_keys then mul s2 (ratio 16 10) else s2

  -- The body of the loop over the scores, with the document of the slot. An index out of range
  -- panics; here it gives no document, and the slots of a snapshot are in range.
  unfoldable pub keep_score :
      Snapshot F
      → SearchQuery
      → (query_keys : List Text) → Scored F
      → Option Doc
      → (rest : List (Scored F)) → List (Scored F)
  unfolding passes boosted
  keep_score snap q query_keys s none rest = rest
  keep_score snap q query_keys s (some d) rest =
      if not (passes q d)
      then rest
      else record {
        slot = s.slot;
        score = boosted q query_keys (element_or [] snap.keys s.slot) d s.score;
      }
        ∷ rest

  -- The loop over the scores: the candidates that pass, boosted.
  unfoldable pub filter_scores :
      Snapshot F → SearchQuery → (query_keys : List Text) → List (Scored F) → List (Scored F)
  unfolding keep_score
  filter_scores snap q query_keys [] = []
  filter_scores snap q query_keys (s ∷ ss) =
      keep_score snap q query_keys s (get_elem? snap.docs s.slot)
        (filter_scores snap q query_keys ss)

  unfoldable pub slot_id : Snapshot F → ℕ → ℤ
  slot_id snap slot = elim (get_elem? snap.docs slot) [ none ↦ ℤ.pos 0 | some d ↦ d.id ]

  -- The order of `sort.Slice`.
  unfoldable pub scored_before : Snapshot F → Scored F → Scored F → Bool
  unfolding slot_id
  scored_before snap a b =
      if not (same a.score b.score)
      then less b.score a.score
      else int_less (slot_id snap b.slot) (slot_id snap a.slot)

  unfoldable pub ranked :
      Snapshot F → SearchQuery → (query_keys : List Text) → List (Scored F) → List (Scored F)
  unfolding filter_scores scored_before
  ranked snap q query_keys scores =
      let sorted = sort_by (scored_before snap) (filter_scores snap q query_keys scores) in
      if ltb (search_limit q.limit) (length sorted)
      then take (search_limit q.limit) sorted
      else sorted

  unfoldable pub hits_of : Snapshot F → (query_keys : List Text) → List (Scored F) → List (Hit F)
  unfolding slot_id
  hits_of snap query_keys [] = []
  hits_of snap query_keys (s ∷ ss) =
      record {
        id = slot_id snap s.slot;
        score = round2 s.score;
        matched_keys = intersect (element_or [] snap.keys s.slot) query_keys;
      }
      ∷ hits_of snap query_keys ss

  unfoldable pub query_terms : SearchQuery → List Text
  unfolding tokenize dedupe
  query_terms q = dedupe (tokenize lower is_han q.text)

  unfoldable pub search : Snapshot F → SearchQuery → List (Hit F) × Stats
  unfolding query_terms score_terms ranked hits_of search_limit
  search snap q =
      let terms = query_terms q in
      let query_keys = query_boost_keys lower q.text in
      let scores = score_terms snap terms [] in
      let hits = hits_of snap query_keys (ranked snap q query_keys scores) in
      if length snap.docs == 0 || length terms == 0
      then (
        [],
        record { documents = length snap.docs; candidates = 0; returned = 0; terms = length terms },
      )
      else (
        hits,
        record {
          documents = length snap.docs;
          candidates = length scores;
          returned = length hits;
          terms = length terms;
        },
      )
