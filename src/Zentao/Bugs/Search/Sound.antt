-- ===== src/Zentao/Bugs/Search/Sound.antt =====
-- internal/service/zentao/bugs.go: the invariant of the loops of SearchBugs.
use zentao_mcp.Base.{
  ℕ, suc, ◌+◌, ◌≤◌, ◌≡◌, refl, true, false, not, ◌&&◌, List, [], ◌∷◌, ◌++◌, arith, if◌then◌else◌,
  if_cases, ltb, ◌==◌, ==_iff, length, length-append, All,
}
use zentao_mcp.Base.Int.{to_nat}
use zentao_mcp.Base.Pairs.{All-append, Pairs, Pairs-append_one}
use zentao_mcp.Base.Text.{Text}
use zentao_mcp.Json.{Fields}
use zentao_mcp.Zentao.Listing.{Listing, Outcome, done, failed, member}
use zentao_mcp.Zentao.Listing.Pages.{listing_of}
use zentao_mcp.Zentao.Runtime.{Runtime}
use zentao_mcp.Zentao.Bugs.{BugSummary, BugSearchRequest}
use zentao_mcp.Zentao.Bugs.Filters.{matches, bug_summary}
use zentao_mcp.Zentao.Bugs.State.{
  ScopeStat, SearchState, empty_search, exhausted, add_scope, scanned_target, charge, add_match,
}
use zentao_mcp.Zentao.Bugs.Search.{scope_label, take_bug, take_bugs, after_list}
use zentao_mcp.Zentao.Bugs.Search.Totals.{Counts, count_bug-Counts}

-- Two bugs do not share an id, if it is positive.
abbrev pub Apart : {F : Type 0} → BugSummary F → BugSummary F → Type 0
Apart a b = (ltb 0 (to_nat a.id) && to_nat a.id == to_nat b.id) ≡ false

pub Apart-sym : {F : Type 0} (a b : BugSummary F) → Apart a b → Apart b a
Apart-sym a b h = ground arith

-- A positive id of a bug is noted.
abbrev Noted : {F : Type 0} → List ℕ → BugSummary F → Type 0
Noted seen b = (ltb 0 (to_nat b.id) && not (member (to_nat b.id) seen)) ≡ false

Noted-Apart :
    {F : Type 0} (seen : List ℕ) (a b : BugSummary F)
    → (ltb 0 (to_nat b.id) && member (to_nat b.id) seen) ≡ false
    → Noted seen a
    → Apart a b
Noted-Apart seen a b new h = ground (arith, ==_iff (to_nat a.id) (to_nat b.id))

Noted-cons :
    {F : Type 0} (n : ℕ) (seen : List ℕ) (b : BugSummary F) → Noted seen b → Noted (n ∷ seen) b
unfolding member
Noted-cons n seen b h = ground arith

Noted-self : {F : Type 0} (seen : List ℕ) (b : BugSummary F) → Noted (to_nat b.id ∷ seen) b
unfolding member
Noted-self seen b = ground (arith, ==_iff (to_nat b.id) (to_nat b.id))

All-map :
    {A : Type 0} (P Q : A → Type 0) (f : (a : A) → P a → Q a) (xs : List A) → All P xs → All Q xs
All-map P Q f [] h = tt
All-map P Q f (x ∷ xs) h = (f x h.0, All-map P Q f xs h.1)

-- `Source` says of a record that the server answered with it.
module _ (rt : Runtime) (req : BugSearchRequest) (Source : Fields rt.floats.F → Type 0) where
  open rt use {floats, lower}

  -- The summary of a record of the server that passes the filters.
  abbrev pub FromMatch : BugSummary floats.F → Type 0
  FromMatch b =
      (rec : Fields floats.F) × Source rec
      × (matches rt req rec ≡ true)
      × (b ≡ record (bug_summary rt rec) { scope = b.scope })

  pub record IsSound {E : Type 0} (st : SearchState E floats.F) : Type 0 where
    pub matching : All FromMatch st.matched
    pub apart : Pairs Apart st.matched
    pub noted : All (Noted st.seen) st.matched
    pub paid : st.scanned + st.budget ≡ req.max_scan
    pub counted : Counts (length st.matched) st.counts

  module _ {E : Type 0} where
    add_match-IsSound :
        (b : BugSummary floats.F) (st : SearchState E floats.F)
        → FromMatch b
        → (ltb 0 (to_nat b.id) && member (to_nat b.id) st.seen) ≡ false
        → IsSound st
        → IsSound (add_match b st)
    unfolding add_match
    add_match-IsSound b st m new s = record {
      matching = All-append FromMatch st.matched (b ∷ []) s.matching (m, tt);
      apart = Pairs-append_one Apart st.matched b s.apart (
          All-map (Noted st.seen) (λ a. Apart a b) (λ a h. Noted-Apart st.seen a b new h) st.matched
            s.noted);
      noted =
          All-append (Noted (to_nat b.id ∷ st.seen)) st.matched (b ∷ [])
            (All-map (Noted st.seen) (Noted (to_nat b.id ∷ st.seen))
              (Noted-cons (to_nat b.id) st.seen) st.matched s.noted)
            (Noted-self st.seen b, tt);
      paid = s.paid;
      counted =
          let e : length (st.matched ++ b ∷ []) ≡ suc (length st.matched) =
            omega (arith, length-append st.matched (b ∷ [])) in
          rw e (count_bug-Counts b s.counted);
    }

    take_bug-IsSound :
        (t : ScopeStat E) (rec : Fields floats.F) (st : SearchState E floats.F)
        → Source rec
        → IsSound st
        → IsSound (take_bug rt req t rec st)
    unfolding take_bug
    take_bug-IsSound t rec st o s =
        let summary : BugSummary floats.F = bug_summary rt rec in
        let b : BugSummary floats.F = record summary { scope = scope_label rt t } in
        if_cases {A = SearchState E floats.F} IsSound (not (matches rt req rec)) {x = st}
          {y = if ltb 0 (to_nat summary.id) && member (to_nat summary.id) st.seen
            then st
            else add_match b st}
          (λ out. s)
          (λ kept.
            if_cases {A = SearchState E floats.F} IsSound
              (ltb 0 (to_nat summary.id) && member (to_nat summary.id) st.seen) {x = st}
              {y = add_match b st} (λ again. s)
              (λ new. add_match-IsSound b st (rec, o, ground arith, refl) new s))

    take_bugs-IsSound :
        (t : ScopeStat E) (recs : List (Fields floats.F)) (st : SearchState E floats.F)
        → All Source recs
        → IsSound st
        → IsSound (take_bugs rt req t recs st)
    unfolding take_bugs
    take_bugs-IsSound t [] st o s = s
    take_bugs-IsSound t (rec ∷ recs) st o s =
        take_bugs-IsSound t recs (take_bug rt req t rec st) o.1 (take_bug-IsSound t rec st o.0 s)

    pub add_scope-IsSound :
        (t : ScopeStat E) (st : SearchState E floats.F) → IsSound st → IsSound (add_scope t st)
    unfolding add_scope
    add_scope-IsSound t st s = record {
      matching = s.matching;
      apart = s.apart;
      noted = s.noted;
      paid = s.paid;
      counted = s.counted;
    }

    charge-IsSound :
        (list : Listing floats.F) (st : SearchState E floats.F)
        → length list.records ≤ st.budget
        → IsSound st
        → IsSound (charge list st)
    unfolding charge
    charge-IsSound list st h s = record {
      matching = s.matching;
      apart = s.apart;
      noted = s.noted;
      paid = omega (arith, h, s.paid);
      counted = s.counted;
    }

    pub after_list-IsSound :
        (t : ScopeStat E) (out : Outcome E floats.F) (st : SearchState E floats.F)
        → length (listing_of floats 0 out).records ≤ st.budget
        → All Source (listing_of floats 0 out).records
        → IsSound st
        → IsSound (after_list rt req t out st)
    unfolding after_list
    after_list-IsSound t (failed e list) st h o s = add_scope-IsSound _ st s
    after_list-IsSound t (done list) st h o s =
        let t' : ScopeStat E = scanned_target list t in
        add_scope-IsSound t' (take_bugs rt req t' list.records (charge list st))
          (take_bugs-IsSound t' list.records (charge list st) o (charge-IsSound list st h s))

    pub exhausted-IsSound : (st : SearchState E floats.F) → IsSound st → IsSound (exhausted st)
    unfolding exhausted
    exhausted-IsSound st s = record {
      matching = s.matching;
      apart = s.apart;
      noted = s.noted;
      paid = s.paid;
      counted = s.counted;
    }

    pub empty_search-IsSound :
        (notes : List Text) → IsSound (empty_search {E = E} notes req.max_scan)
    empty_search-IsSound notes = record {
      matching = tt;
      apart = tt;
      noted = tt;
      paid = omega arith;
      counted = record {
        status = refl;
        severity = refl;
        kind = refl;
        resolution = refl;
        assigned_to = refl;
        opened_by = refl;
      };
    }
