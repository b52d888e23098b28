-- ===== src/Zentao/Analysis/Candidates.antt =====
-- internal/service/zentao/analysis.go: what the candidates of relatedBugs and their records give.
use zentao_mcp.Base.{
  ℕ, ◌≤◌, ◌≡◌, refl, true, false, not, ◌||◌, ◌&&◌, ◌⊎◌, inl, inr, Option, none, some, List, [], ◌∷◌,
  ◌++◌, arith, if◌then◌else◌, if_cases, ltb, leb, length, take, length-append, length-take, All,
}
use zentao_mcp.Base.Int.{ℤ, is_positive, int_eq}
use zentao_mcp.Base.Pairs.{All-append, All-take}
use zentao_mcp.Base.Results.{Returns}
use zentao_mcp.Base.Sort.{sort_by, sort_by-All}
use zentao_mcp.Base.Text.{Text, codes}
use zentao_mcp.Json.{Fields}
use zentao_mcp.Zentao.Values.{field_int}
use zentao_mcp.Zentao.Listing.{Listing}
use zentao_mcp.Zentao.Runtime.{Runtime}
use zentao_mcp.Zentao.Bugs.{BugSummary}
use zentao_mcp.Zentao.Client.{RequestFault, Payload}
use zentao_mcp.Zentao.Analysis.{
  Ranker, RelatedBug, other_hits, related_from, take_candidate, take_candidates, alike, more_alike,
  first_related, scanned_related, usable_related, or_scan,
}
use zentao_mcp.Bugindex.{Hit}

-- `Source` says of an id and a record that the server answered with the record.
module _ (rt : Runtime) (rk : Ranker rt.floats.F) (bug : BugSummary rt.floats.F)
    (Source : ℤ → Fields rt.floats.F → Type 0) where
  open rt use {floats}

  -- A proposal is another bug: it is made of a record of the server that carries its id.
  abbrev pub IsOther : RelatedBug floats.F → Type 0
  IsOther b =
      (int_eq b.id bug.id ≡ false)
      × ((rec : Fields floats.F) × Source b.id rec
          × (int_eq (field_int floats (codes "id" ∷ []) rec) b.id ≡ true)
          × (b ≡ related_from rt rk bug b.id rec))

  -- At most `n` proposals, all of other bugs.
  abbrev pub Proposes : ℕ → List (RelatedBug floats.F) → Type 0
  Proposes n bs = All IsOther bs × (length bs ≤ n)

  int_eq_refl : (a : ℤ) → int_eq a a ≡ true
  unfolding int_eq
  int_eq_refl a = ground arith

  -- The server answered with the record, for the id that it carries.
  abbrev pub IsOwn : Fields floats.F → Type 0
  IsOwn rec = Source (field_int floats (codes "id" ∷ []) rec) rec

  alike-IsOther :
      (recs : List (Fields floats.F)) → All IsOwn recs → All IsOther (alike rt rk bug recs)
  unfolding alike related_from
  alike-IsOther [] o = tt
  alike-IsOther (rec ∷ recs) o =
      let id : ℤ = field_int floats (codes "id" ∷ []) rec in
      let b : RelatedBug floats.F = related_from rt rk bug id rec in
      if_cases {A = List (RelatedBug floats.F)} (All IsOther)
        (int_eq id bug.id || not (is_positive id)) {x = alike rt rk bug recs}
        {y = if rk.is_unlike b.similarity && not b.same_module
          then alike rt rk bug recs
          else b ∷ alike rt rk bug recs}
        (λ skipped. alike-IsOther recs o.1)
        (λ other.
          if_cases {A = List (RelatedBug floats.F)} (All IsOther)
            (rk.is_unlike b.similarity && not b.same_module) {x = alike rt rk bug recs}
            {y = b ∷ alike rt rk bug recs} (λ unlike. alike-IsOther recs o.1)
            (λ near.
              ((ground (arith, other), (rec, o.0, int_eq_refl id, refl)), alike-IsOther recs o.1)))

  pub scanned_related-Proposes :
      (limit : ℕ) (list : Listing floats.F)
      → All IsOwn list.records
      → Proposes limit (scanned_related rt rk bug limit list).0
  unfolding scanned_related first_related
  scanned_related-Proposes limit list o =
      let found : List (RelatedBug floats.F) =
        sort_by (more_alike rt rk) (alike rt rk bug list.records) in
      let all : All IsOther found =
        sort_by-All (more_alike rt rk) IsOther (alike rt rk bug list.records)
          (alike-IsOther list.records o) in
      if_cases {A = List (RelatedBug floats.F)} (Proposes limit) (ltb limit (length found))
        {x = take limit found} {y = found}
        (λ more. (All-take IsOther limit found all, omega (arith, length-take limit found)))
        (λ few. (all, ground (arith, few)))

  -- The proposals of a result.
  abbrev pub Result : ℕ → List (RelatedBug floats.F) × List Text → Type 0
  Result n r = Proposes n r.0

  module _ {E : Type 0} where
    take_candidate-Proposes :
        (limit : ℕ) (id : ℤ) (answer : RequestFault E ⊎ Payload floats.F)
        (found : List (RelatedBug floats.F))
        → int_eq id bug.id ≡ false
        → ((rec : Fields floats.F) → answer ≡ inr (some rec) → Source id rec)
        → Proposes limit found
        → Proposes limit (take_candidate rt rk bug limit id answer found)
    unfolding take_candidate related_from
    take_candidate-Proposes limit id (inl e) found o r p = p
    take_candidate-Proposes limit id (inr none) found o r p = p
    take_candidate-Proposes limit id (inr (some rec)) found o r p =
        let b : RelatedBug floats.F = related_from rt rk bug id rec in
        if_cases {A = List (RelatedBug floats.F)} (Proposes limit)
          (not (int_eq (field_int floats (codes "id" ∷ []) rec) id) || leb limit (length found))
          {x = found} {y = found ++ b ∷ []} (λ skipped. p)
          (λ kept. (
            All-append IsOther found (b ∷ []) p.0
                ((o, (rec, r rec refl, ground (arith, kept), refl)), tt),
            ground (arith, kept, length-append found (b ∷ [])),
          ))

    pub take_candidates-Proposes :
        {S : Type 0} (read : (id : ℤ) → RequestFault E ⊎ Payload floats.F) (limit : ℕ)
        (hits : List (Hit S)) (found : List (RelatedBug floats.F))
        → All (λ h. int_eq h.id bug.id ≡ false) hits
        → ((id : ℤ) (rec : Fields floats.F) → read id ≡ inr (some rec) → Source id rec)
        → Proposes limit found
        → Proposes limit (take_candidates rt rk bug read limit hits found)
    unfolding take_candidates
    take_candidates-Proposes read limit [] found o r p = p
    take_candidates-Proposes read limit (h ∷ hs) found o r p =
        take_candidates-Proposes read limit hs _ o.1 r
          (take_candidate-Proposes limit h.id (read h.id) found o.0 (r h.id) p)

  pub other_hits-All :
      {S : Type 0} (hits : List (Hit S))
      → All (λ h. int_eq h.id bug.id ≡ false) (other_hits bug.id hits)
  unfolding other_hits
  other_hits-All [] = tt
  other_hits-All {S} (h ∷ hs) =
      if_cases {A = List (Hit S)} (All (λ x. int_eq x.id bug.id ≡ false)) (int_eq h.id bug.id)
        (λ same. other_hits-All hs) (λ other. (other, other_hits-All hs))

  -- What the index finds is a result, if it is anything.
  abbrev pub Usable : ℕ → Option (List (RelatedBug floats.F) × List Text) → Type 0
  Usable n none = Unit
  Usable n (some r) = Result n r

  pub usable_related-Usable :
      (n : ℕ) (bs : List (RelatedBug floats.F)) → Proposes n bs → Usable n (usable_related rt rk bs)
  unfolding usable_related
  usable_related-Usable n [] p = tt
  usable_related-Usable n (b ∷ bs) p = p

  pub or_scan-Returns :
      (n : ℕ) (o scan : Option (List (RelatedBug floats.F) × List Text))
      → Usable n o
      → Returns (Result n) scan
      → Returns (Result n) (or_scan rt rk o scan)
  unfolding or_scan
  or_scan-Returns n none scan u r = r
  or_scan-Returns n (some found) scan u r = u
