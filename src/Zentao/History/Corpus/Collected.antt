-- ===== src/Zentao/History/Corpus/Collected.antt =====
-- internal/service/zentao/history.go: the documents of a corpus have positive ids, all different.
use zentao_mcp.Base.{
  ◌≡◌, ap, ==_iff, true, false, not, Option, none, some, List, [], ◌∷◌, arith, if_cases, All,
}
use zentao_mcp.Base.Int.{ℤ, pos, negsuc, is_positive, int_eq}
use zentao_mcp.Base.Pairs.{Pairs}
use zentao_mcp.Zentao.History.Corpus.{ProductScan, Corpus, put_doc, put_docs, add_scan, merge_scans}
use zentao_mcp.Zentao.History.Corpus.Tally.{put_doc-All}
use zentao_mcp.Bugindex.{Doc}

abbrev pub HasId : Doc → Type 0
HasId d = is_positive d.id ≡ true

-- Two documents have different ids.
abbrev pub Differ : Doc → Doc → Type 0
Differ d e = int_eq d.id e.id ≡ false

int_eq_iff : (a b : ℤ) → int_eq a b ≡ true → a ≡ b
unfolding int_eq
int_eq_iff (pos a) (pos b) h = ap pos ((==_iff a b).0 h)
int_eq_iff (pos a) (negsuc b) h = ground arith
int_eq_iff (negsuc a) (pos b) h = ground arith
int_eq_iff (negsuc a) (negsuc b) h = ap negsuc ((==_iff a b).0 h)

put_doc-Pairs : (d : Doc) (es : List Doc) → Pairs Differ es → Pairs Differ (put_doc d es)
unfolding put_doc
put_doc-Pairs d [] h = (tt, tt)
put_doc-Pairs d (e ∷ es) h =
    if_cases {A = List Doc} (Pairs Differ) (int_eq e.id d.id)
      (λ same. let eq : e.id ≡ d.id = int_eq_iff e.id d.id same in (rw (← eq) h.0, h.1))
      (λ other. (put_doc-All (Differ e) d es other h.0, put_doc-Pairs d es h.1))

-- The documents of a corpus have positive ids, all different.
pub record IsCollected (docs : List Doc) : Type 0 where
  pub ids : All HasId docs
  pub differ : Pairs Differ docs

put_docs-IsCollected :
    (ds es : List Doc) → All HasId ds → IsCollected es → IsCollected (put_docs ds es)
unfolding put_docs
put_docs-IsCollected [] es h c = c
put_docs-IsCollected (d ∷ ds) es h c =
    put_docs-IsCollected ds (put_doc d es) h.1
      (record { ids = put_doc-All HasId d es h.0 c.ids; differ = put_doc-Pairs d es c.differ })

module _ {E : Type 0} where
  -- The documents that a scan found have positive ids.
  abbrev pub FromScan : ProductScan E → Type 0
  FromScan scan = All HasId scan.docs

  add_scan-IsCollected :
      (scan : ProductScan E) (o : Option E) (c : Corpus)
      → FromScan scan
      → IsCollected c.docs
      → IsCollected (add_scan scan o c).docs
  unfolding add_scan
  add_scan-IsCollected scan (some e) c f h = h
  add_scan-IsCollected scan none c f h = put_docs-IsCollected scan.docs c.docs f h

  pub merge_scans-IsCollected :
      (scans : List (ProductScan E)) (c : Corpus)
      → All FromScan scans
      → IsCollected c.docs
      → IsCollected (merge_scans scans c).docs
  unfolding merge_scans
  merge_scans-IsCollected [] c f h = h
  merge_scans-IsCollected (scan ∷ scans) c f h = merge_scans-IsCollected scans _ f.1 (
      if_cases {A = Corpus} (λ d. IsCollected d.docs) (not scan.counted) {x = c}
        {y = add_scan scan scan.err c} (λ skipped. h)
        (λ counted. add_scan-IsCollected scan scan.err c f.0 h))
