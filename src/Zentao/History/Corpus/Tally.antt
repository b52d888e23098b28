-- ===== src/Zentao/History/Corpus/Tally.antt =====
-- internal/service/zentao/history.go: how the scans of the products are counted and merged.
use zentao_mcp.Base.{
  ℕ, ◌+◌, ◌≡◌, not, ◌&&◌, Option, none, some, List, [], ◌∷◌, arith, if◌then◌else◌, if_cases,
  is_some, All, All-map,
}
use zentao_mcp.Base.Int.{int_eq}
use zentao_mcp.Base.Pairs.{All-Mem}
use zentao_mcp.Bugindex.{Doc}
use zentao_mcp.Zentao.History.Corpus.{
  ProductScan, Corpus, put_doc, put_docs, count_truncated, add_scan, merge_scans,
}
use mathlib.Core.List.{Mem}

pub put_doc-All :
    (P : Doc → Type 0) (d : Doc) (es : List Doc) → P d → All P es → All P (put_doc d es)
unfolding put_doc
put_doc-All P d [] p h = (p, tt)
put_doc-All P d (e ∷ es) p h =
    if_cases {A = List Doc} (All P) (int_eq e.id d.id) (λ same. (p, h.1))
      (λ other. (h.0, put_doc-All P d es p h.1))

put_docs-All : (P : Doc → Type 0) (ds es : List Doc) → All P ds → All P es → All P (put_docs ds es)
unfolding put_docs
put_docs-All P [] es h g = g
put_docs-All P (d ∷ ds) es h g = put_docs-All P ds (put_doc d es) h.1 (put_doc-All P d es h.0 g)

module _ {E : Type 0} where
  -- The scans of products that have an id.
  abbrev pub counted_among : List (ProductScan E) → ℕ
  counted_among [] = 0
  counted_among (scan ∷ scans) = (if scan.counted then 1 else 0) + counted_among scans

  -- Those of them that ended with an error.
  abbrev pub failed_among : List (ProductScan E) → ℕ
  failed_among [] = 0
  failed_among (scan ∷ scans) =
      (if scan.counted && is_some scan.err then 1 else 0) + failed_among scans

  -- A document that one of the scans found.
  abbrev pub FoundBy : List (ProductScan E) → Doc → Type 0
  FoundBy scans d = (scan : ProductScan E) × Mem scan scans × Mem d scan.docs

  add_scan-failed :
      (scan : ProductScan E) (o : Option E) (c : Corpus)
      → (add_scan scan o c).failed_scans ≡ c.failed_scans + (if is_some o then 1 else 0)
  unfolding add_scan count_truncated
  add_scan-failed scan (some e) c = omega arith
  add_scan-failed scan none c = ground arith

  add_scan-scanned :
      (scan : ProductScan E) (o : Option E) (c : Corpus)
      → (add_scan scan o c).scanned ≡ c.scanned + 1
  unfolding add_scan count_truncated
  add_scan-scanned scan (some e) c = omega arith
  add_scan-scanned scan none c = ground arith

  add_scan-All :
      (P : Doc → Type 0) (scan : ProductScan E) (o : Option E) (c : Corpus)
      → All P scan.docs
      → All P c.docs
      → All P (add_scan scan o c).docs
  unfolding add_scan
  add_scan-All P scan (some e) c f h = h
  add_scan-All P scan none c f h = put_docs-All P scan.docs c.docs f h

  merge_scans-failed :
      (scans : List (ProductScan E)) (c : Corpus)
      → (merge_scans scans c).failed_scans ≡ c.failed_scans + failed_among scans
  unfolding merge_scans
  merge_scans-failed [] c = omega arith
  merge_scans-failed (scan ∷ scans) c =
      let next : Corpus = if not scan.counted then c else add_scan scan scan.err c in
      let q : next.failed_scans
          ≡ c.failed_scans + (if scan.counted && is_some scan.err then 1 else 0) =
        ground (arith, add_scan-failed scan scan.err c) in
      omega (arith, q, merge_scans-failed scans next)

  merge_scans-scanned :
      (scans : List (ProductScan E)) (c : Corpus)
      → (merge_scans scans c).scanned ≡ c.scanned + counted_among scans
  unfolding merge_scans
  merge_scans-scanned [] c = omega arith
  merge_scans-scanned (scan ∷ scans) c =
      let next : Corpus = if not scan.counted then c else add_scan scan scan.err c in
      let q : next.scanned ≡ c.scanned + (if scan.counted then 1 else 0) =
        ground (arith, add_scan-scanned scan scan.err c) in
      omega (arith, q, merge_scans-scanned scans next)

  pub failed-merge_scans :
      (scans : List (ProductScan E)) (c : Corpus)
      → c.failed_scans ≡ 0
      → (merge_scans scans c).failed_scans ≡ failed_among scans
  failed-merge_scans scans c h = omega (arith, h, merge_scans-failed scans c)

  pub scanned-merge_scans :
      (scans : List (ProductScan E)) (c : Corpus)
      → c.scanned ≡ 0
      → (merge_scans scans c).scanned ≡ counted_among scans
  scanned-merge_scans scans c h = omega (arith, h, merge_scans-scanned scans c)

  merge_scans-All :
      (P : Doc → Type 0) (scans : List (ProductScan E)) (c : Corpus)
      → All (λ scan. All P scan.docs) scans
      → All P c.docs
      → All P (merge_scans scans c).docs
  unfolding merge_scans
  merge_scans-All P [] c f h = h
  merge_scans-All P (scan ∷ scans) c f h = merge_scans-All P scans _ f.1 (
      if_cases {A = Corpus} (λ d. All P d.docs) (not scan.counted) {x = c}
        {y = add_scan scan scan.err c} (λ skipped. h)
        (λ counted. add_scan-All P scan scan.err c f.0 h))

  pub merge_scans-FoundBy :
      (scans : List (ProductScan E)) (c : Corpus)
      → c.docs ≡ []
      → All (FoundBy scans) (merge_scans scans c).docs
  merge_scans-FoundBy scans c h =
      merge_scans-All (FoundBy scans) scans c
        (All-map (λ scan. Mem scan scans) (λ scan. All (FoundBy scans) scan.docs) scans
          (λ scan m.
            All-map (λ d. Mem d scan.docs) (FoundBy scans) scan.docs (λ d n. (scan, m, n))
              (All-Mem scan.docs))
          (All-Mem scans))
        (rw h tt)
