-- ===== src/Zentao/History/Corpus.antt =====
-- internal/service/zentao/history.go: buildCorpus and refreshIndex. `get_json` answers each page of a
-- list to the service account.
pub mod Healthy
pub mod Collected
pub mod Tally
use zentao_mcp.Base.{
  ℕ, suc, ◌*◌, Bool, true, false, not, ◌||◌, ◌&&◌, ◌⊎◌, inl, inr, Option, none, some, List, [], ◌∷◌,
  ◌++◌, if◌then◌else◌, ltb, leb, is_some,
}
use zentao_mcp.Base.Int.{ℤ, pos, is_positive, int_eq}
use zentao_mcp.Base.Results.{and_then, either}
use zentao_mcp.Base.Text.{Text, codes}
use zentao_mcp.Json.{Fields}
use zentao_mcp.Json.Numbers.{format_int}
use zentao_mcp.Zentao.Values.{field, field_int, field_string}
use zentao_mcp.Zentao.Dates.{date_only}
use zentao_mcp.Zentao.Listing.{Listing, Outcome, done, failed, list_all}
use zentao_mcp.Zentao.Runtime.{Runtime}
use zentao_mcp.Zentao.Bugs.State.{Query}
use zentao_mcp.Zentao.History.{IndexOptions, max_failed_scan_percent}
use zentao_mcp.Bugindex.{Arithmetic, Doc}
use zentao_mcp.Bugindex.Tokenize.{strip_markup, clip, extract_tags}
use zentao_mcp.Bugindex.Build.{Snapshot, replace}

pub record CorpusCoverage : Type 0 where
  pub product_list_truncated : Bool
  pub truncated_products : ℕ
  pub failed_products : ℕ

abbrev pub no_coverage : CorpusCoverage
no_coverage = record { product_list_truncated = false; truncated_products = 0; failed_products = 0 }

-- `productScan`, without what is only logged.
pub record ProductScan (E : Type 0) : Type 0 where
  pub docs : List Doc
  pub err : Option E
  pub counted : Bool
  pub truncated : Bool

-- The results of buildCorpus.
pub record Corpus : Type 0 where
  pub docs : List Doc
  pub scanned : ℕ
  pub failed_scans : ℕ
  pub coverage : CorpusCoverage

pub data BuildError (E : Type 0) : Type 0 where
  unlisted : E → BuildError E
  degraded : (failed_scans scanned : ℕ) → BuildError E

-- `buildState` (package.go)
pub record BuildState (E : Type 0) : Type 0 where
  pub is_done : Bool
  pub err : Option (BuildError E)
  pub built_at : ℕ
  pub coverage : CorpusCoverage

-- The part of Service that a refresh of the index changes.
pub record IndexState (F E : Type 0) : Type 0 where
  pub index : Snapshot F
  pub build_state : Option (BuildState E)

-- `byID[d.ID] = d`
unfoldable pub put_doc : Doc → List Doc → List Doc
put_doc d [] = d ∷ []
put_doc d (e ∷ es) = let rest = e ∷ put_doc d es in if int_eq e.id d.id then d ∷ es else rest

unfoldable pub put_docs : List Doc → List Doc → List Doc
unfolding put_doc
put_docs [] by_id = by_id
put_docs (d ∷ ds) by_id = put_docs ds (put_doc d by_id)

unfoldable pub count_truncated : Bool → Corpus → Corpus
count_truncated false c = c
count_truncated true c = record c {
  coverage = record c.coverage { truncated_products = suc c.coverage.truncated_products };
}

unfoldable pub add_scan : {E : Type 0} → ProductScan E → Option E → Corpus → Corpus
unfolding count_truncated put_docs
add_scan scan (some e) c = record c { scanned = suc c.scanned; failed_scans = suc c.failed_scans }
add_scan scan none c =
    let next = count_truncated scan.truncated (record c { scanned = suc c.scanned }) in
    record next { docs = put_docs scan.docs c.docs }

-- The loop over the scans.
unfoldable pub merge_scans : {E : Type 0} → List (ProductScan E) → Corpus → Corpus
unfolding add_scan
merge_scans [] c = c
merge_scans (scan ∷ scans) c =
    merge_scans scans (if not scan.counted then c else add_scan scan scan.err c)

unfoldable pub with_failed_products : Corpus → Corpus
with_failed_products c = record c {
  coverage = record c.coverage { failed_products = c.failed_scans };
}

-- The coverage of the previous generation.
unfoldable pub coverage_of : {E : Type 0} → Option (BuildState E) → CorpusCoverage
coverage_of none = no_coverage
coverage_of (some previous) = previous.coverage

-- `recordBuildFailure`
unfoldable pub record_build_failure :
    {F E : Type 0} → (now : ℕ) → BuildError E → IndexState F E → IndexState F E
unfolding coverage_of
record_build_failure now e st = record st {
  build_state = some (record {
    is_done = true;
    err = some e;
    built_at = now;
    coverage = coverage_of st.build_state;
  });
}

-- Too many of the scans failed.
unfoldable pub is_degraded : Corpus → Bool
is_degraded c =
    ltb 0 c.failed_scans && leb (c.scanned * max_failed_scan_percent) (c.failed_scans * 100)

unfoldable pub corpus_of : {F E : Type 0} → Listing F → List (ProductScan E) → Corpus
unfolding merge_scans with_failed_products
corpus_of products scans = with_failed_products (
    merge_scans scans (record {
      docs = [];
      scanned = 0;
      failed_scans = 0;
      coverage = record no_coverage { product_list_truncated = products.truncated };
    }))

module _ {E : Type 0} (ar : Arithmetic) (now : ℕ) where
  unfoldable pub install : Corpus → IndexState ar.F E → IndexState ar.F E
  install c st = record {
    index = replace ar now c.docs st.index;
    build_state =
        some (record { is_done = true; err = none; built_at = now; coverage = c.coverage });
  }

  unfoldable pub refresh_with : E ⊎ Corpus → IndexState ar.F E → IndexState ar.F E
  unfolding install record_build_failure is_degraded
  refresh_with (inl e) st = record_build_failure now (unlisted e) st
  refresh_with (inr c) st =
      if is_degraded c
      then record_build_failure now (degraded c.failed_scans c.scanned) st
      else install c st

module _ (rt : Runtime) (opts : IndexOptions) where
  open rt use {floats, calendar}

  unfoldable pub doc_of : (pid : ℤ) (pname : Text) → Fields floats.F → Doc
  doc_of pid pname rec =
      let title = field_string floats (codes "title" ∷ []) rec in
      let steps = field_string floats (codes "steps" ∷ []) rec in
      record {
        id = field_int floats (codes "id" ∷ []) rec;
        product = pid;
        product_name = pname;
        module_id = field_int floats (codes "module" ∷ []) rec;
        title = title;
        body = clip (strip_markup steps) opts.body_chars;
        tags = extract_tags title;
        severity = field_int floats (codes "severity" ∷ []) rec;
        kind = field_string floats (codes "type" ∷ []) rec;
        status = field_string floats (codes "status" ∷ []) rec;
        resolution = field_string floats (codes "resolution" ∷ []) rec;
        opened_date = date_only floats calendar (field floats (codes "openedDate" ∷ []) rec);
        resolved_date = date_only floats calendar (field floats (codes "resolvedDate" ∷ []) rec);
      }

  -- The loop over the bugs of a product.
  unfoldable pub docs_of : (pid : ℤ) (pname : Text) → List (Fields floats.F) → List Doc
  unfolding doc_of
  docs_of pid pname [] = []
  docs_of pid pname (rec ∷ recs) =
      let rest = docs_of pid pname recs in
      if not (is_positive (field_int floats (codes "id" ∷ []) rec))
      then rest
      else doc_of pid pname rec ∷ rest

  module _ {E : Type 0} where
    unfoldable pub scan_of : (pid : ℤ) (pname : Text) → Outcome E floats.F → ProductScan E
    unfolding docs_of
    scan_of pid pname (failed e list) = record {
      docs = [];
      err = some e;
      counted = true;
      truncated = false;
    }
    scan_of pid pname (done list) = record {
      docs = docs_of pid pname list.records;
      err = none;
      counted = true;
      truncated = list.truncated;
    }

    module _ (get_json : (path : Text) → Query → (page_size page : ℕ) → E ⊎ Fields floats.F) where
      abbrev pub bugs_query : Query
      bugs_query = (codes "status", codes "all") ∷ (codes "orderBy", codes "id_desc") ∷ []

      unfoldable pub product_bugs : (pid : ℤ) → Option (Outcome E floats.F)
      product_bugs pid =
          list_all floats
            (get_json (codes "/products/" ++ format_int pid ++ codes "/bugs") bugs_query)
            opts.max_bugs_per_product

      -- The scan of one product; `none` is a list whose reading goes on.
      unfoldable pub scan_product : Fields floats.F → Option (ProductScan E)
      unfolding scan_of product_bugs
      scan_product rec =
          let pid = field_int floats (codes "id" ∷ []) rec in
          let pname = field_string floats (codes "name" ∷ []) rec in
          if not (is_positive pid)
          then some (record { docs = []; err = none; counted = false; truncated = false })
          else and_then (product_bugs pid) (λ out. some (scan_of pid pname out))

      -- The scans do not share anything, so they are the same in every order.
      unfoldable pub scan_products : List (Fields floats.F) → Option (List (ProductScan E))
      unfolding scan_product
      scan_products [] = some []
      scan_products (rec ∷ recs) =
          let rest = scan_products recs in
          and_then (scan_product rec) (λ scan. and_then rest (λ scans. some (scan ∷ scans)))

      unfoldable pub after_products : Outcome E floats.F → Option (E ⊎ Corpus)
      unfolding scan_products corpus_of
      after_products (failed e products) = some (inl e)
      after_products (done products) =
          and_then (scan_products products.records) (λ scans. some (inr (corpus_of products scans)))

      unfoldable pub build_corpus : Option (E ⊎ Corpus)
      unfolding after_products
      build_corpus =
          and_then (list_all floats (get_json (codes "/products") []) opts.max_products)
            after_products

      unfoldable pub refresh_index :
          (ar : Arithmetic) → (now : ℕ) → IndexState ar.F E → Option (IndexState ar.F E)
      unfolding build_corpus refresh_with
      refresh_index ar now st = and_then build_corpus (λ built. some (refresh_with ar now built st))
