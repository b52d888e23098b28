-- ===== src/Zentao/History/Corpus/Healthy.antt =====
-- internal/service/zentao/history.go: what a refresh of the index installs, and what it keeps.
use zentao_mcp.Base.{
  ℕ, ◌*◌, ◌<◌, ◌≤◌, ◌≡◌, true, ◌⊎◌, inl, inr, Option, some, List, [], is_some, All,
}
use zentao_mcp.Base.Text.{Text, codes}
use zentao_mcp.Json.{Fields}
use zentao_mcp.Zentao.Listing.{Listing, Outcome, done, failed, list_all}
use zentao_mcp.Zentao.Runtime.{Runtime}
use zentao_mcp.Zentao.Bugs.State.{Query}
use zentao_mcp.Zentao.History.{IndexOptions}
use zentao_mcp.Zentao.History.Corpus.{ProductScan, Corpus, BuildState, IndexState, scan_products}
use zentao_mcp.Zentao.History.Corpus.Tally.{counted_among, failed_among, FoundBy}
use zentao_mcp.Bugindex.{Arithmetic, Doc}
use zentao_mcp.Bugindex.Build.{build}
use zentao_mcp.Zentao.History.Corpus.Collected.{IsCollected}

module _ (rt : Runtime) (opts : IndexOptions) where
  open rt use {floats}

  module _ {E : Type 0}
      (get_json : (path : Text) → Query → (page_size page : ℕ) → E ⊎ Fields floats.F) where
    -- The list of the products, as a refresh reads it.
    abbrev products_listed : Option (Outcome E floats.F)
    products_listed = list_all floats (get_json (codes "/products") []) opts.max_products

    -- What is built of the answers of the server: nothing if the products cannot be listed, and
    -- otherwise the documents that the scans of the products found.
    abbrev Built : E ⊎ Corpus → Type 0
    Built (inl e) = (list : Listing floats.F) × (products_listed ≡ some (failed e list))
    Built (inr c) =
        (list : Listing floats.F) × (products_listed ≡ some (done list))
        × ((scans : List (ProductScan E)) × (scan_products rt opts get_json list.records
              ≡ some scans)
            × (c.failed_scans ≡ failed_among scans)
            × (c.scanned ≡ counted_among scans)
            × All (FoundBy scans) c.docs
            × IsCollected c.docs)

    module _ (ar : Arithmetic) (now : ℕ) where
      -- The refresh keeps the index and notes an error.
      abbrev Keeps : (old new : IndexState ar.F E) → Type 0
      Keeps old new =
          (new.index ≡ old.index)
          × ((s : BuildState E) × (new.build_state ≡ some s) × (is_some s.err ≡ true))

      -- The refresh installs the index of documents that the scans found.
      abbrev Installs : List (ProductScan E) → (new : IndexState ar.F E) → Type 0
      Installs scans new =
          (docs : List Doc) × All (FoundBy scans) docs
          × IsCollected docs
          × (new.index ≡ build ar now docs)

      -- What a refresh does, by what the server answered.
      abbrev pub Refreshed : (old new : IndexState ar.F E) → Type 0
      Refreshed old new =
          ((e : E) × (list : Listing floats.F) × (products_listed ≡ some (failed e list))
            × Keeps old new)
          ⊎ ((list : Listing floats.F) × (products_listed ≡ some (done list))
              × ((scans : List (ProductScan E)) × (scan_products rt opts get_json list.records
                    ≡ some scans)
                  × (((1 ≤ failed_among scans)
                        × (counted_among scans ≤ failed_among scans * 5)
                        × Keeps old new)
                      ⊎ (((failed_among scans ≡ 0) ⊎ (failed_among scans * 5 < counted_among scans))
                          × Installs scans new))))
