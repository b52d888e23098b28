-- ===== src/Zentao/Listing/Pages.antt =====
-- internal/service/zentao/client.go: how far the two loops of `listAll` go.
use zentao_mcp.Base.{
  ℕ, zero, suc, ◌+◌, ◌≤◌, ◌<◌, ◌≡◌, ap, sym, ◌≢◌, refl, Option, none, some, List, [], ◌∷◌, length,
  length-append, arith, ◌⊎◌, inl, inr,
}
use zentao_mcp.Base.Int.{ℤ, or_default}
use zentao_mcp.Json.{Fields, Floats}
use zentao_mcp.Zentao.Payload.{pick_list}
use zentao_mcp.Zentao.Listing.{
  Listing, Cursor, Turn, stop, next, Outcome, done, failed, take_record, over_budget, append_record,
  truncate_for, finish_listing, record_id, note_total, count_total, raise_total, scan_page,
  after_page, read_page, read_pages, after_turn, after_fetch, list_all, empty_cursor,
  default_page_size,
}

module _ {F : Type 0} where
  pub length-append_record :
      (r : Listing F) (rec : Fields F)
      → length (append_record r rec).records ≡ suc (length r.records)
  unfolding append_record
  length-append_record r rec = omega (arith, length-append r.records (rec ∷ []))

  -- The number of records after a page.
  abbrev turn_size : Turn F → ℕ
  turn_size (stop r) = length r.records
  turn_size (next c) = length c.res.records

  -- Only a turn with new records goes on.
  abbrev Advanced : ℕ → Turn F → Type 0
  Advanced before (stop r) = Unit
  Advanced before (next c) = length c.res.records ≢ before

  after_page-size :
      (page_size max_scan count before : ℕ) (c : Cursor F)
      → turn_size (after_page page_size max_scan count before c) ≡ length c.res.records
  unfolding after_page truncate_for
  after_page-size page_size max_scan count before c = ground arith

  after_page-Advanced :
      (page_size max_scan count before : ℕ) (c : Cursor F)
      → Advanced before (after_page page_size max_scan count before c)
  unfolding after_page
  after_page-Advanced page_size max_scan count before c = ground arith

module _ (fl : Floats) (max_scan : ℕ) where
  open fl use {F}

  scan_page-grows :
      (items : List (Fields F)) (c : Cursor F)
      → length c.res.records ≤ length (scan_page fl max_scan items c).res.records
  unfolding scan_page take_record over_budget truncate_for
  scan_page-grows [] c = omega arith
  scan_page-grows (rec ∷ items) c = ground (
    arith,
    scan_page-grows items c,
    scan_page-grows items (take_record (record_id fl rec) rec c),
    length-append_record c.res rec,
  )

  scan_page-within :
      (items : List (Fields F)) (c : Cursor F)
      → length c.res.records ≤ max_scan
      → length (scan_page fl max_scan items c).res.records ≤ max_scan
  unfolding scan_page take_record over_budget truncate_for
  scan_page-within [] c h = h
  scan_page-within (rec ∷ items) c h = ground (
    arith,
    scan_page-within items c,
    scan_page-within items (take_record (record_id fl rec) rec c),
    length-append_record c.res rec,
  )

  pub scan_page-total :
      (items : List (Fields F)) (c : Cursor F)
      → (scan_page fl max_scan items c).res.total ≡ c.res.total
  unfolding scan_page take_record over_budget truncate_for append_record
  scan_page-total [] c = refl
  scan_page-total (rec ∷ items) c =
      ground (
        arith,
        scan_page-total items c,
        scan_page-total items (take_record (record_id fl rec) rec c),
      )

  pub count_total-records :
      (t : Option ℤ) (c : Cursor F) → (count_total t c).res.records ≡ c.res.records
  unfolding count_total raise_total
  count_total-records none c = refl
  count_total-records (some n) c = ground arith

  note_total-records :
      (body : Fields F) (c : Cursor F) → (note_total fl body c).res.records ≡ c.res.records
  unfolding note_total
  note_total-records body c = count_total-records _ c

  -- A turn keeps to the budget, and goes on only with new records.
  abbrev Bounded : ℕ → Turn F → Type 0
  Bounded before (stop r) = length r.records ≤ max_scan
  Bounded before (next c) = (before < length c.res.records) × (length c.res.records ≤ max_scan)

  Bounded-intro :
      (before : ℕ) (t : Turn F) (n : ℕ)
      → turn_size t ≡ n
      → Advanced before t
      → before ≤ n
      → n ≤ max_scan
      → Bounded before t
  Bounded-intro before (stop r) n e a l h = omega (arith, e, h)
  Bounded-intro before (next c) n e a l h = ground (arith, e, a, l, h)

  read_page-Bounded :
      (page_size : ℕ) (body : Fields F) (c : Cursor F)
      → length c.res.records ≤ max_scan
      → Bounded (length c.res.records) (read_page fl page_size max_scan body c)
  unfolding read_page
  read_page-Bounded page_size body c h =
      let c1 : Cursor F = note_total fl body c in
      let items : List (Fields F) = pick_list body in
      let c2 : Cursor F = scan_page fl max_scan items c1 in
      let e : length c1.res.records ≡ length c.res.records =
        ap length (note_total-records body c) in
      let t : Turn F = after_page page_size max_scan (length items) (length c1.res.records) c2 in
      let a : Advanced (length c.res.records) t =
        rw (sym e)
          (after_page-Advanced page_size max_scan (length items) (length c1.res.records) c2) in
      Bounded-intro (length c.res.records) t (length c2.res.records)
        (after_page-size page_size max_scan (length items) (length c1.res.records) c2) a
        (omega (arith, e, scan_page-grows items c1))
        (scan_page-within items c1 (omega (arith, e, h)))

  abbrev pub listing_of : {E : Type 0} → Outcome E F → Listing F
  listing_of (done r) = r
  listing_of (failed e r) = r

  -- There is an outcome, and it keeps to the budget.
  abbrev pub Ended : {E : Type 0} → Option (Outcome E F) → Type 0
  Ended none = ⊥
  Ended (some o) = length (listing_of o).records ≤ max_scan

  finish_listing-records : (r : Listing F) → length (finish_listing r).records ≡ length r.records
  unfolding finish_listing
  finish_listing-records r = ground arith

  after_turn-Ended :
      {E : Type 0} (loop : Cursor F → Option (Outcome E F)) (before : ℕ) (t : Turn F)
      → Bounded before t
      → ((c : Cursor F)
          → before < length c.res.records
          → length c.res.records ≤ max_scan
          → Ended (loop c))
      → Ended (after_turn loop t)
  unfolding after_turn
  after_turn-Ended loop before (stop r) b go = omega (arith, b, finish_listing-records r)
  after_turn-Ended loop before (next c) b go = go c b.0 b.1

  after_fetch-Ended :
      {E : Type 0} (c : Cursor F) (loop : Fields F → Option (Outcome E F)) (answer : E ⊎ Fields F)
      → length c.res.records ≤ max_scan
      → ((body : Fields F) → Ended (loop body))
      → Ended (after_fetch c loop answer)
  unfolding after_fetch
  after_fetch-Ended c loop (inl e) h go = h
  after_fetch-Ended c loop (inr body) h go = go body

  pub read_pages-Ended :
      {E : Type 0} (get_json : (page_size page : ℕ) → E ⊎ Fields F) (fuel page_size page : ℕ)
      (c : Cursor F)
      → length c.res.records ≤ max_scan
      → suc max_scan ≤ fuel + length c.res.records
      → Ended (read_pages fl get_json fuel page_size max_scan page c)
  unfolding read_pages
  read_pages-Ended get_json zero page_size page c h f = absurd (omega (arith, h, f))
  read_pages-Ended get_json (suc fuel) page_size page c h f =
      after_fetch-Ended c _ (get_json page_size page) h (λ body.
        after_turn-Ended _ (length c.res.records) (read_page fl page_size max_scan body c)
          (read_page-Bounded page_size body c h)
          (λ d l b. read_pages-Ended get_json fuel page_size (suc page) d b (omega (arith, l, f))))

module _ (fl : Floats) where
  open fl use {F}

  -- With any answers of the upstream server, `listAll` returns, after at most one page more than
  -- its budget of records, and the result holds no more records than the budget, which is
  -- `maxScan`, or 100 if that is not positive.
  pub list_all-Ended :
      {E : Type 0} (get_json : (page_size page : ℕ) → E ⊎ Fields F) (max_scan : ℤ)
      → Ended fl (or_default default_page_size max_scan) (list_all fl get_json max_scan)
  unfolding list_all
  list_all-Ended get_json max_scan =
      let limit : ℕ = or_default default_page_size max_scan in
      read_pages-Ended fl limit get_json (suc limit) _ 1 empty_cursor (omega arith) (omega arith)
