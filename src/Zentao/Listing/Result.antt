-- ===== src/Zentao/Listing/Result.antt =====
-- internal/service/zentao/client.go: what a listing that is returned says of the collection.
use zentao_mcp.Base.{
  ℕ, zero, suc, ◌≤◌, ◌≡◌, ap, refl, true, false, not, ◌&&◌, ◌||◌, Option, none, some, List, [], ◌∷◌,
  ◌++◌, ltb, leb, ◌==◌, if◌then◌else◌, length, arith, ◌⊎◌, inl, inr, if_cases,
}
use zentao_mcp.Base.Text.{text_eq}
use zentao_mcp.Base.Int.{ℤ, or_default, to_nat}
use zentao_mcp.Json.{Fields, Floats}
use zentao_mcp.Zentao.Payload.{pick_list}
use zentao_mcp.Zentao.Listing.Pages.{Ended, list_all-Ended}
use zentao_mcp.Zentao.Listing.{
  Listing, Cursor, Turn, stop, next, Outcome, done, failed, member, take_record, over_budget,
  append_record, truncate_for, finish_listing, record_id, note_total, count_total, raise_total,
  scan_page, after_page, read_page, read_pages, after_turn, after_fetch, list_all, empty_cursor,
  default_page_size,
}
use zentao_mcp.Zentao.Listing.Origin.{IsFrom, page_size_of, list_all-IsFrom}
use zentao_mcp.Zentao.Listing.Ids.{
  distinct, covered, member-covered, distinct-append, covered-note, covered-append,
}

module _ (fl : Floats) where
  open fl use {F}

  abbrev pub ids : List (Fields F) → List ℕ
  ids [] = []
  ids (rec ∷ rs) = record_id fl rec ∷ ids rs

  ids-append :
      (rs : List (Fields F)) (rec : Fields F)
      → ids (rs ++ rec ∷ []) ≡ ids rs ++ record_id fl rec ∷ []
  ids-append [] rec = refl
  ids-append (r ∷ rs) rec = ap (λ xs. record_id fl r ∷ xs) (ids-append rs rec)

  -- The ids taken so far are distinct and noted.
  abbrev Tidy : Cursor F → Type 0
  Tidy c = (distinct (ids c.res.records) ≡ true) × (covered (ids c.res.records) c.seen ≡ true)

  take_record-Tidy :
      (rec : Fields F) (c : Cursor F)
      → Tidy c
      → (ltb 0 (record_id fl rec) && member (record_id fl rec) c.seen) ≡ false
      → Tidy (take_record (record_id fl rec) rec c)
  unfolding take_record append_record
  take_record-Tidy rec c t h =
      let id : ℕ = record_id fl rec in
      let xs : List ℕ = ids c.res.records in
      let fresh : (ltb 0 id && member id xs) ≡ false =
        ground (arith, member-covered id xs c.seen t.1) in
      rw (ids-append c.res.records rec)
        (distinct-append id xs t.0 fresh, covered-append xs c.seen id t.1)

  over_budget-Tidy : (id : ℕ) (c : Cursor F) → Tidy c → Tidy (over_budget id c)
  unfolding over_budget truncate_for
  over_budget-Tidy id c t = (t.0, covered-note (ids c.res.records) c.seen id t.1)

  scan_page-Tidy :
      (max_scan : ℕ) (items : List (Fields F)) (c : Cursor F)
      → Tidy c
      → Tidy (scan_page fl max_scan items c)
  unfolding scan_page
  scan_page-Tidy max_scan [] c t = t
  scan_page-Tidy max_scan (rec ∷ items) c t =
      if_cases Tidy (ltb 0 (record_id fl rec) && member (record_id fl rec) c.seen)
        (λ hit. scan_page-Tidy max_scan items c t)
        (λ new.
          if_cases Tidy (leb max_scan (length c.res.records))
            (λ full. over_budget-Tidy (record_id fl rec) c t)
            (λ room. scan_page-Tidy max_scan items _ (take_record-Tidy rec c t new)))

  -- A listing is marked as truncated exactly when it has a reason.
  abbrev Explained : Listing F → Type 0
  Explained r = r.truncated ≡ not (text_eq r.reason [])

  scan_page-Explained :
      (max_scan : ℕ) (items : List (Fields F)) (c : Cursor F)
      → Explained c.res
      → Explained (scan_page fl max_scan items c).res
  unfolding scan_page take_record over_budget truncate_for append_record text_eq
  scan_page-Explained max_scan [] c x = x
  scan_page-Explained max_scan (rec ∷ items) c x =
      let id : ℕ = record_id fl rec in
      let full : Cursor F = over_budget id c in
      let taken : Cursor F = scan_page fl max_scan items (take_record id rec c) in
      if_cases {A = Cursor F} (λ d. Explained d.res) (ltb 0 id && member id c.seen)
        {x = scan_page fl max_scan items c}
        {y = if leb max_scan (length c.res.records) then full else taken}
        (λ hit. scan_page-Explained max_scan items c x)
        (λ new.
          if_cases {A = Cursor F} (λ d. Explained d.res) (leb max_scan (length c.res.records))
            {x = full} {y = taken} (λ over. refl)
            (λ room. scan_page-Explained max_scan items (take_record id rec c) x))

  -- What `listAll` promises of a listing.
  abbrev Honest : Listing F → Type 0
  Honest r = (distinct (ids r.records) ≡ true) × Explained r

  abbrev Kept : Turn F → Type 0
  Kept (stop r) = Honest r
  Kept (next c) = Tidy c × Explained c.res

  after_page-Kept :
      (page_size max_scan count before : ℕ) (c : Cursor F)
      → Tidy c
      → Explained c.res
      → Kept (after_page page_size max_scan count before c)
  unfolding after_page truncate_for text_eq
  after_page-Kept page_size max_scan count before c t x =
      let n : ℕ = length c.res.records in
      if_cases Kept c.res.truncated (λ a. (t.0, x))
        (λ a.
          if_cases Kept
            (count == 0
              || ltb count page_size
              || (c.has_total && ltb 0 c.res.total && leb c.res.total n))
            (λ b. (t.0, x))
            (λ b.
              if_cases Kept (n == before) (λ d. (t.0, refl))
                (λ d.
                  if_cases Kept (leb max_scan n && c.has_total) (λ e. (t.0, refl)) (λ e. (t, x)))))

  count_total-Kept :
      (n : Option ℤ) (c : Cursor F)
      → Tidy c
      → Explained c.res
      → Tidy (count_total n c) × Explained (count_total n c).res
  unfolding count_total raise_total
  count_total-Kept none c t x = (t, x)
  count_total-Kept (some n) c t x =
      if_cases {A = Cursor F} (λ d. Tidy d × Explained d.res) (ltb 0 (to_nat n)) (λ p. (t, x))
        (λ z. (t, x))

  note_total-Kept :
      (body : Fields F) (c : Cursor F)
      → Tidy c
      → Explained c.res
      → Tidy (note_total fl body c) × Explained (note_total fl body c).res
  unfolding note_total
  note_total-Kept body c t x = count_total-Kept _ c t x

  read_page-Kept :
      (page_size max_scan : ℕ) (body : Fields F) (c : Cursor F)
      → Tidy c
      → Explained c.res
      → Kept (read_page fl page_size max_scan body c)
  unfolding read_page
  read_page-Kept page_size max_scan body c t x =
      let k : Tidy (note_total fl body c) × Explained (note_total fl body c).res =
        note_total-Kept body c t x in
      after_page-Kept page_size max_scan _ _ _
        (scan_page-Tidy max_scan (pick_list body) (note_total fl body c) k.0)
        (scan_page-Explained max_scan (pick_list body) (note_total fl body c) k.1)

  -- The total that the upstream server has stated is there, unless the listing is truncated.
  abbrev Exhaustive : Listing F → Type 0
  Exhaustive r = (r.truncated ≡ true) ⊎ (r.total ≤ length r.records)

  finish_listing-Honest :
      (r : Listing F) → Honest r → Honest (finish_listing r) × Exhaustive (finish_listing r)
  unfolding finish_listing text_eq
  finish_listing-Honest r h =
      if_cases {A = Listing F} (λ d. Honest d × Exhaustive d) (ltb (length r.records) r.total)
        (λ less. ((h.0, ground arith), inl refl)) (λ enough. (h, inr (ground arith)))

  -- What an outcome promises.
  abbrev pub Promise : {E : Type 0} → Outcome E F → Type 0
  Promise (failed e r) = Honest r
  Promise (done r) = Honest r × Exhaustive r

  abbrev Promised : {E : Type 0} → Option (Outcome E F) → Type 0
  Promised none = Unit
  Promised (some o) = Promise o

  after_turn-Promised :
      {E : Type 0} (loop : Cursor F → Option (Outcome E F)) (t : Turn F)
      → Kept t
      → ((c : Cursor F) → Tidy c → Explained c.res → Promised (loop c))
      → Promised (after_turn loop t)
  unfolding after_turn
  after_turn-Promised loop (stop r) k go = finish_listing-Honest r k
  after_turn-Promised loop (next c) k go = go c k.0 k.1

  after_fetch-Promised :
      {E : Type 0} (c : Cursor F) (loop : Fields F → Option (Outcome E F)) (answer : E ⊎ Fields F)
      → Honest c.res
      → ((body : Fields F) → Promised (loop body))
      → Promised (after_fetch c loop answer)
  unfolding after_fetch
  after_fetch-Promised c loop (inl e) h go = h
  after_fetch-Promised c loop (inr body) h go = go body

  read_pages-Promised :
      {E : Type 0} (get_json : (page_size page : ℕ) → E ⊎ Fields F)
      (fuel page_size max_scan page : ℕ) (c : Cursor F)
      → Tidy c
      → Explained c.res
      → Promised (read_pages fl get_json fuel page_size max_scan page c)
  unfolding read_pages
  read_pages-Promised get_json zero page_size max_scan page c t x = tt
  read_pages-Promised get_json (suc fuel) page_size max_scan page c t x =
      after_fetch-Promised c _ (get_json page_size page) (t.0, x)
        (λ body.
          after_turn-Promised _ (read_page fl page_size max_scan body c)
            (read_page-Kept page_size max_scan body c t x)
            (λ d. read_pages-Promised get_json fuel page_size max_scan (suc page) d))

  Promise-intro :
      {E : Type 0} (limit : ℕ) (o : Option (Outcome E F))
      → Ended fl limit o
      → Promised o
      → (out : Outcome E F) × (o ≡ some out) × Promise out
  Promise-intro limit none b p = absurd b
  Promise-intro limit (some out) b p = (out, refl, p)

  list_all-Promised :
      {E : Type 0} (get_json : (page_size page : ℕ) → E ⊎ Fields F) (max_scan : ℤ)
      → Promised (list_all fl get_json max_scan)
  unfolding list_all distinct covered text_eq
  list_all-Promised get_json max_scan =
      let limit : ℕ = or_default default_page_size max_scan in
      read_pages-Promised get_json (suc limit) _ limit 1 empty_cursor (refl, refl) refl

  -- Whatever the upstream server answers, `listAll` returns, and: in the listing that it returns,
  -- also with an error, no positive id stands twice, it is marked as truncated exactly when it has a
  -- reason, every record is one of the pages that were read, which are the first pages up to the
  -- last one or to one that failed, and its total is the largest total that these pages state.
  -- Without an error, a listing that is not marked holds at least as many records as that.
  pub list_all-Promise :
      {E : Type 0} (get_json : (page_size page : ℕ) → E ⊎ Fields F) (max_scan : ℤ)
      → (out : Outcome E F) × (list_all fl get_json max_scan ≡ some out)
        × Promise out
        × IsFrom fl get_json (page_size_of max_scan) out
  list_all-Promise get_json max_scan =
      let limit : ℕ = or_default default_page_size max_scan in
      let (out, e, p) =
        Promise-intro limit (list_all fl get_json max_scan) (list_all-Ended fl get_json max_scan)
          (list_all-Promised get_json max_scan) in
      (out, e, p, list_all-IsFrom fl get_json max_scan out e)
