-- ===== src/Zentao/Listing/Origin.antt =====
-- internal/service/zentao/client.go: where the records and the total of a listing come from.
use zentao_mcp.Base.{
  ℕ, zero, suc, max, ◌≤◌, ◌≡◌, refl, ap, ◌&&◌, ◌||◌, ◌⊎◌, inl, inr, Option, none, some, List, [],
  ◌∷◌, ltb, leb, ◌==◌, if◌then◌else◌, if_cases, length, arith, All, All-map,
}
use zentao_mcp.Base.Int.{ℤ, or_default, to_nat}
use zentao_mcp.Base.Pairs.{All-append, All-Mem}
use zentao_mcp.Base.Text.{codes}
use zentao_mcp.Json.{Fields, Floats, at}
use zentao_mcp.Zentao.Payload.{pick_list}
use zentao_mcp.Zentao.Values.{to_int}
use zentao_mcp.Zentao.Listing.{
  Listing, Cursor, Turn, stop, next, Outcome, done, failed, member, take_record, over_budget,
  append_record, truncate_for, finish_listing, record_id, note_total, count_total, raise_total,
  scan_page, after_page, read_page, read_pages, after_turn, after_fetch, list_all, empty_cursor,
  default_page_size,
}
use zentao_mcp.Zentao.Listing.Pages.{scan_page-total, count_total-records}
use mathlib.Core.List.{Mem}
use mathlib.Core.Path.{subst}

-- The size of the pages that `listAll` asks for.
abbrev pub page_size_of : ℤ → ℕ
page_size_of max_scan =
    let limit = or_default default_page_size max_scan in
    if ltb limit default_page_size then limit else default_page_size

module _ (fl : Floats) where
  open fl use {F}

  abbrev whole_or_zero : Option ℤ → ℕ
  whole_or_zero none = 0
  whole_or_zero (some n) = to_nat n

  -- The total that a page states, 0 if it states none.
  abbrev pub stated_total : {E : Type 0} → E ⊎ Fields F → ℕ
  stated_total (inl e) = 0
  stated_total (inr body) = whole_or_zero (to_int fl (at (codes "total") body))

  module _ {E : Type 0} (get_json : (page_size page : ℕ) → E ⊎ Fields F) (page_size : ℕ) where
    -- The largest total that the first pages state.
    abbrev pub largest_total : ℕ → ℕ
    largest_total zero = 0
    largest_total (suc n) = max (largest_total n) (stated_total (get_json page_size (suc n)))

    -- A record of one of the first `n` pages.
    abbrev pub FromPage : (n : ℕ) → Fields F → Type 0
    FromPage n rec =
        (i : ℕ) × (1 ≤ i)
        × (i ≤ n)
        × ((body : Fields F) × (get_json page_size i ≡ inr body) × Mem rec (pick_list body))

    -- The records are of the first `n` pages, and the total is the largest that they state.
    pub record IsOf (n : ℕ) (r : Listing F) : Type 0 where
      pub records : All (FromPage n) r.records
      pub total : r.total ≡ largest_total n

    scan_page-All :
        (P : Fields F → Type 0) (max_scan : ℕ) (items : List (Fields F)) (c : Cursor F)
        → All P items
        → All P c.res.records
        → All P (scan_page fl max_scan items c).res.records
    unfolding scan_page take_record over_budget truncate_for append_record
    scan_page-All P max_scan [] c a h = h
    scan_page-All P max_scan (rec ∷ items) c a h =
        let id : ℕ = record_id fl rec in
        let full : Cursor F = over_budget id c in
        let taken : Cursor F = scan_page fl max_scan items (take_record id rec c) in
        if_cases {A = Cursor F} (λ d. All P d.res.records) (ltb 0 id && member id c.seen)
          {x = scan_page fl max_scan items c}
          {y = if leb max_scan (length c.res.records) then full else taken}
          (λ hit. scan_page-All P max_scan items c a.1 h)
          (λ new.
            if_cases {A = Cursor F} (λ d. All P d.res.records) (leb max_scan (length c.res.records))
              {x = full} {y = taken} (λ over. h)
              (λ room.
                scan_page-All P max_scan items (take_record id rec c) a.1
                  (All-append P c.res.records (rec ∷ []) h (a.0, tt))))

    count_total-total :
        (o : Option ℤ) (c : Cursor F)
        → (count_total o c).res.total ≡ max c.res.total (whole_or_zero o)
    unfolding count_total raise_total
    count_total-total none c = omega arith
    count_total-total (some n) c = ground arith

    -- A turn after `n` pages.
    abbrev Turned : (n : ℕ) → Turn F → Type 0
    Turned n (stop r) = IsOf n r
    Turned n (next c) = IsOf n c.res

    after_page-Turned :
        (n max_scan count before : ℕ) (c : Cursor F)
        → IsOf n c.res
        → Turned n (after_page page_size max_scan count before c)
    unfolding after_page truncate_for
    after_page-Turned n max_scan count before c x =
        if_cases (Turned n) c.res.truncated (λ a. x)
          (λ a.
            if_cases (Turned n)
              (count == 0
                || ltb count page_size
                || (c.has_total && ltb 0 c.res.total && leb c.res.total (length c.res.records)))
              (λ b. x)
              (λ b.
                if_cases (Turned n) (length c.res.records == before)
                  (λ d. record { records = x.records; total = x.total })
                  (λ d.
                    if_cases (Turned n) (leb max_scan (length c.res.records) && c.has_total)
                      (λ e. record { records = x.records; total = x.total }) (λ e. x))))

    read_page-Turned :
        (n max_scan : ℕ) (body : Fields F) (c : Cursor F)
        → get_json page_size (suc n) ≡ inr body
        → IsOf n c.res
        → Turned (suc n) (read_page fl page_size max_scan body c)
    unfolding read_page note_total
    read_page-Turned n max_scan body c e x =
        let items : List (Fields F) = pick_list body in
        let o : Option ℤ = to_int fl (at (codes "total") body) in
        let c1 : Cursor F = count_total o c in
        let c2 : Cursor F = scan_page fl max_scan items c1 in
        let old : All (FromPage (suc n)) c.res.records =
          All-map (FromPage n) (FromPage (suc n)) c.res.records
            (λ rec f. (f.0, f.1, omega (arith, f.2), f.3)) x.records in
        let new : All (FromPage (suc n)) items =
          All-map (λ rec. Mem rec items) (FromPage (suc n)) items
            (λ rec m. (suc n, omega arith, omega arith, (body, e, m))) (All-Mem items) in
        let t : stated_total (get_json page_size (suc n)) ≡ whole_or_zero o = ap stated_total e in
        after_page-Turned (suc n) max_scan (length items) (length c1.res.records) c2 (record {
          records =
              scan_page-All (FromPage (suc n)) max_scan items c1 new
                (rw (count_total-records fl max_scan o c) old);
          total =
              omega
                (arith, t, x.total, scan_page-total fl max_scan items c1, count_total-total o c);
        })

    -- The end of a listing: after the pages that it is of, or at a page that failed.
    abbrev pub IsFrom : Outcome E F → Type 0
    IsFrom (done r) = (n : ℕ) × (1 ≤ n) × IsOf n r
    IsFrom (failed e r) = (n : ℕ) × (get_json page_size (suc n) ≡ inl e) × IsOf n r

    abbrev Found : Option (Outcome E F) → Type 0
    Found none = Unit
    Found (some out) = IsFrom out

    finish_listing-IsOf : (n : ℕ) (r : Listing F) → IsOf n r → IsOf n (finish_listing r)
    unfolding finish_listing
    finish_listing-IsOf n r x =
        if_cases {A = Listing F} (IsOf n) (ltb (length r.records) r.total)
          (λ less. record { records = x.records; total = x.total }) (λ enough. x)

    after_turn-Found :
        (n : ℕ) (loop : Cursor F → Option (Outcome E F)) (t : Turn F)
        → 1 ≤ n
        → Turned n t
        → ((c : Cursor F) → IsOf n c.res → Found (loop c))
        → Found (after_turn loop t)
    unfolding after_turn
    after_turn-Found n loop (stop r) p x go = (n, p, finish_listing-IsOf n r x)
    after_turn-Found n loop (next c) p x go = go c x

    after_fetch-Found :
        (n : ℕ) (c : Cursor F) (loop : Fields F → Option (Outcome E F)) (answer : E ⊎ Fields F)
        → get_json page_size (suc n) ≡ answer
        → IsOf n c.res
        → ((body : Fields F) → get_json page_size (suc n) ≡ inr body → Found (loop body))
        → Found (after_fetch c loop answer)
    unfolding after_fetch
    after_fetch-Found n c loop (inl e) q x go = (n, q, x)
    after_fetch-Found n c loop (inr body) q x go = go body q

    read_pages-Found :
        (fuel max_scan n : ℕ) (c : Cursor F)
        → IsOf n c.res
        → Found (read_pages fl get_json fuel page_size max_scan (suc n) c)
    unfolding read_pages
    read_pages-Found zero max_scan n c x = tt
    read_pages-Found (suc fuel) max_scan n c x =
        after_fetch-Found n c _ (get_json page_size (suc n)) refl x (λ body q.
          after_turn-Found (suc n) _ (read_page fl page_size max_scan body c) (omega arith)
            (read_page-Turned n max_scan body c q x)
            (λ d y. read_pages-Found fuel max_scan (suc n) d y))

  pub list_all-IsFrom :
      {E : Type 0} (get_json : (page_size page : ℕ) → E ⊎ Fields F) (max_scan : ℤ)
      (out : Outcome E F)
      → list_all fl get_json max_scan ≡ some out
      → IsFrom get_json (page_size_of max_scan) out
  unfolding list_all
  list_all-IsFrom get_json max_scan out e =
      let limit : ℕ = or_default default_page_size max_scan in
      subst (Found get_json (page_size_of max_scan)) e (
        read_pages-Found get_json (page_size_of max_scan) (suc limit) limit 0 empty_cursor
          (record { records = tt; total = refl }))
