-- ===== src/Zentao/Listing.antt =====
-- internal/service/zentao/client.go: `listAll`, which pages through a collection of the upstream
-- server, and what it reads of each page.
mod Ids
pub mod Pages
pub mod Result
pub mod Origin
use zentao_mcp.Base.{
  ◌⊎◌, inl, inr, ℕ, zero, suc, max, Bool, true, false, ◌&&◌, ◌||◌, Option, none, some, List, [],
  ◌∷◌, ◌++◌, ltb, leb, ◌==◌, if◌then◌else◌, length,
}
use zentao_mcp.Base.Int.{ℤ, or_default, to_nat}
use zentao_mcp.Base.Text.{Text, codes, text_eq}
use zentao_mcp.Json.{Fields, Floats, at}
use zentao_mcp.Zentao.Payload.{pick_list}
use zentao_mcp.Zentao.Values.{field_int, to_int}

abbrev pub default_page_size : ℕ
default_page_size = 100

abbrev pub max_scan_reason : Text
max_scan_reason = codes "max_scan"

abbrev pub no_progress_reason : Text
no_progress_reason = codes "pagination_no_progress"

abbrev pub incomplete_reason : Text
incomplete_reason = codes "upstream_incomplete_page"

-- `listResult`
pub record Listing (F : Type 0) : Type 0 where
  pub records : List (Fields F)
  pub total : ℕ
  pub truncated : Bool
  pub reason : Text

-- The local variables of `listAll` between two pages.
pub record Cursor (F : Type 0) : Type 0 where
  pub res : Listing F
  pub seen : List ℕ
  pub has_total : Bool

-- What the loop does after a page.
pub data Turn (F : Type 0) : Type 0 where
  stop : Listing F → Turn F
  next : Cursor F → Turn F

-- The result with the error of the page that failed, if one did.
pub data Outcome (E : Type 0) (F : Type 0) : Type 0 where
  done : Listing F → Outcome E F
  failed : E → Listing F → Outcome E F

unfoldable pub member : ℕ → List ℕ → Bool
member n [] = false
member n (x ∷ xs) = n == x || member n xs

-- `if id > 0 { seen[id] = struct{}{} }`
unfoldable pub note_id : ℕ → List ℕ → List ℕ
note_id id seen = if ltb 0 id then id ∷ seen else seen

module _ {F : Type 0} where
  abbrev pub empty_cursor : Cursor F
  empty_cursor = record {
    res = record { records = []; total = 0; truncated = false; reason = [] };
    seen = [];
    has_total = false;
  }

  unfoldable pub append_record : Listing F → Fields F → Listing F
  append_record r rec = record r { records = r.records ++ rec ∷ [] }

  -- `res.Truncated, res.TruncationReason = true, why`
  unfoldable pub truncate_for : Text → Listing F → Listing F
  truncate_for why r = record r { truncated = true; reason = why }

  -- The end of `listAll`, after the loop.
  unfoldable pub finish_listing : Listing F → Listing F
  finish_listing r =
      if ltb (length r.records) r.total
      then record r {
        truncated = true;
        reason = if text_eq r.reason [] then incomplete_reason else r.reason;
      }
      else r

  -- `res.Total = max(res.Total, total)`
  unfoldable pub raise_total : ℕ → Listing F → Listing F
  raise_total t r = record r { total = max r.total t }

  unfoldable pub take_record : ℕ → Fields F → Cursor F → Cursor F
  unfolding append_record note_id
  take_record id rec c = record c { res = append_record c.res rec; seen = note_id id c.seen }

  -- A record that the budget has no room for.
  unfoldable pub over_budget : ℕ → Cursor F → Cursor F
  unfolding truncate_for note_id
  over_budget id c = record c { res = truncate_for max_scan_reason c.res; seen = note_id id c.seen }

  -- A stated total counts if it is positive.
  unfoldable pub count_total : Option ℤ → Cursor F → Cursor F
  unfolding raise_total
  count_total none c = c
  count_total (some n) c =
      let t = to_nat n in
      if ltb 0 t then record { res = raise_total t c.res; seen = c.seen; has_total = true } else c

  -- A turn after the loop over the records: `count` is `len(items)`.
  unfoldable pub after_page : (page_size max_scan count before : ℕ) → Cursor F → Turn F
  unfolding truncate_for
  after_page page_size max_scan count before c =
      let after = length c.res.records in
      if c.res.truncated
      then stop c.res
      else if count == 0
          || ltb count page_size
          || (c.has_total && ltb 0 c.res.total && leb c.res.total after)
      then stop c.res
      else if after == before
      then stop (truncate_for no_progress_reason c.res)
      else if leb max_scan after && c.has_total
      then stop (truncate_for max_scan_reason c.res)
      else next c

  -- What follows a turn, with the loop that goes on.
  unfoldable pub after_turn :
      {E : Type 0} → (Cursor F → Option (Outcome E F)) → Turn F → Option (Outcome E F)
  unfolding finish_listing
  after_turn loop (stop r) = some (done (finish_listing r))
  after_turn loop (next c) = loop c

  -- What follows `getJSON`.
  unfoldable pub after_fetch :
      {E : Type 0}
      → Cursor F
      → (Fields F → Option (Outcome E F))
      → E ⊎ Fields F
      → Option (Outcome E F)
  after_fetch c loop (inl e) = some (failed e c.res)
  after_fetch c loop (inr body) = loop body

module _ (fl : Floats) where
  open fl use {F}

  -- The id of a record, 0 when it has none.
  unfoldable pub record_id : Fields F → ℕ
  record_id rec = to_nat (field_int fl (codes "id" ∷ []) rec)

  unfoldable pub note_total : Fields F → Cursor F → Cursor F
  unfolding count_total
  note_total body c = count_total (to_int fl (at (codes "total") body)) c

  -- The loop over the records of a page.
  unfoldable pub scan_page : ℕ → List (Fields F) → Cursor F → Cursor F
  unfolding record_id member take_record over_budget
  scan_page max_scan [] c = c
  scan_page max_scan (rec ∷ items) c =
      let id = record_id rec in
      let skipped = scan_page max_scan items c in
      let taken = scan_page max_scan items (take_record id rec c) in
      if ltb 0 id && member id c.seen
      then skipped
      else if leb max_scan (length c.res.records)
      then over_budget id c
      else taken

  -- One turn of the loop over the pages, after `getJSON`.
  unfoldable pub read_page : (page_size max_scan : ℕ) → Fields F → Cursor F → Turn F
  unfolding note_total pick_list scan_page after_page
  read_page page_size max_scan body c =
      let items = pick_list body in
      let c1 = note_total body c in
      after_page page_size max_scan (length items) (length c1.res.records)
        (scan_page max_scan items c1)

  module _ {E : Type 0} (get_json : (page_size page : ℕ) → E ⊎ Fields F) where
    -- The loop over the pages; `none` is a loop that goes on.
    unfoldable pub read_pages : ℕ → (page_size max_scan page : ℕ) → Cursor F → Option (Outcome E F)
    unfolding read_page after_turn after_fetch
    read_pages zero page_size max_scan page c = none
    read_pages (suc fuel) page_size max_scan page c =
        let rest = read_pages fuel page_size max_scan (suc page) in
        let turn = λ (body : Fields F). after_turn rest (read_page page_size max_scan body c) in
        after_fetch c turn (get_json page_size page)

    unfoldable pub list_all : ℤ → Option (Outcome E F)
    unfolding read_pages
    list_all max_scan =
        let limit = or_default default_page_size max_scan in
        let page_size = if ltb limit default_page_size then limit else default_page_size in
        read_pages (suc limit) page_size limit 1 empty_cursor
