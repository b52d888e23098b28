-- ===== src/Zentao/Bugs/Order.antt =====
-- internal/service/zentao/bugs.go: the order in which sortBugs puts the bugs.
pub mod Asked
use zentao_mcp.Base.{ℕ, Bool, true, false, not, ◌≡◌, List, if◌then◌else◌, arith, All}
use zentao_mcp.Base.Int.{ℤ, pos, negsuc, is_positive, is_negative, int_eq, int_less, to_nat, ◌-ℤ◌}
use zentao_mcp.Base.Int.Order.{
  IsSmall, is_positive-sub, is_negative-sub, int_less_asym, int_less_trans,
}
use zentao_mcp.Base.Sort.{Sorted, Sorted-agree, sort_by, sort_by-All, sort_by-Sorted, sort_by-perm}
use zentao_mcp.Base.Text.{Text, codes, text_eq}
use zentao_mcp.Base.Strings.{text_less}
use zentao_mcp.Base.Strings.Order.{text_less_asym, text_less_trans}
use zentao_mcp.Zentao.Bugs.{
  BugSummary, compare_texts, compare_bugs, goes_first, bug_before, parse_order_by, sort_bugs,
}
use mathlib.Core.List.{Perm}

-- What the sign of a comparison says of two keys.
abbrev Agrees : ℤ → Bool → Bool → Type 0
Agrees c less more = (is_negative c ≡ less) × (is_positive c ≡ more)

Agrees-if :
    (b : Bool) (c d : ℤ) {l m p q : Bool}
    → Agrees c l p
    → Agrees d m q
    → Agrees (if b then c else d) (if b then l else m) (if b then p else q)
Agrees-if true c d h k = h
Agrees-if false c d h k = k

Agrees-ints : (a b : ℤ) → IsSmall a → IsSmall b → Agrees (a -ℤ b) (int_less a b) (int_less b a)
Agrees-ints a b h k = (is_negative-sub a b h k, is_positive-sub a b h k)

Agrees-texts : (s t : Text) → Agrees (compare_texts s t) (text_less s t) (text_less t s)
unfolding compare_texts is_negative is_positive to_nat
Agrees-texts s t = ground (arith, text_less_asym s t)

-- Of two keys only one is less, and so for three.
abbrev Asym : Bool → Bool → Type 0
Asym less more = less ≡ true → more ≡ false

abbrev Trans : Bool → Bool → Bool → Type 0
Trans ba cb ca = ba ≡ false → cb ≡ false → ca ≡ false

Asym-if :
    (b : Bool) {l m p q : Bool}
    → Asym l p
    → Asym m q
    → Asym (if b then l else m) (if b then p else q)
Asym-if true h k = h
Asym-if false h k = k

Trans-if :
    (b : Bool) {l m p q r s : Bool}
    → Trans l p r
    → Trans m q s
    → Trans (if b then l else m) (if b then p else q) (if b then r else s)
Trans-if true h k = h
Trans-if false h k = k

-- The key that an order names.
unfoldable pub key_less : {F : Type 0} → Text → BugSummary F → BugSummary F → Bool
key_less name a b =
    if text_eq name (codes "severity")
    then int_less a.severity b.severity
    else if text_eq name (codes "pri")
    then int_less a.pri b.pri
    else if text_eq name (codes "openeddate")
    then text_less a.opened_date b.opened_date
    else if text_eq name (codes "resolveddate")
    then text_less a.resolved_date b.resolved_date
    else if text_eq name (codes "status")
    then text_less a.status b.status
    else int_less a.id b.id

-- First by the key, one way or the other, and then the larger id first.
unfoldable pub ordered_before : {F : Type 0} → Text × Bool → BugSummary F → BugSummary F → Bool
ordered_before order a b =
    if key_less order.0 a b
    then not order.1
    else if key_less order.0 b a
    then order.1
    else int_less b.id a.id

-- The numbers of a bug are below 2^62 in size, so that their differences do not wrap around.
pub record HasSmallNumbers {F : Type 0} (b : BugSummary F) : Type 0 where
  pub severity : IsSmall b.severity
  pub pri : IsSmall b.pri
  pub id : IsSmall b.id

goes_first_lem :
    (desc : Bool) (c id_a id_b : ℤ) {less more : Bool}
    → Agrees c less more
    → goes_first desc c id_a id_b
      ≡ (if less then not desc else if more then desc else int_less id_b id_a)
unfolding goes_first is_positive is_negative to_nat int_eq
goes_first_lem desc (pos n) id_a id_b h = ground arith
goes_first_lem desc (negsuc n) id_a id_b h = ground arith

module _ {F : Type 0} where
  key_less-Agrees :
      (name : Text) (a b : BugSummary F)
      → HasSmallNumbers a
      → HasSmallNumbers b
      → Agrees (compare_bugs a b name) (key_less name a b) (key_less name b a)
  unfolding compare_bugs key_less
  key_less-Agrees name a b h k =
      Agrees-if (text_eq name (codes "severity")) _ _
        (Agrees-ints a.severity b.severity h.severity k.severity)
        (Agrees-if (text_eq name (codes "pri")) _ _ (Agrees-ints a.pri b.pri h.pri k.pri) (
          Agrees-if (text_eq name (codes "openeddate")) _ _
            (Agrees-texts a.opened_date b.opened_date)
            (Agrees-if (text_eq name (codes "resolveddate")) _ _
              (Agrees-texts a.resolved_date b.resolved_date)
              (Agrees-if (text_eq name (codes "status")) _ _ (Agrees-texts a.status b.status)
                (Agrees-ints a.id b.id h.id k.id)))))

  bug_before_lem :
      (order : Text × Bool) (a b : BugSummary F)
      → HasSmallNumbers a
      → HasSmallNumbers b
      → bug_before order a b ≡ ordered_before order a b
  unfolding bug_before ordered_before
  bug_before_lem order a b h k =
      goes_first_lem order.1 (compare_bugs a b order.0) a.id b.id (key_less-Agrees order.0 a b h k)

  key_less-Asym : (name : Text) (a b : BugSummary F) → Asym (key_less name a b) (key_less name b a)
  unfolding key_less
  key_less-Asym name a b =
      Asym-if (text_eq name (codes "severity")) (int_less_asym a.severity b.severity) (
        Asym-if (text_eq name (codes "pri")) (int_less_asym a.pri b.pri) (
          Asym-if (text_eq name (codes "openeddate")) (text_less_asym a.opened_date b.opened_date) (
            Asym-if (text_eq name (codes "resolveddate"))
              (text_less_asym a.resolved_date b.resolved_date)
              (Asym-if (text_eq name (codes "status")) (text_less_asym a.status b.status)
                (int_less_asym a.id b.id)))))

  key_less-Trans :
      (name : Text) (a b c : BugSummary F)
      → Trans (key_less name b a) (key_less name c b) (key_less name c a)
  unfolding key_less
  key_less-Trans name a b c =
      Trans-if (text_eq name (codes "severity")) (int_less_trans a.severity b.severity c.severity) (
        Trans-if (text_eq name (codes "pri")) (int_less_trans a.pri b.pri c.pri) (
          Trans-if (text_eq name (codes "openeddate"))
            (text_less_trans a.opened_date b.opened_date c.opened_date)
            (Trans-if (text_eq name (codes "resolveddate"))
              (text_less_trans a.resolved_date b.resolved_date c.resolved_date)
              (Trans-if (text_eq name (codes "status")) (text_less_trans a.status b.status c.status)
                (int_less_trans a.id b.id c.id)))))

  ordered_before_asym :
      (order : Text × Bool) (a b : BugSummary F)
      → ordered_before order a b ≡ true
      → ordered_before order b a ≡ false
  unfolding ordered_before
  ordered_before_asym order a b h =
      ground (arith, key_less-Asym order.0 a b, key_less-Asym order.0 b a, int_less_asym b.id a.id)

  ordered_before_trans :
      (order : Text × Bool) (a b c : BugSummary F)
      → ordered_before order b a ≡ false
      → ordered_before order c b ≡ false
      → ordered_before order c a ≡ false
  unfolding ordered_before
  ordered_before_trans order a b c h k = ground (
    arith,
    key_less-Trans order.0 a b c,
    key_less-Trans order.0 c b a,
    key_less-Trans order.0 b a c,
    key_less-Trans order.0 a c b,
    key_less-Trans order.0 b c a,
    key_less-Trans order.0 c a b,
    key_less-Asym order.0 a b,
    key_less-Asym order.0 b c,
    key_less-Asym order.0 a c,
    int_less_trans c.id b.id a.id,
  )

  pub sort_bugs-Sorted :
      (order : Text × Bool) (bugs : List (BugSummary F))
      → All HasSmallNumbers bugs
      → Sorted (ordered_before order) (sort_by (bug_before order) bugs)
  sort_bugs-Sorted order bugs h =
      Sorted-agree (bug_before order) (ordered_before order) HasSmallNumbers (bug_before_lem order)
        (sort_by (bug_before order) bugs) (sort_by-All (bug_before order) HasSmallNumbers bugs h)
        (sort_by-Sorted (bug_before order) HasSmallNumbers
          (λ a b g k e.
            rw (bug_before_lem order b a k g)
              (ordered_before_asym order a b (rw (← bug_before_lem order a b g k) e)))
          (λ a b c g k l p q. rw (bug_before_lem order c a l g) (
            ordered_before_trans order a b c (rw (← bug_before_lem order b a k g) p)
              (rw (← bug_before_lem order c b l k) q)))
          bugs h)
