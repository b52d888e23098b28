-- ===== src/Zentao/Bugs/Order/Asked.antt =====
-- internal/service/zentao/bugs.go: sortBugs puts the bugs in the order that is asked for.
use zentao_mcp.Base.{
  ℕ, Bool, true, false, ◌≡◌, ◌≢◌, inl, inr, List, [], ◌++◌, if_cases, Option-cases, arith, All,
}
use zentao_mcp.Base.Sort.{Sorted, sort_by-perm}
use zentao_mcp.Base.Strings.{to_lower, cut_suffix}
use zentao_mcp.Base.Strings.Suffix.{cut_suffix-none, cut_suffix-some}
use zentao_mcp.Base.Text.{Text, codes, text_eq, text_eq_iff, trim_space}
use zentao_mcp.Zentao.Bugs.{BugSummary, bug_before, parse_order_by, sort_bugs}
use zentao_mcp.Zentao.Bugs.Order.{HasSmallNumbers, ordered_before, sort_bugs-Sorted}
use mathlib.Core.List.{Perm}

-- The text does not end in the suffix.
abbrev pub Lacks : (s suffix : Text) → Type 0
Lacks s suffix = (t : Text) → s ≢ t ++ suffix

-- The text, in lower case and trimmed, asks for the order by the key of a name, downwards or not.
pub data Asks (s : Text) : Text × Bool → Type 0 where
  unasked : s ≡ [] → Asks s (codes "id", true)
  upwards : (name : Text) → s ≡ name ++ codes "_asc" → Asks s (name, false)
  downwards : (name : Text) → s ≡ name ++ codes "_desc" → Asks s (name, true)
  bare : s ≢ [] → Lacks s (codes "_asc") → Lacks s (codes "_desc") → Asks s (s, true)

module _ (lower : ℕ → ℕ) where
  parse_order_by-Asks :
      (order_by : Text)
      → Asks (to_lower lower (trim_space order_by)) (parse_order_by lower order_by)
  unfolding parse_order_by
  parse_order_by-Asks order_by =
      let s : Text = to_lower lower (trim_space order_by) in
      if_cases {A = Text × Bool} (Asks s) (text_eq s [])
        (λ blank. unasked ((text_eq_iff s []).0 blank))
        (λ given. elim (Option-cases (cut_suffix s (codes "_asc"))) [
          | inr (t, e) ↦ rw e (upwards t (cut_suffix-some s t (codes "_asc") e))
          | inl e ↦ rw e (elim (Option-cases (cut_suffix s (codes "_desc"))) [
            | inr (t, d) ↦ rw d (downwards t (cut_suffix-some s t (codes "_desc") d))
            | inl d ↦ rw d (
                bare (λ q. ground (arith, given, (text_eq_iff s []).1 q))
                  (λ t. cut_suffix-none s t (codes "_asc") e)
                  (λ t. cut_suffix-none s t (codes "_desc") d))
          ])
        ])

  -- sortBugs keeps the bugs that it is given, and puts no bug before another that belongs before it
  -- in the order that `orderBy` asks for, trimmed and in lower case: by the key that stands before
  -- "_asc" upwards, by the key that stands before "_desc" or that is all of the text downwards, by
  -- the id downwards if it is blank; and always by the larger id where the keys tie. The numbers
  -- severity, priority and id are below 2^62 in size.
  pub sort_bugs_lem :
      {F : Type 0} (bugs : List (BugSummary F)) (order_by : Text)
      → All HasSmallNumbers bugs
      → (order : Text × Bool) × Asks (to_lower lower (trim_space order_by)) order
        × Perm (sort_bugs lower bugs order_by) bugs
        × Sorted (ordered_before order) (sort_bugs lower bugs order_by)
  unfolding sort_bugs
  sort_bugs_lem bugs order_by h =
      let order : Text × Bool = parse_order_by lower order_by in
      (
        order,
        parse_order_by-Asks order_by,
        sort_by-perm (bug_before order) bugs,
        sort_bugs-Sorted order bugs h,
      )
