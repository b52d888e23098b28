-- ===== src/Zentao/Bugs/Search/Totals.antt =====
-- internal/service/zentao/bugs.go: what the counters of SearchBugs add up to.
use zentao_mcp.Base.{ℕ, suc, ◌+◌, ◌≡◌, [], ◌∷◌, arith, if◌then◌else◌}
use zentao_mcp.Base.Text.{Text, codes, text_eq}
use zentao_mcp.Base.Assoc.{Assoc, lookup, insert}
use zentao_mcp.Zentao.Arguments.{count_at, bump}
use zentao_mcp.Zentao.Bugs.{BugSummary}
use zentao_mcp.Zentao.Bugs.State.{BugCounts, count_bug}

-- The sum of the counters of a map.
abbrev pub total_count : Assoc ℕ → ℕ
total_count [] = 0
total_count ((k, n) ∷ m) = n + total_count m

total_count-insert :
    (k : Text) (m : Assoc ℕ)
    → total_count (insert k (suc (count_at (lookup k m))) m) ≡ suc (total_count m)
unfolding lookup insert count_at
total_count-insert k [] = omega arith
total_count-insert k ((j, n) ∷ m) = ground (arith, total_count-insert k m)

pub total_count-bump : (m : Assoc ℕ) (key : Text) → total_count (bump m key) ≡ suc (total_count m)
unfolding bump
total_count-bump m key = total_count-insert (if text_eq key [] then codes "(empty)" else key) m

-- Each of the six maps counts `n` bugs.
pub record Counts (n : ℕ) (c : BugCounts) : Type 0 where
  pub status : total_count c.status ≡ n
  pub severity : total_count c.severity ≡ n
  pub kind : total_count c.kind ≡ n
  pub resolution : total_count c.resolution ≡ n
  pub assigned_to : total_count c.assigned_to ≡ n
  pub opened_by : total_count c.opened_by ≡ n

counted_next :
    (m : Assoc ℕ) {n : ℕ} (key : Text) → total_count m ≡ n → total_count (bump m key) ≡ suc n
counted_next m key h = omega (arith, total_count-bump m key, h)

pub count_bug-Counts :
    {F : Type 0} {n : ℕ} {c : BugCounts} (b : BugSummary F)
    → Counts n c
    → Counts (suc n) (count_bug b c)
unfolding count_bug
count_bug-Counts b h = record {
  status = counted_next _ b.status h.status;
  severity = counted_next _ _ h.severity;
  kind = counted_next _ b.kind h.kind;
  resolution = counted_next _ b.resolution h.resolution;
  assigned_to = counted_next _ b.assigned_to h.assigned_to;
  opened_by = counted_next _ b.opened_by h.opened_by;
}
