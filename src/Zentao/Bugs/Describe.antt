-- ===== src/Zentao/Bugs/Describe.antt =====
-- internal/service/zentao/bugs.go: describe.
use zentao_mcp.Base.{ℕ, ltb, List, [], ◌∷◌, if◌then◌else◌, length}
use zentao_mcp.Base.Int.{ℤ, pos, is_positive}
use zentao_mcp.Base.Text.{Text, codes, text_eq}
use zentao_mcp.Json.{str, int, arr, Items, nil, cons, Fields, end, entry}
use zentao_mcp.Zentao.Bugs.{BugSearchRequest}

module _ {F : Type 0} where
  -- The loop over `pairs`.
  unfoldable pub described_texts : List (Text × Text) → Fields F → Fields F
  described_texts [] out = out
  described_texts ((k, v) ∷ pairs) out =
      let rest = described_texts pairs out in if text_eq v [] then rest else entry k (str v) rest

  -- The loop over `nums`.
  unfoldable pub described_ints : List (Text × ℤ) → Fields F → Fields F
  described_ints [] out = out
  described_ints ((k, v) ∷ nums) out =
      let rest = described_ints nums out in if is_positive v then entry k (int v) rest else rest

  unfoldable pub ids_value : List ℕ → Items F
  ids_value [] = nil
  ids_value (id ∷ ids) = cons (int (pos id)) (ids_value ids)

  -- The keys of the three maps differ.
  unfoldable pub describe : BugSearchRequest → Fields F
  unfolding described_texts described_ints ids_value
  describe req =
      let scope_ids =
        if ltb 0 (length req.scope_ids)
        then entry (codes "scopeIDs") (arr (ids_value req.scope_ids)) end
        else end in
      let nums =
        described_ints
          ((codes "scopeID", req.scope_id)
            ∷ (codes "severity", req.severity)
            ∷ (codes "pri", req.pri)
            ∷ (codes "module", req.module_id)
            ∷ [])
          scope_ids in
      let texts =
        described_texts
          ((codes "keyword", req.keyword)
            ∷ (codes "status", req.status)
            ∷ (codes "resolution", req.resolution)
            ∷ (codes "type", req.kind)
            ∷ (codes "assignedTo", req.assigned_to)
            ∷ (codes "openedBy", req.opened_by)
            ∷ (codes "resolvedBy", req.resolved_by)
            ∷ (codes "openedAfter", req.opened_after)
            ∷ (codes "openedBefore", req.opened_before)
            ∷ (codes "resolvedAfter", req.resolved_after)
            ∷ (codes "resolvedBefore", req.resolved_before)
            ∷ (codes "month", req.month)
            ∷ (codes "orderBy", req.order_by)
            ∷ [])
          nums in
      entry (codes "scope") (str req.scope) (
        entry (codes "limit") (int (pos req.limit))
          (entry (codes "maxScan") (int (pos req.max_scan)) texts))
