-- ===== src/Turn/Budget.antt =====
-- What a turn leaves for the verification of its result.
use loop_agent.Prelude.{ℕ, ◌+◌, ◌*◌, ◌≤◌, ◌<◌, ◌≡◌, arith}
use loop_agent.Turn.{allocate, planning, verification_after, delegation_after}

-- Where a turn may plan at all and its plan stays within the allowance, the reserve for
-- verification is within its cap and at most half of the budget, at least that reserve is left to
-- verify with, and what was used before, the plan, and all that may be delegated after it make up
-- the budget exactly.
pub planning_reserves :
    (total used cap cost : ℕ)
    → 0 < planning (allocate total used cap)
    → cost ≤ planning (allocate total used cap)
    → ((allocate total used cap).verification_reserve ≤ cap)
      × ((allocate total used cap).verification_reserve * 2 ≤ total)
      × ((allocate total used cap).verification_reserve
          ≤ verification_after (allocate total used cap) cost)
      × (used + cost + delegation_after (allocate total used cap) cost ≡ total)
unfolding allocate planning verification_after delegation_after
planning_reserves total used cap cost p q = (omega arith, omega arith, omega arith, omega arith)
