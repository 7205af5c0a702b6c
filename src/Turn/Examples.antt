-- ===== src/Turn/Examples.antt =====
-- Witnesses of the theorems on a turn.
use loop_agent.Prelude.{◌+◌, ◌*◌, ◌≤◌, ◌<◌, ◌≡◌, arith}
use loop_agent.Turn.{allocate, planning, verification_after, delegation_after}
use loop_agent.Turn.Budget.{planning_reserves}

abbrev allowance : 0 < planning (allocate 10000 3000 4000)
unfolding allocate planning
allowance = omega arith

abbrev within : 500 ≤ planning (allocate 10000 3000 4000)
unfolding allocate planning
within = omega arith

planning_reserves_example :
    ((allocate 10000 3000 4000).verification_reserve ≤ 4000)
    × ((allocate 10000 3000 4000).verification_reserve * 2 ≤ 10000)
    × ((allocate 10000 3000 4000).verification_reserve
        ≤ verification_after (allocate 10000 3000 4000) 500)
    × (3000 + 500 + delegation_after (allocate 10000 3000 4000) 500 ≡ 10000)
planning_reserves_example = planning_reserves 10000 3000 4000 500 allowance within
