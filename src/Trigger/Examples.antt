-- ===== src/Trigger/Examples.antt =====
-- Two schedulers find a trigger due at once, and only one of them fires it.
use loop_agent.Prelude.{◌≡◌, refl, List, [], ◌∷◌, arith}
use loop_agent.Trigger.{Event, ticked, fired, run}
use loop_agent.Trigger.Spaced.{Clocked, done, next, IsSpaced, new, run-IsSpaced}

abbrev two_at_once : List Event
two_at_once = ticked 1 100 ∷ ticked 2 100 ∷ fired 1 110 ∷ fired 2 120 ∷ []

one_fire : (run two_at_once (new 1)).fires ≡ (record { number = 1; at = 110 }) ∷ []
unfolding run
one_fire = refl

two_at_once-Clocked : Clocked 0 two_at_once
two_at_once-Clocked =
    next 0 (omega arith)
      (next 100 (omega arith) (next 100 (omega arith) (next 110 (omega arith) (done 120))))

run-IsSpaced_example :
    IsSpaced 1
      (run two_at_once (new 1)).row.fire_count
      (run two_at_once (new 1)).row.last_fired_at
      (run two_at_once (new 1)).fires
run-IsSpaced_example = run-IsSpaced 1 two_at_once two_at_once-Clocked
