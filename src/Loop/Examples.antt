-- ===== src/Loop/Examples.antt =====
-- Tests of the transition table and policy on small tasks, and the theorems at concrete tasks.
use loop_agent.Prelude.{◌≡◌, ◌≢◌, ◌⊎◌, refl, none, some, List, [], ◌∷◌}
use loop_agent.Loop.{
  status_value, status_for, LoopEvent, Target, applied, queued, preparing, planning, stopped, claim,
  preparation_completed, verification_requested, verification_accepted, limit_reached, cancel,
  recover, action_selected, unbounded_limit, assertion, state_value, rule, allowed_events, apply,
  max_steps, reason_for, LoopState,
}
use loop_agent.Loop.Policy.{IsConsistent, apply_allowed, apply_refused, transition_of}
use loop_agent.Loop.Runs.{Call, run, run-History, run_completed, InOrder, History}
use loop_agent.Loop.Claim.{claim_pending, claim_pending-apply, claims, claims_exclusive}

abbrev fresh : Target
fresh = record {
  loop_state = "queued";
  transition_reason = none;
  transition_sequence = 0;
  status = "pending";
  stop_reason = none;
}

abbrev planned : Target
planned = record fresh { loop_state = "planning"; status = "running"; transition_sequence = 4 }

fresh-IsConsistent : IsConsistent queued fresh
unfolding state_value status_value status_for
fresh-IsConsistent = record { named = refl; statused = refl; stop_fits = refl }

claim_runs : (apply fresh claim "  " none).1 ≡ record {
  loop_state = "preparing";
  transition_reason = some "claim";
  transition_sequence = 1;
  status = "running";
  stop_reason = none;
}
unfolding apply
claim_runs = refl

planning_events :
    allowed_events planning
    ≡ recover ∷ action_selected ∷ verification_requested ∷ limit_reached ∷ cancel ∷ LoopEvent.fail
      ∷ []
unfolding allowed_events
planning_events = refl

apply_allowed_example :
    ((apply planned limit_reached "out of steps" (some max_steps)).0
      ≡ applied (transition_of planning stopped limit_reached "out of steps" planned))
    × IsConsistent stopped (apply planned limit_reached "out of steps" (some max_steps)).1
    × ((apply planned limit_reached "out of steps" (some max_steps)).1.transition_sequence ≡ 5)
    × ((apply planned limit_reached "out of steps" (some max_steps)).1.transition_reason
        ≡ some (reason_for "out of steps" limit_reached))
unfolding state_value rule
apply_allowed_example =
    apply_allowed planning stopped planned limit_reached "out of steps" (some max_steps) refl refl
      (λ _. refl)

apply_refused_example :
    ((apply planned limit_reached "stop" none).1 ≡ planned) × (unbounded_limit ≢ assertion)
unfolding apply
apply_refused_example = apply_refused planned limit_reached "stop" none refl

abbrev plain : LoopEvent → Call
plain e = record { event = e; reason = ""; stop = none }

-- A short life of a task, with one call that is refused.
abbrev life : List Call
life =
    plain claim
    ∷ plain verification_accepted
    ∷ plain preparation_completed
    ∷ plain verification_requested
    ∷ plain verification_accepted
    ∷ []

run-History_example :
    (l : LoopState) × History queued 0 (run fresh life).0 l × IsConsistent l (run fresh life).1
run-History_example = run-History queued fresh life fresh-IsConsistent

run_completed_example :
    InOrder (claim ∷ verification_requested ∷ verification_accepted ∷ []) (run fresh life).0
unfolding run apply
run_completed_example = run_completed fresh life fresh-IsConsistent refl

-- A task whose worker died while it was planning, back in the queue.
abbrev orphan : Target
orphan = record planned { status = "pending" }

claim_pending-apply_example : apply orphan recover "worker_recovered_interrupted_task" none ≡ (
  applied (record {
    sequence = 5;
    source = planning;
    target = preparing;
    event = recover;
    reason = "worker_recovered_interrupted_task";
  }),
  record {
    loop_state = "preparing";
    transition_reason = some "worker_recovered_interrupted_task";
    transition_sequence = 5;
    status = "running";
    stop_reason = none;
  },
)
unfolding claim_pending
claim_pending-apply_example = claim_pending-apply planning orphan _ refl refl

claims_exclusive_example :
    (claims 3 fresh ≡ (0, fresh))
    ⊎ ((u : Target) × (claim_pending fresh ≡ some u) × (claims 3 fresh ≡ (1, u)))
claims_exclusive_example = claims_exclusive 3 fresh
