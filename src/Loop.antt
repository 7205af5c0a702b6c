-- ===== src/Loop.antt =====
-- apps/api/app/domain/loop.py and the enums of apps/api/app/domain/task.py: the states and events
-- of a task's loop, the table of transitions, and the policy that applies one to a task.
pub mod Table
pub mod Policy
pub mod Runs
pub mod Claim
mod Examples
use loop_agent.Prelude.{
  ℕ, ◌+◌, String, Bool, true, false, Option, none, some, List, [], ◌∷◌, ◌==◌, ◌&&◌, not,
  if◌then◌else◌, is_some,
}
use loop_agent.Prelude.Text.{strip}

pub data TaskStatus : Type 0 where
  pending running awaiting_input completed stopped cancelled failed : TaskStatus

pub data StopReason : Type 0 where
  goal_achieved max_steps budget_exhausted stuck cancelled error : StopReason

pub data LoopState : Type 0 where
  queued preparing understanding planning acting verifying : LoopState
  awaiting_input awaiting_approval completed stopped cancelled failed : LoopState

pub data LoopEvent : Type 0 where
  claim recover contract_required contract_ready rubric_required : LoopEvent
  preparation_completed rubric_ready action_selected action_recorded : LoopEvent
  verification_requested verification_rejected verification_accepted : LoopEvent
  input_required approval_required user_responded limit_reached cancel fail : LoopEvent

-- `LoopState(...).value`
unfoldable pub state_value : LoopState → String
state_value queued = "queued"
state_value preparing = "preparing"
state_value understanding = "understanding"
state_value planning = "planning"
state_value acting = "acting"
state_value verifying = "verifying"
state_value awaiting_input = "awaiting_input"
state_value awaiting_approval = "awaiting_approval"
state_value completed = "completed"
state_value stopped = "stopped"
state_value cancelled = "cancelled"
state_value failed = "failed"

unfoldable pub event_value : LoopEvent → String
event_value claim = "claim"
event_value recover = "recover"
event_value contract_required = "contract_required"
event_value contract_ready = "contract_ready"
event_value rubric_required = "rubric_required"
event_value preparation_completed = "preparation_completed"
event_value rubric_ready = "rubric_ready"
event_value action_selected = "action_selected"
event_value action_recorded = "action_recorded"
event_value verification_requested = "verification_requested"
event_value verification_rejected = "verification_rejected"
event_value verification_accepted = "verification_accepted"
event_value input_required = "input_required"
event_value approval_required = "approval_required"
event_value user_responded = "user_responded"
event_value limit_reached = "limit_reached"
event_value cancel = "cancel"
event_value fail = "fail"

unfoldable pub status_value : TaskStatus → String
status_value pending = "pending"
status_value running = "running"
status_value awaiting_input = "awaiting_input"
status_value completed = "completed"
status_value stopped = "stopped"
status_value cancelled = "cancelled"
status_value failed = "failed"

unfoldable pub stop_value : StopReason → String
stop_value goal_achieved = "goal_achieved"
stop_value max_steps = "max_steps"
stop_value budget_exhausted = "budget_exhausted"
stop_value stuck = "stuck"
stop_value cancelled = "cancelled"
stop_value error = "error"

abbrev pub all_states : List LoopState
all_states =
    queued ∷ preparing ∷ understanding ∷ planning ∷ acting ∷ verifying ∷ awaiting_input
    ∷ awaiting_approval ∷ completed ∷ stopped ∷ LoopState.cancelled ∷ failed ∷ []

find_state : List LoopState → String → Option LoopState
unfolding state_value
find_state [] s = none
find_state (q ∷ qs) s = if state_value q == s then some q else find_state qs s

-- `LoopState(s)`; `none` is the `ValueError`
unfoldable pub state_of : String → Option LoopState
unfolding find_state
state_of s = find_state all_states s

-- `_WORKING` and `_ACTIVE`
abbrev pub is_working : LoopState → Bool
is_working preparing = true
is_working understanding = true
is_working planning = true
is_working acting = true
is_working verifying = true
is_working _ = false

abbrev pub is_active : LoopState → Bool
is_active queued = true
is_active awaiting_input = true
is_active awaiting_approval = true
is_active s = is_working s

-- The literal of `_RULES`, before the two loops add to it.
base_rule : LoopState → LoopEvent → Option LoopState
base_rule queued claim = some preparing
base_rule preparing contract_required = some understanding
base_rule understanding contract_ready = some planning
base_rule preparing rubric_required = some understanding
base_rule preparing preparation_completed = some planning
base_rule understanding rubric_ready = some planning
base_rule planning action_selected = some acting
base_rule acting action_recorded = some planning
base_rule planning verification_requested = some verifying
base_rule verifying verification_rejected = some planning
base_rule verifying verification_accepted = some completed
base_rule preparing input_required = some awaiting_input
base_rule understanding input_required = some awaiting_input
base_rule acting input_required = some awaiting_input
base_rule acting approval_required = some awaiting_approval
base_rule awaiting_input user_responded = some queued
base_rule awaiting_approval user_responded = some queued
base_rule _ _ = none

-- `_RULES.get((source, event))`: what the loops over `_WORKING` and `_ACTIVE` assign comes last.
unfoldable pub rule : LoopState → LoopEvent → Option LoopState
unfolding base_rule
rule s recover = if is_working s then some preparing else base_rule s recover
rule s limit_reached = if is_working s then some stopped else base_rule s limit_reached
rule s cancel = if is_active s then some cancelled else base_rule s cancel
rule s fail = if is_active s then some failed else base_rule s fail
rule s e = base_rule s e

unfoldable pub status_for : LoopState → TaskStatus
status_for queued = pending
status_for preparing = running
status_for understanding = running
status_for planning = running
status_for acting = running
status_for verifying = running
status_for awaiting_input = awaiting_input
status_for awaiting_approval = awaiting_input
status_for completed = completed
status_for stopped = stopped
status_for cancelled = cancelled
status_for failed = failed

abbrev pub all_events : List LoopEvent
all_events =
    claim ∷ recover ∷ contract_required ∷ contract_ready ∷ rubric_required ∷ preparation_completed
    ∷ rubric_ready ∷ action_selected ∷ action_recorded ∷ verification_requested
    ∷ verification_rejected ∷ verification_accepted ∷ input_required ∷ approval_required
    ∷ user_responded ∷ limit_reached ∷ cancel ∷ fail ∷ []

select : (LoopEvent → Bool) → List LoopEvent → List LoopEvent
select p [] = []
select p (e ∷ es) = let rest = select p es in if p e then e ∷ rest else rest

-- The events of the table's keys whose source is the state.
unfoldable pub allowed_events : LoopState → List LoopEvent
unfolding select rule
allowed_events s = select (λ e. is_some (rule s e)) all_events

-- `claimable_states()`, in some order
abbrev pub claimable_states : List LoopState
claimable_states = queued ∷ preparing ∷ understanding ∷ planning ∷ acting ∷ verifying ∷ []

-- The fields of a task that the policy reads and writes.
pub record Target : Type 0 where
  pub loop_state : String
  pub transition_reason : Option String
  pub transition_sequence : ℕ
  pub status : String
  pub stop_reason : Option String

pub record LoopTransition : Type 0 where
  pub sequence : ℕ
  pub source : LoopState
  pub target : LoopState
  pub event : LoopEvent
  pub reason : String

-- Three causes of `InvalidLoopTransitionError`, and the `AssertionError` of the `assert`.
pub data TransitionError : Type 0 where
  unknown_state not_allowed unbounded_limit assertion : TransitionError

pub data Outcome : Type 0 where
  applied : LoopTransition → Outcome
  raised : TransitionError → Outcome

-- `stop_reason in {MAX_STEPS, BUDGET_EXHAUSTED, STUCK}`
abbrev pub is_bounded : Option StopReason → Bool
is_bounded (some max_steps) = true
is_bounded (some budget_exhausted) = true
is_bounded (some stuck) = true
is_bounded _ = false

abbrev pub is_limit : LoopEvent → Bool
is_limit limit_reached = true
is_limit _ = false

-- `reason.strip() or event.value`
unfoldable pub reason_for : String → LoopEvent → String
unfolding strip event_value
reason_for reason e = let text = strip reason in if text == "" then event_value e else text

-- The branches that set `stop_reason`, once the other fields are written. The `assert` fails
-- after those writes.
finish : LoopState → Option StopReason → LoopTransition → Target → Outcome × Target
unfolding stop_value
finish completed stop tr t =
    (applied tr, record t { stop_reason = some (stop_value goal_achieved) })
finish stopped none tr t = (raised assertion, t)
finish stopped (some stop) tr t = (applied tr, record t { stop_reason = some (stop_value stop) })
finish cancelled stop tr t =
    (applied tr, record t { stop_reason = some (stop_value StopReason.cancelled) })
finish failed stop tr t = (applied tr, record t { stop_reason = some (stop_value error) })
finish _ stop tr t = (applied tr, record t { stop_reason = none })

-- From `target = _RULES.get(...)` on.
advance :
    Option LoopState
    → LoopState
    → LoopEvent
    → String
    → Option StopReason
    → Target
    → Outcome × Target
unfolding finish reason_for state_value status_value status_for
advance none source e reason stop t = (raised not_allowed, t)
advance (some target) source e reason stop t =
    if is_limit e && not (is_bounded stop)
    then (raised unbounded_limit, t)
    else (let sequence = t.transition_sequence + 1 in
        let tr : LoopTransition = record {
          sequence = sequence;
          source = source;
          target = target;
          event = e;
          reason = reason_for reason e;
        } in
        finish target stop tr (record t {
          loop_state = state_value target;
          transition_reason = some (reason_for reason e);
          transition_sequence = sequence;
          status = status_value (status_for target);
        }))

apply_from : Option LoopState → LoopEvent → String → Option StopReason → Target → Outcome × Target
unfolding advance rule
apply_from none e reason stop t = (raised unknown_state, t)
apply_from (some source) e reason stop t = advance (rule source e) source e reason stop t

-- `LoopTransitionPolicy.apply`: the result or the exception, beside the task as it is left.
unfoldable pub apply : Target → LoopEvent → String → Option StopReason → Outcome × Target
unfolding apply_from state_of
apply t e reason stop = apply_from (state_of t.loop_state) e reason stop t
