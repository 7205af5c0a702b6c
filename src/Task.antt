-- ===== src/Task.antt =====
-- apps/api/app/services/task.py: how the user answers a task that waits, and cancels one.
pub mod Reading
pub mod Sealed
pub mod Answers
pub mod Cancels
mod Examples
use Prim.Native.String.{◌++◌ as append}
use loop_agent.Prelude.{
  ℕ, ◌⊎◌, inl, inr, zero, suc, ◌-◌, String, Bool, true, false, Option, none, some, List, [], ◌∷◌,
  ◌++◌, ◌==◌, ◌&&◌, not, contains, length, if◌then◌else◌,
}
use loop_agent.Prelude.Text.{strip, is_space}
use Prim.Native.Char.{code}
use loop_agent.Json.{
  Value, str, array, object, Items, nil, cons, Fields, end, field, get, put, elements, str_of,
}
use loop_agent.Loop.{
  LoopState, TaskStatus, LoopEvent, Target, Outcome, TransitionError, applied, raised, apply,
  status_value, user_responded, cancel, pending, running, awaiting_input,
}
use loop_agent.Ledger.{Step, step_hash}
use loop_agent.Task.Reading.{Library, is_approval, clarified}

-- The columns that an answer touches.
pub record Task : Type 0 where
  pub target : Target
  pub contract_status : Option String
  pub contract_draft : Option Fields
  pub pending_action : Option (String × Fields)
  pub pending_question : Option String

-- A `ConflictError`, the `IndexError` of a text without words, the `TypeError` of iterating a value
-- that cannot be, and a refusal of the transition policy.
pub data Failure : Type 0 where
  conflict index_error type_error : Failure
  refused : TransitionError → Failure

pub data Response : Type 0 where
  responded : Task → List Step → Response
  failed : Failure → Response

-- `last.prev_hash or ""`
abbrev pub prev_or_empty : Option String → String
prev_or_empty none = ""
prev_or_empty (some h) = h

-- The step with another observation, sealed again.
unfoldable pub reseal : Library → String → Step → Step
unfolding step_hash
reseal lib observation s =
    let edited : Step = record s { observation = observation } in
    record edited {
      hash = step_hash lib.sha256 lib.dumps (prev_or_empty s.prev_hash) edited s.thought;
    }

-- `steps[-1]`, where there is one.
unfoldable pub edit_last : Library → (String → String) → List Step → List Step
unfolding reseal
edit_last lib f [] = []
edit_last lib f (s ∷ []) = reseal lib (f s.observation) s ∷ []
edit_last lib f (s ∷ s' ∷ rest) = s ∷ edit_last lib f (s' ∷ rest)

abbrev pub shown : Option String → String
shown none = "None"
shown (some s) = s

unfoldable pub concluded : Outcome → Target → Task → List Step → Response
concluded (applied tr) target t steps =
    responded (record t { target = target; pending_question = none }) steps
concluded (raised x) target t steps = failed (refused x)

-- From `task.pending_question = None` on.
unfoldable pub resumed : Task → List Step → Response
unfolding apply concluded
resumed t steps =
    let (out, target) = apply t.target user_responded "user_response_recorded" none in
    concluded out target t steps

-- An approval decides whether the pending action runs.
unfoldable pub on_approval : Library → Task → List Step → String → Option Bool → Response
unfolding resumed edit_last
on_approval lib t steps answer none = failed index_error
on_approval lib t steps answer (some true) =
    resumed t (edit_last lib (λ o. append o (append "\nUser approved: " answer)) steps)
on_approval lib t steps answer (some false) =
    resumed (record t { pending_action = none })
      (edit_last lib (λ o. append o (append "\nUser denied: " answer)) steps)

unfoldable pub on_clarified : Task → List Step → Option Fields → Response
unfolding resumed
on_clarified t steps none = failed type_error
on_clarified t steps (some draft) =
    resumed (record t { contract_draft = some draft; contract_status = some "pending" }) steps

-- No contract waits.
unfoldable pub on_answer : Library → Task → List Step → String → Option (String × Fields) → Response
unfolding on_approval is_approval resumed edit_last
on_answer lib t steps answer (some action) = on_approval lib t steps answer (is_approval lib answer)
on_answer lib t steps answer none = resumed t (
    edit_last lib
      (λ o.
        append "You asked: "
          (append (shown t.pending_question) (append "\nUser answered: " answer)))
      steps)

abbrev is_awaiting : Option String → Bool
is_awaiting none = false
is_awaiting (some s) = s == "awaiting_input"

-- `task.contract_status == "awaiting_input" and task.contract_draft is not None`
abbrev pub awaited_draft : Task → Option Fields
awaited_draft t = if is_awaiting t.contract_status then t.contract_draft else none

unfoldable pub by_gate : Library → Task → List Step → String → Option Fields → Response
unfolding on_clarified clarified on_answer
by_gate lib t steps answer (some draft) = on_clarified t steps (clarified lib draft answer)
by_gate lib t steps answer none = on_answer lib t steps answer t.pending_action

-- `TaskService.respond`, of the task and its steps.
unfoldable pub respond : Library → Task → List Step → String → Response
unfolding by_gate
respond lib t steps answer =
    if not (t.target.status == status_value awaiting_input)
    then failed conflict
    else by_gate lib t steps answer (awaited_draft t)

-- `task.status in active`
abbrev pub is_active_status : String → Bool
is_active_status s = contains ("pending" ∷ "running" ∷ "awaiting_input" ∷ []) s

pub data Cancellation : Type 0 where
  cancelled_all : Target → List Target → Cancellation
  failed_with : Failure → Cancellation

-- A descendant, or the exception that its transition raises.
unfoldable pub cancel_one : Target → TransitionError ⊎ Target
unfolding apply
cancel_one t =
    if is_active_status t.status
    then (let (out, t') = apply t cancel "cancelled_with_parent" none in
        elim out [ applied tr ↦ inr t' | raised x ↦ inl x ])
    else inr t

abbrev pub with_rest :
    TransitionError ⊎ Target → TransitionError ⊎ List Target → TransitionError ⊎ List Target
with_rest (inl x) rest = inl x
with_rest (inr t) (inl x) = inl x
with_rest (inr t) (inr ts) = inr (t ∷ ts)

-- The first exception ends the loop.
unfoldable pub cancel_each : List Target → TransitionError ⊎ List Target
cancel_each [] = inr []
cancel_each (t ∷ ts) = with_rest (cancel_one t) (cancel_each ts)

abbrev pub cancelled_with : Target → TransitionError ⊎ List Target → Cancellation
cancelled_with t (inl x) = failed_with (refused x)
cancelled_with t (inr ts) = cancelled_all t ts

-- `TaskService.cancel`, of the task and its descendants.
unfoldable pub cancel_task : Target → List Target → Cancellation
unfolding apply
cancel_task t descendants =
    if not (is_active_status t.status)
    then failed_with conflict
    else (let (out, t') = apply t cancel "cancelled_by_user" none in
        elim out [
          | applied tr ↦ cancelled_with t' (cancel_each descendants)
          | raised x ↦ failed_with (refused x)
        ])
