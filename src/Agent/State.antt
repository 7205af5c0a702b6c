-- ===== src/Agent/State.antt =====
-- What the loop works on: the task's fields with the loop's variables, what is given from outside,
-- and the ways in which a call ends.
use loop_agent.Prelude.{ℕ, String, Bool, true, false, Option, List}
use loop_agent.Json.{ℤ, Float, Value, Fields, Conversion}
use loop_agent.Loop.{
  LoopEvent, StopReason, Target, TransitionError, Outcome, applied, raised as refused, apply,
}
use loop_agent.Checks.{CheckResult}
use loop_agent.Acceptance.{VerificationDecision}
use loop_agent.Ledger.{Step}
use loop_agent.Parser.{Text}
use loop_agent.Guard.{Guard, Limits, Refusal, ToolStatus}
use loop_agent.Guard.Signature.{Library}

-- The task's columns that the loop reads and writes, and the loop's own variables.
pub record Run : Type 0 where
  pub target : Target
  pub steps : List Step
  pub last_hash : String
  pub steps_used : ℕ
  pub tokens_used : ℕ
  pub rubric : List String
  -- the step and the tool of an operation in flight
  pub operation_journal : Option (ℕ × String)
  pub pending_action : Option (String × Fields)
  pub pending_question : Option String
  pub summary : Option String
  pub verification_score : ℕ
  pub verified_by : Option String
  pub receipt_hash : Option String
  pub guard : Guard
  pub finish_retries : ℕ
  pub last_rejected_finish_marker : Option String
  pub same_path_writes : ℕ
  pub last_write_path : Option String
  pub skipped_step_number : Option ℕ

-- Python's library, and what is not modelled of the repository: the secrets that are taken out of an
-- observation, the texts of a refusal of the guard (its signature is a list of codes) and of a verdict, the command policy of
-- tools/policy.py (a reason where a command needs approval), and the building of a receipt, of what
-- it says of its verification (`none` where it raises, or there is no directory).
pub record Platform : Type 0 where
  pub guard_library : Library
  pub sha256 : String → String
  pub dumps : Value → String
  pub loads : Text → Option Value
  pub repr : Value → String
  pub float_of_int : ℤ → Conversion Float
  pub float_of_text : String → Conversion Float
  pub show_sorted : List String → String
  pub redact : String → String
  pub refusal_text : Refusal → String
  pub verdict_text : VerificationDecision → List CheckResult → String
  pub needs_approval : String → Option String
  pub build_receipt : Run → String → Option String
  pub splitlines : Text → List String
  pub strip_chars : String → String → String

-- What stays the same in a run: the task's limits and mode, and the settings.
pub record Config : Type 0 where
  pub max_steps : ℕ
  pub token_budget : ℕ
  pub strict : Bool
  pub approval_required : Bool
  pub baseline_checks : List Fields
  pub permits : String → Bool
  pub valid_tools : List String
  pub dynamic_tools : List String
  pub limits : Limits
  pub stuck_threshold : ℕ
  pub max_finish_retries : ℕ
  pub acceptance_score : ℕ
  pub verification_token_reserve : ℕ

-- A call of a model: its tokens and text, or an `LLMError` with what was spent, whether the budget
-- was exhausted, and the start of its message.
pub data Reply : Type 0 where
  replied : ℕ → Text → Reply
  failed : ℕ → Bool → String → Reply

-- What a verification meets: whether the checks raise, else their results, and the verifier's reply.
pub record Verification : Type 0 where
  pub raises : Bool
  pub results : List CheckResult
  pub reply : Reply

-- How `_handle_spawn` ended: whether it raised, else the reason of its transition, the child's tokens, and the step that it
-- records.
pub record Spawned : Type 0 where
  pub raises : Bool
  pub reason : String
  pub child_tokens : ℕ
  pub observation : String
  pub status : ToolStatus

-- What one turn meets: whether the user has cancelled, the model's reply, the state marker of the
-- workspace at the turn's start, after its action and after an automatic verification, and the
-- outcomes of what the turn may call, where its tool and the look for evidence may raise.
pub record Turn : Type 0 where
  pub cancelled : Bool
  pub reply : Reply
  pub marker : String
  pub marker_after : String
  pub marker_end : String
  pub operation_id : String
  pub tool_raises : Bool
  pub evidence_raises : Bool
  pub result : String × ToolStatus
  pub remembered : String
  pub spawned : Spawned
  pub evidence : Bool × String
  pub verification : Verification
  pub automatic : Verification

pub data Cause : Type 0 where
  invalid_transition : TransitionError → Cause
  external_error llm_error score_overflow receipt_error unknown_loop_state : Cause

-- A call goes on with a value, returns from the loop, or raises.
pub data Flow (A : Type 0) : Type 0 where
  next : A → Run → Flow A
  returned : Run → Flow A
  raised : Cause → Run → Flow A

abbrev pub M : Type 0 → Type 0
M A = Run → Flow A

pub data Done : Type 0 where
  done : Done

abbrev pub bind : {A B : Type 0} → Flow A → (A → M B) → Flow B
bind (next a r) f = f a r
bind (returned r) f = returned r
bind (raised c r) f = raised c r

infixr 5 ◌>>=◌ ◌>>◌
abbrev pub ◌>>=◌ : {A B : Type 0} → M A → (A → M B) → M B
◌>>=◌ m f r = bind (m r) f

abbrev pub ◌>>◌ : {B : Type 0} → M Done → M B → M B
◌>>◌ m k r = bind (m r) (λ d. k)

abbrev pub pure : {A : Type 0} → A → M A
pure a r = next a r

abbrev pub skip : M Done
skip r = next done r

abbrev pub leave : M Done
leave r = returned r

abbrev pub modify : (Run → Run) → M Done
modify f r = next done (f r)

-- A call of what is outside of the loop, which raises or comes back.
unfoldable pub call : Bool → M Done
call true r = raised external_error r
call false r = next done r

unfoldable pub settle : Outcome × Target → Run → Flow Done
settle (applied tr, t) r = next done (record r { target = t })
settle (refused x, t) r = raised (invalid_transition x) (record r { target = t })

-- `_transition`
unfoldable pub transition : LoopEvent → String → Option StopReason → M Done
unfolding settle apply
transition e reason stop r = settle (apply r.target e reason stop) r
