-- ===== src/Contract/Verdict.antt =====
-- What one verdict on a contract consists of, and what the compilation returns.
use Prim.Native.String.{◌++◌ as append}
use loop_agent.Json.{Fields}
use loop_agent.Capability.{CapabilitySet}
use loop_agent.Prelude.{
  ℕ, ◌-◌, String, Bool, false, Option, none, some, List, [], ◌∷◌, ◌++◌, ◌&&◌, ◌||◌, is_some,
  if◌then◌else◌,
}
use loop_agent.Prelude.Codes.{take}
use loop_agent.Checks.{is_empty}
use loop_agent.Contract.{
  Discovery, Proposal, Critique, Draft, Identity, Library, Validated, valid, invalid, unique,
  stripped, is_given, cut,
}
use loop_agent.Contract.Effective.{effective_checks}
use loop_agent.Contract.Reading.{proposal_from_result}
use loop_agent.Contract.Merge.{merge_required_criteria, merge_required_checks}
use loop_agent.Contract.Issues.{deterministic_issues}
use loop_agent.Contract.Critic.{Result, critique_from_result, adjudication_reason, question_for}

-- What `LLMClient.complete` does: a result, or an `LLMError` with its text and the tokens spent.
pub data Reply : Type 0 where
  replied : Result → Reply
  llm_error : String → ℕ → Reply

-- The call with this number, of the compiler or of the critic, with the budget that it is given.
abbrev pub Client : Type 0
Client = ℕ → Option ℕ → Reply

-- What the compilation is asked for, and what it finds in the repository.
pub record Request : Type 0 where
  pub goal : String
  pub discovery : Discovery
  pub granted : CapabilitySet
  pub required_checks : List Fields
  pub required_criteria : List String
  pub clarifications : List String
  pub token_budget : Option ℕ

pub record Compiled : Type 0 where
  pub draft : Draft
  pub contract_hash : Option String
  pub compiler_result : Result
  pub critic_result : Option Result
  pub tokens_spent : ℕ

-- The first call of the compiler may raise; the last line of the source would.
pub data Outcome : Type 0 where
  compiled : Compiled → Outcome
  llm_failed : String → ℕ → Outcome
  assertion_failed : Outcome

-- The variables of the loop.
pub record Loop : Type 0 where
  pub attempt : ℕ
  pub proposal : Proposal
  pub recovered : Bool
  pub compiler_result : Result
  pub spent : ℕ
  pub states : List String

abbrev pub remaining : Option ℕ → ℕ → Option ℕ
remaining none spent = none
remaining (some budget) spent = some (budget - spent)

-- `hash_contract`
unfoldable pub hash_contract : Library → Draft → String
hash_contract lib d = lib.sha256 (lib.dumps_draft d)

unfoldable pub identity_of : Result → Identity
unfolding cut
identity_of r = record { provider = cut 80 r.provider; model = cut 160 r.model }

-- `_draft_from_proposal`
unfoldable pub draft_from_proposal : Library → Request → Loop → Critique → Draft
unfolding effective_checks identity_of
draft_from_proposal lib q l c = record {
  proposal = record l.proposal { checks = effective_checks lib l.proposal q.discovery };
  criteria_recovered = l.recovered;
  compiler = identity_of l.compiler_result;
  discovery = q.discovery;
  clarifications = q.clarifications;
  critique = c;
}

abbrev pub no_question : String
no_question =
    "Loop could not independently validate this contract. What observable behavior or output must be true when the task is finished?"

abbrev pub unavailable : String → Critique
unavailable error = record {
  accepted = false;
  issues = append "The independent contract critic could not complete: " error ∷ [];
  question = some no_question;
  adjudicated = false;
  adjudication_reason = none;
  provider = "unknown";
  model = "unknown";
}

-- The proposal as the critic is to see it.
unfoldable pub effective : Library → Request → Loop → Proposal
unfolding effective_checks
effective lib q l = record l.proposal { checks = effective_checks lib l.proposal q.discovery }

-- The issues of the critic and those that are computed, without repetition.
unfoldable pub joined_issues : List String → List String → List String
unfolding stripped take unique
joined_issues critic computed = take 12 (unique [] (stripped (critic ++ computed)))

-- `critique.question or _question_for(issues)`
unfoldable pub asked : Library → Critique → List String → Option String
unfolding question_for
asked lib c issues = if is_given c.question then c.question else some (question_for lib issues)

abbrev pub is_accepted : Critique → List String → Option String → Bool
is_accepted c issues reason = c.accepted && is_empty issues || is_some reason

-- The critique with the verdict of the loop.
unfoldable pub judged : Library → Critique → List String → Option String → Critique
unfolding asked
judged lib c issues reason = record c {
  accepted = is_accepted c issues reason;
  issues = issues;
  question = if is_accepted c issues reason then none else asked lib c issues;
  adjudicated = is_some reason;
  adjudication_reason = reason;
}

unfoldable pub final_critique : Library → Request → Loop → Result → Critique
unfolding adjudication_reason critique_from_result deterministic_issues effective joined_issues
    judged
final_critique lib q l r =
    let c = critique_from_result lib r in
    let p = effective lib q l in
    let computed = deterministic_issues lib p q.discovery q.granted in
    judged lib c (joined_issues c.issues computed)
      (adjudication_reason lib p q.discovery c computed)

-- What is returned once a verdict stands.
unfoldable pub concluded : Library → Request → Loop → Critique → Option Result → ℕ → Compiled
unfolding draft_from_proposal hash_contract
concluded lib q l c critic spent =
    let draft = draft_from_proposal lib q l c in
    record {
      draft = draft;
      contract_hash = if c.accepted then some (hash_contract lib draft) else none;
      compiler_result = l.compiler_result;
      critic_result = critic;
      tokens_spent = spent;
    }

-- What is returned where a repair fails: the verdict with one more issue, and no hash.
unfoldable pub abandoned : Library → Request → Loop → Critique → String → Result → ℕ → Compiled
unfolding draft_from_proposal take
abandoned lib q l c issue critic spent = record {
  draft = draft_from_proposal lib q l (record c { issues = take 12 (c.issues ++ issue ∷ []) });
  contract_hash = none;
  compiler_result = l.compiler_result;
  critic_result = some critic;
  tokens_spent = spent;
}

-- Reading a reply of the compiler, with what the user requires.
unfoldable pub merged :
    Library → Request → Validated (Proposal × Bool) → Validated (Proposal × Bool)
unfolding merge_required_checks merge_required_criteria
merged lib q (invalid error) = invalid error
merged lib q (valid (p, recovered)) =
    elim (merge_required_checks lib (merge_required_criteria lib p q.required_criteria)
      q.required_checks) [ valid p' ↦ valid (p', recovered) | invalid error ↦ invalid error ]

unfoldable pub read_reply : Library → Request → Result → Validated (Proposal × Bool)
unfolding merged proposal_from_result
read_reply lib q r = merged lib q (proposal_from_result lib r.content (q.goal ∷ []))
