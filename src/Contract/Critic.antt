-- ===== src/Contract/Critic.antt =====
-- The critic of a contract: how its verdict is read, when its objections are only advice, and what
-- the user is asked.
use loop_agent.Json.{Value, boolean, object, array, get, str_of, truthy, elements}
use loop_agent.Policy.{join}
use loop_agent.Prelude.{
  ℕ, String, Bool, true, false, Option, none, some, List, [], ◌∷◌, ◌++◌, map, ◌==◌, ◌&&◌, ◌||◌, not,
  any, all, length, ltb, if◌then◌else◌,
}
use loop_agent.Prelude.Text.{strip}
use loop_agent.Prelude.Codes.{take}
use loop_agent.Checks.{is_empty}
use loop_agent.Contract.{
  Discovery, Proposal, Critique, Library, is_given, or_empty, is_test_command, unique, holds, cut,
}
use loop_agent.Contract.Effective.{
  is_previewed, preview, filter, test_previews_cover_contract, has_complete_test_gate,
}
use loop_agent.Contract.Reading.{extract_json}

-- `LLMResult`, as far as it is read.
pub record Result : Type 0 where
  pub content : String
  pub tokens : ℕ
  pub provider : String
  pub model : String

-- `str(issue)[:500] … if str(issue).strip()`
unfoldable pub issue_texts : Library → List Value → List String
unfolding cut str_of strip
issue_texts lib [] = []
issue_texts lib (v ∷ vs) =
    let rest = issue_texts lib vs in
    let text = str_of lib.repr v in if strip text == "" then rest else cut 500 text ∷ rest

unfoldable pub raw_issues : Option Value → List Value
raw_issues (some (array vs)) = elements vs
raw_issues _ = []

unfoldable pub is_true : Option Value → Bool
is_true (some (boolean true)) = true
is_true _ = false

unfoldable pub question_text : Library → Option Value → Option String
unfolding cut str_of truthy
question_text lib none = none
question_text lib (some v) = if truthy v then some (cut 1000 (str_of lib.repr v)) else none

unfoldable pub critique_of_json : Library → Result → Option Value → Critique
unfolding cut get is_true issue_texts question_text raw_issues take
critique_of_json lib r (some (object fs)) = record {
  accepted = is_true (get "accepted" fs);
  issues = take 12 (issue_texts lib (raw_issues (get "issues" fs)));
  question = question_text lib (get "question" fs);
  adjudicated = false;
  adjudication_reason = none;
  provider = cut 80 r.provider;
  model = cut 160 r.model;
}
critique_of_json lib r _ = record {
  accepted = false;
  issues = "The independent critic returned no valid verdict." ∷ [];
  question = some "Please clarify the observable result this task must produce.";
  adjudicated = false;
  adjudication_reason = none;
  provider = cut 80 r.provider;
  model = cut 160 r.model;
}

-- `_critique_from_result`
unfoldable pub critique_from_result : Library → Result → Critique
unfolding critique_of_json extract_json
critique_from_result lib r = critique_of_json lib r (extract_json lib r.content)

-- `any(marker in text for marker in markers)`
unfoldable pub mentions : String → List String → Bool
unfolding holds
mentions text markers = any (holds text) markers

-- `_internal_contract_question`
unfoldable pub internal_contract_question : Library → String → Bool
unfolding mentions
internal_contract_question lib question =
    let lowered = lib.lower question in
    mentions lowered ("redundan" ∷ "rely solely" ∷ "remove the" ∷ "simplif" ∷ [])
    && mentions lowered ("check" ∷ "contract" ∷ "test suite" ∷ [])

-- `_generic_contract_question`
unfoldable pub generic_contract_question : Library → String → Bool
unfolding holds
generic_contract_question lib question =
    let lowered = lib.lower question in
    holds lowered "contract" && holds lowered "observable behavior"

-- `_advisory_critic_issue`
unfoldable pub advisory_critic_issue : Library → String → Bool
unfolding mentions
advisory_critic_issue lib issue =
    let lowered = lib.lower issue in
    mentions lowered ("check" ∷ "contract" ∷ "test" ∷ [])
    && (mentions lowered ("redundan" ∷ "duplicat" ∷ "simplif" ∷ "rely solely" ∷ [])
        || mentions lowered ("current baseline" ∷ "current broken" ∷ "current implementation" ∷ [])
          && mentions lowered ("fail" ∷ "does not" ∷ "not pass" ∷ []))

-- `_critic_issue_refuted_by_test_previews`
unfoldable pub refuted_by_test_previews : Library → Discovery → String → Bool
unfolding filter holds join preview unique
refuted_by_test_previews lib d issue =
    let corpus =
      join "\n" (map (λ path. lib.lower (or_empty (preview d.file_previews path))) d.test_files) in
    let literals =
      map lib.lower (lib.findall "['\\\"]([a-zA-Z][a-zA-Z0-9_-]{1,40})['\\\"]" issue) in
    let channels = filter (holds (lib.lower issue)) ("stderr" ∷ "stdout" ∷ []) in
    let markers = unique [] (literals ++ channels) in
    not (corpus == "") && ltb 1 (length markers) && all (holds corpus) markers

abbrev pub previews_cover_tests : Discovery → Bool
previews_cover_tests d = not (is_empty d.test_files) && all (is_previewed d) d.test_files

-- `_test_runner_speculation_refuted_by_discovery`
unfoldable pub speculation_refuted : Library → Discovery → String → Bool
unfolding is_test_command mentions
speculation_refuted lib d issue =
    mentions (lib.lower issue) (
      "does not specify the test file" ∷ "working directory" ∷ "may not run the intended tests"
      ∷ "uses unittest and the check runs pytest" ∷ [])
    && previews_cover_tests d
    && any (λ c. is_test_command lib c.command) d.quality_checks

-- `_test_coverage_issue_refuted_by_discovery`
unfoldable pub coverage_issue_refuted : Library → Proposal → Discovery → String → Bool
unfolding mentions test_previews_cover_contract
coverage_issue_refuted lib p d issue =
    let lowered = lib.lower issue in
    mentions lowered ("test" ∷ "check" ∷ "exit code" ∷ "stdout" ∷ "stderr" ∷ "listener" ∷ [])
    && not (
        mentions lowered
          ("authority" ∷ "contradict" ∷ "conflict" ∷ "security" ∷ "not requested" ∷ []))
    && test_previews_cover_contract lib p d

unfoldable pub is_advice : Library → Proposal → Discovery → String → Bool
unfolding advisory_critic_issue coverage_issue_refuted refuted_by_test_previews speculation_refuted
is_advice lib p d issue =
    advisory_critic_issue lib issue
    || refuted_by_test_previews lib d issue
    || speculation_refuted lib d issue
    || coverage_issue_refuted lib p d issue

-- A question that the user need not be asked, or none.
unfoldable pub question_is_moot : Library → Critique → Bool
unfolding generic_contract_question internal_contract_question
question_is_moot lib c =
    not (is_given c.question)
    || internal_contract_question lib (or_empty c.question)
    || not (is_empty c.issues) && generic_contract_question lib (or_empty c.question)

abbrev pub adjudication_text : String
adjudication_text =
    "The critic supplied no user-answerable question and the deterministic contract validator found no blocking issue. Every criterion maps to a discovered test gate whose test sources were included in bounded repository discovery; the critic's issues remain recorded as advisory evidence."

-- `_deterministic_adjudication_reason`
unfoldable pub adjudication_reason :
    Library → Proposal → Discovery → Critique → List String → Option String
unfolding has_complete_test_gate is_advice question_is_moot
adjudication_reason lib p d c deterministic =
    if c.accepted || not (is_empty deterministic)
    then none
    else if not (all (is_advice lib p d) c.issues)
    then none
    else if not (question_is_moot lib c)
    then none
    else if not (has_complete_test_gate lib p p.checks) || not (previews_cover_tests d)
    then none
    else some adjudication_text

-- `_question_for`
unfoldable pub question_for : Library → List String → String
unfolding holds
question_for lib issues =
    if any (λ i. holds (lib.lower i) "authority") issues
    then "The task appears to need additional authority. Can it be completed offline inside this repository, or should you cancel and explicitly enable the required capability?"
    else if any (λ i. holds (lib.lower i) "risk" || holds (lib.lower i) "confidence") issues
    then "The generated contract is not low-risk and high-confidence enough to begin. Clarify the intended outcome, or publish an explicit acceptance override in Advanced controls."
    else "The acceptance contract is not yet verifiable. What observable behavior or output must be true when this task is finished?"
