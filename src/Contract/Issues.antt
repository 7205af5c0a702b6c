-- ===== src/Contract/Issues.antt =====
-- `_deterministic_issues`: what speaks against starting with a contract, whatever the critic says.
use Prim.Native.String.{◌++◌ as append}
use loop_agent.Capability.{Capability, exec, net_shell, CapabilitySet, capability_value}
use loop_agent.Policy.{Verdict, denied, evaluate_command, network_command_reason, join}
use loop_agent.Prelude.{
  ℕ, ◌+◌, String, Bool, true, false, Option, none, some, List, ◌++◌, map, ◌==◌, ◌&&◌, not, any, all,
  contains, length, ltb, is_some, if◌then◌else◌,
}
use loop_agent.Prelude.Text.{strip}
use loop_agent.Prelude.Decimal.{decimal}
use loop_agent.Checks.{criterion, expected_criteria, is_empty}
use loop_agent.Contract.{
  Check, Discovery, Proposal, Risk, low, medium, high, Library, or_empty, is_given, is_test_command,
  tautologies, holds, last_or_empty,
}
use loop_agent.Contract.Checks.{is_contract, is_command}
use loop_agent.Contract.Effective.{filter}

abbrev pub risk_value : Risk → String
risk_value low = "low"
risk_value medium = "medium"
risk_value high = "high"

abbrev pub risk_issues : Risk → List String
risk_issues low = List.[]
risk_issues r =
    List.◌∷◌
      (append "Contract risk is "
        (append (risk_value r) "; only low-risk contracts start automatically."))
      List.[]

-- The issues that the tests find, one after the other.
abbrev pub concat : List (List String) → List String
concat List.[] = List.[]
concat (List.◌∷◌ xs xss) = xs ++ concat xss

-- An issue where a test holds.
abbrev pub issue_if : Bool → String → List String
issue_if true text = List.◌∷◌ text List.[]
issue_if false text = List.[]

unfoldable pub confidence_issues : ℕ → List String
unfolding decimal
confidence_issues n = issue_if (ltb n 80) (
    append "Contract confidence is "
      (append (decimal n) "%; automatic start requires at least 80%."))

unfoldable pub size_issues : ℕ → List String
unfolding decimal
size_issues n = issue_if (ltb 8 n) (
    append "Contract has " (
      append (decimal n)
        " criteria; automatic start permits at most 8 to prevent over-decomposition."))

unfoldable pub is_tautology : Library → String → Bool
unfolding strip
is_tautology lib text = any (λ pattern. lib.fullmatch pattern (strip text)) tautologies

unfoldable pub tautology_issues : Library → ℕ → List String → List String
unfolding criterion is_tautology
tautology_issues lib index List.[] = List.[]
tautology_issues lib index (List.◌∷◌ text rest) =
    issue_if (is_tautology lib text)
      (append (criterion index) " is tautological rather than observable")
    ++ tautology_issues lib (index + 1) rest

-- The criteria that the checks of the contract name.
unfoldable pub covered : List Check → List String
covered List.[] = List.[]
covered (List.◌∷◌ c cs) =
    let rest = covered cs in if is_contract c then c.criterion_ids ++ rest else rest

unfoldable pub missing : Proposal → List String
unfolding covered filter
missing p =
    filter (λ id. not (contains (covered p.checks) id)) (expected_criteria (length p.criteria))

unfoldable pub coverage_issues : Library → List String → List String
unfolding join
coverage_issues lib ids =
    issue_if (not (is_empty ids))
      (append "No execution check substantiates: " (join ", " (lib.sorted_set ids)))

-- `re.fullmatch(r"python(?:3(?:\.\d+)?)?", Path(part).name, re.I)` and the two arguments behind it
unfoldable pub python_issue : Library → List String → Option String
unfolding decimal
python_issue lib List.[] = none
python_issue lib (List.◌∷◌ a List.[]) = none
python_issue lib (List.◌∷◌ a (List.◌∷◌ b List.[])) = none
python_issue lib (List.◌∷◌ a (List.◌∷◌ b (List.◌∷◌ text rest))) =
    let later = python_issue lib (List.◌∷◌ b (List.◌∷◌ text rest)) in
    elim (lib.syntax_error text) [
      | none ↦ later
      | some line ↦
          if lib.fullmatch "python(?:3(?:\\.\\d+)?)?" (last_or_empty (lib.parts a)) && b == "-c"
          then some (append "python -c source has a syntax error at line " (decimal line))
          else later
    ]

-- `_inline_python_syntax_issue`
unfoldable pub inline_python_syntax_issue : Library → String → Option String
unfolding python_issue
inline_python_syntax_issue lib text =
    let (parts, error) = lib.shlex text in
    elim error [
      | none ↦ python_issue lib parts
      | some reason ↦ some (append "shell syntax could not be parsed (" (append reason ")"))
    ]

abbrev pub issue_of : Option String → String → String → List String
issue_of none before id = List.[]
issue_of (some reason) before id =
    List.◌∷◌ (append "Contract check " (append id (append before reason))) List.[]

-- `check.expect_stdout is not None`, with a command that starts a child and drops what it prints
unfoldable pub drops_stdout : Library → Check → String → Bool
unfolding holds
drops_stdout lib c text =
    is_some c.expect_stdout
    && holds (lib.lower text) "spawnsync"
    && not (lib.search "\\w+\\.stdout" text)

abbrev pub policy_issues : Verdict × String → String → List String
policy_issues (denied, reason) id =
    List.◌∷◌ (append "Contract check " (append id (append " is denied by policy: " reason))) List.[]
policy_issues (verdict, reason) id = List.[]

abbrev pub network_issues : Bool → Option String → String → List String
network_issues granted none id = List.[]
network_issues granted (some reason) id =
    issue_if (not (reason == "") && not granted) (
      append "Contract check "
        (append id (append " requires denied shell network access: " reason)))

-- The issues of one command.
unfoldable pub command_groups : Library → CapabilitySet → Check → String → List (List String)
unfolding drops_stdout evaluate_command inline_python_syntax_issue network_command_reason
command_groups lib granted c text =
    (List.◌∷◌ (issue_of (inline_python_syntax_issue lib text) " is invalid: " c.id) (
      List.◌∷◌
        (issue_if (drops_stdout lib c text)
          (append "Contract check " (append c.id " expects child stdout but never forwards it.")))
        (List.◌∷◌ (policy_issues (evaluate_command lib.policy text) c.id) (
          List.◌∷◌
            (issue_if (not (granted exec))
              (append "Contract check " (append c.id " requires the exec capability.")))
            (List.◌∷◌
              (network_issues (granted net_shell) (network_command_reason lib.policy text) c.id)
              (List.[]))))))

unfoldable pub command_issues : Library → CapabilitySet → Check → String → List String
unfolding command_groups
command_issues lib granted c text = concat (command_groups lib granted c text)

unfoldable pub check_issues : Library → CapabilitySet → List Check → List String
unfolding command_issues
check_issues lib granted List.[] = List.[]
check_issues lib granted (List.◌∷◌ c cs) =
    (if is_command c.kind && is_given c.command
      then command_issues lib granted c (or_empty c.command)
      else List.[])
    ++ check_issues lib granted cs

unfoldable pub asserts : Library → List String → Check → Bool
unfolding holds
asserts lib words c =
    is_given c.expect_stdout && all (holds (lib.lower (or_empty c.expect_stdout))) words

unfoldable pub mapped : String → List Check → List Check
mapped id List.[] = List.[]
mapped id (List.◌∷◌ c cs) =
    let rest = mapped id cs in if contains c.criterion_ids id then List.◌∷◌ c rest else rest

-- A criterion on what is printed to stderr, which no check that is mapped to it looks for.
unfoldable pub is_unasserted : Library → List Check → String → String → Bool
unfolding asserts holds is_test_command mapped
is_unasserted lib checks id text =
    let words = map lib.lower (lib.findall "['\\\"]([a-zA-Z][a-zA-Z0-9_-]{1,40})['\\\"]" text) in
    holds (lib.lower text) "stderr"
    && not (any (λ c. is_test_command lib c.command) (mapped id checks))
    && not (is_empty words)
    && not (any (asserts lib words) (mapped id checks))

unfoldable pub stderr_issues : Library → List Check → ℕ → List String → List String
unfolding criterion is_unasserted
stderr_issues lib checks index List.[] = List.[]
stderr_issues lib checks index (List.◌∷◌ text rest) =
    issue_if (is_unasserted lib checks (criterion index) text)
      (append (criterion index) " requires stderr content but no mapped check asserts it.")
    ++ stderr_issues lib checks (index + 1) rest

unfoldable pub ungranted : CapabilitySet → List Capability → List String
unfolding capability_value
ungranted granted List.[] = List.[]
ungranted granted (List.◌∷◌ c cs) =
    let rest = ungranted granted cs in
    if granted c then rest else List.◌∷◌ (capability_value c) rest

unfoldable pub authority_issues : Library → List String → List String
unfolding join
authority_issues lib ids =
    issue_if (not (is_empty ids)) (
      append "The draft requests authority the task was not granted: " (join ", " (lib.sorted ids)))

-- The groups of issues, in their order.
unfoldable pub issue_groups : Library → Proposal → Discovery → CapabilitySet → List (List String)
unfolding authority_issues check_issues confidence_issues coverage_issues missing size_issues
    stderr_issues tautology_issues ungranted
issue_groups lib p d granted =
    (List.◌∷◌ (risk_issues p.risk) (
      List.◌∷◌ (confidence_issues p.confidence) (
        List.◌∷◌ (size_issues (length p.criteria)) (
          List.◌∷◌ (tautology_issues lib 1 p.criteria) (
            List.◌∷◌ (coverage_issues lib (missing p)) (
              List.◌∷◌
                (issue_if (is_empty p.checks) "The contract has no re-runnable execution check.")
                (List.◌∷◌ (check_issues lib granted p.checks) (
                  List.◌∷◌ (stderr_issues lib p.checks 1 p.criteria) (
                    List.◌∷◌
                      (issue_if (not (is_empty d.quality_checks) && not (granted exec))
                        "The discovered repository quality gates require the exec capability.")
                      (List.◌∷◌ (authority_issues lib (ungranted granted p.authority_requests))
                        (List.[])))))))))))

-- `_deterministic_issues`
unfoldable pub deterministic_issues : Library → Proposal → Discovery → CapabilitySet → List String
unfolding issue_groups
deterministic_issues lib p d granted = concat (issue_groups lib p d granted)
