-- ===== src/Contract/Spoken.antt =====
-- Every issue that `_deterministic_issues` finds is a text that begins with a letter.
use Prim.Native.String.{◌++◌ as append}
use loop_agent.Capability.{CapabilitySet, exec, net_shell}
use loop_agent.Policy.{
  Verdict, allow, needs_approval, denied, evaluate_command, network_command_reason, join,
}
use loop_agent.Prelude.{
  ℕ, ◌+◌, refl, String, Bool, true, false, not, Option, none, some, List, [], ◌∷◌, ◌++◌, ◌&&◌, ◌==◌,
  Bool-cases, inl, inr, All, length, ltb,
}
use loop_agent.Prelude.Decimal.{decimal}
use loop_agent.Checks.{criterion, is_empty}
use loop_agent.Contract.{
  Check, Discovery, Proposal, Risk, low, medium, high, Library, or_empty, is_given,
}
use loop_agent.Contract.Checks.{is_command}
use loop_agent.Contract.Issues.{
  concat, authority_issues, risk_issues, issue_if, confidence_issues, size_issues, tautology_issues,
  is_tautology, coverage_issues, missing, issue_of, policy_issues, network_issues, command_issues,
  command_groups, issue_groups, check_issues, is_unasserted, stderr_issues, ungranted,
  deterministic_issues, drops_stdout, inline_python_syntax_issue,
}
use loop_agent.Contract.Found.{IsSpoken, append-IsSpoken}

abbrev Spoken : List String → Type 0
Spoken xs = All IsSpoken xs

append-Spoken : (xs ys : List String) → Spoken xs → Spoken ys → Spoken (xs ++ ys)
append-Spoken [] ys h k = k
append-Spoken (x ∷ xs) ys h k = (h.0, append-Spoken xs ys h.1 k)

concat-Spoken : (xss : List (List String)) → All Spoken xss → Spoken (concat xss)
concat-Spoken [] h = tt
concat-Spoken (xs ∷ xss) h = append-Spoken xs (concat xss) h.0 (concat-Spoken xss h.1)

issue_if-Spoken : (b : Bool) (t : String) → IsSpoken t → Spoken (issue_if b t)
issue_if-Spoken true t h = (h, tt)
issue_if-Spoken false t h = tt

criterion-IsSpoken : (n : ℕ) (t : String) → IsSpoken (append (criterion n) t)
unfolding criterion
criterion-IsSpoken n t = append-IsSpoken (criterion n) t (append-IsSpoken "criterion-" _ refl)

risk-Spoken : (r : Risk) → Spoken (risk_issues r)
risk-Spoken low = tt
risk-Spoken medium = (
  append-IsSpoken "Contract risk is "
      (append "medium" "; only low-risk contracts start automatically.") refl,
  tt,
)
risk-Spoken high = (
  append-IsSpoken "Contract risk is "
      (append "high" "; only low-risk contracts start automatically.") refl,
  tt,
)

tautology-Spoken : (lib : Library) (n : ℕ) (ts : List String) → Spoken (tautology_issues lib n ts)
unfolding tautology_issues
tautology-Spoken lib n [] = tt
tautology-Spoken lib n (t ∷ ts) =
    append-Spoken _ (tautology_issues lib (n + 1) ts)
      (issue_if-Spoken (is_tautology lib t) _ (criterion-IsSpoken n _))
      (tautology-Spoken lib (n + 1) ts)

stderr-Spoken :
    (lib : Library) (cs : List Check) (n : ℕ) (ts : List String)
    → Spoken (stderr_issues lib cs n ts)
unfolding stderr_issues
stderr-Spoken lib cs n [] = tt
stderr-Spoken lib cs n (t ∷ ts) =
    append-Spoken _ (stderr_issues lib cs (n + 1) ts)
      (issue_if-Spoken (is_unasserted lib cs (criterion n) t) _ (criterion-IsSpoken n _))
      (stderr-Spoken lib cs (n + 1) ts)

check-IsSpoken : (t : String) → IsSpoken (append "Contract check " t)
check-IsSpoken t = append-IsSpoken "Contract check " t refl

issue_of-Spoken : (o : Option String) (before id : String) → Spoken (issue_of o before id)
issue_of-Spoken none before id = tt
issue_of-Spoken (some reason) before id = (check-IsSpoken _, tt)

policy-Spoken : (v : Verdict × String) (id : String) → Spoken (policy_issues v id)
policy-Spoken (denied, reason) id = (check-IsSpoken _, tt)
policy-Spoken (allow, reason) id = tt
policy-Spoken (needs_approval, reason) id = tt

network-Spoken : (g : Bool) (o : Option String) (id : String) → Spoken (network_issues g o id)
network-Spoken g none id = tt
network-Spoken g (some reason) id =
    issue_if-Spoken (not (reason == "") && not g) _ (check-IsSpoken _)

command-Spoken :
    (lib : Library) (granted : CapabilitySet) (c : Check) (t : String)
    → Spoken (command_issues lib granted c t)
unfolding command_issues
command-Spoken lib granted c t =
    let silent = append c.id " expects child stdout but never forwards it." in
    let needs = append c.id " requires the exec capability." in
    concat-Spoken (command_groups lib granted c t) (
      issue_of-Spoken (inline_python_syntax_issue lib t) " is invalid: " c.id,
      (
        issue_if-Spoken (drops_stdout lib c t) (append "Contract check " silent)
            (check-IsSpoken silent),
        (
          policy-Spoken (evaluate_command lib.policy t) c.id,
          (
            issue_if-Spoken (not (granted exec)) (append "Contract check " needs)
                (check-IsSpoken needs),
            (network-Spoken (granted net_shell) (network_command_reason lib.policy t) c.id, tt),
          ),
        ),
      ),
    )

checks-Spoken :
    (lib : Library) (granted : CapabilitySet) (cs : List Check)
    → Spoken (check_issues lib granted cs)
unfolding check_issues
checks-Spoken lib granted [] = tt
checks-Spoken lib granted (c ∷ cs) = elim (Bool-cases (is_command c.kind && is_given c.command)) [
  | inl y ↦ rw y (
      append-Spoken _ _ (command-Spoken lib granted c (or_empty c.command))
        (checks-Spoken lib granted cs))
  | inr n ↦ rw n (checks-Spoken lib granted cs)
]

confidence-Spoken : (n : ℕ) → Spoken (confidence_issues n)
unfolding confidence_issues
confidence-Spoken n =
    let rest = append (decimal n) "%; automatic start requires at least 80%." in
    issue_if-Spoken (ltb n 80) (append "Contract confidence is " rest)
      (append-IsSpoken "Contract confidence is " rest refl)

size-Spoken : (n : ℕ) → Spoken (size_issues n)
unfolding size_issues
size-Spoken n =
    let rest =
      append (decimal n)
        " criteria; automatic start permits at most 8 to prevent over-decomposition." in
    issue_if-Spoken (ltb 8 n) (append "Contract has " rest)
      (append-IsSpoken "Contract has " rest refl)

coverage-Spoken : (lib : Library) (ids : List String) → Spoken (coverage_issues lib ids)
unfolding coverage_issues
coverage-Spoken lib ids =
    let rest = join ", " (lib.sorted_set ids) in
    issue_if-Spoken (not (is_empty ids)) (append "No execution check substantiates: " rest)
      (append-IsSpoken "No execution check substantiates: " rest refl)

authority-Spoken : (lib : Library) (ids : List String) → Spoken (authority_issues lib ids)
unfolding authority_issues
authority-Spoken lib ids =
    let rest = join ", " (lib.sorted ids) in
    issue_if-Spoken (not (is_empty ids))
      (append "The draft requests authority the task was not granted: " rest)
      (append-IsSpoken "The draft requests authority the task was not granted: " rest refl)

pub deterministic_issues-Spoken :
    (lib : Library) (p : Proposal) (d : Discovery) (granted : CapabilitySet)
    → All IsSpoken (deterministic_issues lib p d granted)
unfolding deterministic_issues
deterministic_issues-Spoken lib p d granted =
    let of_checks : All Spoken (
        check_issues lib granted p.checks
        ∷ stderr_issues lib p.checks 1 p.criteria
        ∷ issue_if (not (is_empty d.quality_checks) && not (granted exec))
            "The discovered repository quality gates require the exec capability."
        ∷ authority_issues lib (ungranted granted p.authority_requests)
        ∷ []) =
      (
        checks-Spoken lib granted p.checks,
        (
          stderr-Spoken lib p.checks 1 p.criteria,
          (
            issue_if-Spoken (not (is_empty d.quality_checks) && not (granted exec))
                "The discovered repository quality gates require the exec capability." refl,
            (authority-Spoken lib (ungranted granted p.authority_requests), tt),
          ),
        ),
      ) in
    concat-Spoken (issue_groups lib p d granted) (
      risk-Spoken p.risk,
      (
        confidence-Spoken p.confidence,
        (
          size-Spoken (length p.criteria),
          (
            tautology-Spoken lib 1 p.criteria,
            (
              coverage-Spoken lib (missing p),
              (
                issue_if-Spoken (is_empty p.checks)
                    "The contract has no re-runnable execution check." refl,
                of_checks,
              ),
            ),
          ),
        ),
      ),
    )
