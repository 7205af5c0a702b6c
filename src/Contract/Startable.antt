-- ===== src/Contract/Startable.antt =====
-- What a contract of which `_deterministic_issues` finds nothing is like.
use loop_agent.Capability.{CapabilitySet, Capability, exec, capability_value}
use loop_agent.Policy.{Verdict, allow, needs_approval, denied, evaluate_command}
use loop_agent.Prelude.{
  ℕ, ◌≤◌, ◌≡◌, ◌≢◌, refl, subst, if◌then◌else◌, String, Bool, true, false, not, Option, none, some,
  List, [], ◌∷◌, ◌++◌, ◌&&◌, Bool-cases, inl, inr, All, length, ltb, ltb-false, contains,
  contains→Has, Has,
}
use loop_agent.Checks.{expected_criteria, is_empty}
use loop_agent.Contract.{
  Check, Discovery, Proposal, Risk, low, medium, high, Library, or_empty, is_given,
}
use loop_agent.Contract.Checks.{is_command}
use loop_agent.Contract.Effective.{filter}
use loop_agent.Contract.Issues.{
  concat, issue_groups, command_groups, authority_issues, risk_issues, issue_if, confidence_issues,
  size_issues, covered, missing, coverage_issues, issue_of, policy_issues, command_issues,
  check_issues, ungranted, deterministic_issues, inline_python_syntax_issue,
}

append-nil : (xs ys : List String) → xs ++ ys ≡ [] → (xs ≡ []) × (ys ≡ [])
append-nil [] ys h = (refl, h)
append-nil (x ∷ xs) ys h = cc

concat-nil : (xss : List (List String)) → concat xss ≡ [] → All (λ xs. xs ≡ []) xss
concat-nil [] h = tt
concat-nil (xs ∷ xss) h =
    let (first, rest) = append-nil xs (concat xss) h in (first, concat-nil xss rest)

issue_if-nil : (b : Bool) (t : String) → issue_if b t ≡ [] → b ≡ false
issue_if-nil true t h = cc
issue_if-nil false t h = refl

-- A command may be run: the policy does not deny it, `exec` is granted, and so is the network where
-- the command reaches it.
pub record MayRun (lib : Library) (granted : CapabilitySet) (text : String) : Type 0 where
  pub permitted : (evaluate_command lib.policy text).0 ≢ denied
  pub executable : granted exec ≡ true
  pub parses : inline_python_syntax_issue lib text ≡ none

-- Every check with a command may run it.
abbrev pub ChecksMayRun : Library → CapabilitySet → Check → Type 0
ChecksMayRun lib granted c =
    (is_command c.kind && is_given c.command) ≡ true → MayRun lib granted (or_empty c.command)

pub record IsStartable (lib : Library) (p : Proposal) (granted : CapabilitySet) : Type 0 where
  pub low_risk : p.risk ≡ low
  pub confident : 80 ≤ p.confidence
  pub small : length p.criteria ≤ 8
  pub checked : p.checks ≢ []
  pub covering : All (λ id. Has id (covered p.checks)) (expected_criteria (length p.criteria))
  pub runnable : All (ChecksMayRun lib granted) p.checks
  pub granted_all : All (λ c. granted c ≡ true) p.authority_requests

cons-ne-nil : (x : String) (xs : List String) → x ∷ xs ≢ []
cons-ne-nil x xs h = cc

not-false : (b : Bool) → not b ≡ false → b ≡ true
not-false true h = refl
not-false false h = cc

risk-nil : (r : Risk) → risk_issues r ≡ [] → r ≡ low
risk-nil low h = refl
risk-nil medium h = cc
risk-nil high h = cc

missing-nil :
    (have ids : List String)
    → filter (λ id. not (contains have id)) ids ≡ []
    → All (λ id. Has id have) ids
unfolding filter
missing-nil have [] h = tt
missing-nil have (id ∷ ids) h = elim (Bool-cases (contains have id)) [
  | inl y ↦
      let rest = subst (λ b. kept b ≡ []) y h in (contains→Has have id y, missing-nil have ids rest)
  | inr n ↦ absurd (cons-ne-nil id _ (subst (λ b. kept b ≡ []) n h))
]
  where
    kept : Bool → List String
    kept b = let rest = filter (λ i. not (contains have i)) ids in if not b then id ∷ rest else rest

policy-nil : (v : Verdict × String) (id : String) → policy_issues v id ≡ [] → v.0 ≢ denied
policy-nil (denied, reason) id h = cc
policy-nil (allow, reason) id h = λ e. cc
policy-nil (needs_approval, reason) id h = λ e. cc

issue_of-nil : (o : Option String) (before id : String) → issue_of o before id ≡ [] → o ≡ none
issue_of-nil none before id h = refl
issue_of-nil (some reason) before id h = cc

command-MayRun :
    (lib : Library) (granted : CapabilitySet) (c : Check) (text : String)
    → command_issues lib granted c text ≡ []
    → MayRun lib granted text
unfolding command_issues
command-MayRun lib granted c text h =
    let (parses, (silent, (judged, (needs, network)))) =
      concat-nil (command_groups lib granted c text) h in
    record {
      permitted = policy-nil (evaluate_command lib.policy text) c.id judged;
      executable = not-false (granted exec) (issue_if-nil (not (granted exec)) _ needs);
      parses = issue_of-nil (inline_python_syntax_issue lib text) " is invalid: " c.id parses;
    }

checks-MayRun :
    (lib : Library) (granted : CapabilitySet) (cs : List Check)
    → check_issues lib granted cs ≡ []
    → All (ChecksMayRun lib granted) cs
unfolding check_issues
checks-MayRun lib granted [] h = tt
checks-MayRun lib granted (c ∷ cs) h =
    let text = or_empty c.command in
    let (mine, rest) = append-nil _ (check_issues lib granted cs) h in
    (
      λ runs.
          command-MayRun lib granted c text
            (subst (λ b. (if b then command_issues lib granted c text else []) ≡ []) runs mine),
      checks-MayRun lib granted cs rest,
    )

ungranted-nil :
    (granted : CapabilitySet) (cs : List Capability)
    → ungranted granted cs ≡ []
    → All (λ c. granted c ≡ true) cs
unfolding ungranted
ungranted-nil granted [] h = tt
ungranted-nil granted (c ∷ cs) h = elim (Bool-cases (granted c)) [
  | inl y ↦ (y, ungranted-nil granted cs (subst (λ b. kept b ≡ []) y h))
  | inr n ↦ absurd (cons-ne-nil _ _ (subst (λ b. kept b ≡ []) n h))
]
  where
    kept : Bool → List String
    kept b = let rest = ungranted granted cs in if b then rest else capability_value c ∷ rest

module _ {A : Type 0} where
  is_empty-nil : (xs : List A) → not (is_empty xs) ≡ false → xs ≡ []
  is_empty-nil [] h = refl
  is_empty-nil (x ∷ xs) h = cc

  is_empty-cons : (xs : List A) → is_empty xs ≡ false → xs ≢ []
  is_empty-cons [] h = cc
  is_empty-cons (x ∷ xs) h = λ e. cc

coverage-nil : (lib : Library) (ids : List String) → coverage_issues lib ids ≡ [] → ids ≡ []
unfolding coverage_issues
coverage-nil lib ids h = is_empty-nil ids (issue_if-nil (not (is_empty ids)) _ h)

authority-nil : (lib : Library) (ids : List String) → authority_issues lib ids ≡ [] → ids ≡ []
unfolding authority_issues
authority-nil lib ids h = is_empty-nil ids (issue_if-nil (not (is_empty ids)) _ h)

confidence-nil : (n : ℕ) → confidence_issues n ≡ [] → 80 ≤ n
unfolding confidence_issues
confidence-nil n h = ltb-false n 80 (issue_if-nil (ltb n 80) _ h)

size-nil : (n : ℕ) → size_issues n ≡ [] → n ≤ 8
unfolding size_issues
size-nil n h = ltb-false 8 n (issue_if-nil (ltb 8 n) _ h)

pub deterministic_issues-IsStartable :
    (lib : Library) (p : Proposal) (d : Discovery) (granted : CapabilitySet)
    → deterministic_issues lib p d granted ≡ []
    → IsStartable lib p granted
unfolding deterministic_issues
deterministic_issues-IsStartable lib p d granted h =
    let (risk, (sure, (size, (tautology, (cover, (some_check, (run, rest))))))) =
      concat-nil (issue_groups lib p d granted) h in
    let (stderr, (quality, (authority, _))) = rest in
    record {
      low_risk = risk-nil p.risk risk;
      confident = confidence-nil p.confidence sure;
      small = size-nil (length p.criteria) size;
      checked = is_empty-cons p.checks (issue_if-nil (is_empty p.checks) _ some_check);
      covering =
          missing-nil (covered p.checks) (expected_criteria (length p.criteria))
            (unfold missing in coverage-nil lib (missing p) cover);
      runnable = checks-MayRun lib granted p.checks run;
      granted_all =
          ungranted-nil granted p.authority_requests
            (authority-nil lib (ungranted granted p.authority_requests) authority);
    }
