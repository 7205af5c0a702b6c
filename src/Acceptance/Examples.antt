-- ===== src/Acceptance/Examples.antt =====
-- Tests of the acceptance decision, and the theorems at concrete verdicts.
use loop_agent.Prelude.{◌≤◌, ◌<◌, String, ◌≡◌, refl, true, false, none, some, [], ◌∷◌, All}
use loop_agent.Json.{
  ℤ, pos, Float, infinity, finite, Value, boolean, int, float, object, Fields, end, field, get,
  truthy_get, Conversion, converted, rejected,
}
use loop_agent.Checks.{
  CheckResult, criterion, expected_criteria, completion_gates_pass, execution_coverage_complete,
  regressions,
}
use loop_agent.Checks.Gates.{IsTolerated}
use loop_agent.Checks.Coverage.{Covers}
use loop_agent.Acceptance.{
  VerificationDecision, Verdict, Policy, execution_ready, decide, evaluate, read, reasons, score_of,
}
use loop_agent.Acceptance.Decision.{evaluate_accepted_strict, evaluate_infinite_score}

abbrev of_int : ℤ → Conversion Float
of_int n = converted (finite n)

abbrev of_text : String → Conversion Float
of_text s = rejected

abbrev repr : Value → String
repr v = "?"

abbrev run_tests : CheckResult
run_tests = record {
  kind = "command";
  target = "pytest -q";
  passed = true;
  evidence = "exit code 0";
  check_id = "check-001";
  criterion_ids = "criterion-001" ∷ "criterion-002" ∷ [];
  definition = none;
  source = "contract";
  baseline_passed = none;
  gating = true;
}

abbrev strict_policy : Policy
strict_policy = record {
  criterion_count = 2;
  acceptance_score = 80;
  strict = true;
  contract_substantiation_authoritative = false;
}

abbrev answer : Fields
answer = field "met" (boolean true) (field "score" (int (pos 140)) end)

abbrev decision : VerificationDecision
decision = record {
  accepted = true;
  score = 100;
  missing = [];
  verified_by = "execution";
  coverage_complete = true;
  gates_passed = true;
}

accepts :
    evaluate of_int of_text repr (object answer) (run_tests ∷ []) strict_policy ≡ some decision
unfolding evaluate read decide execution_ready score_of completion_gates_pass
    execution_coverage_complete criterion regressions reasons
accepts = refl

evaluate_accepted_strict_example :
    (decision.verified_by ≡ "execution")
    × (80 ≤ decision.score)
    × (decision.score ≤ 100)
    × ((fs : Fields) × (object answer ≡ object fs) × (truthy_get (get "met" fs) ≡ true))
    × (0 < 2)
    × All (Covers (run_tests ∷ [])) (expected_criteria 2)
    × All IsTolerated (run_tests ∷ [])
    × All (λ r. r.gating ≡ false) (regressions (run_tests ∷ []))
evaluate_accepted_strict_example =
    evaluate_accepted_strict of_int of_text repr (object answer) (run_tests ∷ []) strict_policy
      accepts refl refl

abbrev claims_only : Verdict
claims_only = record { score = 95; missing = []; met = true; substantiates = true }

evaluate_infinite_score_example :
    evaluate of_int of_text repr (object (field "score" (float infinity) end)) [] strict_policy
    ≡ none
unfolding get
evaluate_infinite_score_example =
    evaluate_infinite_score of_int of_text repr (field "score" (float infinity) end) []
      strict_policy refl
