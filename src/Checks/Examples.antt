-- ===== src/Checks/Examples.antt =====
-- Tests of coverage and gates, and their theorems at concrete results.
use loop_agent.Prelude.{◌<◌, ◌≡◌, ◌↔◌, ◌⊎◌, refl, true, false, none, some, [], ◌∷◌, All}
use loop_agent.Json.{boolean, str, end, field}
use loop_agent.Checks.{
  CheckResult, criterion, expected_criteria, execution_coverage_complete, completion_gates_pass,
  authoritative, mark_supplementary_agent_checks, keep_if, attach_baseline,
}
use loop_agent.Checks.Coverage.{Covers, execution_coverage_complete_iff}
use loop_agent.Checks.Supplementary.{not_agent, mark_supplementary_gates}

abbrev contract_check : CheckResult
contract_check = record {
  kind = "command";
  target = "pytest -q";
  passed = true;
  evidence = "exit code 0";
  check_id = "check-001";
  criterion_ids = "criterion-001" ∷ [];
  definition = none;
  source = "contract";
  baseline_passed = none;
  gating = true;
}

abbrev agent_check : CheckResult
agent_check = record contract_check { source = "agent"; passed = false; criterion_ids = [] }

abbrev old_failure : CheckResult
old_failure = record agent_check { source = "system"; baseline_passed = some false }

third_name : criterion 3 ≡ "criterion-003"
unfolding criterion
third_name = refl

long_name : criterion 1024 ≡ "criterion-1024"
unfolding criterion
long_name = refl

-- Of two baseline entries for one check the later one counts.
later_baseline :
    attach_baseline
      (λ v. "?")
      (contract_check ∷ [])
      (field "check_id" (str "check-001") (field "passed" (boolean true) end)
        ∷ field "check_id" (str "check-001") (field "passed" (boolean false) end)
        ∷ [])
    ≡ record contract_check { baseline_passed = some false } ∷ []
unfolding attach_baseline
later_baseline = refl

execution_coverage_complete_iff_example :
    (execution_coverage_complete (contract_check ∷ []) 1 ≡ true)
    ↔ ((0 < 1) × All (Covers (contract_check ∷ [])) (expected_criteria 1))
execution_coverage_complete_iff_example = execution_coverage_complete_iff (contract_check ∷ []) 1

mark_supplementary_gates_example :
    ((authoritative (contract_check ∷ agent_check ∷ []) 1 ≡ true)
      × ((mark_supplementary_agent_checks (contract_check ∷ agent_check ∷ []) 1).0 ≡ true)
      × (completion_gates_pass
            (mark_supplementary_agent_checks (contract_check ∷ agent_check ∷ []) 1).1
          ≡ completion_gates_pass (keep_if not_agent (contract_check ∷ agent_check ∷ []))))
    ⊎ ((authoritative (contract_check ∷ agent_check ∷ []) 1 ≡ false)
        × (mark_supplementary_agent_checks (contract_check ∷ agent_check ∷ []) 1
            ≡ (false, contract_check ∷ agent_check ∷ [])))
mark_supplementary_gates_example = mark_supplementary_gates (contract_check ∷ agent_check ∷ []) 1
