-- ===== src/Checks/Gates.antt =====
-- Which results the completion gates let pass.
use loop_agent.Prelude.{◌≡◌, ◌↔◌, ◌⊎◌, refl, true, false, some, List, [], ◌∷◌, arith, All, eq_iff}
use loop_agent.Checks.{CheckResult, completion_gates_pass, regressions}

-- The gates let a result pass that is supplementary, that passed, or that comes from a project's
-- own check that failed before the work began.
abbrev pub IsTolerated : CheckResult → Type 0
IsTolerated r =
    (r.gating ≡ false)
    ⊎ (r.passed ≡ true)
    ⊎ (r.source ≡ "system") × (r.baseline_passed ≡ some false)

-- The gates pass exactly when every result is supplementary, or passed, or is a system check
-- whose baseline failed too.
pub completion_gates_pass_iff :
    (rs : List CheckResult) → (completion_gates_pass rs ≡ true) ↔ All IsTolerated rs
unfolding completion_gates_pass
completion_gates_pass_iff [] = (λ h. tt, λ h. refl)
completion_gates_pass_iff (r ∷ rs) =
    let ih = completion_gates_pass_iff rs in
    (
      λ h. ground (arith, eq_iff r.source "system", ih),
      λ h. ground (arith, eq_iff r.source "system", ih),
    )

-- Where the gates pass, each regression (a system check that passed before and fails now) is one
-- that was marked supplementary: a gating regression always blocks completion.
pub regressions-gating :
    (rs : List CheckResult)
    → completion_gates_pass rs ≡ true
    → All (λ r. r.gating ≡ false) (regressions rs)
unfolding completion_gates_pass regressions
regressions-gating [] h = tt
regressions-gating (r ∷ rs) h = ground (arith, regressions-gating rs)
