-- ===== src/Acceptance/Decision.antt =====
-- What an accepted decision stands for, and what the verifier's answer can make of it.
use loop_agent.Prelude.{
  ℕ, ◌≤◌, ◌<◌, String, ◌≡◌, ◌≢◌, ◌↔◌, ◌⊎◌, inl, inr, refl, true, false, Option, none, some, List,
  [], ◌∷◌, ◌++◌, All, arith, Option-cases, ◌&&◌, ◌||◌, not, sym, ap, ◌∙◌,
}
use loop_agent.Json.{
  ℤ, Float, infinity, Value, null, boolean, int, float, str, array, object, Fields, get, truthy_get,
  Conversion,
}
use loop_agent.Checks.{
  CheckResult, expected_criteria, completion_gates_pass, execution_coverage_complete, regressions,
  is_empty,
}
use loop_agent.Checks.Gates.{IsTolerated, completion_gates_pass_iff, regressions-gating}
use loop_agent.Checks.Coverage.{Covers, execution_coverage_complete_iff}
use loop_agent.Acceptance.{
  VerificationDecision, Verdict, Policy, execution_ready, decide, reasons, read, evaluate, score_of,
  clamp, clamped, truncated, to_float,
}

decide_ready :
    (v : Verdict) (rs : List CheckResult) (p : Policy)
    → execution_ready v rs p ≡ true
    → (completion_gates_pass rs ≡ true) × (execution_coverage_complete rs p.criterion_count ≡ true)
unfolding execution_ready
decide_ready v rs p h = ground arith

-- The decision is to accept exactly when the verifier met the goal, with a score at or over the
-- acceptance score, the gates pass, and, if the policy is strict, the execution evidence is ready.
pub decide_accepted :
    (v : Verdict) (rs : List CheckResult) (p : Policy)
    → ((decide v rs p).accepted ≡ true) ↔ (
        (v.met ≡ true)
        × (p.acceptance_score ≤ v.score)
        × (completion_gates_pass rs ≡ true)
        × ((p.strict ≡ false) ⊎ (execution_ready v rs p ≡ true)))
unfolding decide
decide_accepted v rs p = (λ h. ground arith, λ h. ground arith)

decide_verified_by :
    (v : Verdict) (rs : List CheckResult) (p : Policy)
    → execution_ready v rs p ≡ true
    → (decide v rs p).verified_by ≡ "execution"
unfolding decide
decide_verified_by v rs p h = ground arith

append_nonempty : {A : Type 0} (xs ys : List A) → ys ≢ [] → (xs ++ ys) ≢ []
append_nonempty [] ys h = h
append_nonempty (x ∷ xs) ys h = λ e. cc

-- No result covers nothing.
unready :
    (v : Verdict) (rs : List CheckResult) (p : Policy)
    → execution_ready v rs p ≡ false
    → (not (is_empty rs)
        && execution_coverage_complete rs p.criterion_count
        && completion_gates_pass rs
        && (v.substantiates || p.contract_substantiation_authoritative))
      ≡ false
unfolding execution_ready
unready v rs p h = h

coverage-nil :
    (rs : List CheckResult) (n : ℕ) → is_empty rs ≡ true → execution_coverage_complete rs n ≡ false
unfolding execution_coverage_complete
coverage-nil rs n h = ground arith

explained :
    (v : Verdict) (rs : List CheckResult) (p : Policy)
    → p.strict ≡ true
    → execution_ready v rs p ≡ false
    → reasons v rs p ≢ []
unfolding reasons
explained v rs p s h e =
    let why = unready v rs p h in ground (arith, coverage-nil rs p.criterion_count)

-- A strict policy that refuses for want of execution evidence says why: the decision lists at
-- least one thing that is missing.
pub decide_explains :
    (v : Verdict) (rs : List CheckResult) (p : Policy)
    → p.strict ≡ true
    → execution_ready v rs p ≡ false
    → ((decide v rs p).accepted ≡ false) × ((decide v rs p).missing ≢ [])
decide_explains v rs p s h = (
  unfold decide in ground arith,
  unfold decide in append_nonempty v.missing _ (explained v rs p s h),
)

clamped-le : (c : Conversion ℤ) {n : ℕ} → clamped c ≡ some n → n ≤ 100
unfolding clamped clamp
clamped-le c h = ground arith

module _ (float_of_int : ℤ → Conversion Float) (float_of_text : String → Conversion Float)
    (repr : Value → String) where
  abbrev evaluated : Value → List CheckResult → Policy → Option VerificationDecision
  evaluated = evaluate float_of_int float_of_text repr

  evaluate-decide :
      (payload : Value) (rs : List CheckResult) (p : Policy) {d : VerificationDecision}
      → evaluated payload rs p ≡ some d
      → (v : Verdict) × (read float_of_int float_of_text repr payload ≡ some v)
        × (decide v rs p ≡ d)
  unfolding evaluate
  evaluate-decide payload rs p h =
      elim (Option-cases (read float_of_int float_of_text repr payload)) [
        | inl e ↦ absurd (unfold evaluate in cc)
        | inr (v, e) ↦ (v, e, unfold evaluate in cc)
      ]

  read_met :
      (payload : Value) {v : Verdict}
      → read float_of_int float_of_text repr payload ≡ some v
      → v.met ≡ true
      → (fs : Fields) × (payload ≡ object fs) × (truthy_get (get "met" fs) ≡ true)
  unfolding read
  read_met (object fs) h m = (fs, refl, ground arith)
  read_met null h m = ground arith
  read_met (boolean b) h m = ground arith
  read_met (int n) h m = ground arith
  read_met (float f) h m = ground arith
  read_met (str s) h m = ground arith
  read_met (array vs) h m = ground arith

  read-score-le :
      (payload : Value) {v : Verdict}
      → read float_of_int float_of_text repr payload ≡ some v
      → v.score ≤ 100
  unfolding read score_of
  read-score-le (object fs) h =
      ground
        (arith, clamped-le (truncated (to_float float_of_int float_of_text repr (get "score" fs))))
  read-score-le null h = ground arith
  read-score-le (boolean b) h = ground arith
  read-score-le (int n) h = ground arith
  read-score-le (float f) h = ground arith
  read-score-le (str s) h = ground arith
  read-score-le (array vs) h = ground arith

  -- Under a strict policy an accepted decision rests on execution: it is verified by execution;
  -- its score is from the acceptance score to 100; the payload is an object whose `met` is true;
  -- there is a criterion, and each expected one is named by a check that passed; every result
  -- passed or may be tolerated; and no regression is gating.
  pub evaluate_accepted_strict :
      (payload : Value) (rs : List CheckResult) (p : Policy) {d : VerificationDecision}
      → evaluated payload rs p ≡ some d
      → p.strict ≡ true
      → d.accepted ≡ true
      → (d.verified_by ≡ "execution")
        × (p.acceptance_score ≤ d.score)
        × (d.score ≤ 100)
        × ((fs : Fields) × (payload ≡ object fs) × (truthy_get (get "met" fs) ≡ true))
        × (0 < p.criterion_count)
        × All (Covers rs) (expected_criteria p.criterion_count)
        × All IsTolerated rs
        × All (λ r. r.gating ≡ false) (regressions rs)
  evaluate_accepted_strict payload rs p {d} h s a =
      let (v, r, e) = evaluate-decide payload rs p h in
      let (met, high, gates, strictness) =
        (decide_accepted v rs p).0 (cc (ap (λ (x : VerificationDecision). x.accepted) e)) in
      let ready : execution_ready v rs p ≡ true = ground arith in
      let (_, coverage) = decide_ready v rs p ready in
      let (pos, covers) = (execution_coverage_complete_iff rs p.criterion_count).0 coverage in
      let same : (decide v rs p).score ≡ v.score = unfold decide in refl in
      let same' : (decide v rs p).score ≡ d.score = ap (λ (x : VerificationDecision). x.score) e in
      (
        sym (ap (λ (x : VerificationDecision). x.verified_by) e) ∙ decide_verified_by v rs p ready,
        omega arith,
        omega (arith, read-score-le payload r),
        read_met payload r met,
        pos,
        covers,
        (completion_gates_pass_iff rs).0 gates,
        regressions-gating rs gates,
      )

  pub evaluate-accepted :
      (payload : Value) (rs : List CheckResult) (p : Policy) {d : VerificationDecision}
      → evaluated payload rs p ≡ some d
      → d.accepted ≡ true
      → (p.acceptance_score ≤ d.score) × (p.strict ≡ true → d.verified_by ≡ "execution")
  evaluate-accepted payload rs p {d} h a =
      let (v, r, e) = evaluate-decide payload rs p h in
      let (met, high, gates, strictness) =
        (decide_accepted v rs p).0 (cc (ap (λ (x : VerificationDecision). x.accepted) e)) in
      let same : (decide v rs p).score ≡ v.score = unfold decide in refl in
      let same' : (decide v rs p).score ≡ d.score = ap (λ (x : VerificationDecision). x.score) e in
      (
        omega arith,
        λ s.
            sym (ap (λ (x : VerificationDecision). x.verified_by) e)
            ∙ decide_verified_by v rs p (ground arith),
      )

  -- An answer whose score is an infinite float, as `json.loads` reads `1e999`, makes no decision:
  -- `int` raises an `OverflowError`, which the score's handler does not catch.
  pub evaluate_infinite_score :
      (fs : Fields) (rs : List CheckResult) (p : Policy)
      → get "score" fs ≡ some (float infinity)
      → evaluated (object fs) rs p ≡ none
  unfolding evaluate read score_of
  evaluate_infinite_score fs rs p h = ground arith
