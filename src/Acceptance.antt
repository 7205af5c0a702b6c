-- ===== src/Acceptance.antt =====
-- apps/api/app/services/loop/verification.py: one acceptance decision from the verifier's answer
-- and the results of the re-executed checks.
pub mod Decision
mod Examples
use Prim.Native.String.{◌++◌ as append}
use loop_agent.Prelude.{
  ℕ, String, Bool, true, false, Option, none, some, List, [], ◌∷◌, ◌++◌, map, ◌==◌, ◌&&◌, ◌||◌, not,
  if◌then◌else◌, leb, min, max,
}
use loop_agent.Prelude.Text.{strip, codes, lower_code, codes_eq}
use loop_agent.Json.{
  ℤ, pos, negsuc, Float, zero_float, finite, Value, null, boolean, int, float, str, array, object,
  Fields, elements, get, truthy, truthy_get, str_of, Conversion, converted, rejected, overflow,
  int_of_float,
}
use loop_agent.Checks.{
  CheckResult, completion_gates_pass, execution_coverage_complete, regressions, is_empty,
}

pub record VerificationDecision : Type 0 where
  pub accepted : Bool
  pub score : ℕ
  pub missing : List String
  pub verified_by : String
  pub coverage_complete : Bool
  pub gates_passed : Bool

-- `max(0, min(100, n))`
clamp : ℤ → ℕ
clamp (pos n) = max 0 (min 100 n)
clamp (negsuc n) = 0

-- The `missing` list of a payload: `payload.get("missing") or []`, if it is a list.
missing_of : (Value → String) → Option Value → List String
unfolding str_of
missing_of repr (some (array items)) = map (str_of repr) (elements items)
missing_of repr _ = []

-- `raw.strip().lower() in {"true", "yes", "1"}`
says_yes : String → Bool
unfolding strip
says_yes s =
    let word = map lower_code (codes (strip s)) in
    codes_eq word (codes "true") || codes_eq word (codes "yes") || codes_eq word (codes "1")

-- `payload.get("checks_substantiate", True)` and the test on it
substantiates_of : Option Value → Bool
unfolding says_yes
substantiates_of none = true
substantiates_of (some (boolean b)) = b
substantiates_of (some (str s)) = says_yes s
substantiates_of (some v) = false

-- What a payload says, once read.
pub record Verdict : Type 0 where
  pub score : ℕ
  pub missing : List String
  pub met : Bool
  pub substantiates : Bool

-- The call's other arguments.
pub record Policy : Type 0 where
  pub criterion_count : ℕ
  pub acceptance_score : ℕ
  pub strict : Bool
  pub contract_substantiation_authoritative : Bool

abbrev note : Bool → String → List String
note true s = s ∷ []
note false s = []

-- `execution_ready`
unfoldable pub execution_ready : Verdict → List CheckResult → Policy → Bool
execution_ready v results p =
    not (is_empty results)
    && execution_coverage_complete results p.criterion_count
    && completion_gates_pass results
    && (v.substantiates || p.contract_substantiation_authoritative)

abbrev regression_note : CheckResult → String
regression_note r = append "Regression in " (append r.target ".")

-- What the policy adds to `missing`: the strict refusal's reasons, then the regressions.
unfoldable pub reasons : Verdict → List CheckResult → Policy → List String
reasons v results p =
    let gates_passed = completion_gates_pass results in
    let coverage_complete = execution_coverage_complete results p.criterion_count in
    let refused = p.strict && not (execution_ready v results p) in
    note (refused && not coverage_complete)
      "Every success criterion needs a mapped execution check."
    ++ (note (refused && not gates_passed)
          "A required check failed or a project quality gate regressed."
        ++ (note
              (refused
                && not (is_empty results)
                && not v.substantiates
                && not p.contract_substantiation_authoritative)
              "The proposed checks do not substantiate the task goal."
            ++ map regression_note (regressions results)))

-- From `gates_passed = …` on.
unfoldable pub decide : Verdict → List CheckResult → Policy → VerificationDecision
decide v results p =
    let gates_passed = completion_gates_pass results in
    let coverage_complete = execution_coverage_complete results p.criterion_count in
    let ready = execution_ready v results p in
    let refused = p.strict && not ready in
    record {
      accepted = if refused then false else v.met && leb p.acceptance_score v.score && gates_passed;
      score = v.score;
      missing = v.missing ++ reasons v results p;
      verified_by = if ready then "execution" else "judgment";
      coverage_complete = coverage_complete;
      gates_passed = gates_passed;
    }

clamped : Conversion ℤ → Option ℕ
unfolding clamp
clamped (converted n) = some (clamp n)
clamped rejected = some 0
clamped overflow = none

truncated : Conversion Float → Conversion ℤ
unfolding int_of_float
truncated (converted f) = int_of_float f
truncated rejected = rejected
truncated overflow = overflow

-- `float(n)` and `float(text)` of Python, and its way to print a value, are parameters.
module _ (float_of_int : ℤ → Conversion Float) (float_of_text : String → Conversion Float)
    (repr : Value → String) where
  -- `float(value)`
  to_float : Option Value → Conversion Float
  to_float (some (boolean true)) = converted (finite (pos 1))
  to_float (some (boolean false)) = converted zero_float
  to_float (some (int n)) = float_of_int n
  to_float (some (float f)) = converted f
  to_float (some (str s)) = float_of_text s
  to_float _ = rejected

  -- `none` is the `OverflowError` that leaves the function.
  unfoldable pub score_of : Option Value → Option ℕ
  unfolding clamped truncated to_float
  score_of v = clamped (truncated (to_float v))

  -- `if isinstance(payload, dict): … else: …`
  unfoldable pub read : Value → Option Verdict
  unfolding score_of missing_of truthy_get substantiates_of get
  read (object payload) = elim (score_of (get "score" payload)) [
    | none ↦ none
    | some score ↦ some (record {
      score = score;
      missing = missing_of repr (get "missing" payload);
      met = truthy_get (get "met" payload);
      substantiates = substantiates_of (get "checks_substantiate" payload);
    })
  ]
  read _ = some (record {
    score = 0;
    missing = "verifier returned no verdict" ∷ [];
    met = false;
    substantiates = true;
  })

  unfoldable pub evaluate : Value → List CheckResult → Policy → Option VerificationDecision
  evaluate payload results p = elim (read payload) [
    | none ↦ none
    | some v ↦ some (decide v results p)
  ]
