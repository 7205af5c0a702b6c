-- ===== src/Checks.antt =====
-- apps/api/app/services/verification.py and apps/api/app/services/completion.py: the results of
-- re-executed checks, their coverage of the success criteria, and the gates on completion.
pub mod Coverage
pub mod Gates
pub mod Supplementary
mod Examples
use Prim.Native.String.{◌++◌ as append}
use loop_agent.Prelude.Decimal.{decimal}
use loop_agent.Prelude.{
  ℕ, zero, suc, ◌+◌, ◌/◌, ◌%◌, String, Bool, true, false, Option, none, some, List, [], ◌∷◌, ◌++◌,
  map, ◌==◌, ◌&&◌, ◌||◌, not, if◌then◌else◌, nat_eq, ltb, leb, any, all, contains,
}
use loop_agent.Json.{Value, boolean, Fields, get, put, truthy_get, str_of}

pub record CheckResult : Type 0 where
  pub kind : String
  pub target : String
  pub passed : Bool
  pub evidence : String
  pub check_id : String
  pub criterion_ids : List String
  pub definition : Option Fields
  pub source : String
  pub baseline_passed : Option Bool
  pub gating : Bool

-- `f"{n:03d}"`
unfoldable pub three_digits : ℕ → String
unfolding decimal
three_digits n =
    let digits = decimal n in
    if ltb n 10 then append "00" digits else if ltb n 100 then append "0" digits else digits

-- `f"criterion-{index:03d}"`
unfoldable pub criterion : ℕ → String
unfolding three_digits
criterion index = append "criterion-" (three_digits index)

-- `f(first), …, f(first + count - 1)`
abbrev pub tabulate {ℓ} : {A : Type ℓ} → (ℕ → A) → ℕ → ℕ → List A
tabulate f first zero = []
tabulate f first (suc count) = f first ∷ tabulate f (first + 1) count

-- `expected <= covered`, as sets
abbrev pub subset : List String → List String → Bool
subset expected covered = all (contains covered) expected

abbrev pub expected_criteria : ℕ → List String
expected_criteria count = tabulate criterion 1 count

abbrev pub covered_criteria : List CheckResult → List String
covered_criteria [] = []
covered_criteria (r ∷ rs) =
    if r.passed then r.criterion_ids ++ covered_criteria rs else covered_criteria rs

-- `not results`
abbrev pub is_empty {ℓ} : {A : Type ℓ} → List A → Bool
is_empty [] = true
is_empty (x ∷ xs) = false

unfoldable pub execution_coverage_complete : List CheckResult → ℕ → Bool
execution_coverage_complete results count =
    if is_empty results || leb count 0
    then false
    else subset (expected_criteria count) (covered_criteria results)

-- `result.baseline_passed is False`, and `is True`
abbrev pub was_failing : Option Bool → Bool
was_failing (some false) = true
was_failing _ = false

abbrev pub was_passing : Option Bool → Bool
was_passing (some true) = true
was_passing _ = false

unfoldable pub completion_gates_pass : List CheckResult → Bool
completion_gates_pass [] = true
completion_gates_pass (r ∷ rs) =
    let rest = completion_gates_pass rs in
    if not r.gating
    then rest
    else if r.passed
    then rest
    else if r.source == "system" && was_failing r.baseline_passed
    then rest
    else false

-- `[result for result in results if p(result)]`
abbrev pub keep_if {ℓ} : {A : Type ℓ} → (A → Bool) → List A → List A
keep_if p [] = []
keep_if p (x ∷ xs) = let rest = keep_if p xs in if p x then x ∷ rest else rest

abbrev pub is_regression : CheckResult → Bool
is_regression r = r.source == "system" && was_passing r.baseline_passed && not r.passed

unfoldable pub regressions : List CheckResult → List CheckResult
regressions results = keep_if is_regression results

-- `prior.get(check_id)` of the dict that is built from the baseline: a later item of the same id
-- wins.
module _ (repr : Value → String) where
  -- `str(item.get(...))`
  text_or_none : Option Value → String
  unfolding str_of
  text_or_none none = "None"
  text_or_none (some v) = str_of repr v

  prior : List Fields → String → Option Bool
  unfolding get truthy_get text_or_none
  prior [] id = none
  prior (item ∷ items) id = elim (prior items id) [
    | some b ↦ some b
    | none ↦
        if text_or_none (get "check_id" item) == id
        then some (truthy_get (get "passed" item))
        else none
  ]

  abbrev attach : List Fields → CheckResult → CheckResult
  attach baseline r = record r { baseline_passed = prior baseline r.check_id }

  unfoldable pub attach_baseline : List CheckResult → List Fields → List CheckResult
  unfolding prior
  attach_baseline results baseline = map (attach baseline) results

abbrev pub is_contract : CheckResult → Bool
is_contract r = r.source == "contract"

-- `result.gating = False`, and in its definition too
ungate : CheckResult → CheckResult
unfolding put
ungate r = record r {
  gating = false;
  definition = elim r.definition [ none ↦ none | some d ↦ some (put "gating" (boolean false) d) ];
}

unfoldable pub authoritative : List CheckResult → ℕ → Bool
unfolding completion_gates_pass execution_coverage_complete
authoritative results count =
    let contract = keep_if is_contract results in
    not (is_empty contract)
    && completion_gates_pass contract
    && execution_coverage_complete contract count

-- The returned flag, and the results as the call leaves them.
unfoldable pub mark_supplementary_agent_checks : List CheckResult → ℕ → Bool × List CheckResult
unfolding authoritative ungate
mark_supplementary_agent_checks results count =
    if not (authoritative results count)
    then (false, results)
    else (true, map (λ r. if not (r.source == "agent") then r else ungate r) results)
