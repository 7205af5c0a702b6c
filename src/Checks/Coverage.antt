-- ===== src/Checks/Coverage.antt =====
-- What a complete coverage of the success criteria means, criterion by criterion.
use loop_agent.Prelude.{
  ℕ, zero, suc, ◌+◌, ◌≤◌, ◌<◌, String, ◌≡◌, ◌↔◌, inl, inr, refl, true, false, List, [], ◌∷◌, arith,
  Any, All, Has, contains→Has, Has→contains, all→All, All→all, Any-append, Any-left, Any-right,
  contains, Bool-cases, All-map, subst, dec_lt,
}
use loop_agent.Checks.{
  CheckResult, criterion, tabulate, subset, expected_criteria, covered_criteria,
  execution_coverage_complete, is_empty,
}

-- Some passed check names the criterion.
abbrev pub Covers : List CheckResult → String → Type 0
Covers results c = Any (λ r. (r.passed ≡ true) × Has c r.criterion_ids) results

covered→Covers : (rs : List CheckResult) (c : String) → Has c (covered_criteria rs) → Covers rs c
covered→Covers [] c h = absurd h
covered→Covers (r ∷ rs) c h = elim (Bool-cases r.passed) [
  | inl p ↦ elim (Any-append (λ x. x ≡ c) r.criterion_ids (covered_criteria rs) (rw p at h)) [
    | inl a ↦ inl (p, a)
    | inr b ↦ inr (covered→Covers rs c b)
  ]
  | inr p ↦ inr (covered→Covers rs c (rw p at h))
]

Covers→covered : (rs : List CheckResult) (c : String) → Covers rs c → Has c (covered_criteria rs)
Covers→covered [] c h = absurd h
Covers→covered (r ∷ rs) c (inl (p, a)) =
    rw p (Any-left (λ x. x ≡ c) r.criterion_ids (covered_criteria rs) a)
Covers→covered (r ∷ rs) c (inr b) =
    let rest = Covers→covered rs c b in
    elim (Bool-cases r.passed) [
      | inl p ↦ rw p (Any-right (λ x. x ≡ c) r.criterion_ids (covered_criteria rs) rest)
      | inr p ↦ rw p rest
    ]

All-tabulate :
    (P : String → Type 0) (f : ℕ → String) (first count i : ℕ)
    → All P (tabulate f first count)
    → first ≤ i
    → i < first + count
    → P (f i)
All-tabulate P f first zero i h lo hi = absurd (omega arith)
All-tabulate P f first (suc count) i h lo hi = elim (dec_lt first i) [
  | yes more ↦ All-tabulate P f (first + 1) count i h.1 (omega arith) (omega arith)
  | no here ↦ let e : first ≡ i = omega arith in subst (λ k. P (f k)) e h.0
]

Covers-nonempty : (rs : List CheckResult) (c : String) → Covers rs c → is_empty rs ≡ false
Covers-nonempty [] c h = absurd h
Covers-nonempty (r ∷ rs) c h = refl

module _ (rs : List CheckResult) (n : ℕ) where
  coverage_sound :
      execution_coverage_complete rs n ≡ true → (0 < n) × All (Covers rs) (expected_criteria n)
  unfolding execution_coverage_complete
  coverage_sound h =
      let found : subset (expected_criteria n) (covered_criteria rs) ≡ true = ground arith in
      (
        ground arith,
        All-map (expected_criteria n)
            (λ c p. covered→Covers rs c (contains→Has (covered_criteria rs) c p))
            (all→All (contains (covered_criteria rs)) (expected_criteria n) found),
      )

  coverage_complete :
      0 < n → All (Covers rs) (expected_criteria n) → execution_coverage_complete rs n ≡ true
  unfolding execution_coverage_complete
  coverage_complete pos h =
      let some_result =
        Covers-nonempty rs (criterion 1)
          (All-tabulate (Covers rs) criterion 1 n 1 h (omega arith) (omega arith)) in
      let found : subset (expected_criteria n) (covered_criteria rs) ≡ true =
        All→all (contains (covered_criteria rs)) (expected_criteria n) (
          All-map (expected_criteria n)
            (λ c p. Has→contains (covered_criteria rs) c (Covers→covered rs c p)) h) in
      ground arith

-- Coverage is complete exactly when there is a criterion and each of the expected names
-- `criterion-001`, … is named by some check that passed.
pub execution_coverage_complete_iff :
    (rs : List CheckResult) (n : ℕ)
    → (execution_coverage_complete rs n ≡ true) ↔ ((0 < n) × All (Covers rs) (expected_criteria n))
execution_coverage_complete_iff rs n =
    (coverage_sound rs n, λ (pos, covers). coverage_complete rs n pos covers)

-- Each criterion of a complete coverage, by its number.
pub Covers-each :
    (rs : List CheckResult) (n i : ℕ)
    → execution_coverage_complete rs n ≡ true
    → 1 ≤ i
    → i ≤ n
    → Covers rs (criterion i)
Covers-each rs n i h lo hi =
    All-tabulate (Covers rs) criterion 1 n i (coverage_sound rs n h).1 lo (omega arith)
