-- ===== src/Spawn/Bounds.antt =====
-- What a child may spend.
use loop_agent.Prelude.{
  ℕ, ◌≤◌, String, ◌≡◌, inl, inr, Option, none, some, arith, Bool-cases, ltb, ltb-false,
}
use loop_agent.Json.{ℤ, pos, Fields, get, Conversion}
use loop_agent.Spawn.{
  DelegationAllocation, DelegationPolicy, allocated, at_most, as_int, both, allocate,
}

at_most_bounds : (n : ℤ) (cap : ℕ) → 1 ≤ cap → (1 ≤ at_most n cap) × (at_most n cap ≤ cap)
unfolding at_most
at_most_bounds n cap h = ground arith

both_parts :
    (b s : Option ℤ) (p : DelegationPolicy) (remaining : ℕ) {a : DelegationAllocation}
    → both b s p remaining ≡ allocated a
    → (n : ℤ) × (m : ℤ) × (a.token_budget ≡ at_most n remaining)
      × (a.max_steps ≡ at_most m p.max_steps)
unfolding both
both_parts (some n) (some m) p remaining h = (n, m, ground arith, ground arith)
both_parts (some n) none p remaining h = cc
both_parts none s p remaining h = cc

-- An allocation is made only when the remaining tokens reach the minimum; it grants at least one
-- token and one step, and, of a minimum of at least one token and a maximum of at least one step,
-- never more tokens than the parent has left nor more steps than the maximum, whatever the
-- arguments ask for.
pub allocate_bounds :
    (int_of_text : String → Conversion ℤ) (p : DelegationPolicy) (args : Fields) (remaining : ℕ)
    {a : DelegationAllocation}
    → 1 ≤ p.minimum_budget
    → 1 ≤ p.max_steps
    → allocate int_of_text p args remaining ≡ allocated a
    → (p.minimum_budget ≤ remaining)
      × (1 ≤ a.token_budget)
      × (a.token_budget ≤ remaining)
      × (1 ≤ a.max_steps)
      × (a.max_steps ≤ p.max_steps)
allocate_bounds int_of_text p args remaining {a} lo hi h =
    let budget = as_int int_of_text (get "token_budget" args) (pos remaining) in
    let steps = as_int int_of_text (get "max_steps" args) (pos p.default_steps) in
    elim (Bool-cases (ltb remaining p.minimum_budget)) [
      | inl low ↦ absurd (unfold allocate in cc)
      | inr enough ↦
          let made : both budget steps p remaining ≡ allocated a =
            unfold allocate in rw enough at h in
          let (n, m, b, s) = both_parts budget steps p remaining made in
          omega (
            arith,
            ltb-false remaining p.minimum_budget enough,
            at_most_bounds n remaining,
            at_most_bounds m p.max_steps hi,
            b,
            s,
          )
    ]
