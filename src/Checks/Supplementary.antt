-- ===== src/Checks/Supplementary.antt =====
-- What marking the agent's checks as supplementary changes.
use loop_agent.Prelude.{
  ℕ, ◌≡◌, ◌⊎◌, inl, inr, refl, Bool, true, false, not, List, [], ◌∷◌, map, arith, ◌==◌,
  if◌then◌else◌, Bool-cases,
}
use loop_agent.Checks.{
  CheckResult, completion_gates_pass, authoritative, ungate, mark_supplementary_agent_checks,
  keep_if,
}

abbrev pub not_agent : CheckResult → Bool
not_agent r = not (r.source == "agent")

abbrev marked : CheckResult → CheckResult
marked r = if not (r.source == "agent") then r else ungate r

gates-marked :
    (rs : List CheckResult)
    → completion_gates_pass (map marked rs) ≡ completion_gates_pass (keep_if not_agent rs)
unfolding completion_gates_pass ungate
gates-marked [] = refl
gates-marked (r ∷ rs) = ground (arith, gates-marked rs)

-- Once the contract's own checks are authoritative, the agent's checks no longer count: the gates
-- over the results as the call leaves them are the gates over the results of the other sources.
-- Where they are not, the call reports false and leaves every result as it was.
pub mark_supplementary_gates :
    (rs : List CheckResult) (n : ℕ)
    → ((authoritative rs n ≡ true)
        × ((mark_supplementary_agent_checks rs n).0 ≡ true)
        × (completion_gates_pass (mark_supplementary_agent_checks rs n).1
            ≡ completion_gates_pass (keep_if not_agent rs)))
      ⊎ ((authoritative rs n ≡ false) × (mark_supplementary_agent_checks rs n ≡ (false, rs)))
mark_supplementary_gates rs n = elim (Bool-cases (authoritative rs n)) [
  | inl h ↦ inl (
    h,
    unfold mark_supplementary_agent_checks in rw h,
    unfold mark_supplementary_agent_checks in rw h (gates-marked rs),
  )
  | inr h ↦ inr (h, unfold mark_supplementary_agent_checks in rw h)
]
