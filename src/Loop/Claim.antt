-- ===== src/Loop/Claim.antt =====
-- `TaskRepository.claim_pending` of apps/api/app/repositories/task.py: the one UPDATE by which a
-- worker takes a task, beside the transition policy.
use loop_agent.Prelude.{
  ◌+◌, String, ◌≡◌, refl, ap, sym, subst, ℕ, ◌∙◌, ◌⊎◌, inl, inr, Option, none, some, ◌&&◌, ◌==◌,
  arith, map, if◌then◌else◌, contains, Option-cases, zero, suc,
}
use loop_agent.Loop.{
  LoopState, LoopEvent, Target, applied, queued, preparing, claim, recover, state_value, apply,
  claimable_states,
}

-- The row after the UPDATE; `none` where its WHERE clause does not hold and nothing is written.
unfoldable pub claim_pending : Target → Option Target
unfolding state_value
claim_pending t =
    if t.status == "pending" && contains (map state_value claimable_states) t.loop_state
    then some (record {
      loop_state = state_value preparing;
      transition_reason = some (
          if t.loop_state == state_value queued
          then "worker_claimed_task"
          else "worker_recovered_interrupted_task");
      transition_sequence = t.transition_sequence + 1;
      status = "running";
      stop_reason = none;
    })
    else none

-- Which event of the policy the claim stands for, by the state that it finds.
abbrev pub claim_event : LoopState → LoopEvent
claim_event queued = claim
claim_event _ = recover

abbrev pub claim_reason : LoopState → String
claim_reason queued = "worker_claimed_task"
claim_reason _ = "worker_recovered_interrupted_task"

-- The claim of a row whose state is written out computes.
claim_at :
    (s : LoopState) (reason : Option String) (n : ℕ) (status : String) (stop : Option String)
    {u : Target}
    → claim_pending (record {
      loop_state = state_value s;
      transition_reason = reason;
      transition_sequence = n;
      status = status;
      stop_reason = stop;
    })
      ≡ some u
    → apply
        (record {
          loop_state = state_value s;
          transition_reason = reason;
          transition_sequence = n;
          status = status;
          stop_reason = stop;
        })
        (claim_event s)
        (claim_reason s)
        none
      ≡ (
        applied (record {
          sequence = n + 1;
          source = s;
          target = preparing;
          event = claim_event s;
          reason = claim_reason s;
        }),
        u,
      )
unfolding claim_pending apply
claim_at queued reason n status stop h = ground arith
claim_at _ reason n status stop h = ground arith

-- A successful claim leaves the row that the policy's CLAIM (from `queued`) or RECOVER (from a
-- working state) leaves: the UPDATE and the transition policy agree in every column.
pub claim_pending-apply :
    (s : LoopState) (t u : Target)
    → t.loop_state ≡ state_value s
    → claim_pending t ≡ some u
    → apply t (claim_event s) (claim_reason s) none ≡ (
      applied (record {
        sequence = t.transition_sequence + 1;
        source = s;
        target = preparing;
        event = claim_event s;
        reason = claim_reason s;
      }),
      u,
    )
claim_pending-apply s t u n h =
    let at : Target → Type 0 = λ r. apply r (claim_event s) (claim_reason s) none ≡ (
      applied (record {
        sequence = r.transition_sequence + 1;
        source = s;
        target = preparing;
        event = claim_event s;
        reason = claim_reason s;
      }),
      u,
    ) in
    let e : t ≡ record t { loop_state = state_value s } = λ i. record t { loop_state = n i } in
    subst at (sym e) (
      claim_at s t.transition_reason t.transition_sequence t.status t.stop_reason
        (sym (ap claim_pending e) ∙ h))

claim_pending-status : (t u : Target) → claim_pending t ≡ some u → u.status ≡ "running"
unfolding claim_pending
claim_pending-status t u h = ground arith

claim_pending_running : (u : Target) → u.status ≡ "running" → claim_pending u ≡ none
unfolding claim_pending
claim_pending_running u e = rw e

-- So many workers claiming one row: the database runs their UPDATEs one after another. The number
-- of those that got a row back, and the row at the end.
pub claims : ℕ → Target → ℕ × Target
claims zero t = (0, t)
claims (suc n) t = elim (claim_pending t) [
  | none ↦ claims n t
  | some u ↦ let (k, v) = claims n u in (k + 1, v)
]

claims_running : (n : ℕ) (u : Target) → u.status ≡ "running" → claims n u ≡ (0, u)
unfolding claims
claims_running zero u e = refl
claims_running (suc n) u e = rw (claim_pending_running u e, claims) (claims_running n u e)

-- However many workers claim one row, one claim after another, at most one of them gets it, and
-- where one does the row ends as that claim wrote it.
pub claims_exclusive :
    (n : ℕ) (t : Target)
    → (claims n t ≡ (0, t)) ⊎ ((u : Target) × (claim_pending t ≡ some u) × (claims n t ≡ (1, u)))
unfolding claims
claims_exclusive zero t = inl refl
claims_exclusive (suc n) t = elim (Option-cases (claim_pending t)) [
  | inl h ↦ rw (h, claims) (elim (claims_exclusive n t) [ inl e ↦ inl e | inr (u, g, e) ↦ cc ])
  | inr (u, h) ↦ inr (u, h, rw (h, claims, claims_running n u (claim_pending-status t u h)))
]
