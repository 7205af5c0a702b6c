-- ===== src/Task/Cancels.antt =====
-- A cancelled task leaves no descendant active.
use loop_agent.Prelude.{
  ◌≡◌, inl, inr, refl, ap, ◌∙◌, true, false, none, some, List, [], ◌∷◌, arith, Bool-cases, All,
  length,
}
use loop_agent.Loop.{
  LoopState, queued, cancelled, cancel, Target, apply, rule, is_active, status_for, status_value,
}
use loop_agent.Loop.Policy.{IsConsistent, apply_allowed}
use loop_agent.Task.{
  cancelled_all, is_active_status, cancel_one, cancel_each, with_rest, cancel_task,
}

active-status : (s : LoopState) → is_active_status (status_value (status_for s)) ≡ is_active s
unfolding status_for status_value
active-status queued = refl
active-status _ = refl

rule-cancel : (s : LoopState) → is_active s ≡ true → rule s cancel ≡ some cancelled
unfolding rule
rule-cancel s h = ground arith

-- Some state that is not active, with which the columns agree.
abbrev pub Closed : Target → Type 0
Closed t = (s : LoopState) × (is_active s ≡ false) × IsConsistent s t

abbrev pub Known : Target → Type 0
Known t = (s : LoopState) × IsConsistent s t

cancel_one-Closed : (t : Target) → Known t → (t' : Target) × (cancel_one t ≡ inr t') × Closed t'
unfolding cancel_one
cancel_one-Closed t (s, k) =
    let same : is_active_status t.status ≡ is_active s =
      ap is_active_status k.statused ∙ active-status s in
    elim (Bool-cases (is_active s)) [
      | inr e ↦ (t, rw (same ∙ e) refl, (s, e, k))
      | inl e ↦
          let (a, c, m, n) =
            apply_allowed s cancelled t cancel "cancelled_with_parent" none k.named
              (rule-cancel s e) (λ w. cc) in
          (
            (apply t cancel "cancelled_with_parent" none).1,
            rw (same ∙ e, a) refl,
            (cancelled, refl, c),
          )
    ]

cancel_each-Closed :
    (ts : List Target)
    → All Known ts
    → (ts' : List Target) × (cancel_each ts ≡ inr ts') × All Closed ts' × (length ts' ≡ length ts)
unfolding cancel_each
cancel_each-Closed [] h = ([], refl, tt, refl)
cancel_each-Closed (t ∷ ts) h =
    let (t', a, c) = cancel_one-Closed t h.0 in
    let (ts', b, d, e) = cancel_each-Closed ts h.1 in
    (
      t' ∷ ts',
      ap (λ x. with_rest x (cancel_each ts)) a ∙ ap (with_rest (inr t')) b,
      (c, d),
      omega arith,
    )

-- A task whose columns agree on an active state is cancelled when the user asks for it, and with it
-- every descendant: none raises, each is left in a state that is not active, with its columns in
-- agreement, and none is lost.
pub cancel_closes :
    (s : LoopState) (t : Target) (descendants : List Target)
    → is_active s ≡ true
    → IsConsistent s t
    → All Known descendants
    → (t' : Target) × (ts : List Target) × (cancel_task t descendants ≡ cancelled_all t' ts)
      × IsConsistent cancelled t'
      × All Closed ts
      × (length ts ≡ length descendants)
unfolding cancel_task
cancel_closes s t descendants e k h =
    let same : is_active_status t.status ≡ true =
      ap is_active_status k.statused ∙ active-status s ∙ e in
    let (a, c, m, n) =
      apply_allowed s cancelled t cancel "cancelled_by_user" none k.named (rule-cancel s e)
        (λ w. cc) in
    let (ts, b, d, l) = cancel_each-Closed descendants h in
    ((apply t cancel "cancelled_by_user" none).1, ts, rw (same, a, b) refl, c, d, l)
