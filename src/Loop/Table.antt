-- ===== src/Loop/Table.antt =====
-- What the transition table says, whatever task it is applied to.
use loop_agent.Prelude.{◌≡◌, ◌⊎◌, inl, inr, refl, true, false, none, some, arith}
use loop_agent.Loop.{
  LoopState, LoopEvent, queued, verifying, completed, stopped, cancelled, failed, state_value,
  state_of, rule, is_active, verification_accepted, limit_reached, cancel, fail,
}

-- Reading back the name of a state gives the state.
pub state_of-state_value : (s : LoopState) → state_of (state_value s) ≡ some s
unfolding state_of
state_of-state_value queued = refl
state_of-state_value _ = refl

-- Only a limit leads to `stopped`.
pub rule-stopped : (s : LoopState) (e : LoopEvent) → rule s e ≡ some stopped → e ≡ limit_reached
unfolding rule
rule-stopped s e h = ground arith

-- The table has an event for a state exactly when the state is in `_ACTIVE`; from each of those
-- CANCEL and FAIL lead to their terminal state, and from every other state no event leads anywhere.
pub rule_active :
    (s : LoopState)
    → ((is_active s ≡ true) × (rule s cancel ≡ some cancelled) × (rule s fail ≡ some failed))
      ⊎ ((is_active s ≡ false) × ((e : LoopEvent) → rule s e ≡ none))
unfolding rule
rule_active s = elim (split s) [
  | inl h ↦ inl (h, ground arith, ground arith)
  | inr h ↦ inr (h, λ e. ground arith)
]
  where
    split : (q : LoopState) → (is_active q ≡ true) ⊎ (is_active q ≡ false)
    split q = ground arith

-- The only edge into `completed` is an accepted verification.
pub rule-completed :
    (s : LoopState) (e : LoopEvent)
    → rule s e ≡ some completed
    → (s ≡ verifying) × (e ≡ verification_accepted)
unfolding rule
rule-completed s e h = ground arith
