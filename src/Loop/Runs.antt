-- ===== src/Loop/Runs.antt =====
-- Sequences of calls of `LoopTransitionPolicy.apply` on one task, as the worker and the API make
-- them, refused calls among them.
use loop_agent.Prelude.{
  ℕ, ◌+◌, String, ◌≡◌, refl, sym, ap, subst, ◌∙◌, inl, inr, Option, some, List, [], ◌∷◌, arith,
}
use loop_agent.Loop.{
  LoopState, LoopEvent, StopReason, Target, LoopTransition, Outcome, applied, raised, queued,
  preparing, understanding, planning, acting, verifying, awaiting_input, awaiting_approval,
  completed, claim, verification_requested, verification_accepted, user_responded, state_value,
  state_of, rule, apply, reason_for,
}
use loop_agent.Loop.Table.{state_of-state_value}
use loop_agent.Loop.Policy.{IsConsistent, apply_cases}

-- One call: the event, the reason and the stop reason that it is given.
pub record Call : Type 0 where
  pub event : LoopEvent
  pub reason : String
  pub stop : Option StopReason

-- The transitions that were applied, oldest first, and the task after the last call. A refused
-- call raises to its caller, which goes on with the task as it stands.
keep : Outcome → List LoopTransition → List LoopTransition
keep (applied tr) rest = tr ∷ rest
keep (raised x) rest = rest

unfoldable pub run : Target → List Call → List LoopTransition × Target
unfolding keep
run t [] = ([], t)
run t (c ∷ cs) =
    let (out, t') = apply t c.event c.reason c.stop in
    let (rest, last) = run t' cs in (keep out rest, last)

-- A history that the table allows from one state to another, numbered upward from a counter.
pub data History : LoopState → ℕ → List LoopTransition → LoopState → Type 0 where
  done : (s : LoopState) (n : ℕ) → History s n [] s
  step :
      (s q : LoopState) (n : ℕ) (e : LoopEvent) (reason : String) {rest : List LoopTransition}
      {l : LoopState}
      → rule s e ≡ some q
      → History q (n + 1) rest l
      → History s n
          ((record { sequence = n + 1; source = s; target = q; event = e; reason = reason }) ∷ rest)
          l

-- Whatever the calls, what was applied is a history that the table allows from the state that the
-- task was in, its transitions numbered one by one from the task's counter, and the task is left
-- consistent with the state where that history ends.
pub run-History :
    (s : LoopState) (t : Target) (cs : List Call)
    → IsConsistent s t
    → (l : LoopState) × History s t.transition_sequence (run t cs).0 l × IsConsistent l (run t cs).1
unfolding run
run-History s t [] h = (s, done s t.transition_sequence, h)
run-History s t (c ∷ cs) h = elim (apply_cases s t c.event c.reason c.stop h.named) [
  | inl (x, a, b) ↦ rw (a, b) (run-History s t cs h)
  | inr (q, r, a, k, m) ↦
      let t' = (apply t c.event c.reason c.stop).1 in
      let (l, hist, fin) = run-History q t' cs k in
      (
        l,
        rw a (
            step s q t.transition_sequence c.event (reason_for c.reason c.event) r
              (subst (λ j. History q j (run t' cs).0 l) m hist)),
        fin,
      )
]

-- The events that a task in a state still has to see before it can be completed; for the terminal
-- states, which no event leaves, all of them.
abbrev pub owed : LoopState → List LoopEvent
owed completed = []
owed verifying = verification_accepted ∷ []
owed queued = claim ∷ verification_requested ∷ verification_accepted ∷ []
owed awaiting_input = user_responded ∷ claim ∷ verification_requested ∷ verification_accepted ∷ []
owed awaiting_approval =
    user_responded ∷ claim ∷ verification_requested ∷ verification_accepted ∷ []
owed preparing = verification_requested ∷ verification_accepted ∷ []
owed understanding = verification_requested ∷ verification_accepted ∷ []
owed planning = verification_requested ∷ verification_accepted ∷ []
owed acting = verification_requested ∷ verification_accepted ∷ []
owed _ = user_responded ∷ claim ∷ verification_requested ∷ verification_accepted ∷ []

-- The first list's events occur in the second's, in that order.
pub data InOrder : List LoopEvent → List LoopTransition → Type 0 where
  none_left : (h : List LoopTransition) → InOrder [] h
  skip :
      {es : List LoopEvent} (tr : LoopTransition) {h : List LoopTransition}
      → InOrder es h
      → InOrder es (tr ∷ h)
  take :
      {e : LoopEvent} {es : List LoopEvent} (tr : LoopTransition) {h : List LoopTransition}
      → tr.event ≡ e
      → InOrder es h
      → InOrder (e ∷ es) (tr ∷ h)

-- Fewer events are in order too.
drop_first :
    {e : LoopEvent} {es : List LoopEvent} {h : List LoopTransition}
    → InOrder (e ∷ es) h
    → InOrder es h
drop_first (skip tr i) = skip tr (drop_first i)
drop_first (take tr p i) = skip tr i

-- An event does the first of what is owed, or leaves at least as much owed.
data Progress (e : LoopEvent) : List LoopEvent → List LoopEvent → Type 0 where
  same : (es : List LoopEvent) → Progress e es es
  does : (es : List LoopEvent) → Progress e (e ∷ es) es
  adds : (x : LoopEvent) (es fs : List LoopEvent) → Progress e es fs → Progress e es (x ∷ fs)

follow :
    {e : LoopEvent} {es fs : List LoopEvent} (tr : LoopTransition) {h : List LoopTransition}
    → tr.event ≡ e
    → Progress e es fs
    → InOrder fs h
    → InOrder es (tr ∷ h)
follow tr p (same es) i = skip tr i
follow tr p (does es) i = take tr p i
follow tr p (adds x es fs g) i = follow tr p g (drop_first i)

progress : (s q : LoopState) (e : LoopEvent) → rule s e ≡ some q → Progress e (owed s) (owed q)
unfolding rule
progress s q e h = grind (arith, same, does, adds)

History-InOrder :
    {s l : LoopState} {n : ℕ} {h : List LoopTransition}
    → History s n h l
    → l ≡ completed
    → InOrder (owed s) h
History-InOrder (done s n) p = rw p (none_left [])
History-InOrder (step s q n e reason r rest) p =
    follow _ refl (progress s q e r) (History-InOrder rest p)

state_value-injective : (s q : LoopState) → state_value s ≡ state_value q → s ≡ q
state_value-injective s q p = cc (state_of-state_value s, ap state_of p, state_of-state_value q)

-- A queued task that any calls have brought to `completed` was claimed, then asked for its
-- verification, then had it accepted, in that order.
pub run_completed :
    (t : Target) (cs : List Call)
    → IsConsistent queued t
    → (run t cs).1.loop_state ≡ state_value completed
    → InOrder (claim ∷ verification_requested ∷ verification_accepted ∷ []) (run t cs).0
run_completed t cs h p =
    let (l, hist, fin) = run-History queued t cs h in
    History-InOrder hist (state_value-injective l completed (sym fin.named ∙ p))
