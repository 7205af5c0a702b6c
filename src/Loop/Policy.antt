-- ===== src/Loop/Policy.antt =====
-- `LoopTransitionPolicy.apply`: what a transition writes, and what a refusal leaves alone.
use loop_agent.Prelude.{
  ◌+◌, String, ◌≡◌, ◌≢◌, ◌⊎◌, inl, inr, refl, ap, ◌∙◌, true, false, Option, none, some, arith, ◌&&◌,
  not, Option-cases, Bool-cases,
}
use loop_agent.Loop.{
  LoopState, LoopEvent, limit_reached, StopReason, Target, LoopTransition, applied, raised,
  TransitionError, not_allowed, unbounded_limit, assertion, stopped, completed, cancelled, failed,
  state_value, state_of, rule, status_value, status_for, stop_value, goal_achieved, max_steps,
  budget_exhausted, stuck, error, is_bounded, is_limit, reason_for, finish, advance, apply_from,
  apply,
}
use loop_agent.Loop.Table.{state_of-state_value, rule-stopped}

-- What `stop_reason` holds in each state.
abbrev pub StopFits : LoopState → Option String → Type 0
StopFits completed r = r ≡ some (stop_value goal_achieved)
StopFits stopped r =
    (r ≡ some (stop_value max_steps))
    ⊎ (r ≡ some (stop_value budget_exhausted))
    ⊎ (r ≡ some (stop_value stuck))
StopFits cancelled r = r ≡ some (stop_value StopReason.cancelled)
StopFits failed r = r ≡ some (stop_value error)
StopFits _ r = r ≡ none

-- The three columns say the same.
pub record IsConsistent (s : LoopState) (t : Target) : Type 0 where
  pub named : t.loop_state ≡ state_value s
  pub statused : t.status ≡ status_value (status_for s)
  pub stop_fits : StopFits s t.stop_reason

abbrev NeedsBound : LoopState → Option StopReason → Type 0
NeedsBound stopped r = is_bounded r ≡ true
NeedsBound _ r = Unit {0}

finish-IsConsistent :
    (s : LoopState) (r : Option StopReason) (tr : LoopTransition) (t : Target)
    → NeedsBound s r
    → t.loop_state ≡ state_value s
    → t.status ≡ status_value (status_for s)
    → ((finish s r tr t).0 ≡ applied tr) × IsConsistent s (finish s r tr t).1
unfolding finish
finish-IsConsistent stopped none tr t b n m = cc
finish-IsConsistent stopped (some x) tr t b n m = ground arith
finish-IsConsistent _ r tr t b n m = ground arith

finish-keeps :
    (s : LoopState) (r : Option StopReason) (tr : LoopTransition) (t : Target)
    → ((finish s r tr t).1.transition_sequence ≡ t.transition_sequence)
      × ((finish s r tr t).1.transition_reason ≡ t.transition_reason)
unfolding finish
finish-keeps stopped none tr t = ground arith
finish-keeps _ r tr t = ground arith

-- The transition that an accepted call returns.
abbrev pub transition_of : LoopState → LoopState → LoopEvent → String → Target → LoopTransition
transition_of s q e reason t = record {
  sequence = t.transition_sequence + 1;
  source = s;
  target = q;
  event = e;
  reason = reason_for reason e;
}

guard_bound :
    (s q : LoopState) (e : LoopEvent) (stop : Option StopReason)
    → rule s e ≡ some q
    → (e ≡ limit_reached → is_bounded stop ≡ true)
    → NeedsBound q stop
guard_bound s stopped e stop h g = g (rule-stopped s e h)
guard_bound s _ e stop h g = tt

module _ (s q : LoopState) (e : LoopEvent) (reason : String) (stop : Option StopReason)
    (t : Target) where
  guard_passes :
      (e ≡ limit_reached → is_bounded stop ≡ true) → (is_limit e && not (is_bounded stop)) ≡ false
  guard_passes g = ground arith

  -- The task as it stands when the stop reason is set.
  abbrev written : Target
  written = record t {
    loop_state = state_value q;
    transition_reason = some (reason_for reason e);
    transition_sequence = t.transition_sequence + 1;
    status = status_value (status_for q);
  }

  advance-finish :
      (e ≡ limit_reached → is_bounded stop ≡ true)
      → advance (some q) s e reason stop t ≡ finish q stop (transition_of s q e reason t) written
  unfolding advance
  advance-finish g = rw (guard_passes g)

  apply-finish :
      t.loop_state ≡ state_value s
      → rule s e ≡ some q
      → (e ≡ limit_reached → is_bounded stop ≡ true)
      → apply t e reason stop ≡ finish q stop (transition_of s q e reason t) written
  unfolding apply
  apply-finish n h g =
      let known : state_of t.loop_state ≡ some s = ap state_of n ∙ state_of-state_value s in
      rw (known, h) (advance-finish g)

-- An event that the table allows, a limit with a bounded stop reason, is applied: the call returns
-- the transition from the old state to the table's, numbered one above the task's counter; the
-- task's state, status and stop reason then agree on the new state, and its counter and reason are
-- those of the transition.
pub apply_allowed :
    (s q : LoopState) (t : Target) (e : LoopEvent) (reason : String) (stop : Option StopReason)
    → t.loop_state ≡ state_value s
    → rule s e ≡ some q
    → (e ≡ limit_reached → is_bounded stop ≡ true)
    → ((apply t e reason stop).0 ≡ applied (transition_of s q e reason t))
      × IsConsistent q (apply t e reason stop).1
      × ((apply t e reason stop).1.transition_sequence ≡ t.transition_sequence + 1)
      × ((apply t e reason stop).1.transition_reason ≡ some (reason_for reason e))
apply_allowed s q t e reason stop n h g =
    let tr = transition_of s q e reason t in
    let w = written s q e reason stop t in
    rw (apply-finish s q e reason stop t n h g) (
      let (a, c) = finish-IsConsistent q stop tr w (guard_bound s q e stop h g) refl refl in
      let (k, m) = finish-keeps q stop tr w in (a, c, k, m))

advance_refused :
    (o : Option LoopState) (s : LoopState) (e : LoopEvent) (reason : String)
    (stop : Option StopReason) (t : Target) {x : TransitionError}
    → (o ≡ some stopped → e ≡ limit_reached)
    → (advance o s e reason stop t).0 ≡ raised x
    → ((advance o s e reason stop t).1 ≡ t) × (x ≢ assertion)
unfolding advance
advance_refused none s e reason stop t p h = ground arith
advance_refused (some stopped) s e reason stop t p h = ground (arith, p refl)
advance_refused (some _) s e reason stop t p h = ground arith

-- A call that raises leaves every field of the task as it was, and it is never the `assert` that
-- fails.
pub apply_refused :
    (t : Target) (e : LoopEvent) (reason : String) (stop : Option StopReason) {x : TransitionError}
    → (apply t e reason stop).0 ≡ raised x
    → ((apply t e reason stop).1 ≡ t) × (x ≢ assertion)
unfolding apply
apply_refused t e reason stop h = from (state_of t.loop_state) h
  where
    from :
        (o : Option LoopState) {y : TransitionError}
        → (apply_from o e reason stop t).0 ≡ raised y
        → ((apply_from o e reason stop t).1 ≡ t) × (y ≢ assertion)
    from none g = (refl, λ z. cc)
    from (some s) g = advance_refused (rule s e) s e reason stop t (rule-stopped s e) g

-- From a known state a call is refused, and the task stays, or it follows the table.
pub apply_cases :
    (s : LoopState) (t : Target) (e : LoopEvent) (reason : String) (stop : Option StopReason)
    → t.loop_state ≡ state_value s
    → ((x : TransitionError) × ((apply t e reason stop).0 ≡ raised x)
        × ((apply t e reason stop).1 ≡ t))
      ⊎ ((q : LoopState) × (rule s e ≡ some q)
          × ((apply t e reason stop).0 ≡ applied (transition_of s q e reason t))
          × IsConsistent q (apply t e reason stop).1
          × ((apply t e reason stop).1.transition_sequence ≡ t.transition_sequence + 1))
apply_cases s t e reason stop n = elim (Option-cases (rule s e)) [
  | inl h ↦ inl (not_allowed, unfold apply in rw (known, h), unfold apply in rw (known, h))
  | inr (q, h) ↦ elim (Bool-cases (is_limit e && not (is_bounded stop))) [
    | inl b ↦ inl (
      unbounded_limit,
      unfold apply advance in rw (known, h, b),
      unfold apply advance in rw (known, h, b),
    )
    | inr b ↦
        let (a, c, k, m) = apply_allowed s q t e reason stop n h (guard_open b) in
        inr (q, h, a, c, k)
  ]
]
  where
    known : state_of t.loop_state ≡ some s
    known = ap state_of n ∙ state_of-state_value s

    guard_open :
        (is_limit e && not (is_bounded stop)) ≡ false → e ≡ limit_reached → is_bounded stop ≡ true
    guard_open b p = ground arith
