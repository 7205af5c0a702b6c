-- ===== src/Agent/Decides.antt =====
-- How a turn ends, from the model's reply on.
use loop_agent.Prelude.{
  ℕ, zero, suc, ◌+◌, ◌≤◌, String, ◌≡◌, refl, true, false, Option, none, some, sym, subst, ap, arith,
  Bool-cases, inl, inr, ◌==◌, ◌&&◌, ◌||◌, not, leb,
}
use loop_agent.Json.{Fields}
use loop_agent.Loop.{
  LoopState, StopReason, budget_exhausted, planning, acting, action_selected, cancel, cancelled,
  rule, is_working, is_bounded,
}
use loop_agent.Loop.Policy.{apply_allowed}
use loop_agent.Turn.{allocate, planning as planning_tokens}
use loop_agent.Parser.{parse}
use loop_agent.Agent.State.{Run, Platform, Config, Turn, Reply, replied, failed, returned}
use loop_agent.Agent.Finish.{stop, with_summary, ensure_unverified_receipt}
use loop_agent.Agent.Dispatch.{act, decide, on_action}
use loop_agent.Agent.Turns.{
  refreshed, cancelled_target, on_reply, live_turn, checked_turn, one_turn, is_skipped,
  turn_or_skip, turns_from,
}
use loop_agent.Agent.Ends.{Origin, Good, bind-Ends, transition-then}
use loop_agent.Agent.Stops.{stop-Ends, closed-Good}
use loop_agent.Agent.Acts.{Plans, Plan, kept, on_finish-Ends, rule-selected}
use loop_agent.Agent.Branches.{not_permitted-Ends, on_remember-Ends, on_spawn-Ends}
use loop_agent.Agent.Dispatched.{pause_for_user-Ends, on_external-Ends, on_action-Ends}

rule-cancelled : rule planning cancel ≡ some cancelled
unfolding rule
rule-cancelled = refl

module _ (env : Platform) (cfg : Config) (seed : Origin) (bound : ℕ)
    (fits : cfg.max_steps ≤ bound) where
  abbrev At : LoopState → Run → Type 0
  At s r = Good env cfg seed bound s r

  stops :
      (s : LoopState) (reason : StopReason) (r : Run)
      → is_working s ≡ true
      → is_bounded (some reason) ≡ true
      → At s r
      → Plans env cfg seed bound (stop env cfg reason r)
  stops = stop-Ends env cfg seed bound (Plan env cfg seed bound)

  act-Ends :
      (turn : Turn) (thought : String) (args : Fields) (n tokens : ℕ) (tool : String) (r : Run)
      → n ≤ bound
      → At acting r
      → Plans env cfg seed bound (act env cfg turn thought args n tokens tool r)
  unfolding act
  act-Ends turn thought args n tokens tool r b h = elim (Bool-cases (tool == "ask_user")) [
    | inl e ↦ rw e (pause_for_user-Ends env cfg seed bound fits args thought n tokens r b h)
    | inr e ↦
        elim (Bool-cases ((tool == "remember" || tool == "spawn") && not (cfg.permits tool))) [
          | inl p ↦
              rw (e, p) (not_permitted-Ends env cfg seed bound tool thought args n tokens r b h)
          | inr p ↦ elim (Bool-cases (tool == "remember")) [
            | inl m ↦
                rw (e, p, m) (on_remember-Ends env cfg seed bound turn thought args n tokens r b h)
            | inr m ↦ elim (Bool-cases (tool == "spawn")) [
              | inl s ↦
                  rw (e, p, m, s)
                    (on_spawn-Ends env cfg seed bound turn thought args n tokens r b h)
              | inr s ↦ elim (Bool-cases (tool == "send_email" || tool == "create_event")) [
                | inl x ↦
                    rw (e, p, m, s, x)
                      (on_external-Ends env cfg seed bound fits tool thought args n tokens r b h)
                | inr x ↦
                    rw (e, p, m, s, x)
                      (on_action-Ends env cfg seed bound fits turn (some tool) thought args n tokens
                        r b h)
              ]
            ]
          ]
        ]
  ]

  decide-Ends :
      (turn : Turn) (tool : Option String) (thought : String) (args : Fields) (n tokens : ℕ)
      (r : Run)
      → n ≤ bound
      → At planning r
      → Plans env cfg seed bound (decide env cfg turn tool thought args n tokens r)
  unfolding decide
  decide-Ends turn none thought args n tokens r b h =
      transition-then env cfg seed bound (Plan env cfg seed bound) planning acting action_selected _
        none (on_action env cfg turn none thought args n tokens) r h rule-selected (λ w. cc)
        (λ w. cc)
        (λ r' k. on_action-Ends env cfg seed bound fits turn none thought args n tokens r' b k)
  decide-Ends turn (some tool) thought args n tokens r b h = elim (Bool-cases (tool == "finish")) [
    | inl e ↦ rw e (on_finish-Ends env cfg seed bound turn thought args n tokens r b h)
    | inr e ↦ rw e (
        transition-then env cfg seed bound (Plan env cfg seed bound) planning acting action_selected
          _ none (act env cfg turn thought args n tokens tool) r h rule-selected (λ w. cc) (λ w. cc)
          (λ r' k. act-Ends turn thought args n tokens tool r' b k))
  ]

  on_reply-Ends :
      (turn : Turn) (n : ℕ) (reply : Reply) (r : Run)
      → n ≤ bound
      → At planning r
      → Plans env cfg seed bound (on_reply env cfg turn n reply r)
  unfolding on_reply
  on_reply-Ends turn n (replied tokens content) r b h =
      let d = parse env.loads env.repr content cfg.valid_tools cfg.dynamic_tools in
      decide-Ends turn d.tool d.thought d.args n tokens r b h
  on_reply-Ends turn n (failed tokens true detail) r b h =
      stops planning budget_exhausted _ refl refl
        (kept env cfg seed bound r _ h refl refl refl refl)
  on_reply-Ends turn n (failed tokens false detail) r b h =
      (tt, planning, refl, kept env cfg seed bound r _ h refl refl refl refl)

  -- The row after a refresh: cancelled, or as it was.
  pub refreshed-Good : (r : Run) → At planning r → At cancelled (refreshed true r)
  unfolding refreshed
  refreshed-Good r h =
      let (a, k, m, n) =
        apply_allowed planning cancelled r.target cancel "cancelled_by_user" none h.consistent.named
          rule-cancelled (λ w. cc) in
      record {
        consistent = k;
        chained = h.chained;
        headed = h.headed;
        stepped = h.stepped;
        earned = λ w. cc;
      }

  cancelled-Ends : (r : Run) → At cancelled r → At cancelled (cancelled_target r)
  unfolding cancelled_target
  cancelled-Ends r h = record {
    consistent = record {
      named = h.consistent.named;
      statused = h.consistent.statused;
      stop_fits = refl;
    };
    chained = h.chained;
    headed = h.headed;
    stepped = h.stepped;
    earned = λ w. cc;
  }

  -- The turn of a run that the user cancelled is its last, and it leaves a summary and a receipt.
  cancelled_turn-Ends :
      (r : Run)
      → At cancelled r
      → Plans env cfg seed bound (
          returned (
            ensure_unverified_receipt env
              (with_summary cfg StopReason.cancelled (cancelled_target r))))
  cancelled_turn-Ends r h = (
    cancelled,
    refl,
    closed-Good env cfg seed bound cancelled StopReason.cancelled (cancelled_target r) (λ w. cc)
        (cancelled-Ends r h),
  )

  live_turn-Ends :
      (turn : Turn) (n : ℕ) (r : Run)
      → n ≤ bound
      → At planning r
      → Plans env cfg seed bound (live_turn env cfg turn n r)
  unfolding live_turn
  live_turn-Ends turn n r b h = elim (Bool-cases (leb cfg.token_budget r.tokens_used)) [
    | inl e ↦ rw e (stops planning budget_exhausted r refl refl h)
    | inr e ↦
        elim (Bool-cases (
          leb
            (planning_tokens
              (allocate cfg.token_budget r.tokens_used cfg.verification_token_reserve))
            0)) [
              | inl p ↦ rw (e, p) (stops planning budget_exhausted r refl refl h)
              | inr p ↦ rw (e, p) (on_reply-Ends turn n turn.reply r b h)
            ]
  ]

  one_turn-Ends :
      (turn : Turn) (n : ℕ) (r : Run)
      → n ≤ bound
      → At planning r
      → Plans env cfg seed bound (one_turn env cfg turn n r)
  unfolding one_turn
  one_turn-Ends turn n r b h = elim (Bool-cases turn.cancelled) [
    | inl e ↦
        let k = refreshed-Good r h in
        let s : ((refreshed true r).target.status == "cancelled") ≡ true =
          ap (λ x. x == "cancelled") k.consistent.statused in
        subst (λ c. Plans env cfg seed bound (checked_turn env cfg turn n (refreshed c r))) (sym e)
          (unfold checked_turn in rw s (cancelled_turn-Ends (refreshed true r) k))
    | inr e ↦
        let s : (r.target.status == "cancelled") ≡ false =
          ap (λ x. x == "cancelled") h.consistent.statused in
        subst (λ c. Plans env cfg seed bound (checked_turn env cfg turn n (refreshed c r))) (sym e)
          (unfold checked_turn refreshed in rw s (live_turn-Ends turn n r b h))
  ]

  turn_or_skip-Ends :
      (turn : Turn) (n : ℕ) (r : Run)
      → n ≤ bound
      → At planning r
      → Plans env cfg seed bound (turn_or_skip env cfg turn n r)
  unfolding turn_or_skip
  turn_or_skip-Ends turn n r b h = elim (Bool-cases (is_skipped r.skipped_step_number n)) [
    | inl e ↦ rw e h
    | inr e ↦ rw e (one_turn-Ends turn n r b h)
  ]

  -- As many turns as there are numbers up to the bound.
  pub turns_from-Ends :
      (turns : ℕ → Turn) (count n : ℕ) (r : Run)
      → n + count ≤ suc bound
      → At planning r
      → Plans env cfg seed bound (turns_from env cfg turns count n r)
  unfolding turns_from
  turns_from-Ends turns zero n r b h = h
  turns_from-Ends turns (suc count) n r b h =
      bind-Ends env cfg seed bound (Plan env cfg seed bound) (Plan env cfg seed bound)
        (turn_or_skip env cfg (turns n) n r) (λ d. turns_from env cfg turns count (suc n))
        (turn_or_skip-Ends (turns n) n r (omega arith) h)
        (λ d r' k. turns_from-Ends turns count (suc n) r' (omega arith) k)
