-- ===== src/Agent/Stops.antt =====
-- How the pieces of a turn end: the bounded stops, the verification and the pauses.
use loop_agent.Prelude.{ℕ, ◌≡◌, ◌≢◌, refl, true, some, arith, Option-cases, Bool-cases, inl, inr}
use loop_agent.Loop.{
  LoopState, StopReason, max_steps, budget_exhausted, stuck, stopped, completed, limit_reached,
  rule, is_working, is_bounded,
}
use loop_agent.Agent.State.{Run, Platform, Config, Done}
use loop_agent.Agent.Finish.{
  with_summary, ensure_unverified_receipt, finish, limited, is_blank, stop, is_present,
}
use loop_agent.Agent.Ends.{Origin, Good, Good-keep, Ends, bind-Ends, transition-then}

pub rule-limit : (s : LoopState) → is_working s ≡ true → rule s limit_reached ≡ some stopped
unfolding rule
rule-limit s h = ground arith

module _ (env : Platform) (cfg : Config) (seed : Origin) (bound : ℕ) where
  abbrev At : LoopState → Run → Type 0
  At s r = Good env cfg seed bound s r

  -- A summary and a receipt of what is unverified change nothing else.
  with_summary-Good :
      (s : LoopState) (reason : StopReason) (r : Run)
      → s ≢ completed
      → At s r
      → At s (with_summary cfg reason r)
  unfolding with_summary
  with_summary-Good s reason r n h = elim (Bool-cases (is_blank r.summary)) [
    | inl e ↦ rw e (Good-keep env cfg seed bound s r _ h refl refl refl refl (λ w. absurd (n w)))
    | inr e ↦ rw e h
  ]

  pub receipt-Good :
      (s : LoopState) (r : Run) → s ≢ completed → At s r → At s (ensure_unverified_receipt env r)
  unfolding ensure_unverified_receipt
  receipt-Good s r n h = elim (Bool-cases (is_present r.receipt_hash)) [
    | inl e ↦ rw e h
    | inr e ↦ elim (Option-cases (env.build_receipt r "unverified")) [
      | inl o ↦ rw (e, o) h
      | inr (x, o) ↦
          rw (e, o) (Good-keep env cfg seed bound s r _ h refl refl refl refl (λ w. absurd (n w)))
    ]
  ]

  pub closed-Good :
      (s : LoopState) (reason : StopReason) (r : Run)
      → s ≢ completed
      → At s r
      → At s (ensure_unverified_receipt env (with_summary cfg reason r))
  closed-Good s reason r n h =
      receipt-Good s (with_summary cfg reason r) n (with_summary-Good s reason r n h)

  pub limited-Ends :
      (s : LoopState) (reason : StopReason) (r : Run)
      → is_working s ≡ true
      → is_bounded (some reason) ≡ true
      → At s r
      → Ends env cfg seed bound (λ d. At stopped) (limited env cfg reason r)
  unfolding limited
  limited-Ends s reason r w b h =
      transition-then env cfg seed bound (λ d. At stopped) s stopped limit_reached _ _ _ r h
        (rule-limit s w) (λ _. b) (λ e. cc) (λ r' k. closed-Good stopped reason r' (λ e. cc) k)

  pub finish-Ends :
      (s : LoopState) (reason : StopReason) (r : Run)
      → is_working s ≡ true
      → is_bounded (some reason) ≡ true
      → At s r
      → Ends env cfg seed bound (λ d. At stopped) (finish env cfg reason r)
  unfolding finish
  finish-Ends s max_steps r w b h = limited-Ends s max_steps r w b h
  finish-Ends s budget_exhausted r w b h = limited-Ends s budget_exhausted r w b h
  finish-Ends s stuck r w b h = limited-Ends s stuck r w b h
  finish-Ends s _ r w b h = cc

  pub stop-Ends :
      (P : Done → Run → Type 0) (s : LoopState) (reason : StopReason) (r : Run)
      → is_working s ≡ true
      → is_bounded (some reason) ≡ true
      → At s r
      → Ends env cfg seed bound P (stop env cfg reason r)
  stop-Ends P s reason r w b h =
      bind-Ends env cfg seed bound (λ d. At stopped) P (finish env cfg reason r) _
        (finish-Ends s reason r w b h) (λ d r' k. (stopped, refl, k))
