-- ===== src/Agent/Acts.antt =====
-- How each branch of a turn ends: back in planning, at rest, or with an error of the model's call.
use loop_agent.Prelude.{
  ℕ, suc, ◌≤◌, String, ◌≡◌, refl, Bool, true, false, none, some, Bool-cases, inl, inr, ◌&&◌, ltb,
  leb,
}
use loop_agent.Json.{Fields}
use loop_agent.Loop.{
  LoopState, StopReason, max_steps, budget_exhausted, stuck, planning, acting, verifying,
  awaiting_input, awaiting_approval, verification_requested, verification_rejected, action_selected,
  action_recorded, input_required, approval_required, rule, is_working, is_bounded,
}
use loop_agent.Guard.{blocked}
use loop_agent.Agent.State.{Run, Platform, Config, Turn as Meets, Flow, Done}
use loop_agent.Agent.Finish.{stop, Attempt}
use loop_agent.Agent.Act.{limits_of, reject, after_attempt, on_finish, is_unchanged}
use loop_agent.Agent.Ends.{Origin, Good, Good-keep, Ends, bind-Ends, transition-then}
use loop_agent.Agent.Records.{record_step-then}
use loop_agent.Agent.Stops.{stop-Ends}
use loop_agent.Agent.Attempts.{Attempted, handle_finish-Ends}

pub rule-requested : rule planning verification_requested ≡ some verifying
unfolding rule
rule-requested = refl

rule-rejected : rule verifying verification_rejected ≡ some planning
unfolding rule
rule-rejected = refl

pub rule-selected : rule planning action_selected ≡ some acting
unfolding rule
rule-selected = refl

pub rule-recorded : rule acting action_recorded ≡ some planning
unfolding rule
rule-recorded = refl

pub rule-asked : rule acting input_required ≡ some awaiting_input
unfolding rule
rule-asked = refl

pub rule-held : rule acting approval_required ≡ some awaiting_approval
unfolding rule
rule-held = refl

module _ (env : Platform) (cfg : Config) (seed : Origin) (bound : ℕ) where
  abbrev At : LoopState → Run → Type 0
  At s r = Good env cfg seed bound s r

  -- The turn goes on in planning.
  abbrev pub Plans : Flow Done → Type 0
  Plans f = Ends env cfg seed bound (λ d. At planning) f

  abbrev pub Plan : Done → Run → Type 0
  Plan d r = At planning r

  -- A field that the invariant does not read.
  pub kept :
      (r r' : Run)
      → At planning r
      → r'.target ≡ r.target
      → r'.steps ≡ r.steps
      → r'.last_hash ≡ r.last_hash
      → r'.steps_used ≡ r.steps_used
      → At planning r'
  kept r r' h a b c d = Good-keep env cfg seed bound planning r r' h a b c d (λ w. cc)

  pub stops :
      (s : LoopState) (reason : StopReason) (r : Run)
      → is_working s ≡ true
      → is_bounded (some reason) ≡ true
      → At s r
      → Plans (stop env cfg reason r)
  stops = stop-Ends env cfg seed bound Plan

  pub limits-Ends :
      (n : ℕ) (budgeted : Bool) (r : Run) → At planning r → Plans (limits_of env cfg n budgeted r)
  unfolding limits_of
  limits-Ends n budgeted r h = elim (Bool-cases (leb cfg.max_steps n)) [
    | inl e ↦ rw e (stops planning max_steps r refl refl h)
    | inr e ↦ elim (Bool-cases (budgeted && leb cfg.token_budget r.tokens_used)) [
      | inl a ↦ rw (e, a) (stops planning budget_exhausted r refl refl h)
      | inr a ↦ elim (Bool-cases (leb cfg.stuck_threshold r.guard.no_progress)) [
        | inl b ↦ rw (e, a, b) (stops planning stuck r refl refl h)
        | inr b ↦ rw (e, a, b) h
      ]
    ]
  ]

  reject-Ends :
      (marker : String) (a : Attempt) (r : Run) → At verifying r → Plans (reject env cfg marker a r)
  unfolding reject
  reject-Ends marker (b, score, summary) r h =
      transition-then env cfg seed bound Plan verifying planning verification_rejected _ none _ r h
        rule-rejected (λ w. cc) (λ w. cc)
        (λ r' k. elim (Bool-cases (ltb cfg.max_finish_retries (suc r'.finish_retries))) [
          | inl e ↦ rw e (stops planning stuck _ refl refl (kept r' _ k refl refl refl refl))
          | inr e ↦ rw e (kept r' _ k refl refl refl refl)
        ])

  pub after_attempt-Ends :
      (marker : String) (a : Attempt) (r : Run)
      → Attempted env cfg seed bound a r
      → Plans (after_attempt env cfg marker a r)
  unfolding after_attempt
  after_attempt-Ends marker (true, score, summary) r h = h
  after_attempt-Ends marker (false, score, summary) r h =
      reject-Ends marker (false, score, summary) r h

  pub on_finish-Ends :
      (turn : Meets) (thought : String) (args : Fields) (n tokens : ℕ) (r : Run)
      → n ≤ bound
      → At planning r
      → Plans (on_finish env cfg turn thought args n tokens r)
  unfolding on_finish
  on_finish-Ends turn thought args n tokens r b h =
      elim (Bool-cases (is_unchanged turn.marker r.last_rejected_finish_marker)) [
        | inl e ↦ rw e (
            record_step-then env cfg seed bound Plan planning n thought "finish" args _ blocked
              tokens _ r b h (λ r' k. stops planning stuck r' refl refl k))
        | inr e ↦ rw e (
            transition-then env cfg seed bound Plan planning verifying verification_requested _ none
              _ r h rule-requested (λ w. cc) (λ w. cc)
              (λ r' k.
                bind-Ends env cfg seed bound (Attempted env cfg seed bound) Plan _ _
                  (handle_finish-Ends env cfg seed bound turn.verification args thought n tokens r'
                    b k)
                  (λ a r'' m. after_attempt-Ends turn.marker a r'' m)))
      ]
