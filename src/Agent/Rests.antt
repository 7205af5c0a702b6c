-- ===== src/Agent/Rests.antt =====
-- A run from its start to its rest: what holds when `_run_claimed` returns.
use loop_agent.Prelude.{
  ℕ, suc, ◌-◌, ◌≤◌, String, ◌≡◌, ◌≢◌, ◌⊎◌, refl, ap, subst, ◌∙◌, Bool, true, false, Option, none,
  some, List, [], ◌∷◌, ◌++◌, arith, Bool-cases, inl, inr, ◌==◌, ltb,
}
use loop_agent.Json.{Fields}
use loop_agent.Loop.{
  LoopState, preparing, understanding, planning, acting, cancelled, stopped, max_steps,
  rubric_required, rubric_ready, preparation_completed, action_selected, action_recorded, rule,
  state_of,
}
use loop_agent.Loop.Table.{state_of-state_value}
use loop_agent.Guard.{Entry}
use loop_agent.Agent.State.{Run, Platform, Config}
use loop_agent.Agent.Finish.{finish, stop}
use loop_agent.Agent.Record.{begin_operation}
use loop_agent.Agent.Turns.{
  Meeting, prepare, prepare_from, with_rubric, approved_next, record_approved, execute_approved,
  all_turns, resume_prepared, run_approved, fresh, refreshed, stop_running, used_up, run_loop,
}
use loop_agent.Agent.Ends.{
  Origin, Good, Good-keep, Rests, Ends, bind-Ends, call-then, weaken-Ends, transition-Ends,
  transition-then,
}
use loop_agent.Agent.Records.{record_step-then}
use loop_agent.Agent.Stops.{finish-Ends, stop-Ends}
use loop_agent.Agent.Acts.{Plans, Plan, kept, rule-selected, rule-recorded}
use loop_agent.Agent.Decides.{refreshed-Good, turns_from-Ends}

rule-required : rule preparing rubric_required ≡ some understanding
unfolding rule
rule-required = refl

rule-ready : rule understanding rubric_ready ≡ some planning
unfolding rule
rule-ready = refl

rule-prepared : rule preparing preparation_completed ≡ some planning
unfolding rule
rule-prepared = refl

module _ (env : Platform) (cfg : Config) (seed : Origin) (bound : ℕ) where
  abbrev At : LoopState → Run → Type 0
  At s r = Good env cfg seed bound s r

  -- How a run starts: a claimed or recovered task, or one whose contract has just been prepared.
  pub record IsStart (r : Run) : Type 0 where
    pub state : LoopState
    pub is_ready : (state ≡ preparing) ⊎ ((state ≡ planning) × (r.rubric ≢ []))
    pub good : At state r

  resumed-Ends :
      (s : LoopState) (r : Run)
      → (s ≡ preparing) ⊎ (s ≡ planning)
      → At s r
      → Plans env cfg seed bound (resume_prepared (some s) r)
  unfolding resume_prepared
  resumed-Ends preparing r e h =
      transition-Ends env cfg seed bound preparing planning preparation_completed "runtime_prepared"
        none r h rule-prepared (λ w. cc) (λ w. cc)
  resumed-Ends planning r e h = h
  resumed-Ends _ r e h = ground arith

  rubric-Good :
      (meets : Meeting) (r : Run) → At understanding r → At understanding (with_rubric env meets r)
  unfolding with_rubric
  rubric-Good meets r k =
      Good-keep env cfg seed bound understanding r _ k refl refl refl refl (λ w. cc)

  prepare-Ends :
      (meets : Meeting) (r : Run) → IsStart r → Plans env cfg seed bound (prepare env meets r)
  unfolding prepare
  prepare-Ends meets r h = from r.rubric refl
    where
      known : state_of r.target.loop_state ≡ some h.state
      known = ap state_of h.good.consistent.named ∙ state_of-state_value h.state

      state_of_run : (h.state ≡ preparing) ⊎ (h.state ≡ planning)
      state_of_run = elim h.is_ready [ inl e ↦ inl e | inr (e, n) ↦ inr e ]

      from :
          (rubric : List String)
          → r.rubric ≡ rubric
          → Plans env cfg seed bound (prepare_from env meets rubric r)
      from [] e = elim h.is_ready [
        | inl p ↦
            transition-then env cfg seed bound (Plan env cfg seed bound) preparing understanding
              rubric_required _ none _ r (subst (λ s. At s r) p h.good) rule-required (λ w. cc)
              (λ w. cc)
              (λ r' k.
                transition-Ends env cfg seed bound understanding planning rubric_ready
                  "rubric_ready" none (with_rubric env meets r') (rubric-Good meets r' k) rule-ready
                  (λ w. cc) (λ w. cc))
        | inr (p, n) ↦ absurd (n e)
      ]
      from (c ∷ cs) e = unfold prepare_from in rw known (resumed-Ends h.state r state_of_run h.good)

  module _ (fits : cfg.max_steps ≤ bound) where
    -- The number of the next step is within reach.
    abbrev Next : ℕ × List Entry → Run → Type 0
    Next a r = At planning r × (a.0 ≤ suc bound)

    approved_next-Ends :
        (start : ℕ) (entry : Entry) (r : Run)
        → start ≤ bound
        → At planning r
        → Ends env cfg seed bound Next (approved_next env cfg start entry r)
    unfolding approved_next
    approved_next-Ends start entry r b h = elim (Bool-cases (ltb cfg.max_steps (suc start))) [
      | inl e ↦ rw e (
          bind-Ends env cfg seed bound (Plan env cfg seed bound) Next (stop env cfg max_steps r) _
            (stop-Ends env cfg seed bound (Plan env cfg seed bound) planning max_steps r refl refl
              h)
            (λ d r' k. (k, omega arith)))
      | inr e ↦ rw e (h, omega arith)
    ]

    record_approved-Ends :
        (meets : Meeting) (start : ℕ) (tool : String) (args : Fields) (r : Run)
        → start ≤ bound
        → At acting r
        → Ends env cfg seed bound Next (record_approved env cfg meets start tool args r)
    unfolding record_approved
    record_approved-Ends meets start tool args r b h =
        let entry : Entry = record {
          tool = tool;
          args = args;
          observation = env.redact meets.approved.0;
          status = meets.approved.1;
        } in
        transition-then env cfg seed bound Next acting planning action_recorded _ none _ r h
          rule-recorded (λ w. cc) (λ w. cc)
          (λ r' k.
            record_step-then env cfg seed bound Next planning start "(approved by the user)" tool
              args meets.approved.0 meets.approved.1 0 (approved_next env cfg start entry) r' b k
              (λ r'' m. approved_next-Ends start entry r'' b m))

    execute_approved-Ends :
        (meets : Meeting) (start : ℕ) (tool : String) (args : Fields) (r : Run)
        → start ≤ bound
        → At planning r
        → Ends env cfg seed bound Next (execute_approved env cfg meets start tool args r)
    unfolding execute_approved begin_operation
    execute_approved-Ends meets start tool args r b h =
        transition-then env cfg seed bound Next planning acting action_selected _ none _ r h
          rule-selected (λ w. cc) (λ w. cc)
          (λ r' k.
            let m =
              Good-keep env cfg seed bound acting r'
                (record r' { operation_journal = some (start, tool) }) k refl refl refl refl
                (λ w. cc) in
            call-then env cfg seed bound Next acting meets.approved_raises _ _ refl m
              (record_approved-Ends meets start tool _ _ b m))

    run_approved-Ends :
        (meets : Meeting) (start : ℕ) (action : Option (String × Fields)) (r : Run)
        → start ≤ bound
        → At planning r
        → Ends env cfg seed bound Next (run_approved env cfg meets start action r)
    unfolding run_approved
    run_approved-Ends meets start none r b h = (h, omega arith)
    run_approved-Ends meets start (some (tool, args)) r b h =
        execute_approved-Ends meets start tool args _ b
          (kept env cfg seed bound r _ h refl refl refl refl)

    used_up-Ends :
        (late : Bool) (r : Run)
        → At planning r
        → Ends env cfg seed bound (λ d. Rests env cfg seed bound) (used_up env cfg late r)
    unfolding used_up
    used_up-Ends true r h =
        let k = refreshed-Good env cfg seed bound fits r h in
        let s : ((refreshed true r).target.status == "running") ≡ false =
          ap (λ x. x == "running") k.consistent.statused in
        unfold stop_running in rw s (cancelled, refl, k)
    used_up-Ends false r h =
        let s : (r.target.status == "running") ≡ true =
          ap (λ x. x == "running") h.consistent.statused in
        unfold stop_running refreshed in
        rw s (
          weaken-Ends env cfg seed bound (λ d. At stopped) (λ d. Rests env cfg seed bound)
            (finish env cfg max_steps r)
            (finish-Ends env cfg seed bound planning max_steps r refl refl h)
            (λ d r' k. (stopped, refl, k)))

    all_turns-Ends :
        (meets : Meeting) (history : List Entry) (n : ℕ) (r : Run)
        → n ≤ suc bound
        → At planning r
        → Ends env cfg seed bound
            (λ d. Rests env cfg seed bound)
            (all_turns env cfg meets history n r)
    unfolding all_turns fresh
    all_turns-Ends meets history n r b h =
        bind-Ends env cfg seed bound (Plan env cfg seed bound) (λ d. Rests env cfg seed bound) _
          (λ d. used_up env cfg meets.cancelled_late)
          (turns_from-Ends env cfg seed bound fits meets.turns (suc cfg.max_steps - n) n _
            (omega arith) (kept env cfg seed bound r _ h refl refl refl refl))
          (λ d r' k. used_up-Ends meets.cancelled_late r' k)

    pub run_loop-Ends :
        (meets : Meeting) (history : List Entry) (start : ℕ) (r : Run)
        → start ≤ bound
        → IsStart r
        → Ends env cfg seed bound
            (λ d. Rests env cfg seed bound)
            (run_loop env cfg meets history start r)
    unfolding run_loop
    run_loop-Ends meets history start r b h =
        bind-Ends env cfg seed bound (Plan env cfg seed bound) (λ d. Rests env cfg seed bound)
          (prepare env meets r) _ (prepare-Ends meets r h)
          (λ d r' k.
            bind-Ends env cfg seed bound Next (λ d. Rests env cfg seed bound)
              (run_approved env cfg meets start r'.pending_action r') _
              (run_approved-Ends meets start r'.pending_action r' b k)
              (λ (n, more) r'' (m, c). all_turns-Ends meets (history ++ more) n r'' c m))
