-- ===== src/Agent/Dispatched.antt =====
-- How a dispatched action ends: with its verification, a pause, or back in planning.
use Prim.Native.String.{◌++◌ as append}
use loop_agent.Prelude.{
  ℕ, suc, ◌≤◌, ◌<◌, String, ◌≡◌, ◌≢◌, refl, Bool, true, false, Option, none, some, arith,
  Bool-cases, inl, inr, not,
}
use loop_agent.Json.{str, Fields, end, field}
use loop_agent.Loop.{
  LoopState, LoopEvent, planning, acting, verifying, awaiting_input, awaiting_approval,
  limit_reached, completed, verification_requested, input_required, approval_required, rule,
  is_working,
}
use loop_agent.Guard.{ToolStatus, ok, error, blocked}
use loop_agent.Turn.{DispatchRoute, DispatchKind, invalid, approval, execute}
use loop_agent.Turn
use loop_agent.Agent.State.{Run, Platform, Config, Turn as Meets, ◌>>◌, modify, leave, transition}
use loop_agent.Agent.Finish.{pause_for_user, pause_for_action, text_or, Attempt}
use loop_agent.Agent.Record.{record_step, begin_operation}
use loop_agent.Agent.Act.{limits_of, tool_or_invalid}
use loop_agent.Agent.Dispatch.{
  is_ok, count_writes, routed, noted, after_action, after_automatic, may_complete, auto_finish,
  gathered, on_evidence, conclude_action, follow, on_action, on_external,
}
use loop_agent.Agent.Ends.{
  Origin, Good, Good-keep, bind-Ends, call-then, transition-Ends, transition-then,
}
use loop_agent.Agent.Records.{record_step-then}
use loop_agent.Agent.Attempts.{Attempted, handle_finish-Ends}
use loop_agent.Agent.Acts.{
  Plans, Plan, kept, limits-Ends, after_attempt-Ends, rule-requested, rule-asked, rule-held,
}
use loop_agent.Agent.Branches.{recorded, journaled, looked-Good}

module _ (env : Platform) (cfg : Config) (seed : Origin) (bound : ℕ)
    (fits : cfg.max_steps ≤ bound) where
  abbrev At : LoopState → Run → Type 0
  At s r = Good env cfg seed bound s r

  after_automatic-Ends :
      (turn : Meets) (n : ℕ) (a : Attempt) (r : Run)
      → Attempted env cfg seed bound a r
      → Plans env cfg seed bound (after_automatic env cfg turn n a r)
  unfolding after_automatic
  after_automatic-Ends turn n (true, score, summary) r h = h
  after_automatic-Ends turn n (false, score, summary) r h =
      after_attempt-Ends env cfg seed bound turn.marker_end (false, score, summary) _
        (Good-keep env cfg seed bound verifying r _ h refl refl refl refl (λ w. cc))

  auto_finish-Ends :
      (turn : Meets) (n : ℕ) (r : Run)
      → n < cfg.max_steps
      → At planning r
      → Plans env cfg seed bound (auto_finish env cfg turn n r)
  unfolding auto_finish
  auto_finish-Ends turn n r b h =
      transition-then env cfg seed bound (Plan env cfg seed bound) planning verifying
        verification_requested _ none _ r h rule-requested (λ w. cc) (λ w. cc)
        (λ r' k.
          bind-Ends env cfg seed bound (Attempted env cfg seed bound) (Plan env cfg seed bound) _ _
            (handle_finish-Ends env cfg seed bound turn.automatic _ _ (suc n) 0 r' (omega arith) k)
            (λ a r'' m. after_automatic-Ends turn n a r'' m))

  gathered-Ends :
      (turn : Meets) (tool : Option String) (n : ℕ) (r : Run)
      → n < cfg.max_steps
      → At planning r
      → Plans env cfg seed bound (gathered env cfg turn tool n r)
  unfolding gathered
  gathered-Ends turn tool n r b h = elim (Bool-cases turn.evidence.0) [
    | inl d ↦ rw d (auto_finish-Ends turn n r b h)
    | inr d ↦ rw d (looked-Good env cfg seed bound tool turn.evidence.1 r h)
  ]

  on_evidence-Ends :
      (turn : Meets) (tool : Option String) (succeeded : Bool) (n : ℕ) (r : Run)
      → At planning r
      → Plans env cfg seed bound (on_evidence env cfg turn tool succeeded n r)
  unfolding on_evidence
  on_evidence-Ends turn tool succeeded n r h =
      elim (Bool-cases (not (may_complete cfg turn tool succeeded n))) [
        | inl e ↦ rw e h
        | inr e ↦ rw e (
            call-then env cfg seed bound (Plan env cfg seed bound) planning turn.evidence_raises
              (gathered env cfg turn tool n) r refl h
              (gathered-Ends turn tool n r (unfold may_complete in ground arith) h))
      ]

  after_action-Ends :
      (turn : Meets) (tool : Option String) (args : Fields) (o : String) (st : ToolStatus) (n : ℕ)
      (r : Run)
      → At planning r
      → Plans env cfg seed bound (after_action env cfg turn tool args o st n r)
  unfolding after_action noted
  after_action-Ends turn tool args o st n r h =
      bind-Ends env cfg seed bound (Plan env cfg seed bound) (Plan env cfg seed bound)
        (on_evidence env cfg turn tool (is_ok st) n (noted env cfg turn tool args o st r))
        (λ d. limits_of env cfg n true)
        (on_evidence-Ends turn tool (is_ok st) n _
          (kept env cfg seed bound r _ h refl refl refl refl))
        (λ d r' k. limits-Ends env cfg seed bound n true r' k)

  conclude_action-Ends :
      (turn : Meets) (tool : Option String) (thought : String) (args : Fields) (o : String)
      (st : ToolStatus) (n tokens : ℕ) (r : Run)
      → n ≤ bound
      → At acting r
      → Plans env cfg seed bound (conclude_action env cfg turn tool thought args o st n tokens r)
  unfolding conclude_action
  conclude_action-Ends turn tool thought args o st n tokens r b h =
      recorded env cfg seed bound _ thought (tool_or_invalid tool) args o st n tokens
        (after_action env cfg turn tool args o st n) r b h
        (λ r' k. after_action-Ends turn tool args o st n r' k)

  -- A step is recorded env cfg seed bound, something is noted for the user, and the run is at rest.
  paused :
      (q : LoopState) (e : LoopEvent) (reason : String) (f : Run → Run) (thought tool : String)
      (args : Fields) (o : String) (st : ToolStatus) (n tokens : ℕ) (r : Run)
      → rule acting e ≡ some q
      → (e ≢ limit_reached)
      → (q ≢ completed)
      → is_working q ≡ false
      → ((r' : Run) → At acting r' → At acting (f r'))
      → n ≤ bound
      → At acting r
      → Plans env cfg seed bound (
          ((record_step env n thought tool args o st tokens >> modify f >> transition e reason none)
              >> leave)
            r)
  paused q e reason f thought tool args o st n tokens r a c d w g b h =
      bind-Ends env cfg seed bound (λ _. At q) (Plan env cfg seed bound)
        ((record_step env n thought tool args o st tokens >> modify f >> transition e reason none)
          r)
        (λ _. leave)
        (record_step-then env cfg seed bound (λ _. At q) acting n thought tool args o st tokens
          (modify f >> transition e reason none) r b h
          (λ r' k.
            transition-Ends env cfg seed bound acting q e reason none (f r') (g r' k) a
              (λ x. absurd (c x)) (λ x. absurd (d x))))
        (λ _ r' k. (q, w, k))

  pause_for_action-Ends :
      (tool : String) (args : Fields) (thought : String) (n tokens : ℕ) (summary : String) (r : Run)
      → n ≤ bound
      → At acting r
      → Plans env cfg seed bound
          ((pause_for_action env tool args thought n tokens summary >> leave) r)
  unfolding pause_for_action
  pause_for_action-Ends tool args thought n tokens summary r b h =
      paused awaiting_approval approval_required (append "approval_required:" tool)
        (λ r. record r {
          pending_action = some (tool, args);
          pending_question = some (append "Approve this action? Answer yes or no.\n  " summary);
        })
        thought tool args (append "Paused — needs your approval to " (append summary ".")) blocked n
        tokens r rule-held (λ x. cc) (λ x. cc) refl
        (λ r' k. journaled env cfg seed bound r' _ k refl refl refl refl) b h

  pub pause_for_user-Ends :
      (args : Fields) (thought : String) (n tokens : ℕ) (r : Run)
      → n ≤ bound
      → At acting r
      → Plans env cfg seed bound ((pause_for_user env args thought n tokens >> leave) r)
  unfolding pause_for_user
  pause_for_user-Ends args thought n tokens r b h =
      let question = text_or env "question" args "(the agent asked a question)" in
      paused awaiting_input input_required "agent_requested_input"
        (λ r. record r { pending_question = some question }) thought "ask_user"
        (field "question" (str question) end) "Waiting for the user's answer." ok n tokens r
        rule-asked (λ x. cc) (λ x. cc) refl
        (λ r' k. journaled env cfg seed bound r' _ k refl refl refl refl) b h

  follow-Ends :
      (turn : Meets) (d : DispatchRoute) (kind : DispatchKind) (tool : Option String)
      (thought : String) (args : Fields) (n tokens : ℕ) (r : Run)
      → n ≤ bound
      → At acting r
      → Plans env cfg seed bound (follow env cfg turn d kind tool thought args n tokens r)
  unfolding follow begin_operation
  follow-Ends turn d invalid tool thought args n tokens r b h =
      conclude_action-Ends turn tool thought args _ error n tokens r b h
  follow-Ends turn d DispatchKind.blocked tool thought args n tokens r b h =
      conclude_action-Ends turn tool thought args _ blocked n tokens r b h
  follow-Ends turn d approval tool thought args n tokens r b h =
      pause_for_action-Ends "run_command" args thought n tokens _ r b h
  follow-Ends turn d execute tool thought args n tokens r b h =
      let k =
        journaled env cfg seed bound r
          (record r { operation_journal = some (n, tool_or_invalid tool) }) h refl refl refl refl in
      call-then env cfg seed bound (Plan env cfg seed bound) acting turn.tool_raises _ _ refl k
        (conclude_action-Ends turn tool thought _ _ turn.result.1 n tokens _ b k)

  count_writes-Good :
      (tool : Option String) (args : Fields) (r : Run)
      → At acting r
      → At acting (count_writes env tool args r)
  unfolding count_writes
  count_writes-Good none args r h = h
  count_writes-Good (some tool) args r h = elim (Bool-cases (loop_agent.Turn.is_write tool)) [
    | inl e ↦ rw e (journaled env cfg seed bound r _ h refl refl refl refl)
    | inr e ↦ rw e (journaled env cfg seed bound r _ h refl refl refl refl)
  ]

  pub on_action-Ends :
      (turn : Meets) (tool : Option String) (thought : String) (args : Fields) (n tokens : ℕ)
      (r : Run)
      → n ≤ bound
      → At acting r
      → Plans env cfg seed bound (on_action env cfg turn tool thought args n tokens r)
  unfolding on_action
  on_action-Ends turn tool thought args n tokens r b h =
      let r' = count_writes env tool args r in
      let d = routed env cfg tool args r' in
      follow-Ends turn d d.kind tool thought args n tokens r' b (count_writes-Good tool args r h)

  pub on_external-Ends :
      (tool thought : String) (args : Fields) (n tokens : ℕ) (r : Run)
      → n ≤ bound
      → At acting r
      → Plans env cfg seed bound (on_external env tool thought args n tokens r)
  unfolding on_external
  on_external-Ends tool thought args n tokens r b h =
      pause_for_action-Ends tool args thought n tokens _ r b h
