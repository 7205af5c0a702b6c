-- ===== src/Agent/Branches.antt =====
-- How the branches of a turn with an action end: back in planning, at rest, or with an error of the model's call.
use Prim.Native.String.{◌++◌ as append}
use loop_agent.Prelude.{
  ℕ, ◌≤◌, String, ◌≡◌, refl, Bool, true, false, Option, none, some, Bool-cases, inl, inr, ◌==◌,
  ◌&&◌, not,
}
use loop_agent.Json.{Fields}
use loop_agent.Loop.{LoopState, planning, acting, action_recorded}
use loop_agent.Guard.{ToolStatus, ok, blocked}
use loop_agent.Turn.{DispatchRoute, DispatchKind, invalid, approval, execute}
use loop_agent.Turn
use loop_agent.Agent.State.{
  Run, Platform, Config, Turn as Meets, Spawned, M, Done, ◌>>◌, transition,
}
use loop_agent.Agent.Record.{record_step, begin_operation}
use loop_agent.Agent.Act.{
  watch, limits_of, not_permitted, on_remember, handle_spawn, guard_block, on_spawn,
  tool_or_invalid,
}
use loop_agent.Agent.Dispatch.{look_again}
use loop_agent.Agent.Ends.{Origin, Good, Good-keep, bind-Ends, call-then, transition-then}
use loop_agent.Agent.Records.{record_step-then, record_step-Ends}
use loop_agent.Agent.Acts.{Plans, Plan, kept, limits-Ends, rule-recorded}

module _ (env : Platform) (cfg : Config) (seed : Origin) (bound : ℕ) where
  abbrev At : LoopState → Run → Type 0
  At s r = Good env cfg seed bound s r

  -- The transition that records an action, the step, and what follows.
  pub recorded :
      (reason thought tool : String) (args : Fields) (o : String) (st : ToolStatus) (n tokens : ℕ)
      (k : M Done) (r : Run)
      → n ≤ bound
      → At acting r
      → ((r' : Run) → At planning r' → Plans env cfg seed bound (k r'))
      → Plans env cfg seed bound (
          (transition action_recorded reason none
              >> record_step env n thought tool args o st tokens
              >> k)
            r)
  recorded reason thought tool args o st n tokens k r b h g =
      transition-then env cfg seed bound (Plan env cfg seed bound) acting planning action_recorded
        reason none _ r h rule-recorded (λ w. cc) (λ w. cc)
        (λ r' p.
          record_step-then env cfg seed bound (Plan env cfg seed bound) planning n thought tool args
            o st tokens k r' b p g)

  -- The guard sees the action, and the limits are tested.
  watched :
      (tool : String) (args : Fields) (o : String) (st : ToolStatus) (force changed : Bool) (n : ℕ)
      (budgeted : Bool) (r : Run)
      → At planning r
      → Plans env cfg seed bound
          ((watch env cfg tool args o st force changed >> limits_of env cfg n budgeted) r)
  watched tool args o st force changed n budgeted r h =
      limits-Ends env cfg seed bound n budgeted _
        (kept env cfg seed bound r _ h refl refl refl refl)

  -- Both together.
  closed :
      (reason thought tool : String) (args : Fields) (o shown : String) (st : ToolStatus)
      (n tokens : ℕ) (budgeted : Bool) (r : Run)
      → n ≤ bound
      → At acting r
      → Plans env cfg seed bound (
          (transition action_recorded reason none
              >> record_step env n thought tool args o st tokens
              >> watch env cfg tool args shown st false false
              >> limits_of env cfg n budgeted)
            r)
  closed reason thought tool args o shown st n tokens budgeted r b h =
      recorded reason thought tool args o st n tokens
        (watch env cfg tool args shown st false false >> limits_of env cfg n budgeted) r b h
        (λ r' k. watched tool args shown st false false n budgeted r' k)

  pub not_permitted-Ends :
      (tool thought : String) (args : Fields) (n tokens : ℕ) (r : Run)
      → n ≤ bound
      → At acting r
      → Plans env cfg seed bound (not_permitted env cfg tool thought args n tokens r)
  unfolding not_permitted
  not_permitted-Ends tool thought args n tokens r b h =
      let text =
        append "Tool '" (append tool "' is not permitted by this task's capability envelope.") in
      closed (append "action_blocked:" tool) thought tool args text (env.redact text) blocked n
        tokens false r b h

  -- Its operation begins, or tokens are counted: nothing that the invariant reads.
  pub journaled :
      (r r' : Run)
      → At acting r
      → r'.target ≡ r.target
      → r'.steps ≡ r.steps
      → r'.last_hash ≡ r.last_hash
      → r'.steps_used ≡ r.steps_used
      → At acting r'
  journaled r r' h a b c d = Good-keep env cfg seed bound acting r r' h a b c d (λ w. cc)

  pub on_remember-Ends :
      (turn : Meets) (thought : String) (args : Fields) (n tokens : ℕ) (r : Run)
      → n ≤ bound
      → At acting r
      → Plans env cfg seed bound (on_remember env cfg turn thought args n tokens r)
  unfolding on_remember begin_operation
  on_remember-Ends turn thought args n tokens r b h =
      let k =
        journaled r (record r { operation_journal = some (n, "remember") }) h refl refl refl refl in
      call-then env cfg seed bound (Plan env cfg seed bound) acting turn.tool_raises _ _ refl k (
        closed "action_recorded:remember" thought "remember" args turn.remembered turn.remembered ok
          n tokens false _ b k)

  handle_spawn-Ends :
      (s : Spawned) (thought : String) (args : Fields) (n tokens : ℕ) (r : Run)
      → n ≤ bound
      → At acting r
      → Plans env cfg seed bound (handle_spawn env s thought args n tokens r)
  unfolding handle_spawn
  handle_spawn-Ends s thought args n tokens r b h =
      call-then env cfg seed bound (Plan env cfg seed bound) acting s.raises _ r refl h (
        transition-then env cfg seed bound (Plan env cfg seed bound) acting planning action_recorded
          s.reason none (record_step env n thought "spawn" args s.observation s.status tokens) _
          (journaled r _ h refl refl refl refl) rule-recorded (λ w. cc) (λ w. cc)
          (λ r' p.
            record_step-Ends env cfg seed bound planning n thought "spawn" args s.observation
              s.status tokens r' b p))

  pub on_spawn-Ends :
      (turn : Meets) (thought : String) (args : Fields) (n tokens : ℕ) (r : Run)
      → n ≤ bound
      → At acting r
      → Plans env cfg seed bound (on_spawn env cfg turn thought args n tokens r)
  unfolding on_spawn begin_operation
  on_spawn-Ends turn thought args n tokens r b h =
      let text = loop_agent.Turn.shown (guard_block env cfg r "spawn" args) in
      let s = turn.spawned in
      elim (Bool-cases (loop_agent.Turn.is_blocking (guard_block env cfg r "spawn" args))) [
        | inl e ↦ rw e (
            closed "action_blocked:spawn" thought "spawn" args text (env.redact text) blocked n
              tokens true r b h)
        | inr e ↦ rw e (
            let r' : Run = record r { operation_journal = some (n, "spawn") } in
            bind-Ends env cfg seed bound (Plan env cfg seed bound) (Plan env cfg seed bound)
              (handle_spawn env s thought args n tokens r')
              (λ d.
                watch env cfg "spawn" args (env.redact s.observation) s.status false false
                >> limits_of env cfg n true)
              (handle_spawn-Ends s thought args n tokens r' b
                (journaled r r' h refl refl refl refl))
              (λ d r'' k.
                watched "spawn" args (env.redact s.observation) s.status false false n true r'' k))
      ]

  pub looked-Good :
      (tool : Option String) (summary : String) (r : Run)
      → At planning r
      → At planning (look_again env cfg tool summary r)
  unfolding look_again
  looked-Good tool summary r h =
      elim (Bool-cases (not (summary == "") && not (tool_or_invalid tool == "write_file"))) [
        | inl e ↦ rw e (kept env cfg seed bound r _ h refl refl refl refl)
        | inr e ↦ rw e h
      ]
