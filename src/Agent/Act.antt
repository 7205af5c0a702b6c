-- ===== src/Agent/Act.antt =====
-- One turn of `_run_loop`, from the model's decision on: the branches for each tool, and the limits.
use Prim.Native.String.{◌++◌ as append}
use loop_agent.Prelude.{
  ℕ, suc, ◌+◌, String, Bool, true, false, Option, none, some, ◌==◌, ◌&&◌, leb, ltb, if◌then◌else◌,
}
use loop_agent.Prelude.Decimal.{decimal}
use loop_agent.Json.{Fields}
use loop_agent.Loop.{
  max_steps, budget_exhausted, stuck, verification_requested, verification_rejected,
  action_recorded,
}
use loop_agent.Guard.{ToolStatus, ok, blocked, preflight, observe}
use loop_agent.Turn.{DispatchRoute, DispatchKind, invalid, approval, execute, route}
use loop_agent.Turn
use loop_agent.Agent.State.{
  Run, Platform, Config, Turn as Meets, Spawned, next, M, Done, done, ◌>>=◌, ◌>>◌, leave, modify,
  transition, call,
}
use loop_agent.Agent.Record.{record_step, begin_operation}
use loop_agent.Agent.Finish.{finish, stop, handle_finish, Attempt}

-- `f"{name}:{tool or 'invalid'}"`
abbrev pub tool_or_invalid : Option String → String
tool_or_invalid none = "invalid"
tool_or_invalid (some tool) = if tool == "" then "invalid" else tool

-- `guard.observe(...)`
abbrev pub watch : Platform → Config → String → Fields → String → ToolStatus → Bool → Bool → M Done
watch env cfg tool args observation status force changed = modify λ r. record r {
  guard =
      (observe env.guard_library cfg.limits r.guard tool args observation status force changed).1;
}

-- The limits after a recorded action; whether the token budget is among them.
unfoldable pub limits_of : Platform → Config → ℕ → Bool → M Done
unfolding finish
limits_of env cfg number budgeted r =
    if leb cfg.max_steps number
    then stop env cfg max_steps r
    else if budgeted && leb cfg.token_budget r.tokens_used
    then stop env cfg budget_exhausted r
    else if leb cfg.stuck_threshold r.guard.no_progress
    then stop env cfg stuck r
    else next done r

-- A rejected attempt goes back to planning, and the marker and the number of attempts are kept.
unfoldable pub reject : Platform → Config → String → Attempt → M Done
unfolding transition finish
reject env cfg marker (accepted, score, summary) =
    transition verification_rejected (append "verification_rejected:score=" (decimal score)) none
    >> modify (λ r. record r {
      last_rejected_finish_marker = some marker;
      finish_retries = suc r.finish_retries;
    })
    >> λ r.
        if ltb cfg.max_finish_retries r.finish_retries
        then stop env cfg stuck (record r { summary = some summary; verification_score = score })
        else next done r

-- What follows an attempt: the run is over, or it was rejected.
unfoldable pub after_attempt : Platform → Config → String → Attempt → M Done
unfolding reject
after_attempt env cfg marker (true, score, summary) = leave
after_attempt env cfg marker (false, score, summary) = reject env cfg marker (false, score, summary)

-- `finish_marker == last_rejected_finish_marker`
abbrev pub is_unchanged : String → Option String → Bool
is_unchanged marker none = false
is_unchanged marker (some last) = marker == last

-- `if tool == "finish": …`
unfoldable pub on_finish : Platform → Config → Meets → String → Fields → ℕ → ℕ → M Done
unfolding record_step finish handle_finish after_attempt transition
on_finish env cfg turn thought args number tokens r =
    if is_unchanged turn.marker r.last_rejected_finish_marker
    then (record_step env number thought "finish" args
            "Blocked: the previous finish attempt failed on this unchanged workspace. Repeating the verifier cannot create evidence; change the workspace or run a new check before finishing again."
            blocked tokens
          >> stop env cfg stuck)
        r
    else (transition verification_requested "finish_requested" none
          >> (handle_finish env cfg turn.verification args thought number tokens
              >>= after_attempt env cfg turn.marker))
        r

-- A tool that the envelope does not permit.
unfoldable pub not_permitted : Platform → Config → String → String → Fields → ℕ → ℕ → M Done
unfolding transition record_step limits_of
not_permitted env cfg tool thought args number tokens =
    let text =
      append "Tool '" (append tool "' is not permitted by this task's capability envelope.") in
    transition action_recorded (append "action_blocked:" tool) none
    >> record_step env number thought tool args text blocked tokens
    >> watch env cfg tool args (env.redact text) blocked false false
    >> limits_of env cfg number false

-- `if tool == "remember": …`; what is remembered is a file of the host.
unfoldable pub on_remember : Platform → Config → Meets → String → Fields → ℕ → ℕ → M Done
unfolding begin_operation call transition record_step limits_of
on_remember env cfg turn thought args number tokens =
    begin_operation number "remember" args turn.operation_id >>= λ args'.
    call turn.tool_raises
    >> transition action_recorded "action_recorded:remember" none
    >> record_step env number thought "remember" args' turn.remembered ok tokens
    >> watch env cfg "remember" args' turn.remembered ok false false
    >> limits_of env cfg number false

-- `_handle_spawn`, by how it ended.
unfoldable pub handle_spawn : Platform → Spawned → String → Fields → ℕ → ℕ → M Done
unfolding call transition record_step
handle_spawn env s thought args number tokens =
    call s.raises
    >> modify (λ r. record r { tokens_used = r.tokens_used + s.child_tokens })
    >> transition action_recorded s.reason none
    >> record_step env number thought "spawn" args s.observation s.status tokens

-- What the guard has against an action.
abbrev pub guard_block : Platform → Config → Run → String → Fields → Option String
guard_block env cfg r tool args = elim (preflight env.guard_library cfg.limits r.guard tool args) [
  | none ↦ none
  | some refusal ↦ some (env.refusal_text refusal)
]

-- `if tool == "spawn": …`
unfoldable pub on_spawn : Platform → Config → Meets → String → Fields → ℕ → ℕ → M Done
unfolding begin_operation transition record_step handle_spawn limits_of
on_spawn env cfg turn thought args number tokens r =
    let block = guard_block env cfg r "spawn" args in
    if Turn.is_blocking block
    then (let text = Turn.shown block in
        (transition action_recorded "action_blocked:spawn" none
            >> record_step env number thought "spawn" args text blocked tokens
            >> watch env cfg "spawn" args (env.redact text) blocked false false
            >> limits_of env cfg number true)
          r)
    else (begin_operation number "spawn" args turn.operation_id >>= λ args'.
          handle_spawn env turn.spawned thought args' number tokens
          >> watch env cfg "spawn" args' (env.redact turn.spawned.observation) turn.spawned.status
              false false
          >> limits_of env cfg number true)
        r
