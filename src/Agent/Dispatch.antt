-- ===== src/Agent/Dispatch.antt =====
-- The rest of one turn of `_run_loop`: an action that is dispatched, and the decision.
use Prim.Native.String.{◌++◌ as append}
use loop_agent.Prelude.{
  ℕ, suc, String, Bool, true, false, Option, none, some, ◌==◌, ◌&&◌, ◌||◌, not, leb, ltb,
  if◌then◌else◌, nat_eq,
}
use loop_agent.Prelude.Text.{strip}
use loop_agent.Json.{str, str_of, Fields, end, field, get}
use loop_agent.Loop.{verification_requested, action_selected, action_recorded}
use loop_agent.Guard.{ToolStatus, ok, error, blocked, observe, permit_diagnostic_reinspection}
use loop_agent.Turn.{DispatchRoute, DispatchKind, invalid, approval, execute, route}
use loop_agent.Turn
use loop_agent.Agent.State.{
  Run, Platform, Config, Turn as Meets, next, M, Done, done, ◌>>=◌, ◌>>◌, leave, modify, transition,
  call,
}
use loop_agent.Agent.Record.{record_step, begin_operation, status_value}
use loop_agent.Agent.Finish.{handle_finish, pause_for_user, pause_for_action, Attempt}
use loop_agent.Agent.Act.{
  tool_or_invalid, limits_of, after_attempt, on_finish, not_permitted, on_remember, guard_block,
  on_spawn,
}

-- `str(args.get(key, ""))`
abbrev pub text_at : Platform → String → Fields → String
text_at env key args = elim (get key args) [ none ↦ "" | some v ↦ str_of env.repr v ]

-- The repeated writes to one file.
abbrev is_same_path : String → Option String → Bool
is_same_path path none = false
is_same_path path (some last) = path == last

unfoldable pub count_writes : Platform → Option String → Fields → Run → Run
count_writes env none args r = r
count_writes env (some tool) args r =
    let path = text_at env "path" args in
    if Turn.is_write tool
    then record r {
      same_path_writes = if is_same_path path r.last_write_path then suc r.same_path_writes else 1;
      last_write_path = some path;
    }
    else record r { same_path_writes = 0; last_write_path = none }

-- Why the action waits for the user, if it does.
approval_reason : Platform → Config → Option String → Fields → Option String
approval_reason env cfg none args = none
approval_reason env cfg (some tool) args =
    if tool == "run_command" && cfg.approval_required
    then env.needs_approval (text_at env "command" args)
    else none

block_of : Platform → Config → Run → Option String → Fields → Option String
block_of env cfg r none args = none
block_of env cfg r (some tool) args = guard_block env cfg r tool args

-- `tool in {"write_file", "edit_file"} and …`
abbrev is_writing : Option String → Bool
is_writing none = false
is_writing (some tool) = Turn.is_write tool

abbrev is_command : Option String → Bool
is_command none = false
is_command (some tool) = tool == "run_command"

-- What follows the automatic verification: where it was rejected, the number of its step is not used
-- again.
unfoldable pub after_automatic : Platform → Config → Meets → ℕ → Attempt → M Done
unfolding after_attempt
after_automatic env cfg turn number (true, score, summary) = leave
after_automatic env cfg turn number (false, score, summary) =
    modify (λ r. record r { skipped_step_number = some (suc number) })
    >> after_attempt env cfg turn.marker_end (false, score, summary)

-- The automatic verification once the required checks pass.
unfoldable pub auto_finish : Platform → Config → Meets → ℕ → M Done
unfolding transition handle_finish after_automatic
auto_finish env cfg turn number =
    transition verification_requested "contract_evidence_ready" none
    >> (handle_finish env cfg turn.automatic
          (field "summary"
            (str "Loop submitted the workspace after every user-required check passed.") end)
          "[Loop] User-required checks pass; submit the result for verification." (suc number) 0
        >>= after_automatic env cfg turn number)

-- Whether the action may have completed the evidence.
unfoldable pub may_complete : Config → Meets → Option String → Bool → ℕ → Bool
may_complete cfg turn tool succeeded number =
    let changed = not (turn.marker_after == turn.marker) in
    (is_writing tool && changed || is_command tool) && succeeded && ltb number cfg.max_steps

-- What the evidence that is not ready leaves: a failure may be looked at again.
unfoldable pub look_again : Platform → Config → Option String → String → Run → Run
unfolding permit_diagnostic_reinspection
look_again env cfg tool summary r =
    if not (summary == "") && not (tool_or_invalid tool == "write_file")
    then record r {
      guard = permit_diagnostic_reinspection env.guard_library cfg.limits none r.guard;
    }
    else r

-- What the evidence of the required checks leads to.
unfoldable pub gathered : Platform → Config → Meets → Option String → ℕ → M Done
unfolding auto_finish look_again
gathered env cfg turn tool number r =
    if turn.evidence.0
    then auto_finish env cfg turn number r
    else next done (look_again env cfg tool turn.evidence.1 r)

-- The evidence, after an action that may have completed it.
unfoldable pub on_evidence : Platform → Config → Meets → Option String → Bool → ℕ → M Done
unfolding gathered may_complete call
on_evidence env cfg turn tool succeeded number r =
    if not (may_complete cfg turn tool succeeded number)
    then next done r
    else (call turn.evidence_raises >> gathered env cfg turn tool number) r

unfoldable pub is_ok : ToolStatus → Bool
is_ok ok = true
is_ok _ = false

-- What is noted of a recorded action.
unfoldable pub noted :
    Platform → Config → Meets → Option String → Fields → String → ToolStatus → Run → Run
unfolding is_ok
noted env cfg turn tool args observation status r = record r {
  last_rejected_finish_marker = if is_ok status then none else r.last_rejected_finish_marker;
  guard =
      (observe env.guard_library cfg.limits r.guard (tool_or_invalid tool) args observation status
        (leb 2 r.same_path_writes) (not (turn.marker_after == turn.marker))).1;
}

-- Once the action is recorded.
unfoldable pub after_action :
    Platform → Config → Meets → Option String → Fields → String → ToolStatus → ℕ → M Done
unfolding noted on_evidence limits_of is_ok
after_action env cfg turn tool args observation status number =
    modify (noted env cfg turn tool args observation status)
    >> on_evidence env cfg turn tool (is_ok status) number
    >> limits_of env cfg number true

-- From the transition that records the action on.
unfoldable pub conclude_action :
    Platform
    → Config
    → Meets
    → Option String
    → String
    → Fields
    → String
    → ToolStatus
    → ℕ
    → ℕ
    → M Done
unfolding transition record_step after_action
conclude_action env cfg turn tool thought args observation status number tokens =
    transition action_recorded
      (append "action_recorded:" (append (tool_or_invalid tool) (append ":" (status_value status))))
      none
    >> record_step env number thought (tool_or_invalid tool) args observation status tokens
    >> after_action env cfg turn tool args observation status number

text_or_default : Option String → String → String
text_or_default none default = default
text_or_default (some s) default = if s == "" then default else s

abbrev nudge : String
nudge = "\n[Run this file (run_command) or call finish with checks; do not rewrite it again.]"

-- The route of the dispatch.
unfoldable pub follow :
    Platform
    → Config
    → Meets
    → DispatchRoute
    → DispatchKind
    → Option String
    → String
    → Fields
    → ℕ
    → ℕ
    → M Done
unfolding conclude_action pause_for_action begin_operation call text_or_default
follow env cfg turn d invalid tool thought args number tokens =
    conclude_action env cfg turn tool thought args (text_or_default d.observation "Invalid action.")
      error number tokens
follow env cfg turn d DispatchKind.blocked tool thought args number tokens =
    conclude_action env cfg turn tool thought args (text_or_default d.observation "Action blocked.")
      blocked number tokens
follow env cfg turn d approval tool thought args number tokens =
    pause_for_action env "run_command" args thought number tokens (
      append "run: " (
        append (strip (text_at env "command" args))
          (append " (reason: " (append (text_or_default d.approval_reason "") ")"))))
    >> leave
follow env cfg turn d execute tool thought args number tokens =
    begin_operation number (tool_or_invalid tool) args turn.operation_id >>= λ args'.
    call turn.tool_raises >> λ r.
    let (observation, status) = turn.result in
    conclude_action env cfg turn tool thought args'
      (if is_writing tool && nat_eq r.same_path_writes 2
        then append observation nudge
        else observation)
      status number tokens r

-- The dispatch of an action.
unfoldable pub routed : Platform → Config → Option String → Fields → Run → DispatchRoute
unfolding block_of approval_reason route
routed env cfg tool args r =
    route env.show_sorted tool cfg.valid_tools (block_of env cfg r tool args) r.same_path_writes
      (approval_reason env cfg tool args) r.last_write_path

-- Any other action: the guards, the dispatch, and what it leads to.
unfoldable pub on_action :
    Platform → Config → Meets → Option String → String → Fields → ℕ → ℕ → M Done
unfolding count_writes routed follow
on_action env cfg turn tool thought args number tokens r =
    let r' = count_writes env tool args r in
    let d = routed env cfg tool args r' in
    follow env cfg turn d d.kind tool thought args number tokens r'

-- An action that is irreversible waits for the user.
unfoldable pub on_external : Platform → String → String → Fields → ℕ → ℕ → M Done
unfolding pause_for_action
on_external env tool thought args number tokens =
    pause_for_action env tool args thought number tokens (
      if tool == "send_email"
      then append "send an email to " (
          append (strip (text_at env "to" args)) (
            append " (subject: "
              (append (env.repr (str (strip (text_at env "subject" args)))) ")")))
      else append "add a calendar event " (
          append (env.repr (str (strip (text_at env "summary" args))))
            (append " at " (elim (get "start" args) [ none ↦ "?" | some v ↦ str_of env.repr v ]))))
    >> leave

-- From `ACTION_SELECTED` on, by the tool.
unfoldable pub act : Platform → Config → Meets → String → Fields → ℕ → ℕ → String → M Done
unfolding pause_for_user not_permitted on_remember on_spawn on_external on_action
act env cfg turn thought args number tokens tool =
    if tool == "ask_user"
    then pause_for_user env args thought number tokens >> leave
    else if (tool == "remember" || tool == "spawn") && not (cfg.permits tool)
    then not_permitted env cfg tool thought args number tokens
    else if tool == "remember"
    then on_remember env cfg turn thought args number tokens
    else if tool == "spawn"
    then on_spawn env cfg turn thought args number tokens
    else if tool == "send_email" || tool == "create_event"
    then on_external env tool thought args number tokens
    else on_action env cfg turn (some tool) thought args number tokens

-- The parsed decision: a finish, an action, or no valid tool.
unfoldable pub decide : Platform → Config → Meets → Option String → String → Fields → ℕ → ℕ → M Done
unfolding transition act on_action on_finish
decide env cfg turn none thought args number tokens =
    transition action_selected "action_selected:invalid" none
    >> on_action env cfg turn none thought args number tokens
decide env cfg turn (some tool) thought args number tokens =
    if tool == "finish"
    then on_finish env cfg turn thought args number tokens
    else transition action_selected (append "action_selected:" (tool_or_invalid (some tool))) none
      >> act env cfg turn thought args number tokens tool
