-- ===== src/Agent/Turns.antt =====
-- `_run_loop` as a whole: the rubric, an approved action, the turns, and `_run_claimed` around it.
use loop_agent.Prelude.{
  ℕ, zero, suc, ◌+◌, ◌-◌, String, Bool, true, false, Option, none, some, List, [], ◌∷◌, ◌++◌, ◌==◌,
  if◌then◌else◌, leb, ltb, nat_eq,
}
use Prim.Native.String.{◌++◌ as append}
use loop_agent.Prelude.Text.{strip}
use loop_agent.Prelude.Codes.{take}
use loop_agent.Json.{Value, str_of, Fields, get, object, array, elements}
use loop_agent.Loop.{
  LoopState, TaskStatus, preparing, max_steps, budget_exhausted, cancelled, stop_value,
  status_value, running, state_of, cancel, rubric_required, rubric_ready, preparation_completed,
  action_selected, action_recorded, fail, apply,
}
use loop_agent.Parser.{Text, extract_json, parse}
use loop_agent.Guard.{ToolStatus, Entry, guard_of}
use loop_agent.Turn.{allocate, planning}
use loop_agent.Agent.State.{
  Run, Platform, Config, Turn, Reply, replied, failed, llm_error, unknown_loop_state, Flow, next,
  returned, raised, M, Done, done, bind, ◌>>=◌, ◌>>◌, pure, skip, modify, transition, call,
}
use loop_agent.Agent.Record.{record_step, begin_operation}
use loop_agent.Agent.Finish.{finish, stop, with_summary, ensure_unverified_receipt}
use loop_agent.Agent.Dispatch.{decide}

-- What a run meets: the reply to the first call, the outcome of an approved
-- action, where it does not raise, each turn by its
-- number, and whether the user has cancelled when the steps are used up.
pub record Meeting : Type 0 where
  pub understood : Reply
  pub approved_id : String
  pub approved_raises : Bool
  pub approved : String × ToolStatus
  pub turns : ℕ → Turn
  pub cancelled_late : Bool

abbrev pub generic_rubric : List String
generic_rubric = "Fully and correctly satisfies the task" ∷ []

-- `[… for c in … if …][:6]`
kept : List String → List String
kept [] = []
kept (x ∷ xs) = let rest = kept xs in if x == "" then rest else x ∷ rest

stripped : Platform → List Value → List String
unfolding str_of strip
stripped env [] = []
stripped env (v ∷ vs) = strip (str_of env.repr v) ∷ stripped env vs

criteria : Platform → List Value → List String
unfolding kept stripped
criteria env vs = take 6 (kept (stripped env vs))

-- `ln.strip("-* ").strip()` of the lines that are not blank.
of_lines : Platform → List String → List String
unfolding strip
of_lines env [] = []
of_lines env (l ∷ ls) =
    let rest = of_lines env ls in
    if strip l == "" then rest else strip (env.strip_chars "-* " l) ∷ rest

lines_rubric : Platform → Text → List String
unfolding of_lines
lines_rubric env content = take 6 (of_lines env (env.splitlines content))

of_criteria : Platform → Text → Option Value → List String
unfolding criteria lines_rubric
of_criteria env content (some (array items)) = criteria env (elements items)
of_criteria env content _ = lines_rubric env content

parsed_rubric : Platform → Text → Option Value → List String
unfolding criteria lines_rubric of_criteria get
parsed_rubric env content (some (object payload)) = of_criteria env content (get "criteria" payload)
parsed_rubric env content (some (array items)) = criteria env (elements items)
parsed_rubric env content _ = lines_rubric env content

or_generic : List String → List String
or_generic [] = generic_rubric
or_generic (c ∷ cs) = c ∷ cs

-- `_understand`, and the generic rubric where the call fails.
unfoldable pub understand : Platform → Reply → List String × ℕ
unfolding or_generic parsed_rubric extract_json
understand env (replied tokens content) =
    (or_generic (parsed_rubric env content (extract_json env.loads env.repr content)), tokens)
understand env (failed tokens exhausted detail) = (generic_rubric, tokens)

-- `LoopState(task.loop_state) is LoopState.PREPARING`
unfoldable pub resume_prepared : Option LoopState → M Done
unfolding transition
resume_prepared none = raised unknown_loop_state
resume_prepared (some preparing) = transition preparation_completed "runtime_prepared" none
resume_prepared (some _) = skip

unfoldable pub with_rubric : Platform → Meeting → Run → Run
unfolding understand
with_rubric env meets r =
    let (rubric, tokens) = understand env meets.understood in
    record r { rubric = rubric; tokens_used = r.tokens_used + tokens }

unfoldable pub prepare_from : Platform → Meeting → List String → M Done
unfolding transition with_rubric resume_prepared state_of
prepare_from env meets [] =
    transition rubric_required "rubric_generation_started" none
    >> modify (with_rubric env meets)
    >> transition rubric_ready "rubric_ready" none
prepare_from env meets (c ∷ cs) = λ r. resume_prepared (state_of r.target.loop_state) r

-- The rubric, on a fresh run.
unfoldable pub prepare : Platform → Meeting → M Done
unfolding prepare_from
prepare env meets r = prepare_from env meets r.rubric r

-- After an approved action: the number of the next step, and what the history has more.
unfoldable pub approved_next : Platform → Config → ℕ → Entry → M (ℕ × List Entry)
unfolding finish
approved_next env cfg start entry r =
    if ltb cfg.max_steps (suc start)
    then bind (stop env cfg max_steps r) (λ d r'. next (suc start, entry ∷ []) r')
    else next (suc start, entry ∷ []) r

-- The step of an action that the user approved.
unfoldable pub record_approved :
    Platform → Config → Meeting → ℕ → String → Fields → M (ℕ × List Entry)
unfolding transition record_step approved_next
record_approved env cfg meets start tool args =
    transition action_recorded (append "action_recorded:" tool) none
    >> record_step env start "(approved by the user)" tool args meets.approved.0 meets.approved.1 0
    >> approved_next env cfg start (record {
      tool = tool;
      args = args;
      observation = env.redact meets.approved.0;
      status = meets.approved.1;
    })

-- Its execution.
unfoldable pub execute_approved :
    Platform → Config → Meeting → ℕ → String → Fields → M (ℕ × List Entry)
unfolding transition begin_operation call record_approved
execute_approved env cfg meets start tool args =
    transition action_selected (append "approved_action_selected:" tool) none
    >> begin_operation start tool args meets.approved_id
    >>= λ args'. call meets.approved_raises >> record_approved env cfg meets start tool args'

-- It is the run's first step.
unfoldable pub run_approved :
    Platform → Config → Meeting → ℕ → Option (String × Fields) → M (ℕ × List Entry)
unfolding execute_approved
run_approved env cfg meets start none = pure (start, [])
run_approved env cfg meets start (some (tool, args)) =
    modify (λ r. record r { pending_action = none })
    >> execute_approved env cfg meets start tool args

-- The loop's variables, before its first turn.
unfoldable pub fresh : Platform → Config → List Entry → Run → Run
unfolding guard_of
fresh env cfg history r = record r {
  guard = guard_of env.guard_library cfg.limits history;
  finish_retries = 0;
  last_rejected_finish_marker = none;
  same_path_writes = 0;
  last_write_path = none;
  skipped_step_number = none;
}

-- `session.refresh`, where the user may have cancelled since the turn before ended: the row as the
-- cancellation left it. One that comes within a turn, which writes over a part of its row, is not
-- modelled.
unfoldable pub refreshed : Bool → Run → Run
unfolding apply
refreshed false r = r
refreshed true r = record r { target = (apply r.target cancel "cancelled_by_user" none).1 }

unfoldable pub cancelled_target : Run → Run
unfolding stop_value
cancelled_target r = record r {
  target = record r.target { stop_reason = some (stop_value cancelled) };
}

-- The model's reply to a turn.
unfoldable pub on_reply : Platform → Config → Turn → ℕ → Reply → M Done
unfolding finish decide parse
on_reply env cfg turn number (failed tokens exhausted detail) =
    modify (λ r. record r { tokens_used = r.tokens_used + tokens })
    >> (if exhausted then stop env cfg budget_exhausted else raised llm_error)
on_reply env cfg turn number (replied tokens content) =
    let d = parse env.loads env.repr content cfg.valid_tools cfg.dynamic_tools in
    decide env cfg turn d.tool d.thought d.args number tokens

-- The budget is tested twice before the model is asked.
unfoldable pub live_turn : Platform → Config → Turn → ℕ → M Done
unfolding finish on_reply planning allocate
live_turn env cfg turn number r =
    if leb cfg.token_budget r.tokens_used
    then stop env cfg budget_exhausted r
    else if leb (planning (allocate cfg.token_budget r.tokens_used cfg.verification_token_reserve))
        0
    then stop env cfg budget_exhausted r
    else on_reply env cfg turn number turn.reply r

-- A cancelled task ends here, with the summary and the receipt of any other stop.
unfoldable pub checked_turn : Platform → Config → Turn → ℕ → M Done
unfolding cancelled_target live_turn with_summary ensure_unverified_receipt
checked_turn env cfg turn number r =
    if r.target.status == status_value TaskStatus.cancelled
    then returned (ensure_unverified_receipt env (with_summary cfg cancelled (cancelled_target r)))
    else live_turn env cfg turn number r

-- The body of the loop.
unfoldable pub one_turn : Platform → Config → Turn → ℕ → M Done
unfolding refreshed checked_turn
one_turn env cfg turn number r = checked_turn env cfg turn number (refreshed turn.cancelled r)

-- `number == skipped_step_number`
abbrev pub is_skipped : Option ℕ → ℕ → Bool
is_skipped none number = false
is_skipped (some n) number = nat_eq number n

unfoldable pub turn_or_skip : Platform → Config → Turn → ℕ → M Done
unfolding one_turn
turn_or_skip env cfg turn number r =
    if is_skipped r.skipped_step_number number then next done r else one_turn env cfg turn number r

-- `for number in range(number, number + count)`
unfoldable pub turns_from : Platform → Config → (ℕ → Turn) → ℕ → ℕ → M Done
unfolding turn_or_skip
turns_from env cfg turns zero number = skip
turns_from env cfg turns (suc count) number =
    turn_or_skip env cfg (turns number) number >> turns_from env cfg turns count (suc number)

-- Never leave a task running.
unfoldable pub stop_running : Platform → Config → M Done
unfolding finish
stop_running env cfg r =
    if r.target.status == status_value running then finish env cfg max_steps r else next done r

-- The steps are used up.
unfoldable pub used_up : Platform → Config → Bool → M Done
unfolding refreshed stop_running
used_up env cfg late r = stop_running env cfg (refreshed late r)

-- From the guard's construction on.
unfoldable pub all_turns : Platform → Config → Meeting → List Entry → ℕ → M Done
unfolding fresh turns_from used_up
all_turns env cfg meets history number =
    modify (fresh env cfg history)
    >> turns_from env cfg meets.turns (suc cfg.max_steps - number) number
    >> used_up env cfg meets.cancelled_late

-- `_run_loop`
unfoldable pub run_loop : Platform → Config → Meeting → List Entry → ℕ → M Done
unfolding prepare run_approved all_turns
run_loop env cfg meets history start =
    prepare env meets
    >> (λ r. run_approved env cfg meets start r.pending_action r)
    >>= λ (number, more). all_turns env cfg meets (history ++ more) number

-- An unhandled error fails the task, and a crash has its receipt too.
unfoldable pub handled : Platform → Flow Done → Flow Done
unfolding transition ensure_unverified_receipt
handled env (next d r) = next d r
handled env (returned r) = next done r
handled env (raised c r) =
    bind (transition fail "unhandled_runtime_error" none r)
      (λ d. modify (ensure_unverified_receipt env))

-- `_run_claimed`, from the loop on.
unfoldable pub run_claimed : Platform → Config → Meeting → List Entry → M Done
unfolding run_loop handled
run_claimed env cfg meets history r =
    handled env (run_loop env cfg meets history (suc r.steps_used) r)
