-- ===== src/Agent/Record.antt =====
-- `_record_step`, `_begin_operation` and `_rebuild_history`: the steps of a run in its ledger.
use loop_agent.Prelude.{ℕ, ◌+◌, String, none, some, [], ◌∷◌, ◌++◌, ◌||◌, ◌==◌, if◌then◌else◌}
use loop_agent.Json.{str, Fields, put}
use loop_agent.Ledger.{Step, step_hash}
use loop_agent.Guard.{ToolStatus, ok, error, blocked}
use loop_agent.Agent.State.{Platform, M, Done, next, modify}

-- `ToolStatus.value`
abbrev pub status_value : ToolStatus → String
status_value ok = "ok"
status_value error = "error"
status_value blocked = "blocked"

-- The step, its hash over the hash before it.
unfoldable pub sealed :
    Platform → String → ℕ → String → String → Fields → String → ToolStatus → ℕ → Step
unfolding step_hash
sealed env prev number thought tool args observation status tokens =
    let open_step : Step = record {
      number = number;
      tool = tool;
      tool_args = args;
      observation = observation;
      status = status_value status;
      tokens = tokens;
      thought = thought;
      prev_hash = some prev;
      hash = "";
    } in
    record open_step { hash = step_hash env.sha256 env.dumps prev open_step thought }

unfoldable pub record_step :
    Platform → ℕ → String → String → Fields → String → ToolStatus → ℕ → M Done
unfolding sealed
record_step env number thought tool args observation status tokens = modify λ r.
    let step =
      sealed env r.last_hash number thought tool args (env.redact observation) status tokens in
    record r {
      steps = r.steps ++ step ∷ [];
      last_hash = step.hash;
      operation_journal = none;
      steps_used = number;
      tokens_used = r.tokens_used + tokens;
    }

-- The arguments that the tool is called with: those of an irreversible action carry the operation.
unfoldable pub begin_operation : ℕ → String → Fields → String → M Fields
unfolding put
begin_operation number tool args operation_id r =
    next
      (if tool == "send_email" || tool == "create_event"
        then put "operation_id" (str operation_id) args
        else args)
      (record r { operation_journal = some (number, tool) })
