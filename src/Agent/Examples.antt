-- ===== src/Agent/Examples.antt =====
-- A run that is stopped by its budget, one that is cancelled, and the theorems at them.
use loop_agent.Prelude.{
  ◌≤◌, ◌≡◌, refl, true, false, Option, none, some, List, [], ◌∷◌, ◌++◌, arith, is_some, inl,
  if◌then◌else◌,
}
use loop_agent.Prelude.Text.{codes_eq}
use loop_agent.Json.{
  Value, object, boolean, int, pos, str, Fields, end, field, rejected, converted, finite,
}
use loop_agent.Loop.{LoopState, preparing, is_working, state_value, status_value, status_for}
use loop_agent.Loop.Policy.{IsConsistent}
use loop_agent.Acceptance.{read, decide}
use loop_agent.Ledger.{Step, verify_from, head_from}
use loop_agent.Parser.{Text}
use loop_agent.Guard.{Guard, ok}
use loop_agent.Agent.State.{
  Run, Platform, Config, Turn, replied, failed, Verification, next, returned, raised, done,
}
use loop_agent.Agent.Turns.{Meeting, run_claimed}
use loop_agent.Agent.Ends.{Origin, last_number}
use loop_agent.Agent.Rests.{IsStart}
use loop_agent.Agent.Runs.{run_claimed_rests, run_claimed_chain, run_claimed_completed}

abbrev finish_args : Fields
finish_args = field "tool" (str "finish") end

abbrev verdict : Fields
verdict = field "met" (boolean true) (field "score" (int (pos 90)) end)

-- The model's texts are `0`, its plan, and `1`, the verdict.
abbrev loads : Text → Option Value
loads s = if codes_eq s (48 ∷ []) then some (object finish_args) else some (object verdict)

abbrev toy : Platform
toy = record {
  guard_library = record {
    lower = λ s. s;
    repr = λ v. "?";
    shlex = λ s. none;
    file_name = λ s. s;
    digest = λ s. s;
  };
  sha256 = λ s. "h";
  dumps = λ v. "{}";
  loads = loads;
  repr = λ v. "?";
  float_of_int = λ n. converted (finite n);
  float_of_text = λ s. rejected;
  show_sorted = λ s. "[]";
  redact = λ s. s;
  refusal_text = λ x. "refused";
  verdict_text = λ d rs. "verdict";
  needs_approval = λ s. none;
  build_receipt = λ r s. some "r";
  splitlines = λ s. [];
  strip_chars = λ a s. s;
}

abbrev settings : Config
settings = record {
  max_steps = 3;
  token_budget = 10000;
  strict = false;
  approval_required = false;
  baseline_checks = [];
  permits = λ t. true;
  valid_tools = "finish" ∷ [];
  dynamic_tools = [];
  limits = record { repeated_action_limit = 2; exploration_branch_cap = 8 };
  stuck_threshold = 4;
  max_finish_retries = 2;
  acceptance_score = 80;
  verification_token_reserve = 1000;
}

abbrev nothing_seen : Guard
nothing_seen = record {
  revision = 0;
  action_counts = λ s. 0;
  evidence = [];
  exploration = [];
  unchecked_mutated_paths = [];
  no_progress = 0;
}

abbrev claimed : Run
claimed = record {
  target = record {
    loop_state = "preparing";
    transition_reason = none;
    transition_sequence = 1;
    status = "running";
    stop_reason = none;
  };
  steps = [];
  last_hash = "g";
  steps_used = 0;
  tokens_used = 0;
  rubric = "it works" ∷ [];
  operation_journal = none;
  pending_action = none;
  pending_question = none;
  summary = none;
  verification_score = 0;
  verified_by = none;
  receipt_hash = none;
  guard = nothing_seen;
  finish_retries = 0;
  last_rejected_finish_marker = none;
  same_path_writes = 0;
  last_write_path = none;
  skipped_step_number = none;
}

abbrev verdict_reply : Verification
verdict_reply = record { raises = false; results = []; reply = replied 50 (49 ∷ []) }

-- Every turn of it finishes.
abbrev finishing : Turn
finishing = record {
  cancelled = false;
  reply = replied 100 (48 ∷ []);
  marker = "m";
  marker_after = "m";
  marker_end = "m";
  operation_id = "o";
  tool_raises = false;
  evidence_raises = false;
  result = ("", ok);
  remembered = "";
  spawned = record {
    raises = false;
    reason = "s";
    child_tokens = 0;
    observation = "";
    status = ok;
  };
  evidence = (false, "");
  verification = verdict_reply;
  automatic = verdict_reply;
}

abbrev meets : Meeting
meets = record {
  understood = failed 0 false "";
  approved_id = "a";
  approved_raises = false;
  approved = ("", ok);
  turns = λ n. finishing;
  cancelled_late = false;
}

abbrev origin : Origin
origin = record { hash = "g"; steps = claimed.steps; used = claimed.steps_used }

claimed-IsStart : IsStart toy settings origin 3 claimed
unfolding last_number verify_from state_value status_value status_for
claimed-IsStart = record {
  state = preparing;
  is_ready = inl refl;
  good = record {
    consistent = record { named = refl; statused = refl; stop_fits = refl };
    chained = (refl, ([], refl, refl));
    headed = refl;
    stepped = omega arith;
    earned = λ e. cc;
  };
}

run_claimed_rests_example :
    (r : Run) × (run_claimed toy settings meets [] claimed ≡ next done r)
    × ((s : LoopState) × (is_working s ≡ false) × IsConsistent s r.target)
run_claimed_rests_example =
    run_claimed_rests toy settings origin 3 meets [] claimed (omega arith) (omega arith)
      claimed-IsStart

abbrev ended : Run
ended = elim (run_claimed toy settings meets [] claimed) [
  | next d r ↦ r
  | returned r ↦ r
  | raised c r ↦ r
]

ends : run_claimed toy settings meets [] claimed ≡ next done ended
unfolding run_claimed read decide
ends = refl

run_claimed_chain_example :
    ((new : List Step) × (ended.steps ≡ claimed.steps ++ new)
      × (ended.steps_used ≡ last_number claimed.steps_used new))
    × (verify_from toy.sha256 toy.dumps "g" ended.steps ≡ (true, none))
    × (head_from "g" ended.steps ≡ ended.last_hash)
    × (ended.steps_used ≤ 3)
run_claimed_chain_example =
    run_claimed_chain toy settings origin 3 meets [] claimed ended (omega arith) (omega arith)
      claimed-IsStart refl refl ends

completes : ended.target.loop_state ≡ "completed"
unfolding run_claimed read decide
completes = refl

run_claimed_completed_example :
    (80 ≤ ended.verification_score)
    × (is_some ended.receipt_hash ≡ true)
    × (settings.strict ≡ true → ended.verified_by ≡ some "execution")
run_claimed_completed_example =
    run_claimed_completed toy settings origin 3 meets [] claimed ended (omega arith) (omega arith)
      claimed-IsStart ends completes
