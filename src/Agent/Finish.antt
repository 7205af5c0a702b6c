-- ===== src/Agent/Finish.antt =====
-- `_finish`, `_handle_finish` and the pauses: how a run comes to an end, or to a wait.
use Prim.Native.String.{◌++◌ as append}
use loop_agent.Prelude.{
  ℕ, ◌+◌, String, Bool, true, false, Option, none, some, List, ◌==◌, if◌then◌else◌, length,
}
use loop_agent.Prelude.Text.{strip}
use loop_agent.Prelude.Decimal.{decimal}
use loop_agent.Json.{Value, null, str, str_of, Fields, end, field, get}
use loop_agent.Loop.{
  StopReason, goal_achieved, max_steps, budget_exhausted, stuck, cancelled, stop_value,
  verification_accepted, limit_reached, input_required, approval_required,
}
use loop_agent.Checks.{CheckResult, attach_baseline, mark_supplementary_agent_checks}
use loop_agent.Acceptance.{VerificationDecision, evaluate}
use loop_agent.Parser.{extract_json}
use loop_agent.Guard.{ok, error, blocked}
use loop_agent.Agent.State.{
  Run, Platform, Config, Reply, replied, failed, Verification, llm_error, score_overflow,
  receipt_error, next, raised, M, Done, bind, ◌>>◌, leave, modify, transition, call,
}
use loop_agent.Agent.Record.{record_step}

-- `not task.summary`
abbrev pub is_blank : Option String → Bool
is_blank none = true
is_blank (some s) = s == ""

-- `_stop_summary`
stop_summary : Config → Run → StopReason → String
unfolding decimal
stop_summary cfg r max_steps = append "Stopped at the step limit (" (
    append (decimal r.steps_used) (
      append "/" (
        append (decimal cfg.max_steps)
          ") without a verified result. Any partial work is in the output files — retry with a higher step limit if the goal needs more room.")))
stop_summary cfg r budget_exhausted =
    append
      "Stopped because the remaining token budget could not safely fund another plan and final verification ("
      (append (decimal r.tokens_used) (
        append "/" (
          append (decimal cfg.token_budget)
            " used). Retry with a higher token budget if the goal needs more.")))
stop_summary cfg r stuck =
    "Stopped after repeated actions produced no workspace change or new evidence. Check the steps for the recurring branch before retrying."
stop_summary cfg r cancelled = "Cancelled before reaching a verified result."
stop_summary cfg r _ = "Stopped without a verified result."

unfoldable pub with_summary : Config → StopReason → Run → Run
unfolding stop_summary
with_summary cfg reason r =
    if is_blank r.summary then record r { summary = some (stop_summary cfg r reason) } else r

-- `task.receipt_hash` holds
abbrev pub is_present : Option String → Bool
is_present none = false
is_present (some h) = if h == "" then false else true

-- `_ensure_unverified_receipt`, which never raises.
unfoldable pub ensure_unverified_receipt : Platform → Run → Run
ensure_unverified_receipt env r =
    if is_present r.receipt_hash then r else elim (env.build_receipt r "unverified") [
      | none ↦ r
      | some h ↦ record r { receipt_hash = some h }
    ]

-- A bounded stop.
unfoldable pub limited : Platform → Config → StopReason → M Done
unfolding with_summary ensure_unverified_receipt transition stop_value
limited env cfg reason =
    transition limit_reached (append "bounded_stop:" (stop_value reason)) (some reason)
    >> modify λ r. ensure_unverified_receipt env (with_summary cfg reason r)

-- `_finish`
unfoldable pub finish : Platform → Config → StopReason → M Done
unfolding limited transition
finish env cfg goal_achieved = transition verification_accepted "verification_accepted" none
finish env cfg reason = limited env cfg reason

-- `await self._finish(task, reason); return`
abbrev pub stop : Platform → Config → StopReason → M Done
stop env cfg reason = finish env cfg reason >> leave

-- `None` is a value.
abbrev pub json_or_null : Option Value → Value
json_or_null none = null
json_or_null (some v) = v

-- Whether the attempt ended the run, and its score and summary.
abbrev pub Attempt : Type 0
Attempt = Bool × ℕ × String

-- Once the verifier has decided.
unfoldable pub conclude : Platform → Config → VerificationDecision → String → M Attempt
unfolding finish
conclude env cfg d summary r =
    if d.accepted
    then (let judged : Run = record r {
      summary = some summary;
      verification_score = d.score;
      verified_by = some d.verified_by;
    } in
        elim (env.build_receipt judged d.verified_by) [
          | none ↦ raised receipt_error judged
          | some h ↦
              bind (finish env cfg goal_achieved (record judged { receipt_hash = some h }))
                (λ _ r'. next (true, d.score, summary) r')
        ])
    else next (false, d.score, summary) r

unfoldable pub decided :
    Platform
    → Config
    → Option VerificationDecision
    → List CheckResult
    → String
    → Fields
    → ℕ
    → String
    → ℕ
    → M Attempt
unfolding conclude record_step
decided env cfg none results thought args number summary tokens r = raised score_overflow r
decided env cfg (some d) results thought args number summary tokens r =
    bind (record_step env number thought "finish" args (env.verdict_text d results) ok tokens r)
      (λ _. conclude env cfg d summary)

-- `str(args.get(key, "")).strip() or default`
unfoldable pub text_or : Platform → String → Fields → String → String
unfolding get str_of strip
text_or env key args default =
    let text = strip (elim (get key args) [ none ↦ "" | some v ↦ str_of env.repr v ]) in
    if text == "" then default else text

-- An `LLMError` of the verifier.
unfoldable pub unverified : Platform → Config → Bool → String → M Attempt
unfolding finish
unverified env cfg exhausted summary r =
    if exhausted
    then bind (finish env cfg budget_exhausted r) (λ _ r'. next (true, 0, summary) r')
    else raised llm_error r

-- The reply of the verifier: its decision on the results, or the exhausted verification.
unfoldable pub verified :
    Platform
    → Config
    → Bool
    → List CheckResult
    → Reply
    → String
    → Fields
    → ℕ
    → String
    → ℕ
    → M Attempt
unfolding decided unverified extract_json evaluate record_step
verified env cfg contract results (replied tokens content) thought args number summary plan_tokens
      r =
    let decision =
      evaluate env.float_of_int env.float_of_text env.repr
        (json_or_null (extract_json env.loads env.repr content)) results
        (record {
          criterion_count = length r.rubric;
          acceptance_score = cfg.acceptance_score;
          strict = cfg.strict;
          contract_substantiation_authoritative = contract;
        }) in
    decided env cfg decision results thought args number summary (plan_tokens + tokens) r
verified env cfg contract results (failed tokens exhausted detail) thought args number summary
      plan_tokens r =
    bind
      (record_step env number thought "finish" args
        (append "Verification could not complete: " detail) error (plan_tokens + tokens) r)
      (λ _. unverified env cfg exhausted summary)

-- `_handle_finish`, from the results of the checks on.
unfoldable pub on_results : Platform → Config → Verification → Fields → String → ℕ → ℕ → M Attempt
unfolding verified text_or attach_baseline mark_supplementary_agent_checks
on_results env cfg v args thought number plan_tokens r =
    let (contract, results) =
      mark_supplementary_agent_checks (attach_baseline env.repr v.results cfg.baseline_checks)
        (length r.rubric) in
    verified env cfg contract results v.reply thought args number
      (text_or env "summary" args "(no summary provided)") plan_tokens r

-- `_handle_finish`, from the checks on.
unfoldable pub handle_finish :
    Platform → Config → Verification → Fields → String → ℕ → ℕ → M Attempt
unfolding on_results call
handle_finish env cfg v args thought number plan_tokens =
    call v.raises >> on_results env cfg v args thought number plan_tokens

-- `_pause_for_user`
unfoldable pub pause_for_user : Platform → Fields → String → ℕ → ℕ → M Done
unfolding text_or record_step transition
pause_for_user env args thought number tokens =
    let question = text_or env "question" args "(the agent asked a question)" in
    record_step env number thought "ask_user" (field "question" (str question) end)
      "Waiting for the user's answer." ok tokens
    >> modify (λ r. record r { pending_question = some question })
    >> transition input_required "agent_requested_input" none

-- `_pause_for_action`
unfoldable pub pause_for_action : Platform → String → Fields → String → ℕ → ℕ → String → M Done
unfolding record_step transition
pause_for_action env tool args thought number tokens summary =
    record_step env number thought tool args
      (append "Paused — needs your approval to " (append summary ".")) blocked tokens
    >> modify (λ r. record r {
      pending_action = some (tool, args);
      pending_question = some (append "Approve this action? Answer yes or no.\n  " summary);
    })
    >> transition approval_required (append "approval_required:" tool) none
