-- ===== src/Agent/Runs.antt =====
-- `_run_claimed`, from the loop on: every run comes to rest, and what it leaves.
use loop_agent.Prelude.{
  ℕ, suc, ◌≤◌, ◌<◌, ◌≡◌, refl, sym, ap, subst, ◌∙◌, true, false, none, some, List, arith, is_some,
  ◌++◌,
}
use loop_agent.Loop.{
  state_value, state_of, LoopState, Outcome, Target, LoopTransition, applied, raised as refused,
  failed, completed, fail, rule, apply, is_working,
}
use loop_agent.Loop.Policy.{IsConsistent, apply_allowed}
use loop_agent.Loop.Table.{state_of-state_value}
use loop_agent.Ledger.{Step, verify_from, head_from}
use loop_agent.Guard.{Entry}
use loop_agent.Agent.State.{
  Run, Platform, Config, Flow, next, returned, raised, Done, done, bind, settle, transition, modify,
}
use loop_agent.Agent.Finish.{ensure_unverified_receipt}
use loop_agent.Agent.Turns.{Meeting, run_loop, handled, run_claimed}
use loop_agent.Agent.Ends.{Origin, last_number, Good, Rests, Ends}
use loop_agent.Agent.Stops.{receipt-Good}
use loop_agent.Agent.Rests.{IsStart, run_loop-Ends}

rule-fail : (s : LoopState) → is_working s ≡ true → rule s fail ≡ some failed
unfolding rule
rule-fail s h = ground arith

settled :
    (out : Outcome) (t : Target) (tr : LoopTransition) (r : Run)
    → out ≡ applied tr
    → settle (out, t) r ≡ next done (record r { target = t })
unfolding settle
settled (applied x) t tr r h = refl
settled (refused x) t tr r h = cc

abbrev run_of : Flow Done → Run
run_of (next d r) = r
run_of (returned r) = r
run_of (raised c r) = r

completed_state : (s : LoopState) → state_value s ≡ "completed" → s ≡ completed
unfolding state_value
completed_state s h =
    let e : some s ≡ some completed =
      sym (state_of-state_value s) ∙ ap state_of h ∙ state_of-state_value completed in
    cc

module _ (env : Platform) (cfg : Config) (seed : Origin) (bound : ℕ) where
  abbrev At : LoopState → Run → Type 0
  At s r = Good env cfg seed bound s r

  -- It returns, and the run rests.
  abbrev Returns : Flow Done → Type 0
  Returns f = (r : Run) × (f ≡ next done r) × Rests env cfg seed bound r

  failed-Good :
      (s : LoopState) (r : Run)
      → is_working s ≡ true
      → At s r
      → (t : Target) × (transition fail "unhandled_runtime_error" none r
          ≡ next done (record r { target = t }))
        × At failed (record r { target = t })
  unfolding transition
  failed-Good s r w h =
      let (a, k, m, n) =
        apply_allowed s failed r.target fail "unhandled_runtime_error" none h.consistent.named
          (rule-fail s w) (λ e. cc) in
      (
        (apply r.target fail "unhandled_runtime_error" none).1,
        settled (apply r.target fail "unhandled_runtime_error" none).0
            (apply r.target fail "unhandled_runtime_error" none).1 _ r a,
        record {
          consistent = k;
          chained = h.chained;
          headed = h.headed;
          stepped = h.stepped;
          earned = λ e. cc;
        },
      )

  handled-Returns :
      (f : Flow Done)
      → Ends env cfg seed bound (λ d. Rests env cfg seed bound) f
      → Returns (handled env f)
  unfolding handled
  handled-Returns (next done r) h = (r, refl, h)
  handled-Returns (returned r) h = (r, refl, h)
  handled-Returns (raised c r) (x, s, w, h) =
      let (t, e, k) = failed-Good s r w h in
      (
        ensure_unverified_receipt env (record r { target = t }),
        ap (λ f. bind f (λ d. modify (ensure_unverified_receipt env))) e,
        (
          failed,
          refl,
          receipt-Good env cfg seed bound failed (record r { target = t }) (λ e. cc) k,
        ),
      )

  run_claimed-Returns :
      (meets : Meeting) (history : List Entry) (r : Run)
      → cfg.max_steps ≤ bound
      → r.steps_used < bound
      → IsStart env cfg seed bound r
      → Returns (run_claimed env cfg meets history r)
  unfolding run_claimed
  run_claimed-Returns meets history r fits b h =
      handled-Returns (run_loop env cfg meets history (suc r.steps_used) r)
        (run_loop-Ends env cfg seed bound fits meets history (suc r.steps_used) r b h)

  -- The run that is returned is the one that rests.
  rested :
      (meets : Meeting) (history : List Entry) (r r' : Run)
      → cfg.max_steps ≤ bound
      → r.steps_used < bound
      → IsStart env cfg seed bound r
      → run_claimed env cfg meets history r ≡ next done r'
      → Rests env cfg seed bound r'
  rested meets history r r' fits b h e =
      let (q, p, rests) = run_claimed-Returns meets history r fits b h in
      subst (Rests env cfg seed bound) (ap run_of (sym p ∙ e)) rests

  -- Whatever the models answer or raise, whatever the tools, the checks, the look for evidence and the
  -- spawned children return, and whichever of these calls raise, where the user cancels between two
  -- turns or not at all, and the database answers: a run that starts from a prepared or claimed task,
  -- with its steps below the bound and the limit on steps within it, returns and does not raise, and
  -- the task is left waiting for the user or in a terminal state, its state, status and stop reason
  -- in agreement.
  pub run_claimed_rests :
      (meets : Meeting) (history : List Entry) (r : Run)
      → cfg.max_steps ≤ bound
      → r.steps_used < bound
      → IsStart env cfg seed bound r
      → (r' : Run) × (run_claimed env cfg meets history r ≡ next done r')
        × ((s : LoopState) × (is_working s ≡ false) × IsConsistent s r'.target)
  run_claimed_rests meets history r fits b h =
      let (r', e, (s, w, g)) = run_claimed-Returns meets history r fits b h in
      (r', e, (s, w, g.consistent))

  -- A run keeps every step that was there before it, in place, and adds its own behind them: all of
  -- them verify as one chain from the start that the ledger began with, the last hash is that of the
  -- last step, and the count of the steps used is the number of the last step that was added (what it
  -- was, if none was added) and within the bound, which the limit on steps is within too.
  pub run_claimed_chain :
      (meets : Meeting) (history : List Entry) (r r' : Run)
      → cfg.max_steps ≤ bound
      → r.steps_used < bound
      → IsStart env cfg seed bound r
      → seed.steps ≡ r.steps
      → seed.used ≡ r.steps_used
      → run_claimed env cfg meets history r ≡ next done r'
      → ((new : List Step) × (r'.steps ≡ r.steps ++ new)
          × (r'.steps_used ≡ last_number r.steps_used new))
        × (verify_from env.sha256 env.dumps seed.hash r'.steps ≡ (true, none))
        × (head_from seed.hash r'.steps ≡ r'.last_hash)
        × (r'.steps_used ≤ bound)
  run_claimed_chain meets history r r' fits b h before count e =
      let (s, w, g) = rested meets history r r' fits b h e in
      let (new, grown, last) = g.chained.1 in
      ((new, rw before at grown, rw count at last), g.chained.0, g.headed, g.stepped)

  -- A run that leaves its task completed has earned it: the score is at least the acceptance score,
  -- there is a receipt, and in strict mode it was verified by execution.
  pub run_claimed_completed :
      (meets : Meeting) (history : List Entry) (r r' : Run)
      → cfg.max_steps ≤ bound
      → r.steps_used < bound
      → IsStart env cfg seed bound r
      → run_claimed env cfg meets history r ≡ next done r'
      → r'.target.loop_state ≡ "completed"
      → (cfg.acceptance_score ≤ r'.verification_score)
        × (is_some r'.receipt_hash ≡ true)
        × (cfg.strict ≡ true → r'.verified_by ≡ some "execution")
  run_claimed_completed meets history r r' fits b h e d =
      let (s, w, g) = rested meets history r r' fits b h e in
      let earned = g.earned (completed_state s (sym g.consistent.named ∙ d)) in
      (earned.scored, earned.receipted, earned.executed)
