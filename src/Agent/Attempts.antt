-- ===== src/Agent/Attempts.antt =====
-- How a verification ends: the run is completed and has earned it, or it is still verifying.
use Prim.Native.String.{◌++◌ as append}
use loop_agent.Prelude.{
  ℕ, ◌+◌, ◌≤◌, String, ◌≡◌, refl, ap, Bool, true, false, Option, none, some, List, Option-cases,
  Bool-cases, inl, inr,
}
use loop_agent.Json.{Fields}
use loop_agent.Checks.{CheckResult}
use loop_agent.Acceptance.{VerificationDecision}
use loop_agent.Acceptance.Decision.{evaluate-accepted}
use loop_agent.Loop.{
  LoopState, budget_exhausted, verifying, stopped, completed, verification_accepted, rule,
}
use loop_agent.Guard.{ok, error}
use loop_agent.Agent.State.{Run, Platform, Config, Reply, replied, failed, Verification}
use loop_agent.Agent.Finish.{
  finish, conclude, decided, unverified, verified, handle_finish, on_results, Attempt,
}
use loop_agent.Agent.Ends.{
  Origin, Good, Good-keep, Rests, Ends, bind-Ends, call-then, transition-Ends,
}
use loop_agent.Agent.Records.{record_step-then}
use loop_agent.Agent.Stops.{finish-Ends}

rule-accepted : rule verifying verification_accepted ≡ some completed
unfolding rule
rule-accepted = refl

module _ (env : Platform) (cfg : Config) (seed : Origin) (bound : ℕ) where
  abbrev At : LoopState → Run → Type 0
  At s r = Good env cfg seed bound s r

  -- An attempt that ends the run leaves it at rest, any other leaves it verifying.
  abbrev pub Attempted : Attempt → Run → Type 0
  Attempted (true, score, summary) r = Rests env cfg seed bound r
  Attempted (false, score, summary) r = At verifying r

  -- What an accepted decision has to say.
  abbrev Sound : VerificationDecision → Type 0
  Sound d =
      d.accepted ≡ true
      → (cfg.acceptance_score ≤ d.score) × (cfg.strict ≡ true → d.verified_by ≡ "execution")

  conclude-Ends :
      (d : VerificationDecision) (summary : String) (r : Run)
      → Sound d
      → At verifying r
      → Ends env cfg seed bound Attempted (conclude env cfg d summary r)
  unfolding conclude finish
  conclude-Ends d summary r a h = elim (Bool-cases d.accepted) [
    | inl e ↦
        elim (Option-cases (
          env.build_receipt
            (record r {
              summary = some summary;
              verification_score = d.score;
              verified_by = some d.verified_by;
            })
            d.verified_by)) [
              | inl o ↦
                  rw (e, o)
                    (
                      tt,
                      verifying,
                      refl,
                      Good-keep env cfg seed bound verifying r _ h refl refl refl refl (λ w. cc),
                    )
              | inr (x, o) ↦
                  rw (e, o)
                    (let r' : Run = record r {
                      summary = some summary;
                      verification_score = d.score;
                      verified_by = some d.verified_by;
                      receipt_hash = some x;
                    } in
                      bind-Ends env cfg seed bound (λ _. At completed) Attempted _ _
                        (transition-Ends env cfg seed bound verifying completed
                          verification_accepted _ none r'
                          (Good-keep env cfg seed bound verifying r r' h refl refl refl refl
                            (λ w. cc))
                          rule-accepted (λ w. cc)
                          (λ w. record {
                            scored = (a e).0;
                            receipted = refl;
                            executed = λ s. ap some ((a e).1 s);
                          }))
                        (λ _ r'' k. (completed, refl, k)))
            ]
    | inr e ↦ rw e h
  ]

  -- The decision on the results is sound.
  decided-Ends :
      (o : Option VerificationDecision) (rs : List CheckResult) (thought : String) (args : Fields)
      (n : ℕ) (summary : String) (tokens : ℕ) (r : Run)
      → ((d : VerificationDecision) → o ≡ some d → Sound d)
      → n ≤ bound
      → At verifying r
      → Ends env cfg seed bound Attempted (decided env cfg o rs thought args n summary tokens r)
  unfolding decided
  decided-Ends none rs thought args n summary tokens r a b h = (tt, verifying, refl, h)
  decided-Ends (some d) rs thought args n summary tokens r a b h =
      record_step-then env cfg seed bound Attempted verifying n thought "finish" args _ ok tokens _
        r b h (λ r' k. conclude-Ends d summary r' (a d refl) k)

  unverified-Ends :
      (exhausted : Bool) (summary : String) (r : Run)
      → At verifying r
      → Ends env cfg seed bound Attempted (unverified env cfg exhausted summary r)
  unfolding unverified
  unverified-Ends exhausted summary r h = elim (Bool-cases exhausted) [
    | inl e ↦ rw e (
        bind-Ends env cfg seed bound (λ _. At stopped) Attempted _ _
          (finish-Ends env cfg seed bound verifying budget_exhausted r refl refl h)
          (λ _ r' m. (stopped, refl, m)))
    | inr e ↦ rw e (tt, verifying, refl, h)
  ]

  verified-Ends :
      (contract : Bool) (rs : List CheckResult) (reply : Reply) (thought : String) (args : Fields)
      (n : ℕ) (summary : String) (tokens : ℕ) (r : Run)
      → n ≤ bound
      → At verifying r
      → Ends env cfg seed bound Attempted
          (verified env cfg contract rs reply thought args n summary tokens r)
  unfolding verified
  verified-Ends contract rs (replied t content) thought args n summary tokens r b h =
      decided-Ends _ rs thought args n summary (tokens + t) r
        (λ d e a. evaluate-accepted env.float_of_int env.float_of_text env.repr _ rs _ {d = d} e a)
        b h
  verified-Ends contract rs (failed t exhausted detail) thought args n summary tokens r b h =
      record_step-then env cfg seed bound Attempted verifying n thought "finish" args
        (append "Verification could not complete: " detail) error (tokens + t)
        (unverified env cfg exhausted summary) r b h
        (λ r' k. unverified-Ends exhausted summary r' k)

  on_results-Ends :
      (v : Verification) (args : Fields) (thought : String) (n tokens : ℕ) (r : Run)
      → n ≤ bound
      → At verifying r
      → Ends env cfg seed bound Attempted (on_results env cfg v args thought n tokens r)
  unfolding on_results
  on_results-Ends v args thought n tokens r b h =
      verified-Ends _ _ v.reply thought args n _ tokens r b h

  -- A verification is over at rest, or still verifying; it raises what is not of the policy.
  pub handle_finish-Ends :
      (v : Verification) (args : Fields) (thought : String) (n tokens : ℕ) (r : Run)
      → n ≤ bound
      → At verifying r
      → Ends env cfg seed bound Attempted (handle_finish env cfg v args thought n tokens r)
  unfolding handle_finish
  handle_finish-Ends v args thought n tokens r b h =
      call-then env cfg seed bound Attempted verifying v.raises
        (on_results env cfg v args thought n tokens) r refl h
        (on_results-Ends v args thought n tokens r b h)
