-- ===== src/Agent/Ends.antt =====
-- The invariant of a run, and what holds after a call by how it ends.
use loop_agent.Prelude.{
  ℕ, ◌≤◌, String, Bool, ◌≡◌, ◌≢◌, refl, true, false, Option, none, some, is_some, List, [], ◌∷◌,
  ◌++◌,
}
use loop_agent.Loop.{
  LoopState, LoopEvent, StopReason, limit_reached, completed, Target, apply, applied,
  raised as refused, Outcome, LoopTransition, rule, is_working, is_bounded,
}
use loop_agent.Loop.Policy.{IsConsistent, apply_allowed, transition_of}
use loop_agent.Ledger.{Step, verify_from, head_from}
use loop_agent.Agent.State.{
  Run, Platform, Config, Cause, invalid_transition, Flow, next, returned, raised, M, bind, call,
  settle, transition,
}

-- The raise is not of the transition policy.
abbrev pub IsNoRefusal : Cause → Type 0
IsNoRefusal (invalid_transition x) = ⊥
IsNoRefusal _ = Unit {0}

-- What a completed task has.
pub record Earned (cfg : Config) (r : Run) : Type 0 where
  pub scored : cfg.acceptance_score ≤ r.verification_score
  pub receipted : is_some r.receipt_hash ≡ true
  pub executed : cfg.strict ≡ true → r.verified_by ≡ some "execution"

pub Earned-keep :
    {cfg : Config} (r r' : Run)
    → Earned cfg r
    → r'.verification_score ≡ r.verification_score
    → r'.receipt_hash ≡ r.receipt_hash
    → r'.verified_by ≡ r.verified_by
    → Earned cfg r'
Earned-keep r r' h a b c = record {
  scored = rw a h.scored;
  receipted = rw b h.receipted;
  executed = rw c h.executed;
}

-- Where a run's ledger begins: the hash that its first step links to, the steps that are there, and
-- their count.
pub record Origin : Type 0 where
  pub hash : String
  pub steps : List Step
  pub used : ℕ

-- The number of the last step, where there is one.
unfoldable pub last_number : ℕ → List Step → ℕ
last_number n [] = n
last_number n (s ∷ steps) = last_number s.number steps

-- The steps are those at the origin and others behind them, and the count is the number of the last
-- one recorded.
abbrev pub Grown : Origin → List Step → ℕ → Type 0
Grown o steps used = (new : List Step) × (steps ≡ o.steps ++ new) × (used ≡ last_number o.used new)

module _ (env : Platform) (cfg : Config) (seed : Origin) (bound : ℕ) where
  -- The run in a state: its columns agree, its ledger verifies up to the hash that the next step
  -- links to and holds the steps of its origin, its steps are within the bound, and a completed run has earned it.
  pub record Good (s : LoopState) (r : Run) : Type 0 where
    pub consistent : IsConsistent s r.target
    pub chained :
        (verify_from env.sha256 env.dumps seed.hash r.steps ≡ (true, none))
        × Grown seed r.steps r.steps_used
    pub headed : head_from seed.hash r.steps ≡ r.last_hash
    pub stepped : r.steps_used ≤ bound
    pub earned : s ≡ completed → Earned cfg r

  -- The loop is over, or waits for the user.
  abbrev pub Rests : Run → Type 0
  Rests r = (s : LoopState) × (is_working s ≡ false) × Good s r

  -- It was at work, and the policy refused nothing.
  abbrev pub Breaks : Cause → Run → Type 0
  Breaks c r = IsNoRefusal c × (s : LoopState) × (is_working s ≡ true) × Good s r

  abbrev pub Ends : {A : Type 0} → (A → Run → Type 0) → Flow A → Type 0
  Ends P (next a r) = P a r
  Ends P (returned r) = Rests r
  Ends P (raised c r) = Breaks c r

  pub bind-Ends :
      {A B : Type 0} (P : A → Run → Type 0) (Q : B → Run → Type 0) (f : Flow A) (g : A → M B)
      → Ends P f
      → ((a : A) (r : Run) → P a r → Ends Q (g a r))
      → Ends Q (bind f g)
  bind-Ends P Q (next a r) g h k = k a r h
  bind-Ends P Q (returned r) g h k = h
  bind-Ends P Q (raised c r) g h k = h

  -- What is not of the columns, the ledger and the count may change.
  pub Good-keep :
      (s : LoopState) (r r' : Run)
      → Good s r
      → r'.target ≡ r.target
      → r'.steps ≡ r.steps
      → r'.last_hash ≡ r.last_hash
      → r'.steps_used ≡ r.steps_used
      → (s ≡ completed → Earned cfg r')
      → Good s r'
  Good-keep s r r' h a b c d e = record {
    consistent = rw a h.consistent;
    chained = rw (b, d) h.chained;
    headed = rw (b, c) h.headed;
    stepped = rw d h.stepped;
    earned = e;
  }

  -- The rest of a call, after what is outside was called in a state at work.
  pub call-then :
      {A : Type 0} (P : A → Run → Type 0) (s : LoopState) (raises : Bool) (k : M A) (r : Run)
      → is_working s ≡ true
      → Good s r
      → Ends P (k r)
      → Ends P (bind (call raises r) (λ d. k))
  unfolding call
  call-then P s true k r w h g = (tt, s, w, h)
  call-then P s false k r w h g = g

  settle-Ends :
      (s q : LoopState) (out : Outcome) (t : Target) (tr : LoopTransition) (r : Run)
      → Good s r
      → out ≡ applied tr
      → IsConsistent q t
      → (q ≡ completed → Earned cfg r)
      → Ends (λ d. Good q) (settle (out, t) r)
  unfolding settle
  settle-Ends s q (applied x) t tr r h p k c = record {
    consistent = k;
    chained = h.chained;
    headed = h.headed;
    stepped = h.stepped;
    earned = λ w. Earned-keep r _ (c w) refl refl refl;
  }
  settle-Ends s q (refused x) t tr r h p k c = cc

  pub weaken-Ends :
      {A : Type 0} (P Q : A → Run → Type 0) (f : Flow A)
      → Ends P f
      → ((a : A) (r : Run) → P a r → Q a r)
      → Ends Q f
  weaken-Ends P Q (next a r) h k = k a r h
  weaken-Ends P Q (returned r) h k = h
  weaken-Ends P Q (raised c r) h k = h

  -- A transition that the table allows leads from a good run to a good run.
  pub transition-Ends :
      (s q : LoopState) (e : LoopEvent) (reason : String) (stop : Option StopReason) (r : Run)
      → Good s r
      → rule s e ≡ some q
      → (e ≡ limit_reached → is_bounded stop ≡ true)
      → (q ≡ completed → Earned cfg r)
      → Ends (λ d. Good q) (transition e reason stop r)
  unfolding transition
  transition-Ends s q e reason stop r h a b c =
      let (p, k, m, n) = apply_allowed s q r.target e reason stop h.consistent.named a b in
      settle-Ends s q (apply r.target e reason stop).0 (apply r.target e reason stop).1
        (transition_of s q e reason r.target) r h p k c

  -- The rest of a call, after a transition to a state that is not the completed one.
  pub transition-then :
      {A : Type 0} (P : A → Run → Type 0) (s q : LoopState) (e : LoopEvent) (reason : String)
      (stop : Option StopReason) (k : M A) (r : Run)
      → Good s r
      → rule s e ≡ some q
      → (e ≡ limit_reached → is_bounded stop ≡ true)
      → (q ≢ completed)
      → ((r' : Run) → Good q r' → Ends P (k r'))
      → Ends P (bind (transition e reason stop r) (λ d. k))
  transition-then P s q e reason stop k r h a b c g =
      bind-Ends (λ d. Good q) P (transition e reason stop r) (λ d. k)
        (transition-Ends s q e reason stop r h a b (λ w. absurd (c w))) (λ d. g)
