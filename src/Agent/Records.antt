-- ===== src/Agent/Records.antt =====
-- What a recorded step keeps: the chain, and the bound on the steps.
use loop_agent.Prelude.{
  ℕ, ◌≤◌, String, ◌≡◌, refl, true, none, List, [], ◌∷◌, ◌++◌, arith, ◌==◌, eq_iff, ap, sym, ◌∙◌,
}
use mathlib.Core.List.{append_assoc}
use loop_agent.Json.{Fields}
use loop_agent.Loop.{LoopState}
use loop_agent.Ledger.{
  Step, verify_from, head_from, hash_matches, step_hash, body, step_fields, links_to,
}
use loop_agent.Guard.{ToolStatus}
use loop_agent.Agent.State.{Run, Platform, Config, M, bind}
use loop_agent.Agent.Record.{sealed, record_step}
use loop_agent.Agent.Ends.{Origin, Grown, last_number, Good, Ends, bind-Ends, Earned-keep}

last_number-snoc :
    (n : ℕ) (steps : List Step) (s : Step) → last_number n (steps ++ s ∷ []) ≡ s.number
unfolding last_number
last_number-snoc n [] s = refl
last_number-snoc n (x ∷ xs) s = last_number-snoc x.number xs s

-- A step behind the others, which its number counts.
Grown-snoc :
    (o : Origin) (steps : List Step) (used : ℕ) (s : Step)
    → Grown o steps used
    → Grown o (steps ++ s ∷ []) s.number
Grown-snoc o steps used s (new, e, c) = (
  new ++ s ∷ [],
  ap (λ x. x ++ s ∷ []) e ∙ append_assoc o.steps new (s ∷ []),
  sym (last_number-snoc o.used new s),
)

module _ (env : Platform) where
  hash-sealed :
      (prev : String) (n : ℕ) (thought tool : String) (args : Fields) (o : String) (st : ToolStatus)
      (k : ℕ)
      → let s = sealed env prev n thought tool args o st k in
        (s.hash == step_hash env.sha256 env.dumps prev s s.thought) ≡ true
  unfolding sealed step_hash body step_fields
  hash-sealed prev n thought tool args o st k = (eq_iff _ _).1 refl

  -- A step that is sealed over the hash before it matches its hash.
  hash_matches-sealed :
      (prev : String) (n : ℕ) (thought tool : String) (args : Fields) (o : String) (st : ToolStatus)
      (k : ℕ)
      → hash_matches env.sha256 env.dumps prev (sealed env prev n thought tool args o st k) ≡ true
  unfolding hash_matches
  hash_matches-sealed prev n thought tool args o st k =
      rw (hash-sealed prev n thought tool args o st k) refl

  links-sealed :
      (prev : String) (n : ℕ) (thought tool : String) (args : Fields) (o : String) (st : ToolStatus)
      (k : ℕ)
      → links_to (sealed env prev n thought tool args o st k).prev_hash prev ≡ true
  unfolding sealed
  links-sealed prev n thought tool args o st k = (eq_iff prev prev).1 refl

  verify_from-append :
      (seed : String) (steps : List Step) (s : Step)
      → verify_from env.sha256 env.dumps seed steps ≡ (true, none)
      → links_to s.prev_hash (head_from seed steps) ≡ true
      → hash_matches env.sha256 env.dumps (head_from seed steps) s ≡ true
      → verify_from env.sha256 env.dumps seed (steps ++ s ∷ []) ≡ (true, none)
  unfolding verify_from
  verify_from-append seed [] s v l m = rw (l, m) refl
  verify_from-append seed (x ∷ xs) s v l m =
      let ih = verify_from-append x.hash xs s in ground (arith, ih)

  head_from-append :
      (seed : String) (steps : List Step) (s : Step) → head_from seed (steps ++ s ∷ []) ≡ s.hash
  head_from-append seed [] s = refl
  head_from-append seed (x ∷ xs) s = head_from-append x.hash xs s

  module _ (cfg : Config) (seed : Origin) (bound : ℕ) where
    pub record_step-Ends :
        (s : LoopState) (n : ℕ) (thought tool : String) (args : Fields) (o : String)
        (st : ToolStatus) (k : ℕ) (r : Run)
        → n ≤ bound
        → Good env cfg seed bound s r
        → Ends env cfg seed bound
            (λ d. Good env cfg seed bound s)
            (record_step env n thought tool args o st k r)
    unfolding record_step sealed
    record_step-Ends s n thought tool args o st k r b h =
        let o' = env.redact o in
        let step = sealed env r.last_hash n thought tool args o' st k in
        record {
          consistent = h.consistent;
          chained = (
            verify_from-append seed.hash r.steps step h.chained.0
                (rw h.headed (links-sealed r.last_hash n thought tool args o' st k))
                (rw h.headed (hash_matches-sealed r.last_hash n thought tool args o' st k)),
            Grown-snoc seed r.steps r.steps_used step h.chained.1,
          );
          headed = head_from-append seed.hash r.steps step;
          stepped = b;
          earned = λ w. Earned-keep r _ (h.earned w) refl refl refl;
        }

    -- The rest of a call, after a step is recorded.
    pub record_step-then :
        {A : Type 0} (P : A → Run → Type 0) (s : LoopState) (n : ℕ) (thought tool : String)
        (args : Fields) (o : String) (st : ToolStatus) (t : ℕ) (k : M A) (r : Run)
        → n ≤ bound
        → Good env cfg seed bound s r
        → ((r' : Run) → Good env cfg seed bound s r' → Ends env cfg seed bound P (k r'))
        → Ends env cfg seed bound P (bind (record_step env n thought tool args o st t r) (λ d. k))
    record_step-then P s n thought tool args o st t k r b h g =
        bind-Ends env cfg seed bound (λ d. Good env cfg seed bound s) P
          (record_step env n thought tool args o st t r) (λ d. k)
          (record_step-Ends s n thought tool args o st t r b h) (λ d. g)
