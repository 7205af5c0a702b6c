-- ===== src/Ledger/Legacy.antt =====
-- The hashes of ledgers written before thoughts were hashed, which are still accepted.
use loop_agent.Prelude.{String, ◌≡◌, refl, true, none, List, [], ◌∷◌, ◌==◌, map, All, arith, ap}
use loop_agent.Json.{Value}
use loop_agent.Ledger.{Step, step_fields, body, step_hash, hash_matches, verify_from, verify_chain}

-- The same step with another thought.
abbrev pub rethink : (Step → String) → Step → Step
rethink f s = record s { thought = f s }

module _ (sha256 : String → String) (dumps : Value → String) where
  thoughtless :
      (prev : String) (s : Step)
      → s.thought ≡ ""
      → hash_matches sha256 dumps prev s ≡ true
      → (s.hash == step_hash sha256 dumps prev s "") ≡ true
  unfolding hash_matches
  thoughtless prev s e h = ground (arith, ap (step_hash sha256 dumps prev s) e)

  step_hash-rethink :
      (f : Step → String) (prev : String) (s : Step)
      → step_hash sha256 dumps prev (rethink f s) "" ≡ step_hash sha256 dumps prev s ""
  unfolding step_hash body step_fields
  step_hash-rethink f prev s = refl

  hash_matches-rethink :
      (f : Step → String) (prev : String) (s : Step)
      → s.thought ≡ ""
      → hash_matches sha256 dumps prev s ≡ true
      → hash_matches sha256 dumps prev (rethink f s) ≡ true
  unfolding hash_matches
  hash_matches-rethink f prev s e h =
      ground (arith, thoughtless prev s e h, step_hash-rethink f prev s)

  verify_from-rethink :
      (f : Step → String) (prev : String) (steps : List Step)
      → All (λ s. s.thought ≡ "") steps
      → verify_from sha256 dumps prev steps ≡ (true, none)
      → verify_from sha256 dumps prev (map (rethink f) steps) ≡ (true, none)
  unfolding verify_from
  verify_from-rethink f prev [] a h = refl
  verify_from-rethink f prev (s ∷ rest) a h =
      ground (arith, hash_matches-rethink f prev s a.0, verify_from-rethink f s.hash rest a.1)

  -- A ledger whose steps have no thoughts still verifies after any thoughts are written into them:
  -- the hash without a thought is accepted for a step that has one.
  pub verify_chain-rethink :
      (f : Step → String) (task_id : String) (steps : List Step)
      → All (λ s. s.thought ≡ "") steps
      → verify_chain sha256 dumps task_id steps ≡ (true, none)
      → verify_chain sha256 dumps task_id (map (rethink f) steps) ≡ (true, none)
  unfolding verify_chain
  verify_chain-rethink f task_id steps a h = verify_from-rethink f _ steps a h
