-- ===== src/Task/Sealed.antt =====
-- A last step that is sealed again keeps the chain of the steps.
use loop_agent.Prelude.{
  String, ◌≡◌, inl, inr, refl, ap, true, Option, none, some, List, [], ◌∷◌, arith, Bool-cases, ◌==◌,
  eq_iff,
}
use loop_agent.Ledger.{Step, links_to, hash_matches, step_hash, body, step_fields, verify_from}
use loop_agent.Task.{reseal, prev_or_empty, edit_last}
use loop_agent.Task.Reading.{Library}

links-prev : (p : Option String) (prev : String) → links_to p prev ≡ true → prev_or_empty p ≡ prev
links-prev none prev l = cc
links-prev (some h) prev l = (eq_iff h prev).0 l

module _ (lib : Library) where
  hash-reseal :
      (prev o : String) (s : Step)
      → links_to s.prev_hash prev ≡ true
      → ((reseal lib o s).hash
          == step_hash lib.sha256 lib.dumps prev (reseal lib o s) (reseal lib o s).thought)
        ≡ true
  unfolding reseal step_hash body step_fields
  hash-reseal prev o s l = (eq_iff _ _).1 (
      ap (λ p. step_hash lib.sha256 lib.dumps p (reseal lib o s) s.thought)
        (links-prev s.prev_hash prev l))

  hash_matches-reseal :
      (prev o : String) (s : Step)
      → links_to s.prev_hash prev ≡ true
      → hash_matches lib.sha256 lib.dumps prev (reseal lib o s) ≡ true
  unfolding hash_matches
  hash_matches-reseal prev o s l = rw (hash-reseal prev o s l) refl

  verified-step :
      (prev : String) (s : Step) (rest : List Step)
      → verify_from lib.sha256 lib.dumps prev (s ∷ rest) ≡ (true, none)
      → (links_to s.prev_hash prev ≡ true)
        × (hash_matches lib.sha256 lib.dumps prev s ≡ true)
        × (verify_from lib.sha256 lib.dumps s.hash rest ≡ (true, none))
  unfolding verify_from
  verified-step prev s rest h = elim (Bool-cases (links_to s.prev_hash prev)) [
    | inr e ↦ ground arith
    | inl e ↦ elim (Bool-cases (hash_matches lib.sha256 lib.dumps prev s)) [
      | inr m ↦ ground arith
      | inl m ↦ (e, m, ground arith)
    ]
  ]

  -- Sealing the last step again keeps the chain.
  pub verify_from-edit_last :
      (f : String → String) (prev : String) (steps : List Step)
      → verify_from lib.sha256 lib.dumps prev steps ≡ (true, none)
      → verify_from lib.sha256 lib.dumps prev (edit_last lib f steps) ≡ (true, none)
  unfolding verify_from edit_last
  verify_from-edit_last f prev [] h = h
  verify_from-edit_last f prev (s ∷ []) h =
      let (l, m, r) = verified-step prev s [] h in
      let same : links_to (reseal lib (f s.observation) s).prev_hash prev ≡ true =
        unfold reseal in l in
      rw (same, hash_matches-reseal prev (f s.observation) s l) refl
  verify_from-edit_last f prev (s ∷ s' ∷ rest) h =
      let (l, m, r) = verified-step prev s (s' ∷ rest) h in
      rw (l, m) (verify_from-edit_last f s.hash (s' ∷ rest) r)
