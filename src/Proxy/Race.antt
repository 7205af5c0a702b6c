-- ===== src/Proxy/Race.antt =====
-- A revocation and the opening of a connection cannot miss each other.
use loop_agent.Prelude.{
  ℕ, String, ◌≡◌, refl, Bool, true, false, List, [], ◌∷◌, nat_eq, contains, arith, eq_iff,
  Bool-cases, inl, inr, ap, sym, ◌∙◌,
}
use loop_agent.Proxy.{
  Phase, opening, registered, answered, relaying, ended, Proxy, Event, connected, asked, resumed,
  finished, revocation_stored, writers_closed, connect, ask, resume, finish, leave, sweep, step,
  run, started, set,
}

-- From its registration to its end.
abbrev is_live : Phase → Bool
is_live opening = false
is_live ended = false
is_live _ = true

-- Past the check, or about to be.
abbrev is_passed : Phase → Bool
is_passed (answered false) = true
is_passed relaying = true
is_passed _ = false

record IsSafe (run_of : ℕ → String) (c : ℕ) (p : Proxy) : Type 0 where
  is_registered : is_live (p.phase c) ≡ true → p.active c ≡ true
  known : contains p.swept (run_of c) ≡ true → contains p.stored (run_of c) ≡ true
  caught : is_passed (p.phase c) ≡ true → contains p.swept (run_of c) ≡ true → p.closed c ≡ true

module _ (run_of : ℕ → String) (c : ℕ) where
  same : (d : ℕ) → nat_eq d c ≡ true → d ≡ c
  same d h = ground arith

  connect-IsSafe :
      (q : Phase) (d : ℕ) (p : Proxy) → IsSafe run_of c p → IsSafe run_of c (connect q d p)
  unfolding connect
  connect-IsSafe opening d p s = record {
    is_registered = λ h. let k = s.is_registered in grind arith;
    known = s.known;
    caught = λ h g. let k = s.caught in grind arith;
  }
  connect-IsSafe _ d p s = s

  -- Another connection's phase does not matter to this one.
  elsewhere :
      (d : ℕ) (x : Phase) (p : Proxy)
      → nat_eq d c ≡ false
      → IsSafe run_of c p
      → IsSafe run_of c (record p { phase = set p.phase d x })
  elsewhere d x p h s = record {
    is_registered = λ g. let k = s.is_registered in grind arith;
    known = s.known;
    caught = λ g m. let k = s.caught in grind arith;
  }

  ask-IsSafe :
      (q : Phase) (d : ℕ) (p : Proxy)
      → p.phase d ≡ q
      → IsSafe run_of c p
      → IsSafe run_of c (ask q (run_of d) d p)
  unfolding ask
  ask-IsSafe registered d p e s = elim (Bool-cases (nat_eq d c)) [
    | inl h ↦
        let here : p.phase c ≡ registered = ap p.phase (sym (same d h)) ∙ e in
        let runs : run_of d ≡ run_of c = ap run_of (same d h) in
        record {
          is_registered = λ g. s.is_registered (rw here refl);
          known = s.known;
          caught = λ g k. let held = s.known k in grind arith;
        }
    | inr h ↦ elsewhere d _ p h s
  ]
  ask-IsSafe _ d p e s = s

  leave-IsSafe : (d : ℕ) (p : Proxy) → IsSafe run_of c p → IsSafe run_of c (leave d p)
  unfolding leave
  leave-IsSafe d p s = record {
    is_registered = λ h. let k = s.is_registered in grind arith;
    known = s.known;
    caught = λ h g. let k = s.caught in grind arith;
  }

  resume-IsSafe :
      (q : Phase) (d : ℕ) (p : Proxy)
      → p.phase d ≡ q
      → IsSafe run_of c p
      → IsSafe run_of c (resume q d p)
  unfolding resume
  resume-IsSafe (answered false) d p e s = elim (Bool-cases (nat_eq d c)) [
    | inl h ↦
        let here : p.phase c ≡ answered false = ap p.phase (sym (same d h)) ∙ e in
        record {
          is_registered = λ g. s.is_registered (rw here refl);
          known = s.known;
          caught = λ g k. s.caught (rw here refl) k;
        }
    | inr h ↦ elsewhere d _ p h s
  ]
  resume-IsSafe (answered true) d p e s = elim (Bool-cases (nat_eq d c)) [
    | inl h ↦
        let here : p.phase c ≡ answered true = ap p.phase (sym (same d h)) ∙ e in
        record {
          is_registered = λ g. s.is_registered (rw here refl);
          known = s.known;
          caught = λ g k. grind arith;
        }
    | inr h ↦ elsewhere d _ p h s
  ]
  resume-IsSafe _ d p e s = s

  finish-IsSafe :
      (q : Phase) (d : ℕ) (p : Proxy) → IsSafe run_of c p → IsSafe run_of c (finish q d p)
  unfolding finish
  finish-IsSafe opening d p s = s
  finish-IsSafe ended d p s = s
  finish-IsSafe _ d p s = leave-IsSafe d p s

  live : (q : Phase) → is_passed q ≡ true → is_live q ≡ true
  live q h = ground arith

  sweep-IsSafe : (r : String) (p : Proxy) → IsSafe run_of c p → IsSafe run_of c (sweep run_of r p)
  unfolding sweep
  sweep-IsSafe r p s = elim (Bool-cases (contains p.stored r)) [
    | inl h ↦ rw h (record {
      is_registered = s.is_registered;
      known = λ g. let k = s.known in grind (arith, eq_iff);
      caught = λ g k.
          let a = s.is_registered (live (p.phase c) g) in
          let b = s.caught g in grind (arith, eq_iff);
    })
    | inr h ↦ rw h s
  ]

  step-IsSafe : (e : Event) (p : Proxy) → IsSafe run_of c p → IsSafe run_of c (step run_of e p)
  unfolding step
  step-IsSafe (connected d) p s = connect-IsSafe (p.phase d) d p s
  step-IsSafe (asked d) p s = ask-IsSafe (p.phase d) d p refl s
  step-IsSafe (resumed d) p s = resume-IsSafe (p.phase d) d p refl s
  step-IsSafe (finished d) p s = finish-IsSafe (p.phase d) d p s
  step-IsSafe (revocation_stored r) p s = record {
    is_registered = s.is_registered;
    known = λ h. let k = s.known h in ground arith;
    caught = s.caught;
  }
  step-IsSafe (writers_closed r) p s = sweep-IsSafe r p s

  run-IsSafe : (es : List Event) (p : Proxy) → IsSafe run_of c p → IsSafe run_of c (run run_of es p)
  unfolding run
  run-IsSafe [] p s = s
  run-IsSafe (e ∷ es) p s = run-IsSafe es (step run_of e p) (step-IsSafe e p s)

  started-IsSafe : IsSafe run_of c started
  started-IsSafe = record { is_registered = λ h. cc; known = λ h. cc; caught = λ h g. cc }

-- However the steps of any connections and revocations interleave: once a revocation of a run has
-- been stored and the writers of that run were gone through, every connection of the run that
-- relays had its writer to the destination closed, also one that was being opened meanwhile.
pub run_closes :
    (run_of : ℕ → String) (es : List Event) (c : ℕ)
    → (run run_of es started).phase c ≡ relaying
    → contains (run run_of es started).swept (run_of c) ≡ true
    → (run run_of es started).closed c ≡ true
run_closes run_of es c h g =
    let safe = run-IsSafe run_of c es started (started-IsSafe run_of c) in safe.caught (rw h refl) g
