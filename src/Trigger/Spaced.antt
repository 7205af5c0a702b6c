-- ===== src/Trigger/Spaced.antt =====
-- However many schedulers tick at once, a trigger does not fire twice within its interval.
use loop_agent.Prelude.{
  ℕ, ◌+◌, ◌≤◌, ◌≡◌, refl, ap, sym, subst, Bool, true, Option, none, some, List, [], ◌∷◌, ◌&&◌,
  nat_eq, leb→le, Bool-cases, inl, inr, arith,
}
use loop_agent.Trigger.{
  Trigger, minutes, has_elapsed, is_due_after, is_due, same_time, claim_fire, Fire, World, hold,
  published, fire, Event, ticked, fired, switched, step, run,
}

-- The time of an event.
abbrev pub time : Event → ℕ
time (ticked a now) = now
time (fired a now) = now
time (switched now on) = now

-- The clock of the schedulers does not run backward.
pub data Clocked : ℕ → List Event → Type 0 where
  done : (t : ℕ) → Clocked t []
  next :
      (t : ℕ) {e : Event} {es : List Event} → t ≤ time e → Clocked (time e) es → Clocked t (e ∷ es)

-- The interval has passed since the last fire.
abbrev pub Elapsed : ℕ → Option ℕ → ℕ → Type 0
Elapsed interval none now = Unit
Elapsed interval (some last) now = last + minutes interval ≤ now

-- The fires are numbered down to one, the newest of them is the last that the row knows of, and each
-- is at least the interval after the one before.
abbrev pub IsSpaced : ℕ → ℕ → Option ℕ → List Fire → Type 0
IsSpaced interval count last [] = (count ≡ 0) × (last ≡ none)
IsSpaced interval count last (f ∷ fs) =
    (f.number ≡ count)
    × (last ≡ some f.at)
    × ((n : ℕ) × (before : Option ℕ) × (count ≡ n + 1)
        × Elapsed interval before f.at
        × IsSpaced interval n before fs)

record IsTimed (interval now : ℕ) (w : World) : Type 0 where
  kept : w.row.interval_minutes ≡ some interval
  spaced : IsSpaced interval w.row.fire_count w.row.last_fired_at w.fires
  waited : (a : ℕ) (t : Trigger) → w.held a ≡ some t → Elapsed interval t.last_fired_at now

Elapsed-later :
    (interval : ℕ) (last : Option ℕ) (now later : ℕ)
    → now ≤ later
    → Elapsed interval last now
    → Elapsed interval last later
Elapsed-later interval none now later h e = tt
Elapsed-later interval (some last) now later h e = omega arith

has_elapsed→Elapsed :
    (interval : ℕ) (last : Option ℕ) (now : ℕ)
    → has_elapsed last interval now ≡ true
    → Elapsed interval last now
has_elapsed→Elapsed interval none now h = tt
has_elapsed→Elapsed interval (some last) now h = leb→le _ _ h

same_time-eq : (s t : Option ℕ) → same_time s t ≡ true → s ≡ t
same_time-eq none none h = refl
same_time-eq (some s) (some t) h = ap some (ground arith)
same_time-eq none (some t) h = cc
same_time-eq (some s) none h = cc

and-both : (a b : Bool) → (a && b) ≡ true → (a ≡ true) × (b ≡ true)
and-both a b h = ground arith

none-ne-some : {t : Trigger} → none ≡ some t → ⊥
none-ne-some h = cc

some-same : {s t : Trigger} → some s ≡ some t → s ≡ t
some-same h = cc

module _ (interval : ℕ) where
  Held : ℕ → Option Trigger → Type 0
  Held now o = (t : Trigger) → o ≡ some t → Elapsed interval t.last_fired_at now

  hold-Held :
      (a : ℕ) (o : Option Trigger) (w : World) (now : ℕ)
      → Held now o
      → ((b : ℕ) → Held now (w.held b))
      → (b : ℕ) → Held now ((hold a o w).held b)
  unfolding Held
  hold-Held a o w now ho h b = elim (Bool-cases (nat_eq b a)) [
    | inl same ↦ rw same ho
    | inr other ↦ rw other (h b)
  ]

  module _ (w : World) (now later : ℕ) (h : now ≤ later) (timed : IsTimed interval now w) where
    still_waited : (b : ℕ) → Held later (w.held b)
    unfolding Held
    still_waited b t e = Elapsed-later interval t.last_fired_at now later h (timed.waited b t e)

    no_Held : Held later none
    unfolding Held
    no_Held t e = absurd (none-ne-some e)

    published-IsTimed :
        (a : ℕ) (t : Trigger)
        → Elapsed interval t.last_fired_at later
        → IsTimed interval later (published a later (claim_fire t.last_fired_at later w.row) w)
    unfolding published claim_fire Held
    published-IsTimed a t due =
        elim (Bool-cases (w.row.enabled && same_time w.row.last_fired_at t.last_fired_at)) [
          | inl free ↦
              let current = same_time-eq _ _ (and-both _ _ free).1 in
              rw free (record {
                kept = timed.kept;
                spaced = (
                  refl,
                  refl,
                  (
                    w.row.fire_count,
                    w.row.last_fired_at,
                    refl,
                    subst (λ l. Elapsed interval l later) (sym current) due,
                    timed.spaced,
                  ),
                );
                waited = hold-Held a none w later no_Held still_waited;
              })
          | inr taken ↦ rw taken (record {
            kept = timed.kept;
            spaced = timed.spaced;
            waited = hold-Held a none w later no_Held still_waited;
          })
        ]

    fire-IsTimed :
        (a : ℕ) (o : Option Trigger) → Held later o → IsTimed interval later (fire a later o w)
    unfolding fire Held
    fire-IsTimed a none ho = record {
      kept = timed.kept;
      spaced = timed.spaced;
      waited = still_waited;
    }
    fire-IsTimed a (some t) ho = elim (Bool-cases t.enabled) [
      | inl on ↦ rw on (published-IsTimed a t (ho t refl))
      | inr off ↦ rw off (record {
        kept = timed.kept;
        spaced = timed.spaced;
        waited = hold-Held a none w later no_Held still_waited;
      })
    ]

    tick-IsTimed : (a : ℕ) → IsTimed interval later (step (ticked a later) w)
    unfolding step is_due Held
    tick-IsTimed a = elim (Bool-cases (is_due w.row later)) [
      | inl due ↦
          let after =
            subst (λ i. is_due_after i w.row.last_fired_at later ≡ true) timed.kept
              (and-both _ _ due).1 in
          let elapsed = has_elapsed→Elapsed interval w.row.last_fired_at later after in
          rw due (record {
            kept = timed.kept;
            spaced = timed.spaced;
            waited =
                hold-Held a (some w.row) w later
                  (λ t e. subst (λ r. Elapsed interval r.last_fired_at later) (some-same e) elapsed)
                  still_waited;
          })
      | inr early ↦
          rw early (record { kept = timed.kept; spaced = timed.spaced; waited = still_waited })
    ]

  step-IsTimed :
      (e : Event) (w : World) (now : ℕ)
      → now ≤ time e
      → IsTimed interval now w
      → IsTimed interval (time e) (step e w)
  step-IsTimed (ticked a later) w now h timed = tick-IsTimed w now later h timed a
  step-IsTimed (fired a later) w now h timed =
      unfold step in
      fire-IsTimed w now later h timed a (w.held a) (still_waited w now later h timed a)
  step-IsTimed (switched later on) w now h timed =
      unfold step Held in
      record { kept = timed.kept; spaced = timed.spaced; waited = still_waited w now later h timed }

  run-IsTimed :
      {now : ℕ} {es : List Event} (w : World)
      → Clocked now es
      → IsTimed interval now w
      → (end : ℕ) × IsTimed interval end (run es w)
  unfolding run
  run-IsTimed {now} w (done t) timed = (now, timed)
  run-IsTimed {now} w (next t {e} {es} h rest) timed =
      run-IsTimed (step e w) rest (step-IsTimed e w now h timed)

-- A trigger that has never fired, and that nobody has read.
abbrev pub new : ℕ → World
new interval = record {
  row = record {
    enabled = true;
    interval_minutes = some interval;
    last_fired_at = none;
    fire_count = 0;
  };
  held = λ a. none;
  fires = [];
}

-- However many schedulers tick at any times, fire what they found due at any later times, and
-- whoever switches the trigger on and off in between, the clock never running backward: the tasks
-- published for a new trigger are numbered from one on without a gap or a repetition, their number
-- is the row's count, and each was published at least the interval after the one before.
pub run-IsSpaced :
    (interval : ℕ) (es : List Event)
    → Clocked 0 es
    → let w = run es (new interval) in
      IsSpaced interval w.row.fire_count w.row.last_fired_at w.fires
run-IsSpaced interval es clocked =
    (run-IsTimed interval (new interval) clocked (record {
      kept = refl;
      spaced = (refl, refl);
      waited = λ a t e. absurd (none-ne-some e);
    })).1.spaced
