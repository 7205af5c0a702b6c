-- ===== src/Trigger.antt =====
-- apps/api/app/services/trigger.py and apps/api/app/repositories/trigger.py: when an interval
-- trigger is due, and how one of several schedulers claims a fire of it. Times are microseconds.
pub mod Spaced
mod Examples
use loop_agent.Prelude.{
  ℕ, ◌+◌, ◌*◌, Bool, true, false, Option, none, some, List, [], ◌∷◌, ◌&&◌, nat_eq, leb,
  if◌then◌else◌,
}

-- The columns of a trigger that firing reads and writes.
pub record Trigger : Type 0 where
  pub enabled : Bool
  pub interval_minutes : Option ℕ
  pub last_fired_at : Option ℕ
  pub fire_count : ℕ

-- Minutes as microseconds.
abbrev pub minutes : ℕ → ℕ
minutes n = n * 60000000

abbrev pub has_elapsed : Option ℕ → ℕ → ℕ → Bool
has_elapsed none interval now = true
has_elapsed (some last) interval now = leb (last + minutes interval) now

abbrev pub is_due_after : Option ℕ → Option ℕ → ℕ → Bool
is_due_after none last now = false
is_due_after (some interval) last now = has_elapsed last interval now

-- `_is_due`
unfoldable pub is_due : Trigger → ℕ → Bool
is_due t now = t.enabled && is_due_after t.interval_minutes t.last_fired_at now

abbrev pub same_time : Option ℕ → Option ℕ → Bool
same_time none none = true
same_time (some s) (some t) = nat_eq s t
same_time _ _ = false

-- `claim_fire`: the row after the UPDATE, where its conditions hold.
unfoldable pub claim_fire : Option ℕ → ℕ → Trigger → Option Trigger
claim_fire expected now row =
    if row.enabled && same_time row.last_fired_at expected
    then some (record row { last_fired_at = some now; fire_count = row.fire_count + 1 })
    else none

-- The number in the idempotency key of a task that was published, and when.
pub record Fire : Type 0 where
  pub number : ℕ
  pub at : ℕ

-- The row, what each scheduler has read of it and is about to fire, and the fires, newest first.
pub record World : Type 0 where
  pub row : Trigger
  pub held : ℕ → Option Trigger
  pub fires : List Fire

abbrev pub hold : ℕ → Option Trigger → World → World
hold a t w = record w { held = λ b. if nat_eq b a then t else w.held b }

unfoldable pub published : ℕ → ℕ → Option Trigger → World → World
published a now none w = hold a none w
published a now (some row) w =
    hold a none
      (record w { row = row; fires = record { number = row.fire_count; at = now } ∷ w.fires })

-- `fire`, of the trigger as it was read; a conflict leaves everything alone.
unfoldable pub fire : ℕ → ℕ → Option Trigger → World → World
unfolding claim_fire published
fire a now none w = w
fire a now (some t) w =
    if t.enabled then published a now (claim_fire t.last_fired_at now w.row) w else hold a none w

-- A scheduler finds the trigger due, in the list of a `tick`; it fires what it found; or the trigger
-- is switched on or off.
pub data Event : Type 0 where
  ticked : ℕ → ℕ → Event
  fired : ℕ → ℕ → Event
  switched : ℕ → Bool → Event

unfoldable pub step : Event → World → World
unfolding is_due fire
step (ticked a now) w = if is_due w.row now then hold a (some w.row) w else w
step (fired a now) w = fire a now (w.held a) w
step (switched now on) w = record w { row = record w.row { enabled = on } }

unfoldable pub run : List Event → World → World
unfolding step
run [] w = w
run (e ∷ es) w = run es (step e w)
