-- ===== src/Queue/Lossless.antt =====
-- No job is lost, however many workers live at the same time and overtake each other.
use loop_agent.Prelude.{ℕ, Bool, List, [], ◌∷◌, ◌&&◌, nat_eq, ltb, inl, inr, Bool-cases}
use loop_agent.Prelude.Codes.{take}
use loop_agent.Queue.{Entry, Library, job}
use loop_agent.Queue.Worker.{Handler, select, stale, fresh, pending_deliveries}
use loop_agent.Queue.Shared.{
  Hand, waits, works, System, Event, published, takes_over, reads, begins, ends, killed, set_hand,
  take_batch, begin, begin_next, end_job, step, run,
}
use loop_agent.Queue.Effects.{dead_letter-Effect, on_end-Effect}
use loop_agent.Queue.Conserved.{IsSound, Effect-IsSound, enqueue-IsSound, delivered-IsSound}

module _ (lib : Library) (limit : ℕ) (run_task : Handler) where
  take_batch-IsSound :
      (w : ℕ) (h : Hand) (p : Entry → Bool) (n : ℕ) (y : System)
      → IsSound y.store
      → IsSound (take_batch w h (take n (select p y.store.queue)) y).store
  unfolding take_batch set_hand
  take_batch-IsSound w (waits []) p n y sound = (delivered-IsSound p n y.store sound).0
  take_batch-IsSound w (waits (e ∷ es)) p n y sound = sound
  take_batch-IsSound w (works e x es) p n y sound = sound

  begin_next-IsSound :
      (w : ℕ) (h : Hand) (y : System)
      → IsSound y.store
      → IsSound (begin_next lib limit run_task w h y).store
  unfolding begin_next begin set_hand
  begin_next-IsSound w (waits []) y sound = sound
  begin_next-IsSound w (works e x es) y sound = sound
  begin_next-IsSound w (waits (e ∷ es)) y sound =
      elim (Bool-cases (ltb limit (pending_deliveries e.id y.store.queue))) [
        | inr b ↦ rw b sound
        | inl b ↦ rw b (
            Effect-IsSound lib limit e y.store sound _
              (dead_letter-Effect lib limit e y.store "visibility lease expired repeatedly"))
      ]

  end_job-IsSound :
      (w : ℕ) (h : Hand) (y : System)
      → IsSound y.store
      → IsSound (end_job lib limit run_task w h y).store
  unfolding end_job set_hand
  end_job-IsSound w (waits es) y sound = sound
  end_job-IsSound w (works e x es) y sound =
      Effect-IsSound lib limit e y.store sound _ (on_end-Effect lib limit e y.store x)

  step-IsSound :
      (e : Event) (y : System) → IsSound y.store → IsSound (step lib limit run_task e y).store
  unfolding step stale fresh set_hand
  step-IsSound (published job_id type payload at) y sound =
      enqueue-IsSound (job job_id type payload at) y.store sound
  step-IsSound (takes_over w idle) y sound =
      take_batch-IsSound w (y.hands w) (λ e. ltb 0 e.deliveries && idle e.id) 10 y sound
  step-IsSound (reads w) y sound =
      take_batch-IsSound w (y.hands w) (λ e. nat_eq e.deliveries 0) 1 y sound
  step-IsSound (begins w) y sound = begin_next-IsSound w (y.hands w) y sound
  step-IsSound (ends w) y sound = end_job-IsSound w (y.hands w) y sound
  step-IsSound (killed w) y sound = sound

  pub run-IsSound :
      (es : List Event) (y : System) → IsSound y.store → IsSound (run lib limit run_task es y).store
  unfolding run
  run-IsSound [] y sound = sound
  run-IsSound (e ∷ es) y sound =
      run-IsSound es (step lib limit run_task e y) (step-IsSound e y sound)
