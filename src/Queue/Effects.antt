-- ===== src/Queue/Effects.antt =====
-- What `_process` of apps/api/app/workers/worker.py does to the queue, whatever its job does.
use loop_agent.Json.{ℤ}
use loop_agent.Prelude.{
  ℕ, ◌+◌, ◌≡◌, refl, String, Bool, true, false, Option, none, some, [], ◌∷◌, ◌++◌, ltb, arith, inl,
  inr, Bool-cases,
}
use loop_agent.Queue.{
  Fields, Entry, Store, Library, put, cut, xadd, without, acknowledge, dead_letter, retry, complete,
}
use loop_agent.Queue.Worker.{
  Handler, Ended, returned, died, failed, body, pending_deliveries, at_least, next_attempt,
  attempt_of, on_failure, on_end, process,
}

-- An entry that a failed job leaves behind.
unfoldable pub again : Library → ℤ → Fields → String → ℕ → Entry
unfolding put cut
again lib a fs error i = record {
  id = i;
  fields = put "last_error" (cut 1000 error) (put "attempt" (lib.str (next_attempt a)) fs);
  deliveries = 0;
}

-- The outcomes of one call of `_process`.
pub data Effect (lib : Library) (limit : ℕ) (e : Entry) (s : Store) (r : Bool × Store)
    : Type 0 where
  kept : r ≡ (false, s) → Effect lib limit e s r
  settled :
      r.1.queue ≡ without e.id s.queue
      → r.1.next ≡ s.next
      → r.1.counts.enqueued ≡ s.counts.enqueued
      → r.1.counts.completed + r.1.counts.dead_lettered
        ≡ s.counts.completed + s.counts.dead_lettered + 1
      → Effect lib limit e s r
  requeued :
      (a : ℤ) (error : String)
      → attempt_of lib e.fields ≡ some a
      → at_least a limit ≡ false
      → r.1.queue ≡ without e.id (s.queue ++ again lib a e.fields error s.next ∷ [])
      → r.1.next ≡ s.next + 1
      → r.1.counts.enqueued ≡ s.counts.enqueued
      → r.1.counts.completed + r.1.counts.dead_lettered
        ≡ s.counts.completed + s.counts.dead_lettered
      → Effect lib limit e s r

module _ (lib : Library) (limit : ℕ) (e : Entry) (s : Store) where
  pub dead_letter-Effect :
      (error : String) → Effect lib limit e s (true, dead_letter lib e.id e.fields error s)
  unfolding dead_letter acknowledge
  dead_letter-Effect error = settled refl refl refl (omega arith)

  on_failure-Effect :
      (error : String) (a : Option ℤ)
      → attempt_of lib e.fields ≡ a
      → Effect lib limit e s (on_failure lib limit e.id e.fields error a s)
  unfolding on_failure
  on_failure-Effect error none h = kept refl
  on_failure-Effect error (some a) h = elim (Bool-cases (at_least a limit)) [
    | inl b ↦ rw b (dead_letter-Effect error)
    | inr b ↦ rw b (unfold retry acknowledge xadd again in requeued a error h b refl refl refl refl)
  ]

  pub on_end-Effect : (x : Ended) → Effect lib limit e s (on_end lib limit e.id e.fields x s)
  unfolding on_end
  on_end-Effect returned = unfold complete acknowledge in settled refl refl refl (omega arith)
  on_end-Effect died = kept refl
  on_end-Effect (failed error) = on_failure-Effect error (attempt_of lib e.fields) refl

  pub process-Effect : (run_task : Handler) → Effect lib limit e s (process lib limit run_task e s)
  unfolding process
  process-Effect run_task =
      let d = pending_deliveries e.id s.queue in
      elim (Bool-cases (ltb limit d)) [
        | inl b ↦ rw b (dead_letter-Effect "visibility lease expired repeatedly")
        | inr b ↦ rw b (on_end-Effect (body lib run_task e.id d e.fields))
      ]
