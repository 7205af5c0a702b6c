-- ===== src/Queue/Shared.antt =====
-- Workers of apps/api/app/workers/worker.py that live at the same time: each takes over or reads
-- messages, works through them one by one, and may be overtaken by others at any point, also while
-- its handler runs. A message that waits in one worker's batch may be taken over by another.
use loop_agent.Prelude.{ℕ, String, Bool, List, [], ◌∷◌, ltb, nat_eq, if◌then◌else◌}
use loop_agent.Queue.{Entry, Store, Library, empty, enqueue, job, dead_letter}
use loop_agent.Queue.Worker.{
  Ended, Handler, body, pending_deliveries, on_end, deliver, stale, fresh,
}

-- What a worker holds: the messages of its batch that wait, behind the job in hand, where it has
-- one, with how its body will end.
pub data Hand : Type 0 where
  waits : List Entry → Hand
  works : Entry → Ended → List Entry → Hand

pub record System : Type 0 where
  pub store : Store
  pub hands : ℕ → Hand

abbrev pub start : System
start = record { store = empty; hands = λ w. waits [] }

-- A job is published; or a worker, by its number, takes over messages that are idle, reads a new
-- one, begins the next message of its batch, ends its job, or is killed, with another in its place.
pub data Event : Type 0 where
  published : String → String → String → String → Event
  takes_over : ℕ → (ℕ → Bool) → Event
  reads begins ends killed : ℕ → Event

unfoldable pub set_hand : ℕ → Hand → System → System
set_hand w h y = record y { hands = λ v. if nat_eq v w then h else y.hands v }

-- A batch for a worker that has worked through its last one; no other asks for one.
unfoldable pub take_batch : ℕ → Hand → List Entry → System → System
unfolding set_hand deliver
take_batch w (waits []) batch y =
    set_hand w (waits batch)
      (record y { store = record y.store { queue = deliver batch y.store.queue } })
take_batch w _ batch y = y

module _ (lib : Library) (limit : ℕ) (run_task : Handler) where
  -- The start of `_process`: a message that was delivered too often goes, else its body runs.
  unfoldable pub begin : ℕ → Entry → List Entry → System → System
  unfolding set_hand dead_letter pending_deliveries body
  begin w e es y =
      let d = pending_deliveries e.id y.store.queue in
      if ltb limit d
      then set_hand w (waits es) (record y {
        store = dead_letter lib e.id e.fields "visibility lease expired repeatedly" y.store;
      })
      else set_hand w (works e (body lib run_task e.id d e.fields) es) y

  unfoldable pub begin_next : ℕ → Hand → System → System
  unfolding begin
  begin_next w (waits (e ∷ es)) y = begin w e es y
  begin_next w _ y = y

  -- The rest of `_process`; a worker that dies of it loses its batch.
  unfoldable pub end_job : ℕ → Hand → System → System
  unfolding set_hand on_end
  end_job w (works e x es) y =
      let (alive, s) = on_end lib limit e.id e.fields x y.store in
      set_hand w (if alive then waits es else waits []) (record y { store = s })
  end_job w _ y = y

  unfoldable pub step : Event → System → System
  unfolding take_batch begin_next end_job stale fresh enqueue job
  step (published job_id type payload at) y = record y {
    store = enqueue (job job_id type payload at) y.store;
  }
  step (takes_over w idle) y = take_batch w (y.hands w) (stale idle y.store) y
  step (reads w) y = take_batch w (y.hands w) (fresh y.store) y
  step (begins w) y = begin_next w (y.hands w) y
  step (ends w) y = end_job w (y.hands w) y
  step (killed w) y = set_hand w (waits []) y

  unfoldable pub run : List Event → System → System
  unfolding step
  run [] y = y
  run (e ∷ es) y = run es (step e y)
