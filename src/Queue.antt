-- ===== src/Queue.antt =====
-- apps/api/app/workers/worker.py and apps/api/app/workers/queue.py: the job queue on a Redis
-- stream, and what a worker makes of each message. An entry stays in the stream, with the number
-- of its deliveries, until it is acknowledged and deleted in one transaction.
pub mod Worker
pub mod Shared
pub mod Entries
pub mod Effects
pub mod Conserved
pub mod Lossless
pub mod Ranks
pub mod Lowers
pub mod Serving
pub mod Drains
mod Examples
use Prim.Native.String.{[], ◌∷◌}
use loop_agent.Json.{ℤ, Value}
use loop_agent.Prelude.{
  ℕ, zero, suc, ◌+◌, ◌≡◌, String, Bool, not, Option, none, some, List, ◌++◌, ◌==◌, nat_eq,
  if◌then◌else◌,
}

-- The fields of a message: a dictionary of texts.
abbrev pub Fields : Type 0
Fields = List (String × String)

-- `fields.get(key)`
unfoldable pub get : String → Fields → Option String
get k List.[] = none
get k (List.◌∷◌ (j, v) fs) = if j == k then some v else get k fs

-- `{**fields, key: value}`
unfoldable pub put : String → String → Fields → Fields
put k v List.[] = List.◌∷◌ (k, v) List.[]
put k v (List.◌∷◌ (j, w) fs) = if j == k then List.◌∷◌ (k, v) fs else List.◌∷◌ (j, w) (put k v fs)

-- `fields.get(key, default)`
abbrev pub or_default : String → Option String → String
or_default d none = d
or_default d (some v) = v

-- `error[:n]`
unfoldable pub cut : ℕ → String → String
cut zero s = []
cut (suc n) [] = []
cut (suc n) (c ∷ s) = c ∷ cut n s

-- An entry of the stream; one that no worker has read yet has no deliveries.
pub record Entry : Type 0 where
  pub id : ℕ
  pub fields : Fields
  pub deliveries : ℕ

-- The labels of the `QUEUE_JOBS` metric.
pub record Counts : Type 0 where
  pub enqueued : ℕ
  pub completed : ℕ
  pub dead_lettered : ℕ
  pub retried : ℕ

pub record Store : Type 0 where
  pub queue : List Entry
  pub dead : List Fields
  pub next : ℕ
  pub counts : Counts

abbrev pub empty : Store
empty = record {
  queue = List.[];
  dead = List.[];
  next = 0;
  counts = record { enqueued = 0; completed = 0; dead_lettered = 0; retried = 0 };
}

-- What `json.loads` returns, or the text of its exception.
pub data Loaded : Type 0 where
  loaded : Value → Loaded
  unreadable : String → Loaded

-- What the source takes from Python and from Redis: `json.loads`, `int`, where it does not raise,
-- and `str` of a number, `repr` of a text or `None`, the text of a message id, and how the stream of
-- dead letters is cut to its approximate length.
pub record Library : Type 0 where
  pub loads : String → Loaded
  pub int : String → Option ℤ
  pub str : ℤ → String
  pub repr : Option String → String
  pub shown_id : ℕ → String
  pub trim : List Fields → List Fields

-- `XADD` of a message to the queue.
unfoldable pub xadd : Fields → Store → Store
xadd fs s = record s {
  queue = s.queue ++ List.◌∷◌ (record { id = s.next; fields = fs; deliveries = 0 }) List.[];
  next = s.next + 1;
}

-- `XACK` and `XDEL` of an entry.
unfoldable pub without : ℕ → List Entry → List Entry
without i List.[] = List.[]
without i (List.◌∷◌ e q) = let rest = without i q in if nat_eq e.id i then rest else List.◌∷◌ e rest

unfoldable pub acknowledge : ℕ → Store → Store
unfolding without
acknowledge i s = record s { queue = without i s.queue }

-- The message that `enqueue` adds, with the id of the job and the time that it makes up.
unfoldable pub job : String → String → String → String → Fields
job job_id type payload at =
    List.◌∷◌ ("job_id", job_id)
      (List.◌∷◌ ("type", type)
        (List.◌∷◌ ("payload", payload)
          (List.◌∷◌ ("attempt", "1") (List.◌∷◌ ("enqueued_at", at) List.[]))))

-- `enqueue`
unfoldable pub enqueue : Fields → Store → Store
unfolding xadd
enqueue fs s =
    let s' = xadd fs s in
    record s' { counts = record s'.counts { enqueued = s'.counts.enqueued + 1 } }

-- `_dead_letter`
unfoldable pub dead_letter : Library → ℕ → Fields → String → Store → Store
unfolding put cut acknowledge
dead_letter lib i fs error s =
    let letter = put "error" (cut 1000 error) (put "source_id" (lib.shown_id i) fs) in
    let s' = acknowledge i (record s { dead = lib.trim (s.dead ++ List.◌∷◌ letter List.[]) }) in
    record s' { counts = record s'.counts { dead_lettered = s'.counts.dead_lettered + 1 } }

-- `_retry`, from the text of the next attempt on
unfoldable pub retry : ℕ → Fields → String → String → Store → Store
unfolding put cut acknowledge xadd
retry i fs attempt error s =
    let s' =
      acknowledge i (xadd (put "last_error" (cut 1000 error) (put "attempt" attempt fs)) s) in
    record s' { counts = record s'.counts { retried = s'.counts.retried + 1 } }

-- The end of `_process` for a job whose handler returned.
unfoldable pub complete : ℕ → Store → Store
unfolding acknowledge
complete i s =
    let s' = acknowledge i s in
    record s' { counts = record s'.counts { completed = s'.counts.completed + 1 } }
