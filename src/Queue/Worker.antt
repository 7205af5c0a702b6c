-- ===== src/Queue/Worker.antt =====
-- `_process` of apps/api/app/workers/worker.py and one undisturbed round of the loop of `_run`.
use Prim.Native.String.{◌++◌ as append}
use loop_agent.Json.{ℤ, pos, negsuc, Value, object}
use loop_agent.Json
use loop_agent.Prelude.{
  ℕ, zero, suc, ◌+◌, String, Bool, true, false, Option, none, some, List, [], ◌∷◌, ◌==◌, ◌&&◌, leb,
  ltb, nat_eq, if◌then◌else◌,
}
use loop_agent.Prelude.Codes.{take}
use loop_agent.Queue.{
  Fields, get, or_default, Entry, Store, Library, Loaded, loaded, unreadable, dead_letter, retry,
  complete,
}

-- How the body of `_process` ends: it returns, it raises what the handler of `except` catches, or
-- the worker dies in it, killed or by an exception outside of the `try`.
pub data Ended : Type 0 where
  returned died : Ended
  failed : String → Ended

-- `_run_task`, by the id of the message, the number of the delivery, and the payload.
abbrev pub Handler : Type 0
Handler = ℕ → ℕ → Json.Fields → Ended

-- `handler_fn`, found by type, on the payload
unfoldable pub handled : Library → Handler → ℕ → ℕ → Fields → Json.Fields → Ended
unfolding get
handled lib run_task i d fs payload =
    let type = get "type" fs in
    if or_default "" type == "run_task"
    then run_task i d payload
    else failed (append "unknown job type " (lib.repr type))

unfoldable pub on_payload : Library → Handler → ℕ → ℕ → Fields → Loaded → Ended
unfolding handled
on_payload lib run_task i d fs (unreadable error) = failed error
on_payload lib run_task i d fs (loaded (object payload)) = handled lib run_task i d fs payload
on_payload lib run_task i d fs (loaded _) = failed "job payload must be an object"

-- The body of the `try`.
unfoldable pub body : Library → Handler → ℕ → ℕ → Fields → Ended
unfolding get on_payload
body lib run_task i d fs =
    on_payload lib run_task i d fs (lib.loads (or_default "{}" (get "payload" fs)))

-- `_pending_deliveries`
unfoldable pub pending_deliveries : ℕ → List Entry → ℕ
pending_deliveries i [] = 1
pending_deliveries i (e ∷ q) =
    let rest = pending_deliveries i q in
    if nat_eq e.id i then (if nat_eq e.deliveries 0 then 1 else e.deliveries) else rest

abbrev pub at_least : ℤ → ℕ → Bool
at_least (pos n) m = leb m n
at_least (negsuc n) m = false

abbrev pub next_attempt : ℤ → ℤ
next_attempt (pos n) = pos (n + 1)
next_attempt (negsuc zero) = pos 0
next_attempt (negsuc (suc n)) = negsuc n

-- `int(fields.get("attempt", "1"))`, where it does not raise
unfoldable pub attempt_of : Library → Fields → Option ℤ
unfolding get
attempt_of lib fs = lib.int (or_default "1" (get "attempt" fs))

-- The handler of the exception; a text that is no number raises out of it.
unfoldable pub on_failure : Library → ℕ → ℕ → Fields → String → Option ℤ → Store → Bool × Store
unfolding dead_letter retry
on_failure lib limit i fs error none s = (false, s)
on_failure lib limit i fs error (some attempt) s =
    if at_least attempt limit
    then (true, dead_letter lib i fs error s)
    else (true, retry i fs (lib.str (next_attempt attempt)) error s)

unfoldable pub on_end : Library → ℕ → ℕ → Fields → Ended → Store → Bool × Store
unfolding complete on_failure attempt_of
on_end lib limit i fs returned s = (true, complete i s)
on_end lib limit i fs died s = (false, s)
on_end lib limit i fs (failed error) s = on_failure lib limit i fs error (attempt_of lib fs) s

-- `_process`: whether the worker lives on, and the store.
unfoldable pub process : Library → ℕ → Handler → Entry → Store → Bool × Store
unfolding pending_deliveries dead_letter body on_end
process lib limit run_task e s =
    let d = pending_deliveries e.id s.queue in
    if ltb limit d
    then (true, dead_letter lib e.id e.fields "visibility lease expired repeatedly" s)
    else on_end lib limit e.id e.fields (body lib run_task e.id d e.fields) s

-- The messages of a batch one after the other, while the worker lives.
unfoldable pub process_all : Library → ℕ → Handler → List Entry → Store → Bool × Store
unfolding process
process_all lib limit run_task [] s = (true, s)
process_all lib limit run_task (e ∷ es) s =
    let (alive, s') = process lib limit run_task e s in
    let rest = process_all lib limit run_task es s' in if alive then rest else (false, s')

-- The entries that a test selects, and the stream with one more delivery of each of those ids.
unfoldable pub select : (Entry → Bool) → List Entry → List Entry
select p [] = []
select p (e ∷ q) = let rest = select p q in if p e then e ∷ rest else rest

unfoldable pub is_in : ℕ → List Entry → Bool
is_in i [] = false
is_in i (e ∷ q) = let rest = is_in i q in if nat_eq e.id i then true else rest

unfoldable pub deliver : List Entry → List Entry → List Entry
unfolding is_in
deliver batch [] = []
deliver batch (e ∷ q) =
    (if is_in e.id batch then record e { deliveries = e.deliveries + 1 } else e) ∷ deliver batch q

-- `_claim_stale`: `XAUTOCLAIM` of ten entries that were delivered and have been idle for long.
unfoldable pub stale : (ℕ → Bool) → Store → List Entry
unfolding select take
stale idle s = take 10 (select (λ e. ltb 0 e.deliveries && idle e.id) s.queue)

-- `XREADGROUP` of one entry that was never delivered.
unfoldable pub fresh : Store → List Entry
unfolding select take
fresh s = take 1 (select (λ e. nat_eq e.deliveries 0) s.queue)

unfoldable pub serve : Library → ℕ → Handler → List Entry → Store → Bool × Store
unfolding deliver process_all
serve lib limit run_task batch s =
    process_all lib limit run_task batch (record s { queue = deliver batch s.queue })

-- One round of the loop of `_run` where no other worker lives and no job is published meanwhile; the
-- loop that starts after a death is that of the next worker. Queue.Shared has the steps of a round
-- one by one, for workers that live at the same time.
unfoldable pub round : Library → ℕ → Handler → (ℕ → Bool) → Store → Store
unfolding stale fresh serve
round lib limit run_task idle s =
    let (alive, s') = serve lib limit run_task (stale idle s) s in
    let read = serve lib limit run_task (fresh s') s' in if alive then read.1 else s'
