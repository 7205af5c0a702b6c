-- ===== src/Proxy.antt =====
-- apps/api/app/egress_proxy/proxy.py, `EgressProxy.handle` and `EgressProxy.revoke`, and the handler
-- of `/v1/revocations` in apps/api/app/egress_proxy/admin.py: how connections that are being opened
-- and revocations of their runs interleave. A step is what happens between two suspensions of a
-- coroutine. The connection to the destination, by its writer, is what counts; what a handler does
-- before it is open, and the expiry of a revocation, which is the grant's own, are left out.
pub mod Race
mod Examples
use loop_agent.Prelude.{
  ℕ, String, Bool, true, false, List, [], ◌∷◌, ◌==◌, ◌&&◌, ◌||◌, nat_eq, contains, if◌then◌else◌,
}

-- Where the handler of a connection stands: before the destination is open; with its writer
-- registered, before `is_revoked` answers; with that answer; relaying; answering an error, its run
-- being revoked; and after `finally`.
pub data Phase : Type 0 where
  opening registered : Phase
  answered : Bool → Phase
  relaying refusing ended : Phase

-- Connections are numbered. `stored` are the runs whose revocation the store holds, `active` the
-- upstream writers in `_active_writers`, `closed` those that were closed; `swept` are the runs for
-- which `revoke` has gone through the writers.
pub record Proxy : Type 0 where
  pub phase : ℕ → Phase
  pub active : ℕ → Bool
  pub closed : ℕ → Bool
  pub stored : List String
  pub swept : List String

pub data Event : Type 0 where
  connected asked resumed finished : ℕ → Event
  revocation_stored writers_closed : String → Event

abbrev pub set {ℓ} : {A : Type ℓ} → (ℕ → A) → ℕ → A → ℕ → A
set f c x d = if nat_eq d c then x else f d

-- `finally`: the writer is taken out of the map and closed.
leave : ℕ → Proxy → Proxy
leave c p = record p {
  phase = set p.phase c ended;
  active = set p.active c false;
  closed = set p.closed c true;
}

-- The destination is open, and its writer is registered.
connect : Phase → ℕ → Proxy → Proxy
connect opening c p = record p { phase = set p.phase c registered; active = set p.active c true }
connect _ c p = p

-- `await self.revocations.is_revoked(grant.run_id)`
ask : Phase → String → ℕ → Proxy → Proxy
ask registered run c p = record p { phase = set p.phase c (answered (contains p.stored run)) }
ask _ run c p = p

-- The relay begins, unless the run is revoked.
resume : Phase → ℕ → Proxy → Proxy
resume (answered false) c p = record p { phase = set p.phase c relaying }
resume (answered true) c p = record p { phase = set p.phase c refusing }
resume _ c p = p

-- The handler of an open connection comes to `finally`: its relay ends, the error is answered, or
-- a call of its raises.
finish : Phase → ℕ → Proxy → Proxy
unfolding leave
finish opening c p = p
finish ended c p = p
finish _ c p = leave c p

-- `EgressProxy.revoke`, which the handler calls once the store has the revocation.
sweep : (ℕ → String) → String → Proxy → Proxy
sweep run_of run p =
    if contains p.stored run
    then record p {
      closed = λ c. p.active c && (run_of c == run) || p.closed c;
      swept = run ∷ p.swept;
    }
    else p

-- One step; an event that is not possible leaves everything as it is.
unfoldable pub step : (ℕ → String) → Event → Proxy → Proxy
unfolding connect ask resume finish sweep
step run_of (connected c) p = connect (p.phase c) c p
step run_of (asked c) p = ask (p.phase c) (run_of c) c p
step run_of (resumed c) p = resume (p.phase c) c p
step run_of (finished c) p = finish (p.phase c) c p
step run_of (revocation_stored run) p = record p { stored = run ∷ p.stored }
step run_of (writers_closed run) p = sweep run_of run p

unfoldable pub run : (ℕ → String) → List Event → Proxy → Proxy
unfolding step
run run_of [] p = p
run run_of (e ∷ es) p = run run_of es (step run_of e p)

abbrev pub started : Proxy
started = record {
  phase = λ c. opening;
  active = λ c. false;
  closed = λ c. false;
  stored = [];
  swept = [];
}
