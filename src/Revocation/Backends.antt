-- ===== src/Revocation/Backends.antt =====
-- The three stores keep one promise: a run is revoked while a revocation of it has not expired.
use loop_agent.Prelude.{
  ℕ, ◌≤◌, String, Bool, ◌≡◌, refl, ap, ◌∙◌, List, [], ◌∷◌, ◌==◌, ◌&&◌, ◌||◌, ltb, arith, Bool-cases,
  inl, inr,
}
use loop_agent.Revocation.{Rows, Backend, purge}
use loop_agent.Revocation.Memory
use loop_agent.Revocation.Sqlite
use loop_agent.Revocation.Redis
use loop_agent.Revocation.Memory.{memory}
use loop_agent.Revocation.Sqlite.{sqlite}
use loop_agent.Revocation.Redis.{redis}
use loop_agent.Revocation.Active.{
  active, active-any, active-purge, active-upsert, active-store, lookup-purge, still-purge,
}

-- What the clients of a store rely on, in terms of the revocations that its rows hold.
pub record IsStore (b : Backend) : Type 0 where
  pub revoke-active :
      (now t : ℕ) (run q : String) (e : ℕ) (rows : Rows)
      → now ≤ t
      → active t q (b.revoke now run e rows) ≡ (run == q && ltb t e || active t q rows)
  pub answer :
      (now : ℕ) (run : String) (rows : Rows) → (b.is_revoked now run rows).0 ≡ active now run rows
  pub ask-active :
      (now t : ℕ) (run q : String) (rows : Rows)
      → now ≤ t
      → active t q (b.is_revoked now run rows).1 ≡ active t q rows

memory-IsStore : IsStore memory
unfolding Memory.revoke Memory.is_revoked
memory-IsStore = record {
  revoke-active = λ now t run q e rows h.
      active-store t run q e (purge now rows)
      ∙ ap (λ x. run == q && ltb t e || x) (active-purge now t q rows h);
  answer = λ now run rows. lookup-purge now run rows;
  ask-active = λ now t run q rows h. active-purge now t q rows h;
}

sqlite-IsStore : IsStore sqlite
unfolding Sqlite.revoke Sqlite.is_revoked
sqlite-IsStore = record {
  revoke-active = λ now t run q e rows h.
      active-upsert t run q e (purge now rows)
      ∙ ap (λ x. run == q && ltb t e || x) (active-purge now t q rows h);
  answer = λ now run rows.
      active-any now run (purge now rows) ∙ active-purge now now run rows (omega arith);
  ask-active = λ now t run q rows h. active-purge now t q rows h;
}

-- A revocation that has expired when it arrives is not written, and would not be active either.
redis_revoke-active :
    (now t : ℕ) (run q : String) (e : ℕ) (rows : Rows)
    → now ≤ t
    → active t q (Redis.revoke now run e rows) ≡ (run == q && ltb t e || active t q rows)
unfolding Redis.revoke
redis_revoke-active now t run q e rows h =
    let kept = active-purge now t q rows h in
    elim (Bool-cases (ltb now e)) [
      | inl late ↦ rw (late, active-upsert t run q e (purge now rows), kept) refl
      | inr past ↦ rw past (grind arith)
    ]

redis-IsStore : IsStore redis
unfolding Redis.is_revoked
redis-IsStore = record {
  revoke-active = redis_revoke-active;
  answer = λ now run rows. still-purge now run rows;
  ask-active = λ now t run q rows h. active-purge now t q rows h;
}

-- What a store is asked to do, and when.
pub data Operation : Type 0 where
  revoke_at : ℕ → String → ℕ → Operation
  ask_at : ℕ → String → Operation

-- The answers of a store, oldest first.
unfoldable pub answers : Backend → Rows → List Operation → List Bool
answers b rows [] = []
answers b rows (revoke_at now run e ∷ rest) = answers b (b.revoke now run e rows) rest
answers b rows (ask_at now run ∷ rest) =
    let (answer, rows') = b.is_revoked now run rows in answer ∷ answers b rows' rest

-- The specification: every revocation is kept, and an answer looks for one that has not expired.
unfoldable pub promised : Rows → List Operation → List Bool
promised log [] = []
promised log (revoke_at now run e ∷ rest) = promised ((run, e) ∷ log) rest
promised log (ask_at now run ∷ rest) = active now run log ∷ promised log rest

-- The clock does not run backward.
pub data Clocked : ℕ → List Operation → Type 0 where
  done : (t : ℕ) → Clocked t []
  revoked :
      (t now : ℕ) (run : String) (e : ℕ) {rest : List Operation}
      → t ≤ now
      → Clocked now rest
      → Clocked t (revoke_at now run e ∷ rest)
  asked :
      (t now : ℕ) (run : String) {rest : List Operation}
      → t ≤ now
      → Clocked now rest
      → Clocked t (ask_at now run ∷ rest)

-- From a time on, the rows and the log hold the same revocations that are active.
abbrev Simulates : ℕ → Rows → Rows → Type 0
Simulates from rows log = (t : ℕ) (q : String) → from ≤ t → active t q rows ≡ active t q log

module _ (b : Backend) (store : IsStore b) where
  IsStore-answers :
      {from : ℕ} {rs : List Operation} (rows log : Rows)
      → Simulates from rows log
      → Clocked from rs
      → answers b rows rs ≡ promised log rs
  unfolding answers promised
  IsStore-answers rows log h (done t) = refl
  IsStore-answers rows log h (revoked from now run e p rest) =
      IsStore-answers (b.revoke now run e rows) ((run, e) ∷ log)
        (λ t q g.
          store.revoke-active now t run q e rows g
          ∙ ap (λ x. run == q && ltb t e || x) (h t q (omega arith)))
        rest
  IsStore-answers rows log h (asked from now run p rest) =
      rw (store.answer now run rows, h now run p)
        (ap (λ l. active now run log ∷ l)
          (IsStore-answers (b.is_revoked now run rows).1 log
            (λ t q g. store.ask-active now t run q rows g ∙ h t q (omega arith)) rest))

-- Whatever is asked of an empty store, the clock never running backward: in memory, on SQLite and
-- on Redis alike, a run is reported as revoked exactly when one of the revocations of it so far
-- expires later than the time of asking.
pub answers-promised :
    (rs : List Operation)
    → Clocked 0 rs
    → (answers memory [] rs ≡ promised [] rs)
      × (answers sqlite [] rs ≡ promised [] rs)
      × (answers redis [] rs ≡ promised [] rs)
answers-promised rs h = (
  IsStore-answers memory memory-IsStore [] [] (λ t q g. refl) h,
  IsStore-answers sqlite sqlite-IsStore [] [] (λ t q g. refl) h,
  IsStore-answers redis redis-IsStore [] [] (λ t q g. refl) h,
)
