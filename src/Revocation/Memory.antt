-- ===== src/Revocation/Memory.antt =====
-- The store without a database: a dictionary of the process.
use loop_agent.Prelude.{
  ℕ, String, Bool, Option, none, some, [], ◌∷◌, ◌==◌, max, if◌then◌else◌, is_some,
}
use loop_agent.Revocation.{Rows, lookup, purge, Backend}

-- `rows[run] = e`: the row keeps its place.
unfoldable pub store : String → ℕ → Rows → Rows
store run e [] = (run, e) ∷ []
store run e ((r, d) ∷ rows) =
    let rest = store run e rows in if r == run then (run, e) ∷ rows else (r, d) ∷ rest

-- `self._revoked.get(run_id, 0.0)`
abbrev pub expiry_or_zero : Option ℕ → ℕ
expiry_or_zero none = 0
expiry_or_zero (some e) = e

unfoldable pub revoke : ℕ → String → ℕ → Rows → Rows
unfolding purge store
revoke now run expiry rows =
    let kept = purge now rows in store run (max expiry (expiry_or_zero (lookup run kept))) kept

unfoldable pub is_revoked : ℕ → String → Rows → Bool × Rows
unfolding purge
is_revoked now run rows = let kept = purge now rows in (is_some (lookup run kept), kept)

abbrev pub memory : Backend
memory = record { revoke = revoke; is_revoked = is_revoked }
