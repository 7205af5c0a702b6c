-- ===== src/Revocation.antt =====
-- apps/api/app/domain/authority_revocation.py: which runs have lost their authority, in the memory
-- of the process, in an SQLite table, and in a Redis sorted set. Times are numbers of some unit,
-- read from a clock once in each operation. Redis' notice to its subscribers is left out.
pub mod Memory
pub mod Sqlite
pub mod Redis
pub mod Active
pub mod Backends
mod Examples
use loop_agent.Prelude.{
  ℕ, String, Bool, Option, none, some, List, [], ◌∷◌, ◌==◌, ltb, max, if◌then◌else◌,
}

-- Rows of a run and its expiry: the dictionary, the table, or the sorted set with its scores.
abbrev pub Rows : Type 0
Rows = List (String × ℕ)

-- `rows.get(run)`, and `ZSCORE`
abbrev pub lookup : String → Rows → Option ℕ
lookup run [] = none
lookup run ((r, e) ∷ rows) = if r == run then some e else lookup run rows

-- `{run: e for run, e in rows if e > now}`; `DELETE … WHERE expires_at <= now`; and
-- `ZREMRANGEBYSCORE -inf now`
unfoldable pub purge : ℕ → Rows → Rows
purge now [] = []
purge now ((r, e) ∷ rows) = let rest = purge now rows in if ltb now e then (r, e) ∷ rest else rest

-- `INSERT … ON CONFLICT DO UPDATE SET expires_at = MAX(…)`; a `ZADD` with `GT` likewise raises a
-- score and never lowers it.
unfoldable pub upsert : String → ℕ → Rows → Rows
upsert run e [] = (run, e) ∷ []
upsert run e ((r, d) ∷ rows) =
    let rest = upsert run e rows in if r == run then (r, max d e) ∷ rows else (r, d) ∷ rest

-- What a store offers, on the rows that it holds.
pub record Backend : Type 0 where
  pub revoke : ℕ → String → ℕ → Rows → Rows
  pub is_revoked : ℕ → String → Rows → Bool × Rows
