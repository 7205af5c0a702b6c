-- ===== src/Revocation/Sqlite.antt =====
-- The store on an SQLite table.
use loop_agent.Prelude.{ℕ, String, Bool, any, ◌==◌, ◌&&◌, ltb}
use loop_agent.Revocation.{Rows, purge, upsert, Backend}

unfoldable pub revoke : ℕ → String → ℕ → Rows → Rows
unfolding purge upsert
revoke now run expiry rows = upsert run expiry (purge now rows)

-- `SELECT 1 … WHERE run_id = ? AND expires_at > ?` has a row
unfoldable pub is_revoked : ℕ → String → Rows → Bool × Rows
unfolding purge
is_revoked now run rows =
    let kept = purge now rows in (any (λ row. row.0 == run && ltb now row.1) kept, kept)

abbrev pub sqlite : Backend
sqlite = record { revoke = revoke; is_revoked = is_revoked }
