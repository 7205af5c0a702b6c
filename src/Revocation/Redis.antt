-- ===== src/Revocation/Redis.antt =====
-- The store on a Redis sorted set.
use loop_agent.Prelude.{ℕ, String, Bool, false, Option, none, some, ltb, if◌then◌else◌}
use loop_agent.Revocation.{Rows, lookup, purge, upsert, Backend}

unfoldable pub revoke : ℕ → String → ℕ → Rows → Rows
unfolding purge upsert
revoke now run expiry rows =
    let kept = purge now rows in if ltb now expiry then upsert run expiry kept else kept

-- `expiry is not None and float(expiry) > now`
abbrev pub still : ℕ → Option ℕ → Bool
still now none = false
still now (some e) = ltb now e

unfoldable pub is_revoked : ℕ → String → Rows → Bool × Rows
unfolding purge
is_revoked now run rows = let kept = purge now rows in (still now (lookup run kept), kept)

abbrev pub redis : Backend
redis = record { revoke = revoke; is_revoked = is_revoked }
