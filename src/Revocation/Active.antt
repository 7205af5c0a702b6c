-- ===== src/Revocation/Active.antt =====
-- Whether rows hold a revocation of a run that has not expired at a time, and what the operations
-- on rows do to that.
use loop_agent.Prelude.{
  ℕ, ◌≤◌, String, ◌≡◌, refl, Bool, false, [], ◌∷◌, any, ◌==◌, ◌&&◌, ◌||◌, ltb, max, arith, eq_iff,
  inl, inr, Bool-cases, is_some,
}
use loop_agent.Revocation.{Rows, lookup, purge, upsert}
use loop_agent.Revocation.Memory.{store, expiry_or_zero}
use loop_agent.Revocation.Redis.{still}

abbrev pub active : ℕ → String → Rows → Bool
active now run [] = false
active now run ((r, e) ∷ rows) = r == run && ltb now e || active now run rows

pub active-any :
    (now : ℕ) (run : String) (rows : Rows)
    → any (λ row. row.0 == run && ltb now row.1) rows ≡ active now run rows
active-any now run [] = refl
active-any now run ((r, e) ∷ rows) = rw (active-any now run rows) refl

pub active-purge :
    (now t : ℕ) (run : String) (rows : Rows)
    → now ≤ t
    → active t run (purge now rows) ≡ active t run rows
unfolding purge
active-purge now t run [] h = refl
active-purge now t run ((r, e) ∷ rows) h = let ih = active-purge now t run rows h in grind arith

pub active-upsert :
    (t : ℕ) (run q : String) (e : ℕ) (rows : Rows)
    → active t q (upsert run e rows) ≡ (run == q && ltb t e || active t q rows)
unfolding upsert
active-upsert t run q e [] = refl
active-upsert t run q e ((r, d) ∷ rows) =
    let ih = active-upsert t run q e rows in grind (arith, eq_iff)

-- Storing the larger of an expiry and the one that is there, if any.
store_larger :
    (t : ℕ) (run q : String) (e m : ℕ) (rows : Rows)
    → m ≡ max e (expiry_or_zero (lookup run rows))
    → active t q (store run m rows) ≡ (run == q && ltb t e || active t q rows)
unfolding store
store_larger t run q e m [] p = grind arith
store_larger t run q e m ((r, d) ∷ rows) p = elim (Bool-cases (r == run)) [
  | inl h ↦ let same = (eq_iff r run).0 h in rw h (grind (arith, eq_iff))
  | inr h ↦ let ih = store_larger t run q e m rows (rw h at p) in rw h (grind arith)
]

pub active-store :
    (t : ℕ) (run q : String) (e : ℕ) (rows : Rows)
    → active t q (store run (max e (expiry_or_zero (lookup run rows))) rows)
      ≡ (run == q && ltb t e || active t q rows)
active-store t run q e rows = store_larger t run q e _ rows refl

-- After a purge a row that is there has not expired.
pub lookup-purge :
    (now : ℕ) (run : String) (rows : Rows)
    → is_some (lookup run (purge now rows)) ≡ active now run rows
unfolding purge
lookup-purge now run [] = refl
lookup-purge now run ((r, e) ∷ rows) = let ih = lookup-purge now run rows in grind arith

pub still-purge :
    (now : ℕ) (run : String) (rows : Rows)
    → still now (lookup run (purge now rows)) ≡ active now run rows
unfolding purge
still-purge now run [] = refl
still-purge now run ((r, e) ∷ rows) = let ih = still-purge now run rows in grind arith
