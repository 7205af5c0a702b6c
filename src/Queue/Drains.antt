-- ===== src/Queue/Drains.antt =====
-- Every round of a worker leaves less to do, so that the stream runs empty.
use loop_agent.Json.{ℤ}
use loop_agent.Prelude.{
  ℕ, zero, suc, ◌+◌, ◌≤◌, ◌<◌, ◌≡◌, ◌≢◌, refl, ap, sym, subst, Bool, true, some, List, [], ◌∷◌,
  length, nat_eq, ltb, if◌then◌else◌, arith, ◌⊎◌, inl, inr, Bool-cases, ◌&&◌,
}
use loop_agent.Prelude.Codes.{take}
use loop_agent.Queue.{Entry, Store, Library}
use loop_agent.Queue.Worker.{
  Handler, process_all, select, deliver, is_in, serve, round, stale, fresh,
}
use loop_agent.Queue.Conserved.{IsSound, empty-IsSound, round-IsSound, serve-IsSound}
use loop_agent.Queue.Lossless.{run-IsSound}
use loop_agent.Queue.Shared.{Event, start, run}
use loop_agent.Queue.Ranks.{base, rank, load}
use loop_agent.Queue.Serving.{serve-load, serve-lowers}

nil-cases : (q : List Entry) → (q ≡ []) ⊎ (q ≢ [])
nil-cases [] = inl refl
nil-cases (e ∷ q) = inr (λ h. cc)

deliver-none : (q : List Entry) → deliver [] q ≡ q
unfolding deliver
deliver-none [] = refl
deliver-none (e ∷ q) = unfold is_in in ap (λ rest. e ∷ rest) (deliver-none q)

quiet :
    (lib : Library) (limit : ℕ) (run_task : Handler) (batch : List Entry) (s : Store)
    → batch ≡ []
    → serve lib limit run_task batch s ≡ (true, s)
unfolding serve process_all
quiet lib limit run_task batch s h =
    rw h (ap (λ q. (true, record s { queue = q })) (deliver-none s.queue))

load-zero : (lib : Library) (limit : ℕ) (q : List Entry) → load lib limit q ≡ 0 → q ≡ []
unfolding load rank base
load-zero lib limit [] h = refl
load-zero lib limit (e ∷ q) h = absurd (omega arith)

-- A message that is not new was read by somebody.
busy_list :
    (q : List Entry)
    → q ≢ []
    → (take 10 (select (λ e. ltb 0 e.deliveries && true) q) ≢ [])
      ⊎ (take 1 (select (λ e. nat_eq e.deliveries 0) q) ≢ [])
unfolding take select
busy_list [] n = absurd (n refl)
busy_list (e ∷ q) n = elim (Bool-cases (nat_eq e.deliveries 0)) [
  | inl y ↦ inr (rw y (λ h. cc))
  | inr y ↦ let old : ltb 0 e.deliveries && true ≡ true = ground arith in inl (rw old (λ h. cc))
]

busy_when_idle : (s : Store) → s.queue ≢ [] → (stale (λ i. true) s ≢ []) ⊎ (fresh s ≢ [])
unfolding stale fresh
busy_when_idle s h = busy_list s.queue h

-- So many rounds of a worker, each of which finds every message idle.
unfoldable pub rounds : Library → ℕ → Handler → ℕ → Store → Store
unfolding round
rounds lib limit run_task zero s = s
rounds lib limit run_task (suc n) s =
    rounds lib limit run_task n (round lib limit run_task (λ i. true) s)

module _ (lib : Library) (limit : ℕ) (prints : (z : ℤ) → lib.int (lib.str z) ≡ some z)
    (run_task : Handler) where
  -- A round with nothing to take over reads the first message that is new.
  pub round-lowers :
      (idle : ℕ → Bool) (s : Store)
      → IsSound s
      → (stale idle s ≢ []) ⊎ (fresh s ≢ [])
      → load lib limit (round lib limit run_task idle s).queue < load lib limit s.queue
  unfolding round
  round-lowers idle s sound busy = elim (nil-cases (stale idle s)) [
    | inl none_stale ↦
        subst
          (λ r.
            load lib limit (if r.0 then (serve lib limit run_task (fresh r.1) r.1).1 else r.1).queue
            < load lib limit s.queue)
          (sym (quiet lib limit run_task (stale idle s) s none_stale))
          (unfold fresh in
            serve-lowers lib limit prints run_task (λ e. nat_eq e.deliveries 0) 1 s sound
              (left_fresh none_stale))
    | inr some_stale ↦
        let p : Entry → Bool = λ e. ltb 0 e.deliveries && idle e.id in
        let r = serve lib limit run_task (stale idle s) s in
        let less : load lib limit r.1.queue < load lib limit s.queue =
          unfold stale in serve-lowers lib limit prints run_task p 10 s sound some_stale in
        let rest : load lib limit (serve lib limit run_task (fresh r.1) r.1).1.queue
            ≤ load lib limit r.1.queue =
          unfold fresh in
          serve-load lib limit prints run_task (λ e. nat_eq e.deliveries 0) 1 r.1
            (unfold stale in serve-IsSound lib limit run_task p 10 s sound) in
        elim (Bool-cases r.0) [
          | inl alive ↦ rw alive (omega arith)
          | inr dead ↦ rw dead (omega arith)
        ]
  ]
    where
      left_fresh : stale idle s ≡ [] → fresh s ≢ []
      left_fresh h = elim busy [ inl b ↦ absurd (b h) | inr b ↦ b ]

  -- A round on an empty stream leaves it empty.
  round-empty :
      (idle : ℕ → Bool) (s : Store) → s.queue ≡ [] → (round lib limit run_task idle s).queue ≡ []
  unfolding round
  round-empty idle s h =
      let no_stale : stale idle s ≡ [] = unfold stale select take in rw h refl in
      let no_fresh : fresh s ≡ [] = unfold fresh select take in rw h refl in
      subst (λ r. (if r.0 then (serve lib limit run_task (fresh r.1) r.1).1 else r.1).queue ≡ [])
        (sym (quiet lib limit run_task (stale idle s) s no_stale))
        (subst (λ r. r.1.queue ≡ []) (sym (quiet lib limit run_task (fresh s) s no_fresh)) h)

  rounds_drain :
      (n : ℕ) (s : Store)
      → IsSound s
      → load lib limit s.queue ≤ n
      → (rounds lib limit run_task n s).queue ≡ []
  unfolding rounds
  rounds_drain zero s sound h = load-zero lib limit s.queue (omega arith)
  rounds_drain (suc n) s sound h =
      let s' = round lib limit run_task (λ i. true) s in
      rounds_drain n s' (round-IsSound lib limit run_task (λ i. true) s sound)
        (elim (nil-cases s.queue) [
          | inl done ↦ rw (round-empty (λ i. true) s done) (unfold load in omega arith)
          | inr more ↦
              let less = round-lowers (λ i. true) s sound (busy_when_idle s more) in omega arith
        ])

rounds-IsSound :
    (lib : Library) (limit : ℕ) (run_task : Handler) (n : ℕ) (s : Store)
    → IsSound s
    → IsSound (rounds lib limit run_task n s)
unfolding rounds
rounds-IsSound lib limit run_task zero s sound = sound
rounds-IsSound lib limit run_task (suc n) s sound =
    rounds-IsSound lib limit run_task n (round lib limit run_task (λ i. true) s)
      (round-IsSound lib limit run_task (λ i. true) s sound)

-- Whatever jobs were published, and however many workers took turns, overtook each other, failed and
-- were killed so far: once a single worker is left (with the next in its place when it dies), no
-- more jobs are published, and every message of an earlier reader is idle for long at each of its
-- rounds, the stream is empty after as many rounds as the work in it (for each message one, its
-- deliveries that are left, and the limit and two for each attempt that is left), whatever the
-- handlers do, failing or killing the worker included, where reading back the text of a number gives
-- the number; and the jobs ever published are at most those counted as completed or among the dead
-- letters.
pub run_drains :
    (lib : Library) (limit : ℕ) (run_task : Handler) (es : List Event) (n : ℕ)
    → ((z : ℤ) → lib.int (lib.str z) ≡ some z)
    → load lib limit (run lib limit run_task es start).store.queue ≤ n
    → let s = rounds lib limit run_task n (run lib limit run_task es start).store in
      (s.queue ≡ []) × (s.counts.enqueued ≤ s.counts.completed + s.counts.dead_lettered)
run_drains lib limit run_task es n prints h =
    let s = (run lib limit run_task es start).store in
    let sound = run-IsSound lib limit run_task es start empty-IsSound in
    let done = rounds_drain lib limit prints run_task n s sound h in
    let after = rounds-IsSound lib limit run_task n s sound in
    (done, let none_left = ap length done in omega (arith, after.balanced))
