-- ===== src/Queue/Serving.antt =====
-- A batch of messages that a worker serves leaves less to do.
use loop_agent.Json.{ℤ}
use loop_agent.Prelude.{
  ℕ, ◌≤◌, ◌<◌, ◌≡◌, ◌≢◌, refl, ap, sym, subst, Bool, true, some, List, [], ◌∷◌, ◌++◌, ltb, arith,
  inl, inr, Bool-cases, Any, All, Any-map, All-self, All-map, Any-left, ltb→lt, ltb-false,
}
use loop_agent.Prelude.Codes.{take}
use loop_agent.Queue.{Fields, Entry, Store, Library, without, dead_letter, acknowledge}
use loop_agent.Queue.Worker.{
  Handler, process, process_all, select, deliver, is_in, pending_deliveries, serve,
}
use loop_agent.Queue.Entries.{count}
use loop_agent.Queue.Effects.{Effect, kept, settled, requeued, again, process-Effect}
use loop_agent.Queue.Conserved.{
  IsSound, IsBatch, delivered-IsSound, IsBatch-rest, IsBatch-alone, Effect-IsSound, Effect-keeps,
}
use loop_agent.Queue.Ranks.{base, load, Present, load-without, load-without-le, rank-again}
use loop_agent.Queue.Lowers.{
  tired-pending, select-All, take-All, without-Present, deliver-Present, load-deliver,
  load-deliver-lt, load-without-snoc,
}

module _ (lib : Library) (limit : ℕ) (prints : (z : ℤ) → lib.int (lib.str z) ≡ some z) where
  Effect-load :
      (e : Entry) (s : Store) (r : Bool × Store)
      → Effect lib limit e s r
      → Present lib limit e s.queue
      → load lib limit r.1.queue ≤ load lib limit s.queue
  Effect-load e s r (kept h) p =
      subst (λ x. load lib limit x.1.queue ≤ load lib limit s.queue) (sym h) (omega arith)
  Effect-load e s r (settled q n c d) p = rw q (load-without-le lib limit e.id s.queue)
  Effect-load e s r (requeued a error h g q n c d) p =
      let x = again lib a e.fields error s.next in
      rw q (
        omega (
          arith,
          load-without-snoc lib limit e.id x s.queue,
          load-without lib limit e s.queue p,
          rank-again lib limit prints a e.fields error s.next h g,
        ))

  Effect-Present :
      (e y : Entry) (s : Store) (r : Bool × Store)
      → Effect lib limit e s r
      → y.id ≢ e.id
      → Present lib limit y s.queue
      → Present lib limit y r.1.queue
  Effect-Present e y s r (kept h) m p = subst (λ x. Present lib limit y x.1.queue) (sym h) p
  Effect-Present e y s r (settled q n c d) m p = rw q (without-Present lib limit e.id y s.queue m p)
  Effect-Present e y s r (requeued a error h g q n c d) m p =
      let x = again lib a e.fields error s.next in
      rw q (without-Present lib limit e.id y (s.queue ++ x ∷ []) m (Any-left _ s.queue (x ∷ []) p))

  rest-Present :
      (e : Entry) (s : Store) (r : Bool × Store) (es : List Entry)
      → Effect lib limit e s r
      → count e.id es ≡ 0
      → All (λ y. Present lib limit y s.queue) es
      → All (λ y. Present lib limit y r.1.queue) es
  unfolding count
  rest-Present e s r [] effect z h = tt
  rest-Present e s r (y ∷ es) effect z h = (
    Effect-Present e y s r effect (λ same. ground arith) h.0,
    rest-Present e s r es effect (omega arith) h.1,
  )

  base-pos : (fs : Fields) → 1 ≤ base lib limit fs
  unfolding base
  base-pos fs = omega arith

  delivered-Present :
      (p : Entry → Bool) (n : ℕ) (s : Store)
      → All
          (λ y. Present lib limit y (deliver (take n (select p s.queue)) s.queue))
          (take n (select p s.queue))
  delivered-Present p n s =
      let q = s.queue in
      let batch = take n (select p q) in
      let here : All (λ y. Present lib limit y (deliver batch q)) q =
        All-map q
          (λ y h.
            deliver-Present lib limit y batch q
              (Any-map q (λ x e. (ap (λ z. z.id) e, ap (λ z. z.fields) e)) h))
          (All-self q) in
      take-All _ n (select p q) (select-All _ p q here)

  module _ (run_task : Handler) where
    -- The rest of a batch is one of the store that the first call leaves.
    rest-ready :
        (e : Entry) (es : List Entry) (s : Store)
        → IsSound s
        → IsBatch (e ∷ es) s
        → All (λ y. Present lib limit y s.queue) (e ∷ es)
        → let s' = (process lib limit run_task e s).1 in
          IsSound s' × IsBatch es s' × All (λ y. Present lib limit y s'.queue) es
    rest-ready e es s sound h p =
        let r = process lib limit run_task e s in
        let effect = process-Effect lib limit e s run_task in
        (
          Effect-IsSound lib limit e s sound r effect,
          λ j. IsBatch-rest e es s r.1 sound h j (Effect-keeps lib limit e s sound r j effect),
          rest-Present e s r es effect (IsBatch-alone e es s sound h) p.1,
        )

    process_all-load :
        (batch : List Entry) (s : Store)
        → IsSound s
        → IsBatch batch s
        → All (λ y. Present lib limit y s.queue) batch
        → load lib limit (process_all lib limit run_task batch s).1.queue ≤ load lib limit s.queue
    unfolding process_all
    process_all-load [] s sound h p = omega arith
    process_all-load (e ∷ es) s sound h p =
        let r = process lib limit run_task e s in
        let lower = Effect-load e s r (process-Effect lib limit e s run_task) p.0 in
        let (sound', h', p') = rest-ready e es s sound h p in
        let rest = process_all-load es r.1 sound' h' p' in
        elim (Bool-cases r.0) [ inl alive ↦ rw alive (omega arith) | inr dead ↦ rw dead lower ]

    -- A message that was delivered too often goes.
    process-late :
        (e : Entry) (s : Store)
        → limit < pending_deliveries e.id s.queue
        → ((process lib limit run_task e s).0 ≡ true)
          × ((process lib limit run_task e s).1.queue ≡ without e.id s.queue)
    unfolding process dead_letter acknowledge
    process-late e s late =
        let over : ltb limit (pending_deliveries e.id s.queue) ≡ true = ground arith in
        (rw over refl, rw over refl)

    process_all-tired :
        (e : Entry) (es : List Entry) (s : Store)
        → IsSound s
        → IsBatch (e ∷ es) s
        → All (λ y. Present lib limit y s.queue) (e ∷ es)
        → limit < pending_deliveries e.id s.queue
        → load lib limit (process_all lib limit run_task (e ∷ es) s).1.queue
          < load lib limit s.queue
    unfolding process_all
    process_all-tired e es s sound h p late =
        let (sound', h', p') = rest-ready e es s sound h p in
        let rest = process_all-load es (process lib limit run_task e s).1 sound' h' p' in
        let gone = load-without lib limit e s.queue p.0 in
        let (alive, q) = process-late e s late in
        let left = ap (load lib limit) q in rw alive (omega (arith, base-pos e.fields))

    pub serve-load :
        (p : Entry → Bool) (n : ℕ) (s : Store)
        → IsSound s
        → load lib limit (serve lib limit run_task (take n (select p s.queue)) s).1.queue
          ≤ load lib limit s.queue
    unfolding serve
    serve-load p n s sound =
        let batch = take n (select p s.queue) in
        let (sound', h) = delivered-IsSound p n s sound in
        omega (
          arith,
          load-deliver lib limit batch s.queue,
          process_all-load batch (record s { queue = deliver batch s.queue }) sound' h
              (delivered-Present p n s),
        )

    batch-lowers :
        (batch : List Entry) (s : Store)
        → batch ≢ []
        → IsSound s
        → All (λ y. Any (λ x. x ≡ y) s.queue) batch
        → let s' : Store = record s { queue = deliver batch s.queue } in
          IsSound s'
          → IsBatch batch s'
          → All (λ y. Present lib limit y s'.queue) batch
          → load lib limit (process_all lib limit run_task batch s').1.queue
            < load lib limit s.queue
    batch-lowers [] s n sound m sound' h p = absurd (n refl)
    batch-lowers (e ∷ es) s n sound m sound' h p =
        let batch = e ∷ es in
        let s' : Store = record s { queue = deliver batch s.queue } in
        let whole = load-deliver lib limit batch s.queue in
        let all = process_all-load batch s' sound' h p in
        elim (Bool-cases (ltb limit e.deliveries)) [
          | inl late ↦
              let seen = tired-pending limit e.id batch s.queue (sound.once e.id) (
                Any-map s.queue (λ x q. (ap (λ z. z.id) q, rw q (ltb→lt limit e.deliveries late)))
                  m.0) in
              let less = process_all-tired e es s' sound' h p seen in omega arith
          | inr few ↦
              let less =
                load-deliver-lt lib limit e.id batch s.queue (unfold is_in in ground arith) (
                  Any-map s.queue
                    (λ x q. (ap (λ z. z.id) q, rw q (ltb-false limit e.deliveries few))) m.0) in
              omega arith
        ]

    -- A worker that reads or takes over a message leaves less to do.
    pub serve-lowers :
        (p : Entry → Bool) (n : ℕ) (s : Store)
        → IsSound s
        → take n (select p s.queue) ≢ []
        → load lib limit (serve lib limit run_task (take n (select p s.queue)) s).1.queue
          < load lib limit s.queue
    unfolding serve
    serve-lowers p n s sound busy =
        let (sound', h) = delivered-IsSound p n s sound in
        batch-lowers (take n (select p s.queue)) s busy sound
          (take-All _ n (select p s.queue) (select-All _ p s.queue (All-self s.queue))) sound' h
          (delivered-Present p n s)
