-- ===== src/Queue/Conserved.antt =====
-- What the operations of the queue keep: distinct ids, and the count of the jobs.
use loop_agent.Prelude.{
  ℕ, ◌+◌, ◌≤◌, ◌≡◌, ◌≢◌, refl, sym, subst, Bool, List, [], ◌∷◌, ◌++◌, length, ◌&&◌, nat_eq, ltb,
  arith, inl, inr, Bool-cases, length-append,
}
use loop_agent.Prelude.Codes.{take}
use loop_agent.Queue.{Fields, Entry, Store, Library, empty, xadd, without, enqueue}
use loop_agent.Queue.Worker.{
  Handler, process, process_all, select, deliver, stale, fresh, serve, round,
}
use loop_agent.Queue.Entries.{
  count, count-snoc, length-without, count-without, count-without-le, count-deliver, length-deliver,
  count-select, count-take,
}
use loop_agent.Queue.Effects.{Effect, kept, settled, requeued, again, process-Effect}

-- The ids are distinct and below the next one, and every job that the metric counts as published is
-- in the stream or has been counted as completed or given up.
pub record IsSound (s : Store) : Type 0 where
  pub once : (i : ℕ) → count i s.queue ≤ 1
  pub known : (i : ℕ) → s.next ≤ i → count i s.queue ≡ 0
  pub balanced : s.counts.enqueued ≤ s.counts.completed + s.counts.dead_lettered + length s.queue

-- Entries of the stream, none of them twice.
abbrev pub IsBatch : List Entry → Store → Type 0
IsBatch batch s = (i : ℕ) → count i batch ≤ count i s.queue

module _ (lib : Library) (limit : ℕ) (e : Entry) (s : Store) (sound : IsSound s) where
  requeued-count :
      (x : Entry) (j : ℕ)
      → x.id ≡ s.next
      → (count j (without e.id (s.queue ++ x ∷ [])) ≤ 1)
        × (s.next + 1 ≤ j → count j (without e.id (s.queue ++ x ∷ [])) ≡ 0)
  requeued-count x j h =
      let all = count-snoc j s.queue x in
      let le = count-without-le e.id j (s.queue ++ x ∷ []) in
      ground (arith, sound.once j, sound.known j)

  -- The stream keeps its length at least: an id is there once at most.
  requeued-length :
      (x : Entry) → x.id ≡ s.next → length s.queue ≤ length (without e.id (s.queue ++ x ∷ []))
  requeued-length x h =
      let all = count-snoc e.id s.queue x in
      let gone = length-without e.id (s.queue ++ x ∷ []) in
      let more = length-append s.queue (x ∷ []) in ground (arith, sound.known e.id, sound.once e.id)

  pub Effect-IsSound : (r : Bool × Store) → Effect lib limit e s r → IsSound r.1
  Effect-IsSound r (kept h) = subst (λ x. IsSound x.1) (sym h) sound
  Effect-IsSound r (settled q n c d) = record {
    once = λ i. rw q (omega (arith, sound.once i, count-without-le e.id i s.queue));
    known = λ i h. rw q (omega (arith, sound.known i, count-without-le e.id i s.queue));
    balanced = rw q (omega (arith, sound.balanced, length-without e.id s.queue, sound.once e.id));
  }
  Effect-IsSound r (requeued a error h g q n c d) =
      let x = again lib a e.fields error s.next in
      let named : x.id ≡ s.next = unfold again in refl in
      record {
        once = λ i. rw q (requeued-count x i named).0;
        known = λ i m. rw q ((requeued-count x i named).1 (omega arith));
        balanced = rw q (omega (arith, sound.balanced, requeued-length x named));
      }

  -- The other entries stay.
  pub Effect-keeps :
      (r : Bool × Store) (j : ℕ)
      → Effect lib limit e s r
      → e.id ≢ j
      → count j s.queue ≤ count j r.1.queue
  Effect-keeps r j (kept h) m =
      subst (λ x. count j s.queue ≤ count j x.1.queue) (sym h) (omega arith)
  Effect-keeps r j (settled q n c d) m = rw q (omega (arith, count-without e.id j s.queue m))
  Effect-keeps r j (requeued a error h g q n c d) m =
      let x = again lib a e.fields error s.next in
      rw q (omega (arith, count-without e.id j (s.queue ++ x ∷ []) m, count-snoc j s.queue x))

pub IsBatch-present :
    (e : Entry) (es : List Entry) (s : Store)
    → IsSound s
    → IsBatch (e ∷ es) s
    → count e.id s.queue ≡ 1
unfolding count
IsBatch-present e es s sound h = ground (arith, h e.id, sound.once e.id)

pub IsBatch-alone :
    (e : Entry) (es : List Entry) (s : Store) → IsSound s → IsBatch (e ∷ es) s → count e.id es ≡ 0
unfolding count
IsBatch-alone e es s sound h = ground (arith, h e.id, sound.once e.id)

pub IsBatch-rest :
    (e : Entry) (es : List Entry) (s s' : Store)
    → IsSound s
    → IsBatch (e ∷ es) s
    → (j : ℕ) → (e.id ≢ j → count j s.queue ≤ count j s'.queue)
    → count j es ≤ count j s'.queue
unfolding count
IsBatch-rest e es s s' sound h j k = ground (arith, h j, sound.once j)

pub empty-IsSound : IsSound empty
unfolding count
empty-IsSound = record { once = λ i. omega arith; known = λ i h. refl; balanced = omega arith }

xadd-counts :
    (fs : Fields) (s : Store) (i : ℕ)
    → IsSound s
    → (count i (xadd fs s).queue ≤ 1)
      × (s.next + 1 ≤ i → count i (xadd fs s).queue ≡ 0)
      × (length (xadd fs s).queue ≡ length s.queue + 1)
unfolding xadd
xadd-counts fs s i sound =
    let x : Entry = record { id = s.next; fields = fs; deliveries = 0 } in
    let all = count-snoc i s.queue x in
    let more = length-append s.queue (x ∷ []) in ground (arith, sound.once i, sound.known i)

pub enqueue-IsSound : (fs : Fields) (s : Store) → IsSound s → IsSound (enqueue fs s)
unfolding enqueue xadd
enqueue-IsSound fs s sound = record {
  once = λ i. (xadd-counts fs s i sound).0;
  known = λ i h. (xadd-counts fs s i sound).1 h;
  balanced = let more = (xadd-counts fs s 0 sound).2 in omega (arith, sound.balanced);
}

-- One more delivery of some of the entries.
pub delivered-IsSound :
    (p : Entry → Bool) (n : ℕ) (s : Store)
    → IsSound s
    → let batch = take n (select p s.queue) in
      let s' : Store = record s { queue = deliver batch s.queue } in IsSound s' × IsBatch batch s'
delivered-IsSound p n s sound =
    let batch = take n (select p s.queue) in
    (
      record {
        once = λ i. rw (count-deliver i batch s.queue) (sound.once i);
        known = λ i h. rw (count-deliver i batch s.queue) (sound.known i h);
        balanced = rw (length-deliver batch s.queue) sound.balanced;
      },
      λ i.
          rw (count-deliver i batch s.queue)
            (omega (arith, count-take i n (select p s.queue), count-select i p s.queue)),
    )

module _ (lib : Library) (limit : ℕ) (run_task : Handler) where
  pub process_all-IsSound :
      (batch : List Entry) (s : Store)
      → IsSound s
      → IsBatch batch s
      → IsSound (process_all lib limit run_task batch s).1
  unfolding process_all
  process_all-IsSound [] s sound h = sound
  process_all-IsSound (e ∷ es) s sound h =
      let r = process lib limit run_task e s in
      let effect = process-Effect lib limit e s run_task in
      let present = IsBatch-present e es s sound h in
      let sound' = Effect-IsSound lib limit e s sound r effect in
      elim (Bool-cases r.0) [
        | inl alive ↦ rw alive (
            process_all-IsSound es r.1 sound' (λ j.
              IsBatch-rest e es s r.1 sound h j (Effect-keeps lib limit e s sound r j effect)))
        | inr dead ↦ rw dead sound'
      ]

  pub serve-IsSound :
      (p : Entry → Bool) (n : ℕ) (s : Store)
      → IsSound s
      → IsSound (serve lib limit run_task (take n (select p s.queue)) s).1
  unfolding serve
  serve-IsSound p n s sound =
      let batch = take n (select p s.queue) in
      let (sound', h) = delivered-IsSound p n s sound in
      process_all-IsSound batch (record s { queue = deliver batch s.queue }) sound' h

  pub round-IsSound :
      (idle : ℕ → Bool) (s : Store) → IsSound s → IsSound (round lib limit run_task idle s)
  unfolding round stale fresh
  round-IsSound idle s sound =
      let r = serve lib limit run_task (stale idle s) s in
      let sound' = serve-IsSound (λ e. ltb 0 e.deliveries && idle e.id) 10 s sound in
      elim (Bool-cases r.0) [
        | inl alive ↦ rw alive (serve-IsSound (λ e. nat_eq e.deliveries 0) 1 r.1 sound')
        | inr dead ↦ rw dead sound'
      ]
