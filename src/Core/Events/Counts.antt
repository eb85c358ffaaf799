-- ===== src/Core/Events/Counts.antt =====
-- packages/core/src/events/bus.ts: what `emit` counts, and the dead letter queue.
use intellibiz.Shared.{
  ℕ, zero, suc, ◌+◌, Option, none, some, List, [], ◌∷◌, map, get_elem?, set, length, ◌≡◌, refl, ◌∙◌,
  sym, arith, length-append, length-set, length-map, Bool-cases, inl, inr,
}
use intellibiz.Core.Events.Listeners.{
  within, ListenerId, Registry, listeners_of, listener_count, max_retries_of,
}
use intellibiz.Core.Events.Loop.{
  Phase, calling, sleeping, returned, dead, ended, Delivery, Signal, fulfilled, rejected, woken,
  next_attempt, caught, advance, react, begun,
}
use intellibiz.Core.Events.{
  EventEnvelope, DeadLetteredEvent, Emission, dead_entry, note, step_of, step, run, emit,
}

abbrev pub is_returned : Phase → ℕ
is_returned returned = 1
is_returned _ = 0

abbrev pub is_dead : Phase → ℕ
is_dead dead = 1
is_dead _ = 0

abbrev pub is_open : Phase → ℕ
is_open calling = 1
is_open (sleeping ms) = 1
is_open _ = 0

-- ended before its first call, which takes a negative budget
abbrev pub is_skipped : Phase → ℕ
is_skipped ended = 1
is_skipped _ = 0

-- How many loops are in a phase of one kind.
abbrev pub tally : (Phase → ℕ) → List Delivery → ℕ
tally f [] = 0
tally f (d ∷ ds) = f d.phase + tally f ds

tally-set :
    (f : Phase → ℕ) (ds : List Delivery) (i : ℕ) (d d' : Delivery)
    → get_elem? ds i ≡ some d
    → tally f (set ds i d') + f d.phase ≡ tally f ds + f d'.phase
tally-set f [] i d d' h = ground (arith, h)
tally-set f (x ∷ xs) zero d d' h = let e : x ≡ d = ground (arith, h) in rw e (omega arith)
tally-set f (x ∷ xs) (suc i) d d' h = omega (arith, tally-set f xs i d d' h)

kinds : (p : Phase) → is_returned p + is_dead p + is_open p + is_skipped p ≡ 1
kinds calling = refl
kinds (sleeping ms) = refl
kinds returned = refl
kinds dead = refl
kinds ended = refl

tally_all :
    (ds : List Delivery)
    → tally is_returned ds + tally is_dead ds + tally is_open ds + tally is_skipped ds ≡ length ds
tally_all [] = refl
tally_all (d ∷ ds) = omega (arith, kinds d.phase, tally_all ds)

module _ {P S : Type 0} where
  -- The counters agree with the loops, and the queue has grown by the dead ones since it was `n`
  -- long.
  abbrev Counted : ℕ → Emission P S → Type 0
  Counted n e =
      (e.delivered ≡ tally is_returned e.deliveries)
      × (e.dead_lettered ≡ tally is_dead e.deliveries)
      × (e.failed ≡ e.dead_lettered)
      × (length e.queue ≡ n + e.dead_lettered)

  -- What one signal adds to the counters is what it adds to the loops.
  Noted : Phase → Phase → Emission P S → Emission P S → Type 0
  Noted p p' e e' =
      (e'.delivered + is_returned p ≡ e.delivered + is_returned p')
      × (e'.dead_lettered + is_dead p ≡ e.dead_lettered + is_dead p')
      × (e'.failed + e.dead_lettered ≡ e.failed + e'.dead_lettered)
      × (length e'.queue + e.dead_lettered ≡ length e.queue + e'.dead_lettered)

  unmoved : (p : Phase) (e : Emission P S) → Noted p p e e
  unfolding Noted
  unmoved p e = (refl, refl, refl, refl)

  note-Noted :
      (p : Phase) (s : Signal) (d : Delivery) (e : Emission P S)
      → d.phase ≡ p
      → Noted p (advance p s d).phase e (note p s (advance p s d) e)
  unfolding Noted note advance caught next_attempt
  note-Noted calling fulfilled d e h = (omega arith, refl, refl, refl)
  note-Noted calling (rejected reason now) d e h =
      elim (Bool-cases (within (d.attempt + 1) d.max_retries)) [
        | inl t ↦ rw t (refl, refl, refl, refl)
        | inr f ↦ rw f (
          refl,
          omega arith,
          omega arith,
          omega (arith, length-append e.queue (dead_entry reason now (caught d) e ∷ [])),
        )
      ]
  note-Noted calling woken d e h = rw h (unmoved calling e)
  note-Noted (sleeping ms) fulfilled d e h = rw h (unmoved (sleeping ms) e)
  note-Noted (sleeping ms) (rejected reason now) d e h = rw h (unmoved (sleeping ms) e)
  note-Noted (sleeping ms) woken d e h = elim (Bool-cases (within d.attempt d.max_retries)) [
    | inl t ↦ rw t (refl, refl, refl, refl)
    | inr f ↦ rw f (refl, refl, refl, refl)
  ]
  note-Noted returned s d e h = rw h (unmoved returned e)
  note-Noted dead s d e h = rw h (unmoved dead e)
  note-Noted ended s d e h = rw h (unmoved ended e)

  step_of-Counted :
      (n i : ℕ) (s : Signal) (e : Emission P S) (o : Option Delivery)
      → get_elem? e.deliveries i ≡ o
      → Counted n e
      → Counted n (step_of o i s e)
  unfolding step_of react Noted
  step_of-Counted n i s e none h c = c
  step_of-Counted n i s e (some d) h c =
      let t = tally-set is_returned e.deliveries i d (react s d) h in
      let u = tally-set is_dead e.deliveries i d (react s d) h in
      let v = note-Noted d.phase s d e refl in
      (
        omega (arith, c.0, t, v.0),
        omega (arith, c.1, u, v.1),
        omega (arith, c.2, v.2),
        omega (arith, c.3, v.3),
      )

  pub run-Counted :
      (n : ℕ) (xs : List (ℕ × Signal)) (e : Emission P S) → Counted n e → Counted n (run xs e)
  unfolding run step
  run-Counted n [] e c = c
  run-Counted n ((i, s) ∷ xs) e c =
      run-Counted n xs (step (i, s) e) (step_of-Counted n i s e (get_elem? e.deliveries i) refl c)

tally-begun :
    (registry : Registry) (fns : List ListenerId)
    → (tally is_returned (map (begun registry) fns) ≡ 0)
      × (tally is_dead (map (begun registry) fns) ≡ 0)
unfolding begun next_attempt
tally-begun registry [] = (refl, refl)
tally-begun registry (fn ∷ fns) =
    let rest = tally-begun registry fns in
    elim (Bool-cases (within 0 (max_retries_of registry fn))) [
      | inl t ↦ rw t (omega (arith, rest.0), omega (arith, rest.1))
      | inr f ↦ rw f (omega (arith, rest.0), omega (arith, rest.1))
    ]

length-step_of :
    {P S : Type 0} (o : Option Delivery) (i : ℕ) (s : Signal) (e : Emission P S)
    → length (step_of o i s e).deliveries ≡ length e.deliveries
unfolding step_of
length-step_of none i s e = refl
length-step_of (some d) i s e = length-set e.deliveries i (react s d)

-- The loops are as many at every time.
length-run :
    {P S : Type 0} (xs : List (ℕ × Signal)) (e : Emission P S)
    → length (run xs e).deliveries ≡ length e.deliveries
unfolding run step
length-run [] e = refl
length-run ((i, s) ∷ xs) e =
    length-run xs (step (i, s) e) ∙ length-step_of (get_elem? e.deliveries i) i s e

-- At every time of an emission, in whatever order its signals come: each listener of the event is
-- counted as delivered, or as failed and dead-lettered, or its loop still goes on, or was skipped;
-- and the dead letter queue has grown by one entry for each that was dead-lettered.
pub emit_counts :
    {P S : Type 0} (registry : Registry) (envelope : EventEnvelope P S)
    (queue : List (DeadLetteredEvent P S)) (xs : List (ℕ × Signal))
    → let e = run xs (emit registry envelope queue) in
      (e.delivered + e.dead_lettered + tally is_open e.deliveries + tally is_skipped e.deliveries
        ≡ listener_count envelope.event registry)
      × (e.failed ≡ e.dead_lettered)
      × (length e.queue ≡ length queue + e.dead_lettered)
unfolding emit listener_count
emit_counts registry envelope queue xs =
    let zeros = tally-begun registry (listeners_of registry envelope.event) in
    let c =
      run-Counted (length queue) xs (emit registry envelope queue)
        (sym zeros.0, sym zeros.1, refl, omega arith) in
    let whole = tally_all (run xs (emit registry envelope queue)).deliveries in
    let l = length-run xs (emit registry envelope queue) in
    let m = length-map (begun registry) (listeners_of registry envelope.event) in
    (omega (arith, c.0, c.1, whole, l, m), c.2, c.3)
