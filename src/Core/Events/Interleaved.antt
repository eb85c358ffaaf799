-- ===== src/Core/Events/Interleaved.antt =====
-- packages/core/src/events/bus.ts: the loops of an emission, whose signals come in any order.
use intellibiz.Shared.{
  pos, ℕ, zero, suc, ◌+◌, ◌-◌, ◌*◌, ◌≤◌, ap, ◌∙◌, Bool, true, false, Option, none, some, List, [],
  ◌∷◌, eqb, if◌then◌else◌, get_elem?, ◌≡◌, refl, sym, arith, get_elem?-set, Bool-cases, inl, inr,
  Option-cases, if_intro, eqb_iff, subst,
}
use intellibiz.Core.Events.Listeners.{ListenerId, Registry, max_retries_of}
use intellibiz.Core.Events.Loop.{Phase, returned, dead, Delivery, Signal, advance, react, begun}
use intellibiz.Core.Events.{Emission, step_of, step, run}
use intellibiz.Core.Events.Loops.{Promises, awaited, loop, succeeds, end_of, loop-begun}

abbrev pub map_option : {A : Type 0} → (A → A) → Option A → Option A
map_option f none = none
map_option f (some a) = some (f a)

-- The signals to one loop, in their order.
abbrev pub signals_to : ℕ → List (ℕ × Signal) → List Signal
signals_to i [] = []
signals_to i ((j, s) ∷ xs) = if eqb j i then s ∷ signals_to i xs else signals_to i xs

abbrev pub react_all : List Signal → Delivery → Delivery
react_all [] d = d
react_all (s ∷ ss) d = react_all ss (react s d)

-- The next `n` signals of a loop whose attempts are fulfilled or rejected as `promises` says
abbrev pub answers : ℕ → Promises → Delivery → List Signal
answers zero promises d = []
answers (suc n) promises d = awaited promises d ∷ answers n promises (react (awaited promises d) d)

react_all-answers :
    (promises : Promises) (n : ℕ) (d : Delivery)
    → react_all (answers n promises d) d ≡ loop n promises d
unfolding loop
react_all-answers promises zero d = refl
react_all-answers promises (suc n) d = react_all-answers promises n (react (awaited promises d) d)

-- The loop has nothing to wait for.
abbrev pub is_over : Phase → Bool
is_over returned = true
is_over dead = true
is_over _ = false

is_over-end_of : (b : Bool) → is_over (end_of b) ≡ true
is_over-end_of true = refl
is_over-end_of false = refl

react-over : (s : Signal) (d : Delivery) → is_over d.phase ≡ true → (react s d).phase ≡ d.phase
unfolding react advance
react-over s d h = ground (arith, h)

loop-over :
    (promises : Promises) (n : ℕ) (d : Delivery)
    → is_over d.phase ≡ true
    → (loop n promises d).phase ≡ d.phase
unfolding loop
loop-over promises zero d h = refl
loop-over promises (suc n) d h =
    let same = react-over (awaited promises d) d h in
    loop-over promises n (react (awaited promises d) d) (ap is_over same ∙ h) ∙ same

loop-add :
    (promises : Promises) (n k : ℕ) (d : Delivery)
    → loop (n + k) promises d ≡ loop k promises (loop n promises d)
unfolding loop
loop-add promises zero k d = let e : 0 + k ≡ k = omega arith in ap (λ x. loop x promises d) e
loop-add promises (suc n) k d =
    let e : suc n + k ≡ suc (n + k) = omega arith in
    ap (λ x. loop x promises d) e ∙ loop-add promises n k (react (awaited promises d) d)

-- Two states of a loop that are over have the same phase.
over_agrees :
    (promises : Promises) (n k : ℕ) (d : Delivery) (b : Bool)
    → (loop k promises d).phase ≡ end_of b
    → is_over (loop n promises d).phase ≡ true
    → (loop n promises d).phase ≡ end_of b
over_agrees promises n k d b h over =
    let swap : n + k ≡ k + n = omega arith in
    sym (loop-over promises k (loop n promises d) over)
    ∙ ap (λ x. x.phase) (sym (loop-add promises n k d))
    ∙ ap (λ x. (loop x promises d).phase) swap
    ∙ ap (λ x. x.phase) (loop-add promises k n d)
    ∙ loop-over promises n (loop k promises d) (ap is_over h ∙ is_over-end_of b)
    ∙ h

over_later :
    (promises : Promises) (n k : ℕ) (d : Delivery) (b : Bool)
    → (loop k promises d).phase ≡ end_of b
    → k ≤ n
    → is_over (loop n promises d).phase ≡ true
over_later promises n k d b h le =
    let split : n ≡ k + (n - k) = omega (arith, le) in
    let over = ap is_over h ∙ is_over-end_of b in
    ap (λ x. is_over (loop x promises d).phase) split
    ∙ ap (λ x. is_over x.phase) (loop-add promises k (n - k) d)
    ∙ ap is_over (loop-over promises (n - k) (loop k promises d) over)
    ∙ over

at_signal :
    (s : Signal) (ss : List Signal) (b : Bool) (o : Option Delivery)
    → map_option (react_all ss) (if b then map_option (react s) o else o)
      ≡ map_option (react_all (if b then s ∷ ss else ss)) o
at_signal s ss true none = refl
at_signal s ss true (some d) = refl
at_signal s ss false o = refl

module _ {P S : Type 0} where
  at_same :
      (i j : ℕ) (e : Emission P S) (o : Option Delivery)
      → eqb j i ≡ true
      → get_elem? e.deliveries j ≡ o
      → get_elem? e.deliveries i ≡ o
  at_same i j e o t h = subst (λ k. get_elem? e.deliveries k ≡ o) ((eqb_iff j i).0 t) h

  deliveries-step_of :
      (i j : ℕ) (s : Signal) (e : Emission P S) (o : Option Delivery)
      → get_elem? e.deliveries j ≡ o
      → get_elem? (step_of o j s e).deliveries i ≡ (
          if eqb j i
          then map_option (react s) (get_elem? e.deliveries i)
          else get_elem? e.deliveries i)
  unfolding step_of
  deliveries-step_of i j s e none h =
      if_intro (λ x. get_elem? e.deliveries i ≡ x) (eqb j i)
        (λ t. let k : get_elem? e.deliveries i ≡ none = at_same i j e none t h in rw k refl)
        (λ f. refl)
  deliveries-step_of i j s e (some d) h =
      rw (get_elem?-set e.deliveries j i (react s d)) (elim (Bool-cases (eqb j i)) [
        | inl t ↦ rw t (rw (at_same i j e (some d) t h) refl)
        | inr f ↦ rw f refl
      ])

  deliveries-step :
      (i j : ℕ) (s : Signal) (e : Emission P S)
      → get_elem? (step (j, s) e).deliveries i ≡ (
          if eqb j i
          then map_option (react s) (get_elem? e.deliveries i)
          else get_elem? e.deliveries i)
  unfolding step
  deliveries-step i j s e = deliveries-step_of i j s e (get_elem? e.deliveries j) refl

  -- In whatever order the signals of all loops come, a loop is where its own bring it.
  deliveries-run :
      (i : ℕ) (xs : List (ℕ × Signal)) (e : Emission P S)
      → get_elem? (run xs e).deliveries i
        ≡ map_option (react_all (signals_to i xs)) (get_elem? e.deliveries i)
  unfolding run
  deliveries-run i [] e = elim (Option-cases (get_elem? e.deliveries i)) [
    | inl h ↦ rw h refl
    | inr (d, h) ↦ rw h refl
  ]
  deliveries-run i ((j, s) ∷ xs) e =
      rw (deliveries-run i xs (step (j, s) e), deliveries-step i j s e)
        (at_signal s (signals_to i xs) (eqb j i) (get_elem? e.deliveries i))

  -- In whatever order the calls and the timers of all listeners of an emission settle, a listener's loop,
  -- whose retry budget is `m`: when it is over, the listener has been delivered the event if one of its
  -- first `m + 1` attempts is fulfilled, and the event is in the dead letter queue otherwise. It is over
  -- once it has got `2 * m + 1` signals of its own.
  pub run_ends :
      (promises : Promises) (registry : Registry) (fn : ListenerId) (m n i : ℕ)
      (xs : List (ℕ × Signal)) (e : Emission P S)
      → max_retries_of registry fn ≡ pos m
      → get_elem? e.deliveries i ≡ some (begun registry fn)
      → signals_to i xs ≡ answers n promises (begun registry fn)
      → (d : Delivery) × (get_elem? (run xs e).deliveries i ≡ some d)
        × (is_over d.phase ≡ true → d.phase ≡ end_of (succeeds promises 0 m))
        × (suc (2 * m) ≤ n → is_over d.phase ≡ true)
  run_ends promises registry fn m n i xs e budget here own =
      let d = begun registry fn in
      let ends = loop-begun promises registry fn m budget in
      (
        loop n promises d,
        deliveries-run i xs e
            ∙ ap (map_option (react_all (signals_to i xs))) here
            ∙ ap (λ ss. some (react_all ss d)) own
            ∙ ap some (react_all-answers promises n d),
        over_agrees promises n (suc (2 * m)) d (succeeds promises 0 m) ends,
        over_later promises n (suc (2 * m)) d (succeeds promises 0 m) ends,
      )
