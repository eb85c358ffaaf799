-- ===== src/Core/Events/Loops.antt =====
-- packages/core/src/events/bus.ts: what one retry loop comes to.
use intellibiz.Shared.{
  pos, ℕ, zero, suc, ◌+◌, ◌*◌, String, Bool, true, false, Option, none, some, leb, ◌≡◌, refl, sym,
  arith, le→leb, subst,
}
use intellibiz.Core.Events.Listeners.{ListenerId, Registry, max_retries_of}
use intellibiz.Core.Events.Loop.{
  Phase, calling, returned, dead, Delivery, Signal, fulfilled, rejected, woken, next_attempt,
  caught, advance, react, begun,
}

-- A listener's promises: what the call with each attempt number comes to.
abbrev pub Promises : Type 0
Promises = ℕ → Option (String × ℕ)

abbrev pub outcome : Option (String × ℕ) → Signal
outcome none = fulfilled
outcome (some (reason, now)) = rejected reason now

-- What a loop waits for comes.
abbrev pub awaited : Promises → Delivery → Signal
awaited promises d = elim d.phase [ calling ↦ outcome (promises d.attempt) | _ ↦ woken ]

unfoldable pub loop : ℕ → Promises → Delivery → Delivery
unfolding react
loop zero promises d = d
loop (suc n) promises d = loop n promises (react (awaited promises d) d)

abbrev pub tried : Option (String × ℕ) → Bool → Bool
tried none later = true
tried (some r) later = later

-- Some of the attempts `from`, ..., `from + extra` is fulfilled.
abbrev pub succeeds : Promises → ℕ → ℕ → Bool
succeeds promises from zero = tried (promises from) false
succeeds promises from (suc extra) = tried (promises from) (succeeds promises (from + 1) extra)

abbrev pub end_of : Bool → Phase
end_of true = returned
end_of false = dead

abbrev at_call : ListenerId → ℕ → ℕ → Delivery
at_call fn from m = record { listener = fn; max_retries = pos m; attempt = from; phase = calling }

loop_returned :
    (promises : Promises) (n : ℕ) (d : Delivery)
    → d.phase ≡ returned
    → (loop n promises d).phase ≡ returned
unfolding loop react advance
loop_returned promises zero d h = h
loop_returned promises (suc n) d h =
    loop_returned promises n (react (awaited promises d) d) (ground (arith, h))

-- The last attempt.
last_call :
    (answer : Option (String × ℕ)) (fn : ListenerId) (m : ℕ)
    → (react (outcome answer) (at_call fn m m)).phase ≡ end_of (tried answer false)
unfolding react advance caught
last_call none fn m = refl
last_call (some r) fn m = ground arith

after_rejection :
    (promises : Promises) (fn : ListenerId) (from m : ℕ)
    → leb (from + 1) m ≡ true
    → react (awaited promises (caught (at_call fn from m))) (caught (at_call fn from m))
      ≡ at_call fn (from + 1) m
unfolding react advance caught next_attempt
after_rejection promises fn from m h = rw h (rw h refl)

-- An attempt with others behind it: a rejection and a timer bring the loop to the next call.
call_again :
    (promises : Promises) (answer : Option (String × ℕ)) (fn : ListenerId) (from m n : ℕ)
    → leb (from + 1) m ≡ true
    → (b : Bool) → (loop n promises (at_call fn (from + 1) m)).phase ≡ end_of b
    → (loop (suc n) promises (react (outcome answer) (at_call fn from m))).phase
      ≡ end_of (tried answer b)
unfolding loop react advance
call_again promises none fn from m n l b h = loop_returned promises n _ refl
call_again promises (some r) fn from m n l b h =
    subst (λ x. (loop n promises x).phase ≡ end_of b) (sym (after_rejection promises fn from m l)) h

loop_ends :
    (promises : Promises) (fn : ListenerId) (m extra from : ℕ)
    → from + extra ≡ m
    → (loop (suc (2 * extra)) promises (at_call fn from m)).phase
      ≡ end_of (succeeds promises from extra)
unfolding loop
loop_ends promises fn m zero from h =
    let e : from ≡ m = omega (arith, h) in rw e (last_call (promises m) fn m)
loop_ends promises fn m (suc extra) from h =
    let e : 2 * suc extra ≡ suc (suc (2 * extra)) = omega arith in
    rw e (
      call_again promises (promises from) fn from m (suc (2 * extra))
        (le→leb (from + 1) m (omega (arith, h))) (succeeds promises (from + 1) extra)
        (loop_ends promises fn m extra (from + 1) (omega (arith, h))))

-- A loop whose retry budget is `m` ends after at most `m + 1` calls and `m` timers, and so in
-- `2 * m + 1` signals: it has delivered the event if one of the first `m + 1` attempts is fulfilled,
-- and is in the dead letter queue otherwise.
pub loop-begun :
    (promises : Promises) (registry : Registry) (fn : ListenerId) (m : ℕ)
    → max_retries_of registry fn ≡ pos m
    → (loop (suc (2 * m)) promises (begun registry fn)).phase ≡ end_of (succeeds promises 0 m)
unfolding begun next_attempt
loop-begun promises registry fn m h =
    rw h (rw (le→leb 0 m (omega arith)) (loop_ends promises fn m m 0 (omega arith)))
