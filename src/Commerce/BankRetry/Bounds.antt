-- ===== src/Commerce/BankRetry/Bounds.antt =====
-- bank-retry.ts: what holds of every entry, in any order of events, forced resolutions included.
use intellibiz.Shared.{
  ℕ, ◌+◌, ◌-◌, ◌≤◌, ◌||◌, String, ◌≡◌, true, false, Option, none, some, List, [], ◌∷◌, inl, inr,
  length, get_elem?, set, leb, eqb, if◌then◌else◌, if_intro, arith, get_elem?-set, get_elem?-concat,
  replaced, Option-cases,
}
use intellibiz.Shared.Table
use intellibiz.Shared.Table.{Table}
use intellibiz.Commerce.State.{TransactionState, committed, rolled_back, manual_review}
use intellibiz.Commerce.BankRetry.{
  succeeded, failed, Answer, status, RetryEntry, Machine, idle, max_poll_duration_ms,
  max_poll_attempts, write, settle, schedule_entry, start_bank_retry, fire_entry, receive,
  answer_entry, at_entry, force_resolve, clear_timers, cancel_all_retries, Event, started, fired,
  answered, forced, cancelled, step, run,
}

-- `checkStatus` is called only after an attempt was counted for it, and the attempts are bounded.
abbrev Bounded : RetryEntry → Type 0
Bounded e = (e.attempt ≤ max_poll_attempts) × (e.polls + (if e.timer then 1 else 0) ≤ e.attempt)

abbrev BoundedAt : Option RetryEntry → Type 0
BoundedAt none = Unit
BoundedAt (some e) = Bounded e

abbrev IsBounded : Machine → Type 0
IsBounded m = (ref : ℕ) → BoundedAt (get_elem? m.entries ref)

module _ (m : Machine) (b : IsBounded m) where
  set-Bounded :
      (ref : ℕ) (e : RetryEntry)
      → Bounded e
      → (r : ℕ) → BoundedAt (get_elem? (set m.entries ref e) r)
  set-Bounded ref e h r =
      rw get_elem?-set
        (if_intro BoundedAt (eqb ref r) (λ hit. here (get_elem? m.entries r)) (λ miss. b r))
    where
      here : (o : Option RetryEntry) → BoundedAt (replaced o e)
      here none = tt
      here (some x) = h

  at_entry-Bounded :
      (ref : ℕ) (f : RetryEntry → Machine → Machine)
      → ((e : RetryEntry) → Bounded e → IsBounded (f e m))
      → IsBounded (at_entry ref f m)
  at_entry-Bounded ref f keeps = elim (Option-cases (get_elem? m.entries ref)) [
    | inl missing ↦ rw (missing, at_entry) b
    | inr (e, at) ↦ rw (at, at_entry) (keeps e (rw at at (b ref)))
  ]

  settle-IsBounded :
      (ref : ℕ) (e : RetryEntry) (final : TransactionState)
      → Bounded e
      → IsBounded (settle ref e final m)
  unfolding settle
  settle-IsBounded ref e final h = set-Bounded ref (record e { resolved = true }) h

  write-IsBounded : (ref : ℕ) (e : RetryEntry) → Bounded e → IsBounded (write ref e m)
  unfolding write
  write-IsBounded ref e h = set-Bounded ref e h

  schedule_entry-IsBounded :
      (now ref : ℕ) (e : RetryEntry) → Bounded e → IsBounded (schedule_entry now ref e m)
  unfolding schedule_entry
  schedule_entry-IsBounded now ref e h =
      if_intro IsBounded e.resolved (λ done. b)
        (λ fresh.
          if_intro IsBounded
            (leb max_poll_duration_ms (now - e.start_time) || leb max_poll_attempts e.attempt)
            (λ over. settle-IsBounded ref e manual_review h)
            (λ more.
              write-IsBounded ref (record e { attempt = e.attempt + 1; timer = true })
                (ground arith)))

  fire_entry-IsBounded : (ref : ℕ) (e : RetryEntry) → Bounded e → IsBounded (fire_entry ref e m)
  unfolding fire_entry
  fire_entry-IsBounded ref e h =
      if_intro IsBounded e.timer
        (λ is_set.
          if_intro IsBounded e.resolved
            (λ done. write-IsBounded ref (record e { timer = false }) (ground arith))
            (λ fresh.
              write-IsBounded ref (record e { timer = false; polling = true; polls = e.polls + 1 })
                (ground arith)))
        (λ none_set. b)

receive-IsBounded :
    (m : Machine)
    → IsBounded m
    → (now ref : ℕ) (e : RetryEntry) (a : Answer) → Bounded e
    → IsBounded (receive now ref e a m)
unfolding receive
receive-IsBounded m b now ref e (status succeeded) h = settle-IsBounded m b ref e committed h
receive-IsBounded m b now ref e (status failed) h = settle-IsBounded m b ref e rolled_back h
receive-IsBounded m b now ref e _ h =
    schedule_entry-IsBounded (write ref e m) (write-IsBounded m b ref e h) now ref e h

clear_timers-IsBounded :
    (refs : Table ℕ) (m : Machine) → IsBounded m → IsBounded (clear_timers refs m)
unfolding clear_timers
clear_timers-IsBounded [] m b = b
clear_timers-IsBounded ((k, ref) ∷ rest) m b = clear_timers-IsBounded rest _ (
    at_entry-Bounded m b ref (λ e. write ref (record e { timer = false }))
      (λ e h. write-IsBounded m b ref (record e { timer = false }) (ground arith)))

start_bank_retry-IsBounded :
    (m : Machine)
    → IsBounded m
    → (now : ℕ) (payment_id : String) → IsBounded (start_bank_retry now payment_id m)
unfolding start_bank_retry
start_bank_retry-IsBounded m b now payment_id =
    if_intro IsBounded (Table.has payment_id m.active) (λ known. b)
      (λ new.
        schedule_entry-IsBounded _
          (λ r.
            rw get_elem?-concat
              (if_intro BoundedAt (eqb (length m.entries) r) (λ _. omega arith) (λ _. b r)))
          now (length m.entries) _ (omega arith))

force_resolve-IsBounded :
    (m : Machine)
    → IsBounded m
    → (payment_id : String) (final : TransactionState)
    → IsBounded (force_resolve payment_id final m)
unfolding force_resolve
force_resolve-IsBounded m b payment_id final = elim (Option-cases (Table.get payment_id m.active)) [
  | inl missing ↦ rw (missing, force_resolve) b
  | inr (ref, at) ↦
      rw (at, force_resolve)
        (at_entry-Bounded m b ref (λ e. settle ref (record e { timer = false }) final)
          (λ e h. settle-IsBounded m b ref (record e { timer = false }) final (ground arith)))
]

step-IsBounded : (ev : Event) (m : Machine) → IsBounded m → IsBounded (step ev m)
unfolding step cancel_all_retries answer_entry
step-IsBounded (started now payment_id) m b = start_bank_retry-IsBounded m b now payment_id
step-IsBounded (fired ref) m b =
    at_entry-Bounded m b ref (fire_entry ref) (fire_entry-IsBounded m b ref)
step-IsBounded (answered now ref answer) m b =
    at_entry-Bounded m b ref (λ e. answer_entry now ref e answer)
      (λ e h.
        if_intro IsBounded e.polling
          (λ polls. receive-IsBounded m b now ref (record e { polling = false }) answer h)
          (λ quiet. b))
step-IsBounded (forced payment_id final) m b = force_resolve-IsBounded m b payment_id final
step-IsBounded cancelled m b = clear_timers-IsBounded m.active m b

run-IsBounded : (evs : List Event) (m : Machine) → IsBounded m → IsBounded (run evs m)
unfolding run
run-IsBounded [] m b = b
run-IsBounded (ev ∷ evs) m b = run-IsBounded evs (step ev m) (step-IsBounded ev m b)

-- In any order of events the bank is asked about one retry at most 1440 times, which is once a
-- minute for a day, and never more often than attempts were counted.
pub polls-le :
    (evs : List Event) (ref : ℕ) (e : RetryEntry)
    → get_elem? (run evs idle).entries ref ≡ some e
    → (e.polls ≤ e.attempt) × (e.attempt ≤ 1440)
polls-le evs ref e at =
    let h : Bounded e = rw at at (run-IsBounded evs idle (λ r. tt) ref) in ground arith
