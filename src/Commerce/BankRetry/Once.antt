-- ===== src/Commerce/BankRetry/Once.antt =====
-- bank-retry.ts: how often a payment is resolved.
use intellibiz.Shared.{
  get_elem?-concat_self, ℕ, String, ◌≡◌, refl, false, Option, none, some, List, [], ◌∷◌, ◌++◌, All,
  inl, inr, subst, ◌≤◌, length, get_elem?, eqb, eqb_iff, if_intro, arith, get_elem?-concat,
  get_elem?-length, Bool-cases, Option-cases,
}
use intellibiz.Shared.Table
use intellibiz.Shared.Table.{Table}
use intellibiz.Commerce.BankRetry.{
  RetryEntry, Machine, write, start_bank_retry, fire_entry, answer_entry, at_entry, clear_timers,
  cancel_all_retries, Event, started, fired, answered, forced, cancelled, step, run, idle,
}
use intellibiz.Commerce.BankRetry.Entries.{
  resolved_count, OnceAt, IsOnce, at_entry-Once, write-IsOnce, schedule_entry-IsOnce,
  fire_entry-IsOnce, answer_entry-IsOnce,
}

-- What holds of every entry survives an access to one of them.
at_entry_intro :
    (P : Machine → Type 0) (ref : ℕ) (f : RetryEntry → Machine → Machine) (m : Machine)
    → P m
    → ((e : RetryEntry) → get_elem? m.entries ref ≡ some e → P (f e m))
    → P (at_entry ref f m)
at_entry_intro P ref f m h step_holds = elim (Option-cases (get_elem? m.entries ref)) [
  | inl missing ↦ rw (missing, at_entry) h
  | inr (e, at) ↦ rw (at, at_entry) (step_holds e at)
]

appended-IsOnce :
    (m : Machine)
    → IsOnce m
    → (e : RetryEntry) (active' : Table ℕ) → e.resolved ≡ false
    → e.timer ≡ false
    → e.polling ≡ false
    → IsOnce (record m { entries = m.entries ++ e ∷ []; active = active' })
appended-IsOnce m once e active' fresh still quiet r =
    elim (Bool-cases (eqb (length m.entries) r)) [
      | inl hit ↦
          let here : length m.entries ≡ r = (eqb_iff _ r).0 hit in
          let unused : resolved_count r m.resolutions ≡ 0 =
            let at_end = get_elem?-length m.entries in
            subst (λ o. OnceAt o (resolved_count r m.resolutions)) (rw here at at_end) (once r) in
          rw (get_elem?-concat, hit)
            (
              ground (arith, unused),
              record { at_rest = λ _. (still, quiet); one_task = λ _. still },
            )
      | inr miss ↦ rw (get_elem?-concat, miss) (once r)
    ]

start_bank_retry-IsOnce :
    (m : Machine)
    → IsOnce m
    → (now : ℕ) (payment_id : String) → IsOnce (start_bank_retry now payment_id m)
unfolding start_bank_retry
start_bank_retry-IsOnce m once now payment_id =
    let entry : RetryEntry = record {
      payment_id = payment_id;
      start_time = now;
      attempt = 0;
      resolved = false;
      timer = false;
      polling = false;
      polls = 0;
    } in
    if_intro IsOnce (Table.has payment_id m.active) (λ known. once)
      (λ new.
        schedule_entry-IsOnce
          (record m {
            entries = m.entries ++ entry ∷ [];
            active = Table.put payment_id (length m.entries) m.active;
          })
          (appended-IsOnce m once entry (Table.put payment_id (length m.entries) m.active) refl refl
            refl)
          (length m.entries) entry (get_elem?-concat_self m.entries entry) now refl refl)

clear_timers-IsOnce : (refs : Table ℕ) (m : Machine) → IsOnce m → IsOnce (clear_timers refs m)
unfolding clear_timers
clear_timers-IsOnce [] m once = once
clear_timers-IsOnce ((k, ref) ∷ rest) m once = clear_timers-IsOnce rest _ (
    at_entry_intro IsOnce ref (λ e. write ref (record e { timer = false })) m once
      (λ e at.
        write-IsOnce m once ref e at (record e { timer = false }) refl
          (ground (arith, (at_entry-Once m once ref e at).1))))

-- The caller does not resolve the payment by hand.
abbrev pub IsAutomatic : Event → Type 0
IsAutomatic (forced payment_id final) = ⊥
IsAutomatic _ = Unit

step-IsOnce : (ev : Event) (m : Machine) → IsAutomatic ev → IsOnce m → IsOnce (step ev m)
unfolding step cancel_all_retries
step-IsOnce (started now payment_id) m _ once = start_bank_retry-IsOnce m once now payment_id
step-IsOnce (fired ref) m _ once =
    at_entry_intro IsOnce ref (fire_entry ref) m once (λ e at. fire_entry-IsOnce m once ref e at)
step-IsOnce (answered now ref answer) m _ once =
    at_entry_intro IsOnce ref (λ e. answer_entry now ref e answer) m once
      (λ e at. answer_entry-IsOnce m once now ref e answer at)
step-IsOnce (forced payment_id final) m automatic once = absurd automatic
step-IsOnce cancelled m _ once = clear_timers-IsOnce m.active m once

run-IsOnce : (evs : List Event) (m : Machine) → All IsAutomatic evs → IsOnce m → IsOnce (run evs m)
unfolding run
run-IsOnce [] m automatic once = once
run-IsOnce (ev ∷ evs) m automatic once =
    run-IsOnce evs (step ev m) automatic.1 (step-IsOnce ev m automatic.0 once)

OnceAt-le : (o : Option RetryEntry) (n : ℕ) → OnceAt o n → n ≤ 1
OnceAt-le none n h = omega arith
OnceAt-le (some e) n h = ground arith

-- In any order of starts, timers, answers and cancellations, `onResolved` is called at most once
-- for each started retry, as long as no payment is resolved by hand.
pub resolved_count-le :
    (evs : List Event) (ref : ℕ)
    → All IsAutomatic evs
    → resolved_count ref (run evs idle).resolutions ≤ 1
resolved_count-le evs ref automatic = OnceAt-le _ _ (run-IsOnce evs idle automatic (λ r. refl) ref)
