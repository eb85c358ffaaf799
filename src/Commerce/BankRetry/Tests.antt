-- ===== src/Commerce/BankRetry/Tests.antt =====
-- bank-retry.ts at concrete inputs.
use intellibiz.Shared.{
  ℕ, ◌+◌, ◌≤◌, ◌<◌, ◌≡◌, refl, true, false, List, [], ◌∷◌, ◌++◌, length, replicate, arith,
}
use intellibiz.Shared.Table
use intellibiz.Commerce.State.{committed, rolled_back, manual_review}
use intellibiz.Commerce.BankRetry.{
  succeeded, failed, pending, Answer, status, error, RetryEntry, Machine, idle, max_poll_attempts,
  write, settle, schedule_entry, start_bank_retry, fire_entry, receive, answer_entry, force_resolve,
  clear_timers, cancel_all_retries, get_retry_attempt, get_active_retries, is_retrying, Event,
  started, fired, answered, forced, cancelled, step, run,
}
use intellibiz.Commerce.BankRetry.Entries.{resolved_count}
use intellibiz.Commerce.BankRetry.Forced.{resolutions-forced}
use intellibiz.Commerce.BankRetry.Once.{resolved_count-le}
use intellibiz.Commerce.BankRetry.Bounds.{polls-le}
use intellibiz.Commerce.BankRetry.Ends.{rounds, IsDone, run-IsDone}

bank_retry : Unit {0}
unfolding run step write settle schedule_entry start_bank_retry fire_entry receive answer_entry
    force_resolve clear_timers cancel_all_retries get_retry_attempt Table.get Table.put Table.delete
    Table.keys
bank_retry = tt

abbrev polled : List Event
polled = started 0 "p" ∷ fired 0 ∷ answered 60000 0 (status pending) ∷ fired 0 ∷ []

abbrev settled : List Event
settled = polled ++ answered 120000 0 (status succeeded) ∷ fired 0 ∷ []

run_tests :
    (get_retry_attempt "p" (run polled idle) ≡ 2)
    × (is_retrying "p" (run polled idle) ≡ true)
    × ((run settled idle).resolutions ≡ (0, committed) ∷ [])
    × (get_active_retries (run settled idle) ≡ [])
    × ((run (polled ++ answered 86400000 0 error ∷ []) idle).resolutions ≡ (0, manual_review) ∷ [])
    × ((run (polled ++ cancelled ∷ answered 120000 0 (status failed) ∷ []) idle).resolutions
        ≡ (0, rolled_back) ∷ [])
unfolding bank_retry
run_tests = (refl, refl, refl, refl, refl, refl)

resolved_count-le_example : resolved_count 0 (run settled idle).resolutions ≤ 1
resolved_count-le_example = resolved_count-le settled 0 (omega arith)

abbrev awaited : RetryEntry
awaited = record {
  payment_id = "p";
  start_time = 0;
  attempt = 2;
  resolved = false;
  timer = false;
  polling = true;
  polls = 2;
}

abbrev in_flight : Machine
in_flight = record { entries = awaited ∷ []; active = ("p", 0) ∷ []; resolutions = [] }

reaches_in_flight : run polled idle ≡ in_flight
unfolding bank_retry
reaches_in_flight = refl

resolutions-forced_example :
    let m' = step (forced "p" rolled_back) in_flight in
    ((step (answered 9 0 (status succeeded)) m').resolutions
      ≡ (0, rolled_back) ∷ (0, committed) ∷ [])
    × ((step (answered 9 0 (status failed)) m').resolutions
        ≡ (0, rolled_back) ∷ (0, rolled_back) ∷ [])
unfolding bank_retry
resolutions-forced_example = resolutions-forced in_flight 0 9 awaited rolled_back refl refl refl

polls-le_example : (2 ≤ 2) × (2 ≤ 1440)
unfolding bank_retry
polls-le_example = polls-le polled 0 awaited refl

abbrev waiting : RetryEntry
waiting = record {
  payment_id = "p";
  start_time = 0;
  attempt = 1;
  resolved = false;
  timer = true;
  polling = false;
  polls = 0;
}

abbrev just_started : Machine
just_started = record { entries = waiting ∷ []; active = ("p", 0) ∷ []; resolutions = [] }

abbrev outages : List (ℕ × Answer)
outages = replicate max_poll_attempts (0, error)

enough_outages : max_poll_attempts < 1 + length outages
enough_outages = omega arith

run-IsDone_example : IsDone 0 (run (rounds 0 outages) just_started)
run-IsDone_example =
    run-IsDone 0 outages 1 just_started (waiting, refl, refl, refl, refl) (omega arith)
      enough_outages
