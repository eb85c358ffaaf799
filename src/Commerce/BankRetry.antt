-- ===== src/Commerce/BankRetry.antt =====
-- packages/commerce/src/state-machine/bank-retry.ts. An entry is an object that the map, the timer
-- and the timer's callback share, so entries live on a heap and are named by their place there.
-- `Date.now()` is an argument. An event is what the event loop or a caller does next: any order of
-- events is possible, but a timer fires only where one is set, and an answer comes only where the
-- callback awaits one.
pub mod Entries
pub mod Forced
pub mod Once
pub mod Bounds
pub mod Ends
mod Tests
use intellibiz.Shared.{
  ℕ, suc, ◌+◌, ◌-◌, ◌*◌, ◌/◌, String, Bool, true, false, Option, none, some, List, [], ◌∷◌, ◌++◌,
  ◌||◌, length, get_elem?, set, leb, eqb, if◌then◌else◌,
}
use intellibiz.Shared.Table
use intellibiz.Shared.Table.{Table}
use intellibiz.Commerce.State.{TransactionState, committed, rolled_back, manual_review}

abbrev pub poll_interval_ms : ℕ
poll_interval_ms = 60000

abbrev pub max_poll_duration_ms : ℕ
max_poll_duration_ms = 24 * 60 * 60 * 1000

-- `Math.ceil(MAX_POLL_DURATION_MS / POLL_INTERVAL_MS)`
abbrev pub max_poll_attempts : ℕ
max_poll_attempts = (max_poll_duration_ms + poll_interval_ms - 1) / poll_interval_ms

pub data BankStatus : Type 0 where
  succeeded failed pending unknown : BankStatus

-- What a poll comes to: the status, or an error of `checkStatus` or of `onPoll`.
pub data Answer : Type 0 where
  status : BankStatus → Answer
  error : Answer

pub record RetryEntry : Type 0 where
  pub payment_id : String
  pub start_time : ℕ
  pub attempt : ℕ
  pub resolved : Bool
  -- a timeout is set that has neither fired nor been cleared
  pub timer : Bool
  -- the callback awaits `checkStatus`
  pub polling : Bool
  -- how often `checkStatus` has been called
  pub polls : ℕ

pub record Machine : Type 0 where
  pub entries : List RetryEntry
  pub active : Table ℕ
  -- the calls of `onResolved`, each with its entry
  pub resolutions : List (ℕ × TransactionState)

abbrev pub idle : Machine
idle = record { entries = []; active = []; resolutions = [] }

unfoldable pub write : ℕ → RetryEntry → Machine → Machine
write ref e m = record m { entries = set m.entries ref e }

-- `entry.resolved = true`, the deletion from the map, and the call of `onResolved`
unfoldable pub settle : ℕ → RetryEntry → TransactionState → Machine → Machine
settle ref e final m = record {
  entries = set m.entries ref (record e { resolved = true });
  active = Table.delete e.payment_id m.active;
  resolutions = m.resolutions ++ (ref, final) ∷ [];
}

-- `schedulePoll(entry)`, with the entry read from the heap
unfoldable pub schedule_entry : ℕ → ℕ → RetryEntry → Machine → Machine
schedule_entry now ref e m =
    if e.resolved
    then m
    else if leb max_poll_duration_ms (now - e.start_time) || leb max_poll_attempts e.attempt
    then settle ref e manual_review m
    else write ref (record e { attempt = e.attempt + 1; timer = true }) m

unfoldable pub start_bank_retry : ℕ → String → Machine → Machine
start_bank_retry now payment_id m =
    let entry : RetryEntry = record {
      payment_id = payment_id;
      start_time = now;
      attempt = 0;
      resolved = false;
      timer = false;
      polling = false;
      polls = 0;
    } in
    if Table.has payment_id m.active
    then m
    else schedule_entry now (length m.entries) entry (record m {
      entries = m.entries ++ entry ∷ [];
      active = Table.put payment_id (length m.entries) m.active;
    })

abbrev pub is_retrying : String → Machine → Bool
is_retrying payment_id m = Table.has payment_id m.active

-- The timer's callback up to its `await`.
unfoldable pub fire_entry : ℕ → RetryEntry → Machine → Machine
fire_entry ref e m =
    if e.timer
    then if e.resolved
      then write ref (record e { timer = false }) m
      else write ref (record e { timer = false; polling = true; polls = e.polls + 1 }) m
    else m

-- The rest of the callback. It does not look at `resolved` again.
unfoldable pub receive : ℕ → ℕ → RetryEntry → Answer → Machine → Machine
receive now ref e (status succeeded) m = settle ref e committed m
receive now ref e (status failed) m = settle ref e rolled_back m
receive now ref e _ m = schedule_entry now ref e (write ref e m)

unfoldable pub answer_entry : ℕ → ℕ → RetryEntry → Answer → Machine → Machine
unfolding receive
answer_entry now ref e answer m =
    if e.polling then receive now ref (record e { polling = false }) answer m else m

abbrev pub at_entry : ℕ → (RetryEntry → Machine → Machine) → Machine → Machine
at_entry ref f m = elim (get_elem? m.entries ref) [ none ↦ m | some e ↦ f e m ]

unfoldable pub force_resolve : String → TransactionState → Machine → Machine
force_resolve payment_id final m = elim (Table.get payment_id m.active) [
  | none ↦ m
  | some ref ↦ at_entry ref (λ e. settle ref (record e { timer = false }) final) m
]

-- the loop of `cancelAllRetries`
unfoldable pub clear_timers : Table ℕ → Machine → Machine
clear_timers [] m = m
clear_timers ((k, ref) ∷ rest) m =
    clear_timers rest (at_entry ref (λ e. write ref (record e { timer = false })) m)

unfoldable pub cancel_all_retries : Machine → Machine
cancel_all_retries m = record (clear_timers m.active m) { active = [] }

-- `activeRetries.get(paymentId)?.attempt ?? 0`
unfoldable pub get_retry_attempt : String → Machine → ℕ
get_retry_attempt payment_id m = elim (Table.get payment_id m.active) [
  | none ↦ 0
  | some ref ↦ elim (get_elem? m.entries ref) [ none ↦ 0 | some e ↦ e.attempt ]
]

abbrev pub get_active_retries : Machine → List String
get_active_retries m = Table.keys m.active

pub data Event : Type 0 where
  started : ℕ → String → Event
  fired : ℕ → Event
  answered : ℕ → ℕ → Answer → Event
  forced : String → TransactionState → Event
  cancelled : Event

unfoldable pub step : Event → Machine → Machine
step (started now payment_id) m = start_bank_retry now payment_id m
step (fired ref) m = at_entry ref (fire_entry ref) m
step (answered now ref answer) m = at_entry ref (λ e. answer_entry now ref e answer) m
step (forced payment_id final) m = force_resolve payment_id final m
step cancelled m = cancel_all_retries m

unfoldable pub run : List Event → Machine → Machine
run [] m = m
run (e ∷ es) m = run es (step e m)
