-- ===== src/Core/Events.antt =====
-- packages/core/src/events/bus.ts. A listener is known by its identity, a number; what it does with
-- an event is told by the signals: its promise is fulfilled or rejected, and a timer of the retry
-- loop fires. `Promise.all` starts one loop per listener, and the loops then interleave in any
-- order, which is the order of the signals. `max_retries` is an integer.
pub mod Listeners
pub mod Counts
pub mod Loop
pub mod Loops
pub mod Interleaved
mod Tests
use intellibiz.Shared.{
  ℕ, zero, suc, ◌+◌, ◌*◌, ◌-◌, ◌/◌, ◌%◌, ◌^◌, min, String, Bool, true, false, Option, none, some,
  List, [], ◌∷◌, ◌++◌, map, eqb, ltb, leb, if◌then◌else◌, get_elem?, set, length,
}
use intellibiz.Shared.Text.{Text, codes, take_last}
use intellibiz.Core.Events.Listeners.{ListenerId, Registry, listeners_of}
use intellibiz.Core.Events.Loop.{
  Phase, calling, sleeping, returned, dead, ended, Delivery, Signal, fulfilled, rejected, woken,
  call_of, react, begun, first_calls,
}

-- The part of the active context that an envelope takes.
pub record Context : Type 0 where
  pub trace_id : Text
  pub tenant_id : String
  pub user_id : Option String
  pub origin : String

-- `S` is the type of the services that every envelope carries.
pub record EventEnvelope (P S : Type 0) : Type 0 where
  pub event_id : Text
  pub event : String
  pub payload : P
  pub trace_id : Text
  pub tenant_id : String
  pub user_id : Option String
  pub source : String
  pub timestamp : ℕ
  pub delivery_attempt : ℕ
  pub services : S

pub record DeadLetteredEvent (P S : Type 0) : Type 0 where
  pub envelope : EventEnvelope P S
  pub reason : String
  pub failed_at : ℕ
  pub attempts : ℕ

pub record EventDeliveryResult : Type 0 where
  pub event_id : Text
  pub delivered : ℕ
  pub failed : ℕ
  pub dead_lettered : ℕ

-- An emission that goes on, with the dead letter queue and the calls of listeners: whom, and with
-- which `delivery_attempt`.
pub record Emission (P S : Type 0) : Type 0 where
  pub envelope : EventEnvelope P S
  pub deliveries : List Delivery
  pub delivered : ℕ
  pub failed : ℕ
  pub dead_lettered : ℕ
  pub queue : List (DeadLetteredEvent P S)
  pub calls : List (ListenerId × ℕ)

module _ {P S : Type 0} where
  -- `delivered++` and `return`
  abbrev pub count_delivered : Emission P S → Emission P S
  count_delivered e = record e { delivered = suc e.delivered }

  abbrev pub dead_entry : String → ℕ → Delivery → Emission P S → DeadLetteredEvent P S
  dead_entry reason now d e = record {
    envelope = e.envelope;
    reason = reason;
    failed_at = now;
    attempts = d.attempt;
  }

  abbrev pub dead_letter : String → ℕ → Delivery → Emission P S → Emission P S
  dead_letter reason now d e = record e {
    queue = e.queue ++ dead_entry reason now d e ∷ [];
    dead_lettered = suc e.dead_lettered;
    failed = suc e.failed;
  }

  -- What the emission shares, when the loop that waited in the first phase has become `d`.
  unfoldable pub note : Phase → Signal → Delivery → Emission P S → Emission P S
  unfolding call_of
  note calling fulfilled d e = count_delivered e
  note calling (rejected reason now) d e = elim d.phase [
    | dead ↦ dead_letter reason now d e
    | _ ↦ e
  ]
  note (sleeping ms) woken d e = record e { calls = e.calls ++ call_of d }
  note _ _ d e = e

  unfoldable pub step_of : Option Delivery → ℕ → Signal → Emission P S → Emission P S
  unfolding note react
  step_of none i s e = e
  step_of (some d) i s e =
      let e' = note d.phase s (react s d) e in
      record e' { deliveries = set e.deliveries i (react s d) }

  -- A signal to the loop with this number.
  unfoldable pub step : ℕ × Signal → Emission P S → Emission P S
  unfolding step_of
  step (i, s) e = step_of (get_elem? e.deliveries i) i s e

  unfoldable pub run : List (ℕ × Signal) → Emission P S → Emission P S
  unfolding step
  run [] e = e
  run (x ∷ xs) e = run xs (step x e)

-- `n.toString(16)`
unfoldable pub hex_digit : ℕ → ℕ
hex_digit d = if ltb d 10 then b'0' + d else b'a' + (d - 10)

unfoldable pub hex_from : ℕ → ℕ → Text
unfolding hex_digit
hex_from zero n = []
hex_from (suc fuel) n =
    if ltb n 16 then hex_digit n ∷ [] else hex_from fuel (n / 16) ++ hex_digit (n % 16) ∷ []

unfoldable pub hex : ℕ → Text
unfolding hex_from
hex n = hex_from (suc n) n

abbrev pub trace_of : Option Context → Text → Text
trace_of none fresh = fresh
trace_of (some ctx) fresh = ctx.trace_id

abbrev pub tenant_of : Option Context → String
tenant_of none = "system"
tenant_of (some ctx) = ctx.tenant_id

abbrev pub user_of : Option Context → Option String
user_of none = none
user_of (some ctx) = ctx.user_id

abbrev pub source_of : Option Context → String
source_of none = "unknown"
source_of (some ctx) = ctx.origin

-- The envelope: two readings of the clock, and the trace ids for the event id and for the trace.
unfoldable pub envelope_of :
    {P S : Type 0} → Option Context → ℕ → ℕ → Text → Text → S → String → P → EventEnvelope P S
unfolding hex
envelope_of ctx now later id fresh services event payload = record {
  event_id = codes "ibiz_evt_" ++ (hex now ++ take_last 8 id);
  event = event;
  payload = payload;
  trace_id = trace_of ctx fresh;
  tenant_id = tenant_of ctx;
  user_id = user_of ctx;
  source = source_of ctx;
  timestamp = later;
  delivery_attempt = 1;
  services = services;
}

-- `emit` up to the point where every loop waits
unfoldable pub emit :
    {P S : Type 0} → Registry → EventEnvelope P S → List (DeadLetteredEvent P S) → Emission P S
unfolding begun first_calls
emit registry envelope queue =
    let deliveries = map (begun registry) (listeners_of registry envelope.event) in
    record {
      envelope = envelope;
      deliveries = deliveries;
      delivered = 0;
      failed = 0;
      dead_lettered = 0;
      queue = queue;
      calls = first_calls deliveries;
    }

-- `clearDeadLetterQueue`
unfoldable pub clear_dead_letter_queue : {P S : Type 0} → Emission P S → Emission P S
clear_dead_letter_queue e = record e { queue = [] }

abbrev pub result_of : {P S : Type 0} → Emission P S → EventDeliveryResult
result_of e = record {
  event_id = e.envelope.event_id;
  delivered = e.delivered;
  failed = e.failed;
  dead_lettered = e.dead_lettered;
}
