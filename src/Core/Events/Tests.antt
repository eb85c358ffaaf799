-- ===== src/Core/Events/Tests.antt =====
-- bus.ts at concrete inputs.
use intellibiz.Shared.{
  pos, negsuc, true, ℕ, ◌≤◌, ◌+◌, none, some, List, [], ◌∷◌, ◌≡◌, refl, length, get_elem?, eqb,
  if◌then◌else◌,
}
use intellibiz.Shared.Text.{codes, take_last}
use intellibiz.Shared.Table
use intellibiz.Core.Events.Listeners.{
  Registry, budget_of, max_retries_of, listeners_of, with_budget, subscribe, off,
  clear_all_listeners, listener_count, registered_events,
}
use intellibiz.Core.Events.Loop.{
  returned, Delivery, Signal, fulfilled, rejected, woken, next_attempt, call_of, caught, advance,
  react, begun, first_calls, backoff_ms,
}
use intellibiz.Core.Events.{
  clear_dead_letter_queue, EventEnvelope, DeadLetteredEvent, Emission, note, step_of, step, run,
  hex_digit, hex_from, hex, envelope_of, emit,
}
use intellibiz.Core.Events.Loops.{Promises, loop, loop-begun}
use intellibiz.Core.Events.Interleaved.{is_over, run_ends}
use intellibiz.Core.Events.Counts.{tally, is_open, is_skipped, emit_counts}

bus : Unit {0}
unfolding emit run step step_of note react advance caught next_attempt call_of begun first_calls
    backoff_ms envelope_of hex hex_from hex_digit take_last max_retries_of budget_of listeners_of
    subscribe with_budget off clear_all_listeners listener_count registered_events loop Table.get
    Table.put Table.delete Table.keys
bus = tt

-- Two listeners of one event: the first has no retry, the second the usual three.
abbrev registry : Registry
registry =
    subscribe "paid" 2 none
      (subscribe "paid" 1 (some (pos 0)) (record { listeners = []; budgets = [] }))

abbrev envelope : EventEnvelope ℕ (Unit {0})
envelope = envelope_of none 255 256 (codes "0123456789") (codes "trace") tt "paid" 7

abbrev signals : List (ℕ × Signal)
signals = (1, rejected "busy" 1) ∷ (0, rejected "down" 2) ∷ (1, woken) ∷ (1, fulfilled) ∷ []

abbrev out : Emission ℕ (Unit {0})
out = run signals (emit registry envelope [])

emission_tests :
    (out.delivered ≡ 1)
    × (out.failed ≡ 1)
    × (out.dead_lettered ≡ 1)
    × (out.calls ≡ (1, 1) ∷ (2, 1) ∷ (2, 2) ∷ [])
    × (envelope.event_id ≡ codes "ibiz_evt_ff23456789")
    × (envelope.tenant_id ≡ "system")
    × (length (clear_dead_letter_queue out).queue ≡ 0)
    × (backoff_ms 1 ≡ 1000)
    × (backoff_ms 5 ≡ 16000)
    × (backoff_ms 6 ≡ 30000)
unfolding bus clear_dead_letter_queue
emission_tests = (refl, refl, refl, refl, refl, refl, refl, refl, refl, refl)

-- A negative budget: the listener is not called, and is counted nowhere.
abbrev never : Registry
never = subscribe "paid" 1 (some (negsuc 0)) (record { listeners = []; budgets = [] })

registry_tests :
    (listener_count "paid" registry ≡ 2)
    × (registered_events registry ≡ "paid" ∷ [])
    × (listener_count "paid" (off "paid" registry) ≡ 0)
    × (registered_events (clear_all_listeners registry) ≡ [])
    × ((emit never envelope []).calls ≡ [])
unfolding bus
registry_tests = (refl, refl, refl, refl, refl)

abbrev third : Promises
third k = if eqb k 2 then none else some ("busy", k)

loop-begun_example : (loop 7 third (begun registry 2)).phase ≡ returned
unfolding bus
loop-begun_example = loop-begun third registry 2 3 refl

abbrev later : Promises
later k = if eqb k 0 then some ("busy", 1) else none

-- The loop of the second listener, whose second attempt is fulfilled, among the signals of both
run_ends_example :
    (d : Delivery) × (get_elem? (run signals (emit registry envelope [])).deliveries 1 ≡ some d)
    × (is_over d.phase ≡ true → d.phase ≡ returned)
    × (7 ≤ 3 → is_over d.phase ≡ true)
unfolding bus
run_ends_example =
    run_ends later registry 2 3 3 1 signals (emit registry envelope []) refl refl refl

emit_counts_example :
    (out.delivered
        + out.dead_lettered
        + tally is_open out.deliveries
        + tally is_skipped out.deliveries
      ≡ listener_count "paid" registry)
    × (out.failed ≡ out.dead_lettered)
    × (length out.queue ≡ length {A = DeadLetteredEvent ℕ (Unit {0})} [] + out.dead_lettered)
unfolding envelope_of
emit_counts_example = emit_counts registry envelope [] signals
