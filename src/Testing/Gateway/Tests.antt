-- ===== src/Testing/Gateway/Tests.antt =====
-- packages/testing/src/mock-gateway.ts at concrete inputs.
use intellibiz.Shared.{
  ℕ, ◌+◌, String, none, some, List, [], ◌∷◌, ◌++◌, replicate, reverse, ok, err, All, ◌≡◌, refl,
}
use intellibiz.Shared.Text.{codes, show}
use intellibiz.Shared.Strings.{to_string, digits_from}
use intellibiz.Commerce.State.{rolled_back}
use intellibiz.Commerce.Transaction.{
  succeeded, failed, ChargeParams, RefundParams, Program, throws, charges, noted, charge_settled,
  charge_step, interpret, refund_if, compensate, run_all, finish, journal_id, transaction,
}
use intellibiz.Testing.Gateway.Recorded.{payments_in, refunds_in}
use intellibiz.Testing.Gateway.{
  MockGateway, create_mock_gateway, succeed_next, fail_next, fail_next_n, spy_refund, assigned,
  default_charge_result, answered, handled, default_charge, handle, decided, charge, bump, refund,
  provider, reset, get_last_charge,
}
use intellibiz.Testing.Gateway.Counts.{
  Operation, fails_next, spies, charges_with, refunds_with, operate, operate_all, Counted,
  operate_all-Counted,
}
use intellibiz.Testing.Gateway.Failures.{after, outcomes, Succeeds, fail_next_n-outcomes}
use intellibiz.Testing.Gateway.Transactions.{transaction-mock}

bundle : Unit {0}
unfolding create_mock_gateway succeed_next fail_next fail_next_n spy_refund assigned
    default_charge_result answered handled default_charge handle decided charge bump refund provider
    reset get_last_charge operate operate_all after outcomes to_string digits_from
bundle = tt

abbrev order : String → ChargeParams ℕ
order id = record { amount = 100; order_id = id; customer_email = ""; payment_method_id = none }

abbrev payment : RefundParams ℕ
payment = record { payment_id = "p"; amount = none }

abbrev clock : ℕ → ℕ
clock n = 1000 + n

abbrev gateway : MockGateway ℕ (Unit {0})
gateway = create_mock_gateway "mock" tt

abbrev steps : List (Operation ℕ (Unit {0}))
steps =
    charges_with (order "a")
    ∷ fails_next "declined"
    ∷ charges_with (order "b")
    ∷ spies
    ∷ refunds_with payment
    ∷ []

gateway_tests :
    ((charge clock (order "a") gateway).0
      ≡ ok (record { id = "pay_mock_rt_1"; status = succeeded; raw_response = some "mock:a" }))
    × ((operate_all clock steps gateway).spy_calls ≡ 1 ∷ [])
    × ((operate_all clock steps gateway).charge_count ≡ 2)
    × ((charge clock (order "b") (fail_next "declined" gateway)).0 ≡ err "declined")
    × ((charge clock (order "b") (
          succeed_next
            (some (record { id = none; status = some failed; raw_response = none }))
            gateway)).0
        ≡ ok (record { id = "pay_mock_rt_1"; status = failed; raw_response = some "mock:b" }))
unfolding bundle
gateway_tests = (refl, refl, refl, refl, refl)

fail_next_n-outcomes_example :
    (outcomes clock (order "a" ∷ order "b" ∷ []) (fail_next_n 2 "down" gateway)
      ≡ replicate 2 (err "down"))
    × All Succeeds (
        outcomes clock
          (order "c" ∷ [])
          (after clock (order "a" ∷ order "b" ∷ []) (fail_next_n 2 "down" gateway)))
    × ((after clock (order "a" ∷ order "b" ∷ []) (fail_next_n 2 "down" gateway)).next_error
        ≡ gateway.next_error)
fail_next_n-outcomes_example =
    fail_next_n-outcomes clock (order "a" ∷ order "b" ∷ []) (order "c" ∷ []) "down" gateway

-- A charge that succeeds, and then a failure of the callback
abbrev buys : Program ℕ ℕ
buys = charges (order "a") (λ r. throws "out of stock")

orchestrator : Unit {0}
unfolding bundle noted charge_settled charge_step interpret refund_if compensate run_all finish
    journal_id transaction show
orchestrator = tt

transaction-mock_example :
    let out = transaction (provider clock "mock") clock (codes "acme") (codes "t") buys gateway in
    (out.0 ≡ err "out of stock")
    × (out.1.value ≡ rolled_back)
    × ((payments : List String) × (payments_in out.1.world.history
          ≡ payments_in gateway.history ++ payments)
        × (refunds_in out.1.world.history ≡ refunds_in gateway.history ++ reverse payments))
unfolding orchestrator
transaction-mock_example =
    transaction-mock clock clock "mock" (codes "acme") (codes "t") buys gateway "out of stock" refl

operate_all-Counted_example : Counted (operate_all clock steps gateway)
unfolding create_mock_gateway
operate_all-Counted_example = operate_all-Counted clock steps gateway (refl, refl)
