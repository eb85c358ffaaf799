-- ===== src/Commerce/Providers/Tests.antt =====
-- packages/commerce/src/providers at concrete inputs.
use intellibiz.Shared.{
  ℕ, ◌+◌, ◌-◌, ◌*◌, ◌/◌, String, none, some, [], ◌∷◌, err, ◌≡◌, refl, ltb, eqb, false,
}
use intellibiz.Shared.Text.{codes, show, read_from, to_upper, to_lower, same_text}
use intellibiz.Commerce.State.{committed, rolled_back, pending_bank_reconciliation}
use intellibiz.Commerce.Transaction.{
  ChargeParams, PaymentProvider, Program, returns, throws, charges, Run, noted, journal_id,
  charge_settled, charge_step, interpret, refund_if, compensate, run_all, finish, transaction,
}
use intellibiz.Commerce.Transaction.Payments.{refunded_ids, charged_ids}
use intellibiz.Finance.Money.{Decimals, get_currency_decimals, decimals_in}
use intellibiz.Finance.Money.Display.{to_minor_units, display_amount}
use intellibiz.Commerce.Providers.{
  minor_units, decimal_amount, stripe_request, pay_fast_request, ozow_request, stripe_provider,
  pay_fast_provider, ozow_provider,
}
use intellibiz.Commerce.Providers.Open.{transaction-ozow}

providers : Unit {0}
unfolding transaction finish run_all compensate refund_if interpret charge_step charge_settled noted
    journal_id show stripe_request pay_fast_request ozow_request stripe_provider pay_fast_provider
    ozow_provider to_minor_units display_amount get_currency_decimals decimals_in to_upper to_lower
    same_text
providers = tt

-- Cents
abbrev cents : Decimals ℕ
cents = record {
  of_nat = λ n. n;
  parse = λ t. some (read_from 0 t);
  to_fixed = show;
  to_fixed_at = λ k n. show n;
  add = λ a b. a + b;
  sub = λ a b. a - b;
  mul = λ a b. a * b;
  div = λ a b. a / b;
  floor = λ a. a;
  half_even = λ k a. a;
  gt = λ a b. ltb b a;
  equals = eqb;
  lt = ltb;
  is_zero = λ a. eqb a 0;
  is_negative = λ a. false;
}

-- Ozow is asked for a hundredth of an amount in yen.
request_tests :
    (stripe_request cents (record { amount = 20; currency = codes "USD" })
      ≡ minor_units 2000 (codes "usd"))
    × (pay_fast_request cents (record { amount = 20; currency = codes "ZAR" })
        ≡ decimal_amount (codes "20") (codes "ZAR"))
    × (ozow_request cents (record { amount = 20; currency = codes "ZAR" })
        ≡ minor_units 20 (codes "ZAR"))
    × (ozow_request cents (record { amount = 2000; currency = codes "JPY" })
        ≡ minor_units 20 (codes "JPY"))
unfolding providers
request_tests = (refl, refl, refl, refl)

abbrev order : ChargeParams ℕ
order = record { amount = 5; order_id = "o"; customer_email = "c"; payment_method_id = none }

abbrev fails_after : Program ℕ ℕ
fails_after = charges order (λ r. throws "out of stock")

abbrev random : ℕ → String
random n = "00"

abbrev run : PaymentProvider ℕ ℕ → Program ℕ ℕ → Run ℕ
run p fn = (transaction p (λ n. n) [] [] fn 0).1

provider_tests :
    ((run (ozow_provider random) (charges order (λ r. returns 1))).value
      ≡ pending_bank_reconciliation)
    × ((run (stripe_provider random) (charges order (λ r. returns 1))).value ≡ committed)
    × (refunded_ids (run (pay_fast_provider random) fails_after).calls ≡ "pf_00" ∷ [])
    × (charged_ids (run (ozow_provider random) fails_after).calls ≡ [])
unfolding providers
provider_tests = (refl, refl, refl, refl)

transaction-ozow_example :
    let out = transaction (ozow_provider random) (λ n. n) [] [] fails_after 0 in
    (out.0 ≡ err "out of stock") × (out.1.value ≡ rolled_back) × (refunded_ids out.1.calls ≡ [])
unfolding providers
transaction-ozow_example = transaction-ozow random (λ n. n) [] [] fails_after 0 "out of stock" refl
