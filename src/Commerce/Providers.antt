-- ===== src/Commerce/Providers.antt =====
-- packages/commerce/src/providers/stripe.ts and payfast.ts: the providers, as far as they go: no call
-- of a payment service is made. `random` gives the hexadecimal digits of each draw of random bytes, and
-- the state of a provider is the number of draws. Of a raw response the status is kept.
pub mod Open
mod Tests
use Prim.Native.String.{◌++◌}
use intellibiz.Shared.{ℕ, ◌+◌, String, Option, some, List, [], ◌∷◌, Result, ok, err}
use intellibiz.Shared.Text.{Text, to_lower, to_upper}
use intellibiz.Finance.Money.{Decimals, Money}
use intellibiz.Finance.Money.Display.{to_minor_units, display_amount}
use intellibiz.Commerce.Transaction.{
  ChargeStatus, succeeded, pending, ChargeResult, ChargeParams, RefundParams, PaymentProvider,
}

-- What a charge asks the service for: Stripe and Ozow are given minor units, PayFast the amount.
pub data Requested (D : Type 0) : Type 0 where
  minor_units : D → Text → Requested D
  decimal_amount : Text → Text → Requested D

module _ {D : Type 0} (dec : Decimals D) where
  unfoldable pub stripe_request : Money D → Requested D
  unfolding to_minor_units to_lower
  stripe_request amount = minor_units (to_minor_units dec amount) (to_lower amount.currency)

  unfoldable pub pay_fast_request : Money D → Requested D
  unfolding display_amount to_upper
  pay_fast_request amount = decimal_amount (display_amount dec amount) (to_upper amount.currency)

  -- `minorUnits / 100`, whatever the currency
  unfoldable pub ozow_request : Money D → Requested D
  unfolding to_minor_units
  ozow_request amount =
      minor_units (dec.div (to_minor_units dec amount) (dec.of_nat 100)) amount.currency

module _ {A : Type 0} (random : ℕ → String) where
  -- the result of a charge: an id with a prefix, the status, and the status of the raw response
  abbrev pub charge_with :
      String → ChargeStatus → String → ChargeParams A → ℕ → Result ChargeResult × ℕ
  charge_with prefix status raw params draws = (
    ok (record { id = prefix ++ random draws; status = status; raw_response = some raw }),
    draws + 1,
  )

  -- The refunds of all three do nothing.
  abbrev pub refund_nothing : RefundParams A → ℕ → Result (Unit {0}) × ℕ
  refund_nothing params draws = (ok tt, draws)

  unfoldable pub stripe_provider : PaymentProvider A ℕ
  stripe_provider = record {
    name = "stripe";
    charge = charge_with "pi_" succeeded "succeeded";
    refund = some refund_nothing;
  }

  unfoldable pub pay_fast_provider : PaymentProvider A ℕ
  pay_fast_provider = record {
    name = "payfast";
    charge = charge_with "pf_" succeeded "COMPLETE";
    refund = some refund_nothing;
  }

  unfoldable pub ozow_provider : PaymentProvider A ℕ
  ozow_provider = record {
    name = "ozow";
    charge = charge_with "oz_" pending "pending";
    refund = some refund_nothing;
  }
