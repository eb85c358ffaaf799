-- ===== src/Finance/Money/Display.antt =====
-- packages/finance/src/money/index.ts: how money is converted and shown. `toNumber` is left out of
-- `toMinorUnits`, which is exact below 2^53, and so is the locale's format.
use intellibiz.Shared.{◌^◌, ◌∷◌, ◌++◌, Result}
use intellibiz.Shared.Text.{Text}
use intellibiz.Finance.Money.{Decimals, Money, get_currency_decimals, money}

module _ {D : Type 0} (dec : Decimals D) where
  unfoldable pub to_minor_units : Money D → D
  unfolding get_currency_decimals
  to_minor_units m =
      dec.half_even 0 (dec.mul m.amount (dec.of_nat (10 ^ get_currency_decimals m.currency)))

  -- the getter `amount`
  unfoldable pub display_amount : Money D → Text
  unfolding get_currency_decimals
  display_amount m =
      let decimals = get_currency_decimals m.currency in
      dec.to_fixed_at decimals (dec.half_even decimals m.amount)

  unfoldable pub to_text : Money D → Text
  unfolding display_amount
  to_text m = display_amount m ++ b' ' ∷ m.currency

  -- `amount` and `currency`
  unfoldable pub to_json : Money D → Text × Text
  unfolding display_amount
  to_json m = (display_amount m, m.currency)

  unfoldable pub from_json : Text × Text → Result (Money D)
  unfolding money
  from_json json = money dec json.0 json.1
