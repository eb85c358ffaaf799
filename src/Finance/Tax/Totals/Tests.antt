-- ===== src/Finance/Tax/Totals/Tests.antt =====
-- packages/finance/src/tax/calculator.ts: totals at concrete inputs, over whole numbers.
use intellibiz.Shared.{
  ℕ, ◌+◌, ◌-◌, ◌*◌, ◌/◌, none, some, [], ◌∷◌, ltb, eqb, false, ok, err, All, ◌≡◌, refl,
}
use intellibiz.Shared.Text.{codes, show, read_from, to_upper, same_text}
use intellibiz.Finance.Money.{Money, Decimals, money, guarded, add}
use intellibiz.Finance.Tax.{resolve_rate_bp, rate_of, rate_in}
use intellibiz.Finance.Tax.Totals.{
  TotalInput, TotalResult, tax_rate_bp, subtotal_from, taxed, calculate_total,
}
use intellibiz.Finance.Tax.Totals.Currencies.{In, IsIn, calculate_total-IsIn}

totals : Unit {0}
unfolding calculate_total taxed subtotal_from tax_rate_bp resolve_rate_bp rate_of rate_in add
    guarded money same_text to_upper read_from show
totals = tt

abbrev whole : Decimals ℕ
whole = record {
  of_nat = λ n. n;
  parse = λ t. some (read_from 0 t);
  to_fixed = show;
  to_fixed_at = λ k n. show n;
  add = λ a b. a + b;
  sub = λ a b. a - b;
  mul = λ a b. a * b;
  div = λ a b. a / b;
  floor = λ a. a;
  half_even = λ k a. a;
  gt = λ a b. ltb b a;
  equals = eqb;
  lt = ltb;
  is_zero = λ a. eqb a 0;
  is_negative = λ a. false;
}

abbrev usd : ℕ → Money ℕ
usd n = record { amount = n; currency = codes "USD" }

abbrev cart : TotalInput ℕ
cart = record {
  items = record { price = usd 20; quantity = 3 } ∷ record { price = usd 5; quantity = 1 } ∷ [];
  destination = none;
  rate_bp = some 10000;
}

abbrev totalled : TotalResult ℕ
totalled = record {
  subtotal = usd 65;
  tax_total = usd 65;
  grand_total = usd 130;
  currency = codes "USD";
  tax_rate = 1;
}

abbrev mixed : TotalInput ℕ
mixed = record cart {
  items =
      record { price = usd 20; quantity = 3 }
      ∷ record { price = record { amount = 1; currency = codes "EUR" }; quantity = 1 }
      ∷ [];
}

total_tests :
    (calculate_total whole cart ≡ ok totalled)
    × (calculate_total whole mixed ≡ err "CURRENCY_MISMATCH")
    × (calculate_total whole (record cart { items = [] })
        ≡ err "finance.calculateTotal: items array is empty")
unfolding totals
total_tests = (refl, refl, refl)

calculate_total-IsIn_example :
    All (In whole (to_upper totalled.currency)) cart.items × IsIn whole totalled.currency totalled
unfolding totals
calculate_total-IsIn_example = calculate_total-IsIn whole cart totalled refl
