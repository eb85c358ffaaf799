-- ===== src/Finance/Tax/Totals.antt =====
-- packages/finance/src/tax/calculator.ts: the totals of a cart. Quantities are whole; `rate_bp` is what
-- `Math.round(input.taxRate * 10_000)` gives, if a tax rate is given.
pub mod Currencies
mod Tests
use intellibiz.Shared.{ℕ, String, Bool, Option, none, some, List, [], ◌∷◌, Result, ok, err}
use intellibiz.Shared.Text.{Text, codes}
use intellibiz.Finance.Money.{Money, Decimals, money, add, times}
use intellibiz.Finance.Tax.{TaxDestination, resolve_rate_bp}

-- The rest of a computation, after a step that may throw
abbrev pub and_then : {A B : Type 0} → Result A → (A → Result B) → Result B
and_then (ok a) f = f a
and_then (err e) f = err e

pub record LineItem (D : Type 0) : Type 0 where
  pub price : Money D
  pub quantity : ℕ

pub record TotalInput (D : Type 0) : Type 0 where
  pub items : List (LineItem D)
  pub destination : Option TaxDestination
  pub rate_bp : Option ℕ

pub record TotalResult (D : Type 0) : Type 0 where
  pub subtotal : Money D
  pub tax_total : Money D
  pub grand_total : Money D
  pub currency : Text
  pub tax_rate : D

-- `taxRateBP`
unfoldable pub tax_rate_bp : Option ℕ → Option TaxDestination → ℕ
unfolding resolve_rate_bp
tax_rate_bp (some bp) destination = bp
tax_rate_bp none (some destination) = resolve_rate_bp destination
tax_rate_bp none none = 0

module _ {D : Type 0} (dec : Decimals D) where
  -- the `reduce` of the items, from an accumulator
  unfoldable pub subtotal_from : Money D → List (LineItem D) → Result (Money D)
  unfolding add money
  subtotal_from acc [] = ok acc
  subtotal_from acc (item ∷ items) =
      and_then (times dec item.price (some (dec.of_nat item.quantity)))
        (λ line. and_then (add dec acc line) (λ acc'. subtotal_from acc' items))

  -- what stands behind the subtotal
  unfoldable pub taxed : Text → ℕ → Money D → Result (TotalResult D)
  unfolding add money
  taxed currency bp subtotal =
      let rate = dec.div (dec.of_nat bp) (dec.of_nat 10000) in
      and_then (times dec subtotal (some rate)) (λ tax_total.
        and_then (add dec subtotal tax_total) (λ grand_total. ok (record {
          subtotal = subtotal;
          tax_total = tax_total;
          grand_total = grand_total;
          currency = currency;
          tax_rate = rate;
        })))

  abbrev pub total_of : List (LineItem D) → ℕ → Result (TotalResult D)
  total_of [] bp = err "finance.calculateTotal: items array is empty"
  total_of (item ∷ items) bp =
      let currency = item.price.currency in
      and_then (money dec (codes "0") currency)
        (λ zero. and_then (subtotal_from zero (item ∷ items)) (taxed currency bp))

  unfoldable pub calculate_total : TotalInput D → Result (TotalResult D)
  unfolding subtotal_from taxed money tax_rate_bp
  calculate_total input = total_of input.items (tax_rate_bp input.rate_bp input.destination)
