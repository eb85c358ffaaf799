-- ===== src/Finance/Money.antt =====
-- packages/finance/src/money/index.ts and precision.ts. decimal.js is code outside: a record of the
-- operations that the source calls, at the precision and the rounding that it sets. A text that is
-- no number makes `new Decimal` throw. Ratios are whole and not negative.
pub mod Allocation
pub mod Display
mod Tests
use intellibiz.Shared.{
  ℕ, zero, suc, ◌+◌, ◌^◌, String, Bool, true, false, Option, none, some, List, [], ◌∷◌, map, eqb,
  if◌then◌else◌, or_else, Result, ok, err,
}
use intellibiz.Shared.Text.{same_text, Text, codes, to_upper}

-- `to_fixed` is `toFixed()`, and `to_fixed_at` is `toFixed(decimals)`.
pub record Decimals (D : Type 0) : Type 0 where
  pub of_nat : ℕ → D
  pub parse : Text → Option D
  pub to_fixed : D → Text
  pub to_fixed_at : ℕ → D → Text
  pub add : D → D → D
  pub sub : D → D → D
  pub mul : D → D → D
  pub div : D → D → D
  pub floor : D → D
  pub half_even : ℕ → D → D
  pub gt : D → D → Bool
  pub equals : D → D → Bool
  pub lt : D → D → Bool
  pub is_zero : D → Bool
  pub is_negative : D → Bool

abbrev pub iso4217_decimals : List (String × ℕ)
iso4217_decimals =
    ("JPY", 0)
    ∷ ("KRW", 0)
    ∷ ("VND", 0)
    ∷ ("ISK", 0)
    ∷ ("CLP", 0)
    ∷ ("GNF", 0)
    ∷ ("UGX", 0)
    ∷ ("RWF", 0)
    ∷ ("BIF", 0)
    ∷ ("DJF", 0)
    ∷ ("KMF", 0)
    ∷ ("MGA", 0)
    ∷ ("PYG", 0)
    ∷ ("XAF", 0)
    ∷ ("XOF", 0)
    ∷ ("XPF", 0)
    ∷ ("BHD", 3)
    ∷ ("KWD", 3)
    ∷ ("OMR", 3)
    ∷ ("JOD", 3)
    ∷ ("TND", 3)
    ∷ ("LYD", 3)
    ∷ ("IQD", 3)
    ∷ []

unfoldable pub decimals_in : List (String × ℕ) → Text → ℕ
unfolding same_text
decimals_in [] currency = 2
decimals_in ((code, n) ∷ rest) currency =
    let later = decimals_in rest currency in if same_text (codes code) currency then n else later

unfoldable pub get_currency_decimals : Text → ℕ
unfolding decimals_in
get_currency_decimals currency = decimals_in iso4217_decimals (to_upper currency)

-- `getMinorUnitFactor`, and `new Decimal(10).pow(decimals)`
unfoldable pub get_minor_unit_factor : Text → ℕ
unfolding get_currency_decimals
get_minor_unit_factor currency = 10 ^ get_currency_decimals currency

unfoldable pub is_zero_decimal_currency : Text → Bool
unfolding get_currency_decimals
is_zero_decimal_currency currency = eqb (get_currency_decimals currency) 0

pub record Money (D : Type 0) : Type 0 where
  pub amount : D
  pub currency : Text

-- `ratios.reduce((a, b) => a + b, 0)`
abbrev pub total : List ℕ → ℕ
total [] = 0
total (r ∷ rs) = r + total rs

module _ {D : Type 0} (dec : Decimals D) where
  abbrev pub made : Text → Option D → Result (Money D)
  made currency none = err "DecimalError"
  made currency (some d) = ok (record { amount = d; currency = to_upper currency })

  -- the constructor, for a text
  unfoldable pub money : Text → Text → Result (Money D)
  unfolding to_upper
  money amount currency = made currency (dec.parse amount)

  -- `_assertSameCurrency`, before what an operation does
  unfoldable pub guarded : {A : Type 0} → Money D → Money D → Result A → Result A
  unfolding same_text
  guarded a b r = if same_text a.currency b.currency then r else err "CURRENCY_MISMATCH"

  unfoldable pub add : Money D → Money D → Result (Money D)
  unfolding guarded money
  add a b = guarded a b (money (dec.to_fixed (dec.add a.amount b.amount)) a.currency)

  unfoldable pub subtract : Money D → Money D → Result (Money D)
  unfolding guarded money
  subtract a b = guarded a b (money (dec.to_fixed (dec.sub a.amount b.amount)) a.currency)

  abbrev pub times : Money D → Option D → Result (Money D)
  times a none = err "DecimalError"
  times a (some factor) = money (dec.to_fixed (dec.mul a.amount factor)) a.currency

  unfoldable pub multiply : Money D → Text → Result (Money D)
  unfolding money
  multiply a factor = times a (dec.parse factor)

  unfoldable pub equals : Money D → Money D → Result Bool
  unfolding guarded
  equals a b = guarded a b (ok (dec.equals a.amount b.amount))

  unfoldable pub greater_than : Money D → Money D → Result Bool
  unfolding guarded
  greater_than a b = guarded a b (ok (dec.gt a.amount b.amount))

  unfoldable pub less_than : Money D → Money D → Result Bool
  unfolding guarded
  less_than a b = guarded a b (ok (dec.lt a.amount b.amount))

  unfoldable pub is_zero : Money D → Bool
  is_zero m = dec.is_zero m.amount

  unfoldable pub is_negative : Money D → Bool
  is_negative m = dec.is_negative m.amount

  -- `minorTotal`: the whole minor units, rounded down
  unfoldable pub minor_total : Money D → D
  unfolding get_minor_unit_factor
  minor_total m = dec.floor (dec.mul m.amount (dec.of_nat (get_minor_unit_factor m.currency)))

  unfoldable pub shares : D → ℕ → List ℕ → List D
  shares minor t [] = []
  shares minor t (r ∷ rs) =
      dec.floor (dec.div (dec.mul minor (dec.of_nat r)) (dec.of_nat t)) ∷ shares minor t rs

  -- `allocations.reduce((a, b) => a.add(b), new Decimal(0))`, from an accumulator
  unfoldable pub allocated_from : D → List D → D
  allocated_from acc [] = acc
  allocated_from acc (d ∷ ds) = allocated_from (dec.add acc d) ds

  abbrev first_plus : D → List D → List D
  first_plus remainder [] = []
  first_plus remainder (d ∷ ds) = dec.add d remainder ∷ ds

  -- The remainder goes to the first share.
  unfoldable pub with_remainder : D → List D → List D
  unfolding allocated_from
  with_remainder minor ds =
      let remainder = dec.sub minor (allocated_from (dec.of_nat 0) ds) in
      if dec.gt remainder (dec.of_nat 0) then first_plus remainder ds else ds

  abbrev then_cons : Result (Money D) → Result (List (Money D)) → Result (List (Money D))
  then_cons (err e) r = err e
  then_cons (ok m) (err e) = err e
  then_cons (ok m) (ok ms) = ok (m ∷ ms)

  -- The last `map`: the shares as money.
  unfoldable pub moneys : Text → List D → Result (List (Money D))
  unfolding money get_minor_unit_factor get_currency_decimals
  moneys currency [] = ok []
  moneys currency (d ∷ ds) =
      then_cons
        (money
          (dec.to_fixed_at (get_currency_decimals currency)
            (dec.div d (dec.of_nat (get_minor_unit_factor currency))))
          currency)
        (moneys currency ds)

  unfoldable pub allocate : Money D → List ℕ → Result (List (Money D))
  unfolding moneys with_remainder shares minor_total
  allocate m [] = err "Money.allocate: ratios array is empty"
  allocate m (r ∷ rs) =
      if eqb (total (r ∷ rs)) 0
      then err "Money.allocate: ratios must sum to a positive value"
      else moneys m.currency
          (with_remainder (minor_total m) (shares (minor_total m) (total (r ∷ rs)) (r ∷ rs)))
