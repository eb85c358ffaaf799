-- ===== src/Finance/Money/Tests.antt =====
-- money/index.ts at concrete inputs, with fractions for decimals: a fraction is printed as the two
-- code points that are its parts.
use native.Mathlib.Nat.{mul-one, one-mul, one-le-pow, mul-div_cancel}
use intellibiz.Shared.{
  ℕ, ◌+◌, ◌*◌, ◌-◌, ◌/◌, ◌^◌, ◌<◌, true, Option, none, some, List, [], ◌∷◌, map, eqb, ltb, ok, err,
  false, ◌≡◌, refl, arith,
}
use intellibiz.Shared.Text.{same_text, Text, codes, to_upper}
use intellibiz.Finance.Money.{
  Decimals, Money, decimals_in, get_currency_decimals, get_minor_unit_factor,
  is_zero_decimal_currency, money, guarded, add, subtract, multiply, equals, greater_than,
  less_than, is_zero, is_negative, minor_total, total, shares, allocated_from, with_remainder,
  moneys, allocate,
}
use intellibiz.Finance.Money.Allocation.{IsExact, quotients, rest_of, allocate-total}
use intellibiz.Finance.Money.Display.{to_minor_units, display_amount, to_text, to_json, from_json}

finance : Unit {0}
unfolding to_minor_units display_amount to_text to_json from_json less_than is_zero is_negative
    allocate moneys with_remainder allocated_from shares minor_total greater_than equals multiply
    subtract add guarded money is_zero_decimal_currency get_minor_unit_factor get_currency_decimals
    decimals_in same_text to_upper
finance = tt

abbrev read : Text → Option (ℕ × ℕ)
read (a ∷ b ∷ []) = some (a, b)
read _ = none

abbrev fractions : Decimals (ℕ × ℕ)
fractions = record {
  of_nat = λ n. (n, 1);
  parse = read;
  to_fixed = λ x. x.0 ∷ x.1 ∷ [];
  to_fixed_at = λ k x. x.0 ∷ x.1 ∷ [];
  add = λ x y. (x.0 * y.1 + y.0 * x.1, x.1 * y.1);
  sub = λ x y. (x.0 * y.1 - y.0 * x.1, x.1 * y.1);
  mul = λ x y. (x.0 * y.0, x.1 * y.1);
  div = λ x y. (x.0 * y.1, x.1 * y.0);
  floor = λ x. (x.0 / x.1, 1);
  half_even = λ k x. x;
  gt = λ x y. ltb (y.0 * x.1) (x.0 * y.1);
  equals = λ x y. eqb (x.0 * y.1) (y.0 * x.1);
  lt = λ x y. ltb (x.0 * y.1) (y.0 * x.1);
  is_zero = λ x. eqb x.0 0;
  is_negative = λ x. false;
}

scaled_back : (n p : ℕ) → 0 < p → ◌≡◌ {A = ℕ × ℕ} (n * 1 * p / (1 * p * 1), 1) (n, 1)
scaled_back n p h = rw (mul-one n, one-mul p, mul-one p, mul-div_cancel n h) refl

fractions-IsExact : IsExact fractions
fractions-IsExact = record {
  add_nat = λ a b h. let e : a * 1 + b * 1 ≡ a + b = omega arith in rw e refl;
  sub_nat = λ a b h l. let e : a * 1 - b * 1 ≡ a - b = omega arith in rw e refl;
  share_nat = λ m r t h p. rw (mul-one (m * r), one-mul t) refl;
  gt_nat = λ a. rw (mul-one a) refl;
  read_back = λ k n h. (
    (n * 1, 1 * 10 ^ k),
    refl,
    scaled_back n (10 ^ k) (omega (arith, one-le-pow k 10 (omega arith))),
  );
}

abbrev usd : ℕ → Money (ℕ × ℕ)
usd cents = record { amount = (cents, 100); currency = codes "USD" }

money_tests :
    (get_currency_decimals (codes "bhd") ≡ 3)
    × (is_zero_decimal_currency (codes "JPY") ≡ true)
    × (subtract fractions (usd 5) (record { amount = (1, 1); currency = codes "EUR" })
        ≡ err "CURRENCY_MISMATCH")
    × (minor_total fractions (usd 2299) ≡ (2299, 1))
unfolding finance
money_tests = (refl, refl, refl, refl)

allocate-total_example :
    let ns = (2299 * 70 / 100 + rest_of 2299 (70 ∷ 30 ∷ [])) ∷ quotients 2299 100 (30 ∷ []) in
    (ms : List (Money (ℕ × ℕ))) × (allocate fractions (usd 2299) (70 ∷ 30 ∷ []) ≡ ok ms)
    × (map (minor_total fractions) ms ≡ map (fractions.of_nat) ns)
    × (total ns ≡ 2299)
unfolding finance
allocate-total_example =
    allocate-total fractions fractions-IsExact (usd 2299) 2299 70 (30 ∷ []) refl (omega arith)
      (omega arith) (omega arith)

display_tests :
    (to_minor_units fractions (usd 2299) ≡ (229900, 100))
    × (to_text fractions (usd 5) ≡ 5 ∷ 100 ∷ codes " USD")
    × (less_than fractions (usd 5) (usd 6) ≡ ok true)
    × (is_zero fractions (usd 0) ≡ true)
    × (is_negative fractions (usd 0) ≡ false)
    × (from_json fractions (to_json fractions (usd 1999)) ≡ ok (usd 1999))
unfolding finance
display_tests = (refl, refl, refl, refl, refl, refl)
