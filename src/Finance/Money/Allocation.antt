-- ===== src/Finance/Money/Allocation.antt =====
-- packages/finance/src/money/index.ts: `allocate` loses no minor unit.
use native.Mathlib.Nat.{le_of_mul-le-mul_right, div-mul-le_self, add-mul, mul-add}
use intellibiz.Shared.{
  ℕ, ◌+◌, ◌*◌, ◌-◌, ◌/◌, ◌^◌, ◌≤◌, ◌<◌, false, some, List, [], ◌∷◌, map, eqb, ltb, ok, ◌≡◌, refl,
  ap, ◌∙◌, arith, All, if_intro,
}
use intellibiz.Shared.Text.{Text, to_upper, to_upper_idem}
use intellibiz.Finance.Money.{
  Decimals, Money, get_currency_decimals, get_minor_unit_factor, money, minor_total, total, shares,
  allocated_from, with_remainder, moneys, allocate, decimals_in, iso4217_decimals,
}

-- Whole numbers below it, and their products with powers of ten, have at most 28 digits.
abbrev pub limit : ℕ
limit = 1000000000000000000000000000

-- What decimal.js does, at 28 digits, with whole numbers that are not negative.
pub record IsExact {D : Type 0} (dec : Decimals D) : Type 0 where
  pub add_nat :
      (a b : ℕ) → a + b < limit → dec.add (dec.of_nat a) (dec.of_nat b) ≡ dec.of_nat (a + b)
  pub sub_nat :
      (a b : ℕ) → b ≤ a → a < limit → dec.sub (dec.of_nat a) (dec.of_nat b) ≡ dec.of_nat (a - b)
  pub share_nat :
      (m r t : ℕ)
      → m * r < limit
      → 0 < t
      → dec.floor (dec.div (dec.mul (dec.of_nat m) (dec.of_nat r)) (dec.of_nat t))
        ≡ dec.of_nat (m * r / t)
  pub gt_nat : (a : ℕ) → dec.gt (dec.of_nat a) (dec.of_nat 0) ≡ ltb 0 a
  pub read_back :
      (k n : ℕ)
      → n < limit
      → (d : D) × (dec.parse (dec.to_fixed_at k (dec.div (dec.of_nat n) (dec.of_nat (10 ^ k))))
          ≡ some d)
        × (dec.floor (dec.mul d (dec.of_nat (10 ^ k))) ≡ dec.of_nat n)

-- The shares in minor units, rounded down.
abbrev pub quotients : ℕ → ℕ → List ℕ → List ℕ
quotients m t [] = []
quotients m t (r ∷ rs) = (m * r / t) ∷ quotients m t rs

total-quotients : (m t : ℕ) (rs : List ℕ) → total (quotients m t rs) * t ≤ m * total rs
total-quotients m t [] = omega arith
total-quotients m t (r ∷ rs) =
    rw (add-mul (m * r / t) (total (quotients m t rs)) t, mul-add m r (total rs))
      (omega (arith, div-mul-le_self (m * r) t, total-quotients m t rs))

-- What the first share gets besides.
abbrev pub rest_of : ℕ → List ℕ → ℕ
rest_of m ratios = m - total (quotients m (total ratios) ratios)

quotients-le :
    (m : ℕ) (ratios : List ℕ) → 0 < total ratios → total (quotients m (total ratios) ratios) ≤ m
quotients-le m ratios h = le_of_mul-le-mul_right (total-quotients m (total ratios) ratios) h

get_currency_decimals-to_upper :
    (currency : Text) → get_currency_decimals (to_upper currency) ≡ get_currency_decimals currency
unfolding get_currency_decimals
get_currency_decimals-to_upper currency = ap (decimals_in iso4217_decimals) (to_upper_idem currency)

small_quotients :
    (m bound t : ℕ) (rs : List ℕ)
    → total (quotients m t rs) < bound
    → All (λ n. n < bound) (quotients m t rs)
small_quotients m bound t [] h = tt
small_quotients m bound t (r ∷ rs) h =
    (omega (arith, h), small_quotients m bound t rs (omega (arith, h)))

module _ {D : Type 0} (dec : Decimals D) (exact : IsExact dec) where
  shares-quotients :
      (m t : ℕ) (rs : List ℕ)
      → 0 < t
      → m * total rs < limit
      → shares dec (dec.of_nat m) t rs ≡ map dec.of_nat (quotients m t rs)
  unfolding shares
  shares-quotients m t [] h l = refl
  shares-quotients m t (r ∷ rs) h l =
      let apart = mul-add m r (total rs) in
      rw (exact.share_nat m r t (omega (arith, l, apart)) h) (
        ap (λ ds. dec.of_nat (m * r / t) ∷ ds)
          (shares-quotients m t rs h (omega (arith, l, apart))))

  allocated_from-total :
      (a : ℕ) (ns : List ℕ)
      → a + total ns < limit
      → allocated_from dec (dec.of_nat a) (map dec.of_nat ns) ≡ dec.of_nat (a + total ns)
  unfolding allocated_from
  allocated_from-total a [] h = ap dec.of_nat (omega arith)
  allocated_from-total a (n ∷ ns) h =
      ap (λ d. allocated_from dec d (map dec.of_nat ns)) (exact.add_nat a n (omega (arith, h)))
      ∙ (allocated_from-total (a + n) ns (omega (arith, h)) ∙ ap dec.of_nat (omega arith))

  with_remainder-first :
      (m n : ℕ) (ns : List ℕ)
      → total (n ∷ ns) ≤ m
      → m < limit
      → with_remainder dec (dec.of_nat m) (map dec.of_nat (n ∷ ns))
        ≡ map dec.of_nat ((n + (m - total (n ∷ ns))) ∷ ns)
  unfolding with_remainder
  with_remainder-first m n ns h l =
      let spent = allocated_from-total 0 (n ∷ ns) (omega (arith, h, l)) in
      let zero_sum : 0 + total (n ∷ ns) ≡ total (n ∷ ns) = omega arith in
      let left = exact.sub_nat m (total (n ∷ ns)) h l in
      rw (spent, zero_sum, left, exact.gt_nat (m - total (n ∷ ns)))
        (if_intro (λ ds. ds ≡ map dec.of_nat ((n + (m - total (n ∷ ns))) ∷ ns))
          (ltb 0 (m - total (n ∷ ns)))
          (λ more.
            ap (λ d. d ∷ map dec.of_nat ns)
              (exact.add_nat n (m - total (n ∷ ns)) (omega (arith, h, l))))
          (λ none_left. ap (λ k. dec.of_nat k ∷ map dec.of_nat ns) (ground (arith, none_left))))

  moneys-minor :
      (currency : Text) (ns : List ℕ)
      → All (λ n. n < limit) ns
      → (ms : List (Money D)) × (moneys dec currency (map dec.of_nat ns) ≡ ok ms)
        × (map (minor_total dec) ms ≡ map dec.of_nat ns)
  unfolding moneys money minor_total get_minor_unit_factor
  moneys-minor currency [] h = ([], refl, refl)
  moneys-minor currency (n ∷ ns) h =
      let k = get_currency_decimals currency in
      let back = exact.read_back k n h.0 in
      let later = moneys-minor currency ns h.1 in
      (
        record { amount = back.0; currency = to_upper currency } ∷ later.0,
        rw (back.1, later.1) refl,
        ap (λ d. d ∷ map (minor_total dec) later.0)
              (ap (λ j. dec.floor (dec.mul back.0 (dec.of_nat (10 ^ j))))
                  (get_currency_decimals-to_upper currency)
                ∙ back.2)
            ∙ ap (λ ds. dec.of_nat n ∷ ds) later.2,
      )

  -- An allocation of money that is `m` whole minor units, over ratios that are not all zero, for
  -- which products stay below 10^27: it succeeds; every bucket gets its share in minor units,
  -- rounded down, and the first also what is left; and the buckets together are `m` minor units.
  pub allocate-total :
      (money : Money D) (m r : ℕ) (rs : List ℕ)
      → minor_total dec money ≡ dec.of_nat m
      → 0 < total (r ∷ rs)
      → m * total (r ∷ rs) < limit
      → m < limit
      → let t = total (r ∷ rs) in
        let ns = (m * r / t + rest_of m (r ∷ rs)) ∷ quotients m t rs in
        (ms : List (Money D)) × (allocate dec money (r ∷ rs) ≡ ok ms)
        × (map (minor_total dec) ms ≡ map dec.of_nat ns)
        × (total ns ≡ m)
  unfolding allocate
  allocate-total money m r rs minor some_ratio l small =
      let t = total (r ∷ rs) in
      let le = quotients-le m (r ∷ rs) some_ratio in
      let out =
        moneys-minor money.currency ((m * r / t + rest_of m (r ∷ rs)) ∷ quotients m t rs)
          (omega (arith, le, small), small_quotients m limit t rs (omega (arith, le, small))) in
      let cut = shares-quotients m t (r ∷ rs) some_ratio l in
      let first = with_remainder-first m (m * r / t) (quotients m t rs) le small in
      let nonzero : eqb t 0 ≡ false = ground (arith, some_ratio) in
      let whole : moneys dec money.currency (
            with_remainder dec (minor_total dec money)
              (shares dec (minor_total dec money) t (r ∷ rs)))
          ≡ ok out.0 =
        ap (λ d. moneys dec money.currency (with_remainder dec d (shares dec d t (r ∷ rs)))) minor
        ∙ (ap (λ ds. moneys dec money.currency (with_remainder dec (dec.of_nat m) ds)) cut
            ∙ (ap (moneys dec money.currency) first ∙ out.1)) in
      (out.0, rw nonzero whole, out.2, omega (arith, le))
