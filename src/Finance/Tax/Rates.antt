-- ===== src/Finance/Tax/Rates.antt =====
-- packages/finance/src/tax/calculator.ts: what the rates are bounded by.
use intellibiz.Shared.{
  ℕ, ◌≤◌, String, Bool, ◌&&◌, Option, none, some, List, [], ◌∷◌, ◌≡◌, ap, arith, All, if_intro,
}
use intellibiz.Shared.Text.{same_text, Text, codes, to_upper, to_upper_idem}
use intellibiz.Finance.Tax.{
  TaxDestination, eu_vat_bp, other_rates_bp, rate_in, is_listed, has_vat_id, first_rate, rate_of,
  resolve_rate_bp,
}

abbrev AtMost : ℕ → Option ℕ → Type 0
AtMost bound none = Unit
AtMost bound (some bp) = bp ≤ bound

rate_in-AtMost :
    (bound : ℕ) (rates : List (String × ℕ)) (country : Text)
    → All (λ e. e.1 ≤ bound) rates
    → AtMost bound (rate_in rates country)
unfolding rate_in
rate_in-AtMost bound [] country h = tt
rate_in-AtMost bound ((code, bp) ∷ rest) country h =
    if_intro (AtMost bound) (same_text (codes code) country) (λ t. h.0)
      (λ f. rate_in-AtMost bound rest country h.1)

first_rate-le :
    (bound : ℕ) (a b : Option ℕ) → AtMost bound a → AtMost bound b → first_rate a b ≤ bound
first_rate-le bound none none h k = omega arith
first_rate-le bound none (some y) h k = k
first_rate-le bound (some x) b h k = h

eu_bounded : All (λ e. e.1 ≤ 2700) eu_vat_bp
eu_bounded = ground arith

other_bounded : All (λ e. e.1 ≤ 2700) other_rates_bp
other_bounded = ground arith

rate_of-le : (vat : Bool) (upper : Text) → rate_of vat upper ≤ 2700
unfolding rate_of
rate_of-le vat upper =
    if_intro (λ bp. bp ≤ 2700) (vat && is_listed (rate_in eu_vat_bp upper)) (λ t. omega arith)
      (λ f.
        first_rate-le 2700 (rate_in eu_vat_bp upper) (rate_in other_rates_bp upper)
          (rate_in-AtMost 2700 eu_vat_bp upper eu_bounded)
          (rate_in-AtMost 2700 other_rates_bp upper other_bounded))

-- The rate of a destination is at most 27 %, and does not depend on the case in which its country
-- is written.
pub resolve_rate_bp-le :
    (destination : TaxDestination)
    → (resolve_rate_bp destination ≤ 2700)
      × (resolve_rate_bp (record destination { country = to_upper destination.country })
          ≡ resolve_rate_bp destination)
unfolding resolve_rate_bp
resolve_rate_bp-le destination = (
  rate_of-le (has_vat_id destination.vat_id) (to_upper destination.country),
  ap (rate_of (has_vat_id destination.vat_id)) (to_upper_idem destination.country),
)
