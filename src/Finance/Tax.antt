-- ===== src/Finance/Tax.antt =====
-- packages/finance/src/tax/calculator.ts: the rate of a destination, in basis points.
pub mod Rates
pub mod Totals
mod Tests
use intellibiz.Shared.{
  ℕ, String, Bool, true, false, ◌&&◌, Option, none, some, List, [], ◌∷◌, if◌then◌else◌, or_else,
}
use intellibiz.Shared.Text.{same_text, Text, codes, to_upper}

pub record TaxDestination : Type 0 where
  pub country : Text
  pub state : Option Text
  pub vat_id : Option Text

abbrev pub eu_vat_bp : List (String × ℕ)
eu_vat_bp =
    ("AT", 2000)
    ∷ ("BE", 2100)
    ∷ ("BG", 2000)
    ∷ ("HR", 2500)
    ∷ ("CY", 1900)
    ∷ ("CZ", 2100)
    ∷ ("DK", 2500)
    ∷ ("EE", 2000)
    ∷ ("FI", 2400)
    ∷ ("FR", 2000)
    ∷ ("DE", 1900)
    ∷ ("GR", 2400)
    ∷ ("HU", 2700)
    ∷ ("IE", 2300)
    ∷ ("IT", 2200)
    ∷ ("LV", 2100)
    ∷ ("LT", 2100)
    ∷ ("LU", 1700)
    ∷ ("MT", 1800)
    ∷ ("NL", 2100)
    ∷ ("PL", 2300)
    ∷ ("PT", 2300)
    ∷ ("RO", 1900)
    ∷ ("SK", 2000)
    ∷ ("SI", 2200)
    ∷ ("ES", 2100)
    ∷ ("SE", 2500)
    ∷ []

abbrev pub other_rates_bp : List (String × ℕ)
other_rates_bp =
    ("GB", 2000) ∷ ("ZA", 1500) ∷ ("AU", 1000) ∷ ("NZ", 1500) ∷ ("SG", 900) ∷ ("CA", 500) ∷ []

unfoldable pub rate_in : List (String × ℕ) → Text → Option ℕ
unfolding same_text
rate_in [] country = none
rate_in ((code, bp) ∷ rest) country =
    let later = rate_in rest country in if same_text (codes code) country then some bp else later

abbrev pub is_listed : Option ℕ → Bool
is_listed none = false
is_listed (some bp) = true

-- A VAT id that is not empty.
abbrev pub has_vat_id : Option Text → Bool
has_vat_id (some (c ∷ s)) = true
has_vat_id _ = false

abbrev first_rate : Option ℕ → Option ℕ → ℕ
first_rate none other = or_else other 0
first_rate (some bp) other = bp

unfoldable pub rate_of : Bool → Text → ℕ
unfolding rate_in
rate_of vat upper =
    if vat && is_listed (rate_in eu_vat_bp upper)
    then 0
    else first_rate (rate_in eu_vat_bp upper) (rate_in other_rates_bp upper)

unfoldable pub resolve_rate_bp : TaxDestination → ℕ
unfolding rate_of to_upper
resolve_rate_bp destination = rate_of (has_vat_id destination.vat_id) (to_upper destination.country)
