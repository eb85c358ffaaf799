-- ===== src/Finance/Tax/Tests.antt =====
-- calculator.ts at concrete inputs.
use intellibiz.Shared.{none, some, [], ◌≡◌, refl}
use intellibiz.Shared.Text.{same_text, codes, to_upper}
use intellibiz.Finance.Tax.{TaxDestination, rate_in, rate_of, resolve_rate_bp}

rates : Unit {0}
unfolding resolve_rate_bp rate_of rate_in same_text to_upper
rates = tt

abbrev shop : TaxDestination
shop = record { country = codes "hu"; state = none; vat_id = none }

rate_tests :
    (resolve_rate_bp shop ≡ 2700)
    × (resolve_rate_bp (record shop { vat_id = some (codes "HU1") }) ≡ 0)
    × (resolve_rate_bp (record shop { vat_id = some [] }) ≡ 2700)
    × (resolve_rate_bp (record { country = codes "GB"; state = none; vat_id = some (codes "1") })
        ≡ 2000)
    × (resolve_rate_bp (record { country = codes "US"; state = none; vat_id = none }) ≡ 0)
unfolding rates
rate_tests = (refl, refl, refl, refl, refl)
