-- ===== src/Commerce/Stripe/Events/Tests.antt =====
-- packages/commerce/src/providers/stripe.ts: events of notifications at concrete inputs.
use intellibiz.Shared.{ℕ, String, none, some, [], ok, err, if◌then◌else◌, ◌≡◌, refl}
use intellibiz.Shared.Text.{Text, codes, same_text}
use intellibiz.Commerce.Stripe.Events.{StripeBody, parse_stripe}

abbrev as_string : Text → String
as_string s = if same_text s (codes "evt_00") then "evt_00" else "other"

abbrev bare : StripeBody ℕ
bare = record { kind = none; id = none; data_object = some none }

event_tests :
    (parse_stripe {P = ℕ} 0 (λ s. err "SyntaxError") as_string [] [] ≡ err "SyntaxError")
    × (parse_stripe {P = ℕ} 0 (λ s. ok bare) as_string (codes "00") []
        ≡ ok (record { kind = "other"; payload = 0; event_id = "evt_00"; provider = "stripe" }))
    × (parse_stripe {P = ℕ} 0
          (λ s. ok (record bare { data_object = some (some 7) }))
          as_string
          (codes "00")
          []
        ≡ ok (record { kind = "other"; payload = 7; event_id = "evt_00"; provider = "stripe" }))
unfolding parse_stripe same_text
event_tests = (refl, refl, refl)
