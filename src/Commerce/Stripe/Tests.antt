-- ===== src/Commerce/Stripe/Tests.antt =====
-- packages/commerce/src/webhooks/signature.ts and packages/commerce/src/providers/stripe.ts at
-- concrete inputs, with a digest that is easy to read.
use intellibiz.Shared.{
  ◌+◌, true, false, none, some, [], ◌∷◌, any, length, ◌≡◌, refl, or_else, arith,
}
use intellibiz.Shared.Text.{Text, codes, show, same_text, read_from, split}
use intellibiz.Shared.Trim.{trim_start, trim}
use intellibiz.Identity.Jwt.{truthy}
use intellibiz.Commerce.Signature.{
  hex_bytes, timing_safe_equal_hex, key_value, noted, read_part, read_parts,
  parse_stripe_signature_header,
}
use intellibiz.Commerce.Signature.Header.{stripe_header}
use intellibiz.Commerce.Stripe.{
  StripeConfig, Platform, is_stale, signed_payload, verify_parsed, verify_header,
  verify_webhook_signature,
}
use intellibiz.Commerce.Stripe.Accepts.{
  IsAuthentic, verify_webhook_signature-stripe_header, verify_webhook_signature-IsAuthentic,
}

webhook : Unit {0}
unfolding verify_webhook_signature verify_header verify_parsed is_stale
    parse_stripe_signature_header read_parts read_part noted key_value split timing_safe_equal_hex
    hex_bytes same_text trim trim_start show read_from
webhook = tt

-- The digest is the number of the characters, in two digits.
abbrev platform : Platform
platform = record {
  hmac = λ secret payload. show (10 + length secret + length payload);
  beyond = λ now tolerance timestamp. true;
}

abbrev config : StripeConfig
config = record { webhook_secret = some (codes "k"); webhook_tolerance_seconds = none }

webhook_tests :
    (parse_stripe_signature_header (codes "t=5, v1 = ab ,v0=cd,x,v1=")
      ≡ record { timestamp = some (codes "5"); signatures = codes "ab" ∷ [] })
    × (timing_safe_equal_hex (codes "aBcd") (codes "abcD") ≡ true)
    × (timing_safe_equal_hex (codes "abcdzz") (codes "abcd") ≡ true)
    × (timing_safe_equal_hex [] [] ≡ false)
    × (verify_webhook_signature platform config 1000000 (codes "{}") (codes "t=1000,v1=18") ≡ true)
    × (verify_webhook_signature platform config 1301000 (codes "{}") (codes "t=1000,v1=18") ≡ false)
    × (verify_webhook_signature platform config 1000000 (codes "{}") (codes "t=1000,v1=19") ≡ false)
unfolding webhook
webhook_tests = (refl, refl, refl, refl, refl, refl, refl)

verify_webhook_signature-stripe_header_example :
    verify_webhook_signature platform config 1200000
      (codes "{}")
      (stripe_header (show 1000) (codes "ab" ∷ codes "18" ∷ []))
    ≡ any
        (λ s.
          timing_safe_equal_hex s
            (platform.hmac (codes "k") (signed_payload (show 1000) (codes "{}"))))
        (codes "ab" ∷ codes "18" ∷ [])
verify_webhook_signature-stripe_header_example =
    verify_webhook_signature-stripe_header platform config (codes "k") 1200000 1000 (codes "{}")
      (codes "ab" ∷ codes "18" ∷ []) refl
      ((omega arith, (refl, (refl, tt))), ((omega arith, (refl, (refl, tt))), tt)) (omega arith)

verify_webhook_signature-IsAuthentic_example :
    (k : Text) × (text : Text) × (truthy config.webhook_secret ≡ some k)
    × (truthy (some (codes "t=1000,v1=18")) ≡ some text)
    × IsAuthentic platform
        (or_else config.webhook_tolerance_seconds 300)
        1000000
        k
        (codes "{}")
        (parse_stripe_signature_header text)
unfolding webhook
verify_webhook_signature-IsAuthentic_example =
    verify_webhook_signature-IsAuthentic platform config 1000000 (codes "{}") (codes "t=1000,v1=18")
      refl
