-- ===== src/Commerce/Stripe.antt =====
-- packages/commerce/src/providers/stripe.ts: the verification of a webhook's signature.
-- `hmacSha256Hex` is a function of the secret and the payload.
pub mod Accepts
pub mod Events
mod Tests
use intellibiz.Shared.{
  ℕ, ◌+◌, ◌-◌, ◌/◌, Bool, true, false, Option, none, some, List, [], ◌∷◌, ◌++◌, ltb, any, all,
  if◌then◌else◌, or_else,
}
use intellibiz.Shared.Text.{Text, codes, is_digit, read_from}
use intellibiz.Identity.Jwt.{truthy}
use intellibiz.Commerce.Signature.{
  ParsedStripeSignature, parse_stripe_signature_header, timing_safe_equal_hex,
}

pub record StripeConfig : Type 0 where
  pub webhook_secret : Option Text
  pub webhook_tolerance_seconds : Option ℕ

-- `Math.abs(a - b)`
abbrev pub distance : ℕ → ℕ → ℕ
distance a b = (a - b) + (b - a)

-- `hmac`; and `beyond`: for a timestamp that is not digits alone, whether the number that it is
-- read as is not finite, or is further from the first argument than the second
pub record Platform : Type 0 where
  pub hmac : Text → Text → Text
  pub beyond : ℕ → ℕ → Text → Bool

-- `ageSeconds > tolerance`, for times that a double holds
unfoldable pub is_stale : Platform → ℕ → ℕ → Text → Bool
unfolding read_from
is_stale platform tolerance now_ms timestamp =
    if all is_digit timestamp
    then ltb tolerance (distance (now_ms / 1000) (read_from 0 timestamp))
    else platform.beyond (now_ms / 1000) tolerance timestamp

-- `${timestamp}.${body}`
abbrev pub signed_payload : Text → Text → Text
signed_payload timestamp body = timestamp ++ (b'.' ∷ body)

-- what `verifyWebhookSignature` does with a secret and with what the header has
unfoldable pub verify_parsed : Platform → ℕ → ℕ → Text → Text → Option Text → List Text → Bool
unfolding is_stale timing_safe_equal_hex
verify_parsed platform tolerance now_ms secret body none signatures = false
verify_parsed platform tolerance now_ms secret body (some timestamp) [] = false
verify_parsed platform tolerance now_ms secret body (some timestamp) (s ∷ signatures) =
    if (if ltb 0 tolerance then is_stale platform tolerance now_ms timestamp else false)
    then false
    else any
        (λ candidate.
          timing_safe_equal_hex candidate (platform.hmac secret (signed_payload timestamp body)))
        (s ∷ signatures)

-- `!secret || !signature`
unfoldable pub verify_header : Platform → ℕ → ℕ → Text → Option Text → Option Text → Bool
unfolding verify_parsed parse_stripe_signature_header
verify_header platform tolerance now_ms body (some secret) (some header) =
    let parsed = parse_stripe_signature_header header in
    verify_parsed platform tolerance now_ms secret body parsed.timestamp parsed.signatures
verify_header platform tolerance now_ms body _ _ = false

unfoldable pub verify_webhook_signature : Platform → StripeConfig → ℕ → Text → Text → Bool
unfolding verify_header
verify_webhook_signature platform config now_ms body signature =
    verify_header platform (or_else config.webhook_tolerance_seconds 300) now_ms body
      (truthy config.webhook_secret) (truthy (some signature))
