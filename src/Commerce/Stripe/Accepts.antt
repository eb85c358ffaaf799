-- ===== src/Commerce/Stripe/Accepts.antt =====
-- packages/commerce/src/providers/stripe.ts: which webhooks Stripe's provider accepts.
use intellibiz.Shared.{
  ℕ, ◌/◌, ◌≤◌, ◌<◌, Bool, true, false, Option, none, some, List, [], ◌∷◌, ltb, any, all, length,
  if◌then◌else◌, or_else, All, ◌≡◌, refl, sym, arith, Bool-cases, inl, inr, ◌⊎◌, subst, ◌||◌, eqb,
  not,
}
use intellibiz.Shared.Text.{
  same_text-eq, Text, show, Digits, is_digit, Digits-show, length-show_pos, read_from-show,
}
use intellibiz.Identity.Jwt.{truthy}
use intellibiz.Commerce.Signature.{
  ParsedStripeSignature, parse_stripe_signature_header, timing_safe_equal_hex, hex_bytes,
}
use intellibiz.Commerce.Signature.Header.{is_plain, IsPlain, stripe_header, parse-stripe_header}
use intellibiz.Commerce.Stripe.{
  StripeConfig, distance, Platform, is_stale, signed_payload, verify_parsed, verify_header,
  verify_webhook_signature,
}

Digits-all : (s : Text) → Digits s → all is_digit s ≡ true
Digits-all [] h = refl
Digits-all (c ∷ s) h = rw h.0 (Digits-all s h.1)

Digits-plain : (s : Text) → Digits s → All (λ c. is_plain c ≡ true) s
Digits-plain [] h = tt
Digits-plain (c ∷ s) h = (digit c h.0, Digits-plain s h.1)
  where
    digit : (c : ℕ) → is_digit c ≡ true → is_plain c ≡ true
    digit c h = ground (arith, h)

show-IsPlain : (n : ℕ) → IsPlain (show n)
show-IsPlain n = (length-show_pos n, Digits-plain (show n) (Digits-show n))

-- A timestamp is fresh where the tolerance is 0, or the two times are not further apart.
is_stale-show :
    (platform : Platform) (tolerance now_ms n : ℕ)
    → distance (now_ms / 1000) n ≤ tolerance
    → is_stale platform tolerance now_ms (show n) ≡ false
unfolding is_stale
is_stale-show platform tolerance now_ms n h =
    rw (Digits-all (show n) (Digits-show n), read_from-show n) (ground (arith, h))

verify_parsed-fresh :
    (platform : Platform) (tolerance now_ms : ℕ) (secret body timestamp : Text)
    (signatures : List Text)
    → is_stale platform tolerance now_ms timestamp ≡ false
    → verify_parsed platform tolerance now_ms secret body (some timestamp) signatures
      ≡ any
          (λ s. timing_safe_equal_hex s (platform.hmac secret (signed_payload timestamp body)))
          signatures
unfolding verify_parsed
verify_parsed-fresh platform tolerance now_ms secret body timestamp [] fresh = refl
verify_parsed-fresh platform tolerance now_ms secret body timestamp (s ∷ signatures) fresh =
    elim (Bool-cases (ltb 0 tolerance)) [ inl t ↦ rw (t, fresh) refl | inr f ↦ rw f refl ]

-- A header that is put together of the time of the signature and of signatures, with a time within
-- the tolerance: the webhook is accepted exactly when one of the signatures has the bytes of the
-- digest of that time and the body under the configured secret.
pub verify_webhook_signature-stripe_header :
    (platform : Platform) (config : StripeConfig) (secret : Text) (now_ms n : ℕ) (body : Text)
    (signatures : List Text)
    → truthy config.webhook_secret ≡ some secret
    → All IsPlain signatures
    → distance (now_ms / 1000) n ≤ or_else config.webhook_tolerance_seconds 300
    → verify_webhook_signature platform config now_ms body (stripe_header (show n) signatures)
      ≡ any
          (λ s. timing_safe_equal_hex s (platform.hmac secret (signed_payload (show n) body)))
          signatures
unfolding verify_webhook_signature verify_header
verify_webhook_signature-stripe_header platform config secret now_ms n body signatures k plain
      near =
    rw (k, parse-stripe_header (show n) signatures (show-IsPlain n) plain)
      (verify_parsed-fresh platform (or_else config.webhook_tolerance_seconds 300) now_ms secret
        body (show n) signatures
        (is_stale-show platform (or_else config.webhook_tolerance_seconds 300) now_ms n near))

-- One of the items satisfies `P`.
abbrev pub Any : {A : Type 0} → (A → Type 0) → List A → Type 0
Any P [] = ⊥
Any P (x ∷ xs) = P x ⊎ Any P xs

any-Any :
    {A : Type 0} (p : A → Bool) (P : A → Type 0) (xs : List A)
    → ((x : A) → p x ≡ true → P x)
    → any p xs ≡ true
    → Any P xs
any-Any p P [] f h = absurd (ground (arith, h))
any-Any p P (x ∷ xs) f h = elim (Bool-cases (p x)) [
  | inl t ↦ inl (f x t)
  | inr e ↦ inr (any-Any p P xs f (rw e at h))
]

-- The bytes of a signature are those of the digest, and there is one at least.
abbrev pub Matches : Text → Text → Type 0
Matches digest s = (hex_bytes s ≡ hex_bytes digest) × (0 < length (hex_bytes s))

timing_safe_equal_hex-Matches :
    (s digest : Text) → timing_safe_equal_hex s digest ≡ true → Matches digest s
unfolding timing_safe_equal_hex
timing_safe_equal_hex-Matches s digest h =
    let bytes = hex_bytes s in
    let other = hex_bytes digest in
    elim (Bool-cases (eqb (length bytes) 0 || not (eqb (length bytes) (length other)))) [
      | inl t ↦ absurd (ground (arith, (rw t at h)))
      | inr f ↦ (same_text-eq bytes other (rw f at h), filled (length bytes) _ f)
    ]
  where
    filled : (n : ℕ) (b : Bool) → (eqb n 0 || b) ≡ false → 0 < n
    filled n b f = ground (arith, f)

-- What an accepted webhook has: the timestamp and a signature of the header.
abbrev pub IsAuthentic : Platform → ℕ → ℕ → Text → Text → ParsedStripeSignature → Type 0
IsAuthentic platform tolerance now_ms secret body parsed =
    (timestamp : Text) × (parsed.timestamp ≡ some timestamp)
    × ((tolerance ≡ 0) ⊎ (is_stale platform tolerance now_ms timestamp ≡ false))
    × Any (Matches (platform.hmac secret (signed_payload timestamp body))) parsed.signatures

guarded :
    (b c x : Bool)
    → (if (if b then c else false) then false else x) ≡ true
    → ((b ≡ false) ⊎ (c ≡ false)) × (x ≡ true)
guarded true true x h = absurd (ground (arith, h))
guarded true false x h = (inr refl, h)
guarded false c x h = (inl refl, h)

verify_parsed-IsAuthentic :
    (platform : Platform) (tolerance now_ms : ℕ) (secret body : Text)
    (parsed : ParsedStripeSignature) (timestamp : Option Text) (signatures : List Text)
    → parsed.timestamp ≡ timestamp
    → parsed.signatures ≡ signatures
    → verify_parsed platform tolerance now_ms secret body timestamp signatures ≡ true
    → IsAuthentic platform tolerance now_ms secret body parsed
unfolding verify_parsed
verify_parsed-IsAuthentic platform tolerance now_ms secret body parsed none signatures p q h =
    absurd (ground (arith, h))
verify_parsed-IsAuthentic platform tolerance now_ms secret body parsed (some t) [] p q h =
    absurd (ground (arith, h))
verify_parsed-IsAuthentic platform tolerance now_ms secret body parsed (some t) (s ∷ signatures) p q
      h =
    let digest = platform.hmac secret (signed_payload t body) in
    let found =
      guarded (ltb 0 tolerance) (is_stale platform tolerance now_ms t)
        (any (λ candidate. timing_safe_equal_hex candidate digest) (s ∷ signatures)) h in
    (
      t,
      p,
      elim found.0 [ inl e ↦ inl (ground (arith, e)) | inr e ↦ inr e ],
      subst (Any (Matches digest)) (sym q) (
          any-Any (λ c. timing_safe_equal_hex c digest) (Matches digest) (s ∷ signatures)
            (λ c. timing_safe_equal_hex-Matches c digest) found.1),
    )

verify_header-IsAuthentic :
    (platform : Platform) (tolerance now_ms : ℕ) (body : Text) (secret header : Option Text)
    → verify_header platform tolerance now_ms body secret header ≡ true
    → (k : Text) × (text : Text) × (secret ≡ some k)
      × (header ≡ some text)
      × IsAuthentic platform tolerance now_ms k body (parse_stripe_signature_header text)
unfolding verify_header
verify_header-IsAuthentic platform tolerance now_ms body none header h = absurd (ground (arith, h))
verify_header-IsAuthentic platform tolerance now_ms body (some k) none h =
    absurd (ground (arith, h))
verify_header-IsAuthentic platform tolerance now_ms body (some k) (some text) h =
    let parsed = parse_stripe_signature_header text in
    (
      k,
      text,
      refl,
      refl,
      verify_parsed-IsAuthentic platform tolerance now_ms k body parsed parsed.timestamp
          parsed.signatures refl refl h,
    )

-- A webhook that is accepted was checked against a secret that is configured and not empty, and its
-- header has a timestamp, which is not stale unless the tolerance is 0, and a signature with the
-- bytes of the digest of that timestamp and the body.
pub verify_webhook_signature-IsAuthentic :
    (platform : Platform) (config : StripeConfig) (now_ms : ℕ) (body signature : Text)
    → verify_webhook_signature platform config now_ms body signature ≡ true
    → (k : Text) × (text : Text) × (truthy config.webhook_secret ≡ some k)
      × (truthy (some signature) ≡ some text)
      × IsAuthentic platform
          (or_else config.webhook_tolerance_seconds 300)
          now_ms
          k
          body
          (parse_stripe_signature_header text)
unfolding verify_webhook_signature
verify_webhook_signature-IsAuthentic platform config now_ms body signature h =
    verify_header-IsAuthentic platform (or_else config.webhook_tolerance_seconds 300) now_ms body
      (truthy config.webhook_secret) (truthy (some signature)) h
