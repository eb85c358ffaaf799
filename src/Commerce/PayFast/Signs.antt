-- ===== src/Commerce/PayFast/Signs.antt =====
-- packages/commerce/src/providers/payfast.ts: a form that is signed as PayFast does is accepted.
use intellibiz.Shared.{
  ℕ, ◌<◌, true, false, not, ◌||◌, some, [], ◌∷◌, ◌++◌, eqb, length, if◌then◌else◌, ◌≡◌, refl, ap,
  arith, ◌∙◌, All,
}
use intellibiz.Shared.Text.{Text, codes, same_text, same_text_self}
use intellibiz.Shared.Trim.{trim, trim-Solid}
use intellibiz.Commerce.Signature.{hex_bytes, timing_safe_equal_hex}
use intellibiz.Commerce.Signature.Header.{IsPlain, IsPlain-Solid}
use intellibiz.Commerce.PayFast.{
  Params, signature_key, signing_parts, join_parts, build_pay_fast_signing_string, get_param,
  first_filled, expected_signature, matches, verify_pay_fast, encode_pay_fast_value,
}

-- None of the fields is the signature.
abbrev pub Unsigned : Params → Type 0
Unsigned params = All (λ p. same_text p.0 signature_key ≡ false) params

get_param-signature :
    (before after : Params) (digest : Text)
    → Unsigned before
    → get_param signature_key (before ++ (signature_key, digest) ∷ after) ≡ some digest
unfolding get_param
get_param-signature [] after digest h = unfold same_text in refl
get_param-signature ((k, v) ∷ before) after digest h =
    rw h.0 (get_param-signature before after digest h.1)

signing_parts-signature :
    (before after : Params) (digest : Text)
    → signing_parts (before ++ (signature_key, digest) ∷ after) ≡ signing_parts (before ++ after)
unfolding signing_parts
signing_parts-signature [] after digest = unfold same_text in refl
signing_parts-signature ((k, v) ∷ before) after digest =
    ap
      (λ rest.
        if same_text k signature_key then rest else (k ++ (b'=' ∷ encode_pay_fast_value v)) ∷ rest)
      (signing_parts-signature before after digest)

expected_signature-signature :
    (hash : Text → Text) (passphrase : Text) (before after : Params) (digest : Text)
    → expected_signature hash passphrase (before ++ (signature_key, digest) ∷ after)
      ≡ expected_signature hash passphrase (before ++ after)
unfolding expected_signature build_pay_fast_signing_string
expected_signature-signature hash passphrase before after digest =
    ap
      (λ parts.
        hash (join_parts parts ++ (codes "&passphrase=" ++ encode_pay_fast_value passphrase)))
      (signing_parts-signature before after digest)

timing_safe_equal_hex_self :
    (digest : Text) → 0 < length (hex_bytes digest) → timing_safe_equal_hex digest digest ≡ true
unfolding timing_safe_equal_hex
timing_safe_equal_hex_self digest h =
    let n = length (hex_bytes digest) in
    let filled : (eqb n 0 || not (eqb n n)) ≡ false = nonzero n h in
    rw filled (same_text_self (hex_bytes digest))
  where
    nonzero : (n : ℕ) → 0 < n → (eqb n 0 || not (eqb n n)) ≡ false
    nonzero n h = ground (arith, h)

matches_self :
    (digest : Text)
    → 0 < length digest
    → 0 < length (hex_bytes digest)
    → matches digest digest ≡ true
matches_self [] h k = absurd (omega (arith, h))
matches_self (c ∷ s) h k = timing_safe_equal_hex_self (c ∷ s) k

-- A form that carries the digest of its other fields and the passphrase in its field `signature`,
-- wherever that stands, is accepted when no signature is given with it: the digest being one of hex
-- digits, with a byte at least.
pub verify_pay_fast-signed :
    (hash : Text → Text) (search_params : Text → Params) (passphrase body : Text)
    (before after : Params) (digest : Text)
    → search_params body ≡ before ++ (signature_key, digest) ∷ after
    → Unsigned before
    → expected_signature hash passphrase (before ++ after) ≡ digest
    → IsPlain digest
    → 0 < length (hex_bytes digest)
    → verify_pay_fast hash search_params passphrase body [] ≡ true
unfolding verify_pay_fast
verify_pay_fast-signed hash search_params passphrase body before after digest parsed free signed
      plain bytes =
    let posted = before ++ (signature_key, digest) ∷ after in
    let expected = expected_signature-signature hash passphrase before after digest ∙ signed in
    ap
      (λ params.
        matches (trim (first_filled [] (get_param signature_key params)))
          (expected_signature hash passphrase params))
      parsed
    ∙ ap (λ o. matches (trim (first_filled [] o)) (expected_signature hash passphrase posted))
        (get_param-signature before after digest free)
    ∙ ap (λ t. matches t (expected_signature hash passphrase posted))
        (trim-Solid digest (IsPlain-Solid digest plain))
    ∙ ap (matches digest) expected
    ∙ matches_self digest plain.0 bytes
