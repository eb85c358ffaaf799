-- ===== src/Commerce/PayFast/Tests.antt =====
-- packages/commerce/src/providers/payfast.ts at concrete inputs, with a digest that is easy to read.
use intellibiz.Shared.{◌+◌, true, false, [], ◌∷◌, length, ◌≡◌, refl, arith}
use intellibiz.Shared.Text.{Text, codes, same_text, show}
use intellibiz.Shared.Trim.{trim, trim_start}
use intellibiz.Commerce.Signature.{hex_bytes, timing_safe_equal_hex}
use intellibiz.Commerce.PayFast.{
  utf8, encode_uri_component, plus_for_spaces, upper_escapes, encode_pay_fast_value, Params,
  signature_key, signing_parts, build_pay_fast_signing_string, get_param, expected_signature,
  verify_pay_fast, verify_ozow,
}
use intellibiz.Commerce.PayFast.Encoding.{form_encoded, encode_pay_fast_value-form_encoded}
use intellibiz.Commerce.PayFast.Signs.{verify_pay_fast-signed}

forms : Unit {0}
unfolding utf8 encode_uri_component plus_for_spaces upper_escapes encode_pay_fast_value
    signing_parts build_pay_fast_signing_string get_param expected_signature verify_pay_fast
    verify_ozow same_text show trim trim_start hex_bytes timing_safe_equal_hex form_encoded
forms = tt

-- The number of the characters, in two digits
abbrev hash : Text → Text
hash s = show (10 + length s)

abbrev search_params : Text → Params
search_params body =
    (codes "a", codes "x y") ∷ (signature_key, codes "33") ∷ (codes "b", codes "1") ∷ []

form_tests :
    (encode_pay_fast_value (codes "a b&c%20é!") ≡ codes "a+b%26c%2520%C3%A9!")
    × (build_pay_fast_signing_string (search_params []) ≡ codes "a=x+y&b=1")
    × (verify_pay_fast hash search_params (codes "pw") [] [] ≡ true)
    × (verify_pay_fast hash search_params (codes "pw") [] (codes " 34 ") ≡ false)
    × (verify_ozow (λ secret body. codes "ab") (codes "s") [] (codes "AB") ≡ true)
    × (verify_ozow (λ secret body. codes "ab") (codes "s") [] [] ≡ false)
unfolding forms
form_tests = (refl, refl, refl, refl, refl, refl)

encode_pay_fast_value-form_encoded_example :
    encode_pay_fast_value (codes "a b") ≡ form_encoded (codes "a b")
encode_pay_fast_value-form_encoded_example =
    encode_pay_fast_value-form_encoded (codes "a b") (omega arith, (omega arith, (omega arith, tt)))

verify_pay_fast-signed_example :
    verify_pay_fast hash search_params (codes "pw") (codes "b") [] ≡ true
unfolding forms
verify_pay_fast-signed_example =
    verify_pay_fast-signed hash search_params (codes "pw") (codes "b")
      ((codes "a", codes "x y") ∷ []) ((codes "b", codes "1") ∷ []) (codes "33") refl (refl, tt)
      refl (omega arith, (refl, (refl, tt))) (omega arith)
