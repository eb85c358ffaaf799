-- ===== src/Commerce/PayFast.antt =====
-- packages/commerce/src/providers/payfast.ts: the signatures of PayFast and of Ozow. A text is a list of
-- code points that are no surrogates; `URLSearchParams` and the digests are parameters.
pub mod Encoding
pub mod Signs
pub mod Events
mod Tests
use intellibiz.Shared.{
  ℕ, ◌+◌, ◌-◌, ◌*◌, ◌/◌, ◌%◌, Bool, true, false, ◌&&◌, ◌||◌, Option, none, some, List, [], ◌∷◌,
  ◌++◌, eqb, ltb, leb, if◌then◌else◌, or_else, any,
}
use intellibiz.Shared.Text.{Text, codes, same_text, is_digit}
use intellibiz.Shared.Trim.{trim}
use intellibiz.Commerce.Signature.{timing_safe_equal_hex}

abbrev pub is_letter : ℕ → Bool
is_letter c = (leb b'a' c && leb c b'z') || (leb b'A' c && leb c b'Z')

-- The characters that `encodeURIComponent` leaves
abbrev pub is_unreserved : ℕ → Bool
is_unreserved c = is_letter c || is_digit c || any (eqb c) (codes "-_.!~*'()")

-- The bytes of a code point in UTF-8
unfoldable pub utf8 : ℕ → List ℕ
utf8 c =
    if ltb c 128
    then c ∷ []
    else (if ltb c 2048
        then (192 + c / 64) ∷ (128 + c % 64) ∷ []
        else (if ltb c 65536
            then (224 + c / 4096) ∷ (128 + c / 64 % 64) ∷ (128 + c % 64) ∷ []
            else (240 + c / 262144)
              ∷ (128 + c / 4096 % 64)
              ∷ (128 + c / 64 % 64)
              ∷ (128 + c % 64)
              ∷ []))

abbrev pub hex_upper : ℕ → ℕ
hex_upper d = if ltb d 10 then b'0' + d else b'A' + (d - 10)

-- `%` and two digits for each byte
abbrev pub percents : List ℕ → Text → Text
percents [] rest = rest
percents (b ∷ bytes) rest = b'%' ∷ hex_upper (b / 16) ∷ hex_upper (b % 16) ∷ percents bytes rest

unfoldable pub encode_uri_component : Text → Text
unfolding utf8
encode_uri_component [] = []
encode_uri_component (c ∷ s) =
    let rest = encode_uri_component s in
    if is_unreserved c then c ∷ rest else percents (utf8 c) rest

-- `replace(/%20/g, '+')`
unfoldable pub plus_for_spaces : Text → Text
plus_for_spaces (a ∷ b ∷ c ∷ s) =
    let hit = plus_for_spaces s in
    let miss = plus_for_spaces (b ∷ c ∷ s) in
    if eqb a b'%' && (eqb b b'2' && eqb c b'0') then b'+' ∷ hit else a ∷ miss
plus_for_spaces s = s

abbrev pub is_hex : ℕ → Bool
is_hex c = is_digit c || (leb b'a' c && leb c b'f') || (leb b'A' c && leb c b'F')

abbrev pub upper_letter : ℕ → ℕ
upper_letter c = if leb b'a' c && leb c b'z' then c - 32 else c

-- `replace(/%[0-9a-f]{2}/gi, match => match.toUpperCase())`
unfoldable pub upper_escapes : Text → Text
upper_escapes (a ∷ b ∷ c ∷ s) =
    let hit = upper_escapes s in
    let miss = upper_escapes (b ∷ c ∷ s) in
    if eqb a b'%' && (is_hex b && is_hex c)
    then a ∷ upper_letter b ∷ upper_letter c ∷ hit
    else a ∷ miss
upper_escapes s = s

unfoldable pub encode_pay_fast_value : Text → Text
unfolding upper_escapes plus_for_spaces encode_uri_component
encode_pay_fast_value value = upper_escapes (plus_for_spaces (encode_uri_component value))

abbrev pub Params : Type 0
Params = List (Text × Text)

abbrev pub signature_key : Text
signature_key = codes "signature"

-- The parts of `buildPayFastSigningString`
unfoldable pub signing_parts : Params → List Text
unfolding same_text encode_pay_fast_value
signing_parts [] = []
signing_parts ((k, v) ∷ params) =
    let rest = signing_parts params in
    if same_text k signature_key then rest else (k ++ (b'=' ∷ encode_pay_fast_value v)) ∷ rest

abbrev joined_by : Text → List Text → Text
joined_by part [] = part
joined_by part (p ∷ parts) = part ++ (b'&' ∷ joined_by p parts)

-- `parts.join('&')`
abbrev pub join_parts : List Text → Text
join_parts [] = []
join_parts (part ∷ parts) = joined_by part parts

unfoldable pub build_pay_fast_signing_string : Params → Text
unfolding signing_parts
build_pay_fast_signing_string params = join_parts (signing_parts params)

-- `params.get(name)`
unfoldable pub get_param : Text → Params → Option Text
unfolding same_text
get_param name [] = none
get_param name ((k, v) ∷ params) =
    let rest = get_param name params in if same_text k name then some v else rest

-- `signature || params.get('signature') || ''`
abbrev pub first_filled : Text → Option Text → Text
first_filled [] o = or_else o []
first_filled (c ∷ s) o = c ∷ s

-- `hash` is MD5.
unfoldable pub expected_signature : (Text → Text) → Text → Params → Text
unfolding build_pay_fast_signing_string encode_pay_fast_value
expected_signature hash passphrase params = hash (
    build_pay_fast_signing_string params
    ++ (codes "&passphrase=" ++ encode_pay_fast_value passphrase))

abbrev pub matches : Text → Text → Bool
matches [] expected = false
matches (c ∷ s) expected = timing_safe_equal_hex (c ∷ s) expected

unfoldable pub verify_pay_fast : (Text → Text) → (Text → Params) → Text → Text → Text → Bool
unfolding expected_signature get_param trim
verify_pay_fast hash search_params passphrase body signature =
    let params = search_params body in
    matches (trim (first_filled signature (get_param signature_key params)))
      (expected_signature hash passphrase params)

-- `hmac` is HMAC-SHA512.
unfoldable pub verify_ozow : (Text → Text → Text) → Text → Text → Text → Bool
verify_ozow hmac api_secret body signature = matches signature (hmac api_secret body)
