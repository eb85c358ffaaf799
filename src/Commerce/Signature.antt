-- ===== src/Commerce/Signature.antt =====
-- packages/commerce/src/webhooks/signature.ts, on texts of ASCII characters. The digests of
-- `node:crypto` are functions of their inputs, which the providers take.
pub mod Header
use intellibiz.Shared.{
  ℕ, ◌+◌, ◌-◌, ◌*◌, Bool, true, false, not, ◌&&◌, ◌||◌, Option, none, some, List, [], ◌∷◌, ◌++◌,
  eqb, leb, length, if◌then◌else◌,
}
use intellibiz.Shared.Text.{Text, codes, same_text, is_digit, split}
use intellibiz.Shared.Trim.{trim}

-- The value of a hex digit, in either case
abbrev pub hex_value : ℕ → Option ℕ
hex_value c =
    if is_digit c
    then some (c - b'0')
    else (if leb b'a' c && leb c b'f'
        then some (c - b'a' + 10)
        else (if leb b'A' c && leb c b'F' then some (c - b'A' + 10) else none))

abbrev pub joined : Option ℕ → Option ℕ → List ℕ → List ℕ
joined (some high) (some low) bytes = (high * 16 + low) ∷ bytes
joined _ _ bytes = []

-- `Buffer.from(a, 'hex')`: it ends before the first pair that is not two hex digits.
unfoldable pub hex_bytes : Text → List ℕ
hex_bytes [] = []
hex_bytes (c ∷ []) = []
hex_bytes (c ∷ d ∷ s) = joined (hex_value c) (hex_value d) (hex_bytes s)

-- `timingSafeEqualHex`; `timingSafeEqual` compares buffers of one length.
unfoldable pub timing_safe_equal_hex : Text → Text → Bool
unfolding hex_bytes same_text
timing_safe_equal_hex a b =
    let buf_a = hex_bytes a in
    let buf_b = hex_bytes b in
    if eqb (length buf_a) 0 || not (eqb (length buf_a) (length buf_b))
    then false
    else same_text buf_a buf_b

abbrev pub onto_key : ℕ → Option (Text × Text) → Option (Text × Text)
onto_key d none = none
onto_key d (some (key, value)) = some (d ∷ key, value)

-- the text before and behind the first `=`, if there is one
unfoldable pub key_value : Text → Option (Text × Text)
key_value [] = none
key_value (d ∷ s) = let rest = key_value s in if eqb d b'=' then some ([], s) else onto_key d rest

pub record ParsedStripeSignature : Type 0 where
  pub timestamp : Option Text
  pub signatures : List Text

-- the end of the loop's body, for a trimmed key and a trimmed value
unfoldable pub noted : Text → Text → ParsedStripeSignature → ParsedStripeSignature
unfolding same_text
noted key [] parsed = parsed
noted key (c ∷ value) parsed =
    if same_text key (codes "t")
    then record parsed { timestamp = some (c ∷ value) }
    else (if same_text key (codes "v1")
        then record parsed { signatures = parsed.signatures ++ (c ∷ value) ∷ [] }
        else parsed)

unfoldable pub read_part : Option (Text × Text) → ParsedStripeSignature → ParsedStripeSignature
unfolding noted trim
read_part none parsed = parsed
read_part (some (key, value)) parsed = noted (trim key) (trim value) parsed

unfoldable pub read_parts : List Text → ParsedStripeSignature → ParsedStripeSignature
unfolding read_part key_value
read_parts [] parsed = parsed
read_parts (part ∷ parts) parsed = read_parts parts (read_part (key_value part) parsed)

unfoldable pub parse_stripe_signature_header : Text → ParsedStripeSignature
unfolding read_parts split
parse_stripe_signature_header header =
    read_parts (split b',' header) (record { timestamp = none; signatures = [] })
