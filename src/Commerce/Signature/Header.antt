-- ===== src/Commerce/Signature/Header.antt =====
-- packages/commerce/src/webhooks/signature.ts: a header that is put together is read as its parts.
use mathlib.Core.List.{append_assoc, append-nil}
use intellibiz.Shared.{
  ℕ, Bool, true, false, none, some, List, [], ◌∷◌, ◌++◌, map, eqb, if◌then◌else◌, All, ◌≡◌, refl,
  sym, ap, arith, ◌∙◌, length, ◌<◌,
}
use intellibiz.Shared.Text.{Text, codes, same_text, split}
use intellibiz.Shared.Trim.{is_space, trim_start, trim, Solid, trim-Solid}
use intellibiz.Commerce.Signature.{
  key_value, ParsedStripeSignature, noted, read_part, read_parts, parse_stripe_signature_header,
}

Without : ℕ → Text → Type 0
Without c s = All (λ d. eqb d c ≡ false) s

split-append : (c : ℕ) (p t : Text) → Without c p → split c (p ++ c ∷ t) ≡ p ∷ split c t
unfolding split Without
split-append c [] t h = ground arith
split-append c (d ∷ p) t h = rw (split-append c p t h.1, h.0) refl

split-whole : (c : ℕ) (p : Text) → Without c p → split c p ≡ p ∷ []
unfolding split Without
split-whole c [] h = refl
split-whole c (d ∷ p) h = rw (split-whole c p h.1, h.0) refl

-- A character that neither ends a part nor is taken off its ends
abbrev pub is_plain : ℕ → Bool
is_plain c = if is_space c then false else (if eqb c b',' then false else true)

-- A text of such characters, with one at least
abbrev pub IsPlain : Text → Type 0
IsPlain s = (0 < length s) × All (λ c. is_plain c ≡ true) s

All-map {ℓ κ} :
    {A : Type ℓ} (P Q : A → Type κ) (xs : List A) → ((x : A) → P x → Q x) → All P xs → All Q xs
All-map P Q [] f h = tt
All-map P Q (x ∷ xs) f h = (f x h.0, All-map P Q xs f h.1)

pub IsPlain-Solid : (s : Text) → IsPlain s → Solid s
IsPlain-Solid s h =
    All-map (λ c. is_plain c ≡ true) (λ c. is_space c ≡ false) s (λ c e. ground (arith, e)) h.1

IsPlain-Without : (s : Text) → IsPlain s → Without b',' s
unfolding Without
IsPlain-Without s h =
    All-map (λ c. is_plain c ≡ true) (λ c. eqb c b',' ≡ false) s (λ c e. ground (arith, e)) h.1

abbrev pub v1_part : Text → Text
v1_part s = codes "v1=" ++ s

abbrev pub v1_parts : List Text → Text
v1_parts [] = []
v1_parts (s ∷ signatures) = b',' ∷ v1_part s ++ v1_parts signatures

-- `t=…,v1=…,v1=…`
abbrev pub stripe_header : Text → List Text → Text
stripe_header timestamp signatures = codes "t=" ++ timestamp ++ v1_parts signatures

split-v1_parts :
    (p : Text) (signatures : List Text)
    → Without b',' p
    → All IsPlain signatures
    → split b',' (p ++ v1_parts signatures) ≡ p ∷ map v1_part signatures
split-v1_parts p [] free plain = rw (append-nil p) (split-whole b',' p free)
split-v1_parts p (s ∷ signatures) free plain =
    split-append b',' p (v1_part s ++ v1_parts signatures) free
    ∙ ap (λ parts. p ∷ parts)
        (split-v1_parts (v1_part s) signatures
          (unfold Without in (refl, (refl, (refl, IsPlain-Without s plain.0)))) plain.1)

noted-v1 :
    (s : Text) (parsed : ParsedStripeSignature)
    → 0 < length s
    → noted (codes "v1") s parsed ≡ record parsed { signatures = parsed.signatures ++ s ∷ [] }
unfolding noted same_text
noted-v1 [] parsed h = absurd (omega (arith, h))
noted-v1 (c ∷ s) parsed h = refl

noted-t :
    (s : Text) (parsed : ParsedStripeSignature)
    → 0 < length s
    → noted (codes "t") s parsed ≡ record parsed { timestamp = some s }
unfolding noted same_text
noted-t [] parsed h = absurd (omega (arith, h))
noted-t (c ∷ s) parsed h = refl

read_part-v1 :
    (s : Text) (parsed : ParsedStripeSignature)
    → IsPlain s
    → read_part (key_value (v1_part s)) parsed
      ≡ record parsed { signatures = parsed.signatures ++ s ∷ [] }
unfolding key_value read_part
read_part-v1 s parsed h =
    rw (trim-Solid s (IsPlain-Solid s h)) (unfold trim trim_start in noted-v1 s parsed h.0)

read_part-t :
    (s : Text) (parsed : ParsedStripeSignature)
    → IsPlain s
    → read_part (key_value (codes "t=" ++ s)) parsed ≡ record parsed { timestamp = some s }
unfolding key_value read_part
read_part-t s parsed h =
    rw (trim-Solid s (IsPlain-Solid s h)) (unfold trim trim_start in noted-t s parsed h.0)

read_parts-v1 :
    (signatures : List Text) (parsed : ParsedStripeSignature)
    → All IsPlain signatures
    → read_parts (map v1_part signatures) parsed
      ≡ record parsed { signatures = parsed.signatures ++ signatures }
unfolding read_parts
read_parts-v1 [] parsed h =
    ap (λ xs. record parsed { signatures = xs }) (sym (append-nil parsed.signatures))
read_parts-v1 (s ∷ signatures) parsed h =
    ap (λ p. read_parts (map v1_part signatures) p) (read_part-v1 s parsed h.0)
    ∙ read_parts-v1 signatures (record parsed { signatures = parsed.signatures ++ s ∷ [] }) h.1
    ∙ ap (λ xs. record parsed { signatures = xs })
        (append_assoc parsed.signatures (s ∷ []) signatures)

-- A header that is put together of a timestamp and of signatures, each of at least one character and
-- none with a comma or white space, is read as that timestamp and those signatures.
pub parse-stripe_header :
    (timestamp : Text) (signatures : List Text)
    → IsPlain timestamp
    → All IsPlain signatures
    → parse_stripe_signature_header (stripe_header timestamp signatures)
      ≡ record { timestamp = some timestamp; signatures = signatures }
unfolding parse_stripe_signature_header read_parts
parse-stripe_header timestamp signatures t s =
    let empty : ParsedStripeSignature = record { timestamp = none; signatures = [] } in
    ap (λ parts. read_parts parts empty)
      (split-v1_parts (codes "t=" ++ timestamp) signatures
        (unfold Without in (refl, (refl, IsPlain-Without timestamp t))) s)
    ∙ ap (λ p. read_parts (map v1_part signatures) p) (read_part-t timestamp empty t)
    ∙ read_parts-v1 signatures (record empty { timestamp = some timestamp }) s
