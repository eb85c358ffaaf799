-- ===== src/Commerce/PayFast/Encoding.antt =====
-- packages/commerce/src/providers/payfast.ts: the two replacements come to an encoding of each character.
use intellibiz.Shared.{
  ℕ, ◌+◌, ◌/◌, ◌%◌, ◌<◌, true, false, ◌&&◌, List, [], ◌∷◌, eqb, ltb, if◌then◌else◌, ◌≡◌, refl, ap,
  arith, ◌∙◌, Bool-cases, inl, inr, All, if_intro, ◌≤◌, eqb_iff,
}
use intellibiz.Shared.Text.{Text}
use intellibiz.Commerce.PayFast.{
  is_unreserved, utf8, hex_upper, percents, encode_uri_component, plus_for_spaces, is_hex,
  upper_letter, upper_escapes, encode_pay_fast_value,
}

-- The encoding, said of each character: what is unreserved stays, a space is a plus, and of any other
-- character each byte is a percent sign with two digits, whose letters are capital.
unfoldable pub form_encoded : Text → Text
form_encoded [] = []
form_encoded (c ∷ s) =
    let rest = form_encoded s in
    if is_unreserved c then c ∷ rest else (if eqb c 32 then b'+' ∷ rest else percents (utf8 c) rest)

plus_for_spaces-plain :
    (c : ℕ) (s : Text) → eqb c b'%' ≡ false → plus_for_spaces (c ∷ s) ≡ c ∷ plus_for_spaces s
unfolding plus_for_spaces
plus_for_spaces-plain c [] h = refl
plus_for_spaces-plain c (x ∷ []) h = refl
plus_for_spaces-plain c (x ∷ y ∷ s) h = rw h refl

upper_escapes-plain :
    (c : ℕ) (s : Text) → eqb c b'%' ≡ false → upper_escapes (c ∷ s) ≡ c ∷ upper_escapes s
unfolding upper_escapes
upper_escapes-plain c [] h = refl
upper_escapes-plain c (x ∷ []) h = refl
upper_escapes-plain c (x ∷ y ∷ s) h = rw h refl

hex_upper-plain : (d : ℕ) → eqb (hex_upper d) b'%' ≡ false
hex_upper-plain d = ground arith

plus_for_spaces-escape :
    (x y : ℕ) (s : Text)
    → (eqb x b'2' && eqb y b'0') ≡ false
    → eqb x b'%' ≡ false
    → eqb y b'%' ≡ false
    → plus_for_spaces (b'%' ∷ x ∷ y ∷ s) ≡ b'%' ∷ x ∷ y ∷ plus_for_spaces s
unfolding plus_for_spaces
plus_for_spaces-escape x y s other p q = rw other (
    ap (λ t. b'%' ∷ t)
      (plus_for_spaces-plain x (y ∷ s) p ∙ ap (λ t. x ∷ t) (plus_for_spaces-plain y s q)))

upper_escapes-escape :
    (x y : ℕ) (s : Text)
    → (is_hex x && is_hex y) ≡ true
    → upper_letter x ≡ x
    → upper_letter y ≡ y
    → upper_escapes (b'%' ∷ x ∷ y ∷ s) ≡ b'%' ∷ x ∷ y ∷ upper_escapes s
unfolding upper_escapes
upper_escapes-escape x y s hex p q = rw hex (
    ap (λ t. b'%' ∷ t)
      (ap (λ u. u ∷ upper_letter y ∷ upper_escapes s) p ∙ ap (λ u. x ∷ u ∷ upper_escapes s) q))

-- A byte, but not the one of a space
abbrev IsByte : ℕ → Type 0
IsByte b = (b < 256) × (eqb b 32 ≡ false)

space_escape :
    (b : ℕ) → IsByte b → (eqb (hex_upper (b / 16)) b'2' && eqb (hex_upper (b % 16)) b'0') ≡ false
space_escape b h = ground (arith, h.0, h.1)

hex_upper-is_hex : (d : ℕ) → d < 16 → is_hex (hex_upper d) ≡ true
hex_upper-is_hex d h = ground (arith, h)

upper_letter-hex_upper : (d : ℕ) → d < 16 → upper_letter (hex_upper d) ≡ hex_upper d
upper_letter-hex_upper d h = ground (arith, h)

plus_for_spaces-percents :
    (bytes : List ℕ) (rest : Text)
    → All IsByte bytes
    → plus_for_spaces (percents bytes rest) ≡ percents bytes (plus_for_spaces rest)
plus_for_spaces-percents [] rest h = refl
plus_for_spaces-percents (b ∷ bytes) rest h =
    plus_for_spaces-escape (hex_upper (b / 16)) (hex_upper (b % 16)) (percents bytes rest)
      (space_escape b h.0) (hex_upper-plain (b / 16)) (hex_upper-plain (b % 16))
    ∙ ap (λ t. b'%' ∷ hex_upper (b / 16) ∷ hex_upper (b % 16) ∷ t)
        (plus_for_spaces-percents bytes rest h.1)

upper_escapes-percents :
    (bytes : List ℕ) (rest : Text)
    → All IsByte bytes
    → upper_escapes (percents bytes rest) ≡ percents bytes (upper_escapes rest)
upper_escapes-percents [] rest h = refl
upper_escapes-percents (b ∷ bytes) rest h =
    let high : b / 16 < 16 = omega (arith, h.0.0) in
    let low : b % 16 < 16 = omega arith in
    upper_escapes-escape (hex_upper (b / 16)) (hex_upper (b % 16)) (percents bytes rest)
      (rw (hex_upper-is_hex (b / 16) high) (hex_upper-is_hex (b % 16) low))
      (upper_letter-hex_upper (b / 16) high) (upper_letter-hex_upper (b % 16) low)
    ∙ ap (λ t. b'%' ∷ hex_upper (b / 16) ∷ hex_upper (b % 16) ∷ t)
        (upper_escapes-percents bytes rest h.1)

IsByte-from : (k n : ℕ) → 33 ≤ k → k + n < 256 → IsByte (k + n)
IsByte-from k n h l = (l, ground (arith, h, l))

utf8-bytes : (c : ℕ) → c < 1114112 → eqb c 32 ≡ false → All IsByte (utf8 c)
unfolding utf8
utf8-bytes c small other =
    if_intro (All IsByte) (ltb c 128) (λ t. ((ground (arith, t), other), tt))
      (λ f.
        if_intro (All IsByte) (ltb c 2048)
          (λ t. (
            IsByte-from 192 (c / 64) (omega arith) (ground (arith, t)),
            (IsByte-from 128 (c % 64) (omega arith) (omega arith), tt),
          ))
          (λ g.
            if_intro (All IsByte) (ltb c 65536)
              (λ t. (
                IsByte-from 224 (c / 4096) (omega arith) (ground (arith, t)),
                (
                  IsByte-from 128 (c / 64 % 64) (omega arith) (omega arith),
                  (IsByte-from 128 (c % 64) (omega arith) (omega arith), tt),
                ),
              ))
              (λ e. (
                IsByte-from 240 (c / 262144) (omega arith) (omega (arith, small)),
                (
                  IsByte-from 128 (c / 4096 % 64) (omega arith) (omega arith),
                  (
                    IsByte-from 128 (c / 64 % 64) (omega arith) (omega arith),
                    (IsByte-from 128 (c % 64) (omega arith) (omega arith), tt),
                  ),
                ),
              ))))

-- Code points of Unicode
abbrev pub Scalars : Text → Type 0
Scalars s = All (λ c. c < 1114112) s

is_unreserved-plain : (c : ℕ) → is_unreserved c ≡ true → eqb c b'%' ≡ false
is_unreserved-plain c h = ground (arith, h)

space_becomes_plus : (s : Text) → plus_for_spaces (percents (utf8 32) s) ≡ b'+' ∷ plus_for_spaces s
unfolding plus_for_spaces utf8
space_becomes_plus s = refl

escaped :
    (c : ℕ) (s r : Text)
    → c < 1114112
    → plus_for_spaces s ≡ r
    → plus_for_spaces (percents (utf8 c) s) ≡ (if eqb c 32 then b'+' ∷ r else percents (utf8 c) r)
escaped c s r small h = elim (Bool-cases (eqb c 32)) [
  | inl e ↦ rw e (
      ap (λ d. plus_for_spaces (percents (utf8 d) s)) ((eqb_iff c 32).0 e)
      ∙ space_becomes_plus s
      ∙ ap (λ t. b'+' ∷ t) h)
  | inr f ↦
      rw f (plus_for_spaces-percents (utf8 c) s (utf8-bytes c small f) ∙ ap (percents (utf8 c)) h)
]

plus_for_spaces-encode :
    (s : Text) → Scalars s → plus_for_spaces (encode_uri_component s) ≡ form_encoded s
unfolding encode_uri_component form_encoded
plus_for_spaces-encode [] h = unfold plus_for_spaces in refl
plus_for_spaces-encode (c ∷ s) h =
    let rest = plus_for_spaces-encode s h.1 in
    elim (Bool-cases (is_unreserved c)) [
      | inl t ↦ rw t (
          plus_for_spaces-plain c (encode_uri_component s) (is_unreserved-plain c t)
          ∙ ap (λ r. c ∷ r) rest)
      | inr f ↦ rw f (escaped c (encode_uri_component s) (form_encoded s) h.0 rest)
    ]

upper_escapes-form_encoded :
    (s : Text) → Scalars s → upper_escapes (form_encoded s) ≡ form_encoded s
unfolding form_encoded
upper_escapes-form_encoded [] h = unfold upper_escapes in refl
upper_escapes-form_encoded (c ∷ s) h =
    let rest = upper_escapes-form_encoded s h.1 in
    elim (Bool-cases (is_unreserved c)) [
      | inl t ↦
          rw t (
            upper_escapes-plain c (form_encoded s) (is_unreserved-plain c t) ∙ ap (λ r. c ∷ r) rest)
      | inr f ↦ rw f (elim (Bool-cases (eqb c 32)) [
        | inl e ↦ rw e (upper_escapes-plain b'+' (form_encoded s) refl ∙ ap (λ r. b'+' ∷ r) rest)
        | inr g ↦ rw g (
            upper_escapes-percents (utf8 c) (form_encoded s) (utf8-bytes c h.0 g)
            ∙ ap (percents (utf8 c)) rest)
      ])
    ]

-- The encoding of PayFast's values, by `encodeURIComponent` and two replacements, treats each character
-- alone: what is unreserved stays, a space becomes a plus, and of any other character each byte
-- becomes a percent sign with two digits, whose letters are capital.
pub encode_pay_fast_value-form_encoded :
    (value : Text) → Scalars value → encode_pay_fast_value value ≡ form_encoded value
unfolding encode_pay_fast_value
encode_pay_fast_value-form_encoded value h =
    ap upper_escapes (plus_for_spaces-encode value h) ∙ upper_escapes-form_encoded value h
