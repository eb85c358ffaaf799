-- ===== src/Core/Native/Keys.antt =====
-- packages/core/src/native/bridge.ts: license keys and password hashes of the fallback.
use mathlib.Core.List.{append_assoc}
use intellibiz.Shared.{
  ◌≤◌, true, false, [], ◌∷◌, ◌++◌, leb, length, if◌then◌else◌, ◌≡◌, refl, sym, ap, arith, ◌∙◌,
  length-append, le→leb,
}
use intellibiz.Shared.Text.{
  Text, codes, same_text, same_text_self, to_upper, take_last, take_last-append,
}
use intellibiz.Core.Native.{
  front, quads, crypto_generate_license, crypto_verify_license, crypto_argon2_hash,
  crypto_argon2_verify,
}

take_last_self : (s : Text) → take_last (length s) s ≡ s
unfolding take_last
take_last_self [] = refl
take_last_self (c ∷ s) = ground arith

ends-append :
    (p s : Text)
    → (if leb (length s) (length (p ++ s))
        then same_text (take_last (length s) (p ++ s)) s
        else false)
      ≡ true
ends-append p s =
    let fits : leb (length s) (length (p ++ s)) ≡ true =
      le→leb (length s) (length (p ++ s)) (omega (arith, length-append p s)) in
    let reflexive : length s ≤ length s = omega arith in
    rw (fits, take_last-append (length s) p s reflexive, take_last_self s) (same_text_self s)

-- A license key verifies for the tenant, the plan and the secret that it is generated for, and a hash
-- for the password that it is made of.
pub crypto_verify-generate :
    (sha256 : Text → Text) (tenant_id plan secret password : Text)
    → (crypto_verify_license sha256 tenant_id plan secret
          (crypto_generate_license sha256 tenant_id plan secret)
        ≡ true)
      × (crypto_argon2_verify sha256 password (crypto_argon2_hash sha256 password) ≡ true)
unfolding crypto_verify_license crypto_argon2_verify crypto_argon2_hash
crypto_verify-generate sha256 tenant_id plan secret password = (
  same_text_self (crypto_generate_license sha256 tenant_id plan secret),
  ap
        (λ hash.
          if leb (length (sha256 password)) (length hash)
          then same_text (take_last (length (sha256 password)) hash) (sha256 password)
          else false)
        (ap (λ t. codes "$argon2id$v=19$m=16,t=2,p=1$" ++ t)
          (sym (append_assoc (front 16 (sha256 password)) (b'$' ∷ []) (sha256 password))))
      ∙ ends-append
          (codes "$argon2id$v=19$m=16,t=2,p=1$" ++ (front 16 (sha256 password) ++ b'$' ∷ []))
          (sha256 password),
)

-- The key of a tenant and a plan that has a colon in it is the key of a tenant whose name goes on
-- with the colon and what is before it in the plan, on the rest of that plan.
pub crypto_generate_license-colon :
    (sha256 : Text → Text) (tenant_id part plan secret : Text)
    → crypto_generate_license sha256 tenant_id (part ++ b':' ∷ plan) secret
      ≡ crypto_generate_license sha256 (tenant_id ++ b':' ∷ part) plan secret
unfolding crypto_generate_license
crypto_generate_license-colon sha256 tenant_id part plan secret =
    ap (λ t. quads (to_upper (front 16 (sha256 (t ++ b':' ∷ secret)))))
      (sym (append_assoc tenant_id (b':' ∷ part) (b':' ∷ plan)))
