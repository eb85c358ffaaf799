-- ===== src/Core/Native/Tests.antt =====
-- packages/core/src/native/bridge.ts at concrete inputs. The digest is the text itself, filled up.
use intellibiz.Shared.{ℕ, true, false, none, some, [], ◌∷◌, ◌++◌, ◌≡◌, refl}
use intellibiz.Shared.Text.{Text, codes, same_text, take_last, to_upper}
use intellibiz.Core.Native.{
  ledger_write, formula_decimals, formula_apply_basis_points, formula_allocate, query_plan_where,
  quads, crypto_generate_license, crypto_verify_license, crypto_argon2_hash, crypto_argon2_verify,
  get_native, set_native, reset_native,
}

native_bundle : Unit {0}
unfolding ledger_write formula_decimals formula_apply_basis_points formula_allocate query_plan_where
    quads crypto_generate_license crypto_verify_license crypto_argon2_hash crypto_argon2_verify
    get_native set_native reset_native same_text take_last to_upper
native_bundle = tt

abbrev sha256 : Text → Text
sha256 s = s ++ codes "0123456789abcdef"

native_tests :
    (formula_allocate 100 (1 ∷ 1 ∷ 1 ∷ []) ≡ some (34 ∷ 33 ∷ 33 ∷ []))
    × (formula_allocate 100 (0 ∷ 0 ∷ []) ≡ none)
    × (formula_apply_basis_points 1999 1500 ≡ 300)
    × (formula_decimals (codes "KWD") ≡ 3)
    × (crypto_generate_license sha256 (codes "t") (codes "pro") (codes "s")
        ≡ codes "T:PR-O:S0-1234-5678")
    × (crypto_argon2_verify sha256 (codes "pw") (crypto_argon2_hash sha256 (codes "pw")) ≡ true)
    × (crypto_argon2_verify sha256 (codes "pw") (crypto_argon2_hash sha256 (codes "px")) ≡ false)
    × (query_plan_where (codes "orders") (codes "a' OR '1'='1")
        ≡ codes "org_id = 'a' OR '1'='1' AND deleted_at IS NULL")
    × (ledger_write sha256 [] [] (codes "a") [] [] [] []
        ≡ ledger_write sha256 [] [] (codes "b") [] [] [] [])
    × ((get_native {B = ℕ} none 7 (reset_native (set_native 3 none))).0 ≡ 7)
unfolding native_bundle
native_tests = (refl, refl, refl, refl, refl, refl, refl, refl, refl, refl)
