-- ===== src/Core/Native.antt =====
-- packages/core/src/native/bridge.ts: the TypeScript fallback of the native bridge, and its loader.
-- `sha256` is a function from a text to its digest. Amounts in minor units and ratios are natural
-- numbers for which doubles are exact.
pub mod Allocation
pub mod Keys
mod Tests
use intellibiz.Shared.{
  ℕ, zero, suc, ◌+◌, ◌-◌, ◌*◌, ◌/◌, Bool, true, false, ◌||◌, Option, none, some, List, [], ◌∷◌,
  ◌++◌, eqb, leb, length, if◌then◌else◌,
}
use intellibiz.Shared.Text.{Text, codes, same_text, to_upper, take_last}

-- The parts of the text that `ledgerWrite` hashes
unfoldable pub ledger_write : (Text → Text) → Text → Text → Text → Text → Text → Text → Text → Text
ledger_write sha256 id trace_id tenant_id debit credit amount currency = sha256 (
    id
    ++ (b':' ∷ trace_id)
    ++ (b':' ∷ debit)
    ++ (b':' ∷ credit)
    ++ (b':' ∷ amount)
    ++ (b':' ∷ currency))

-- the decimals of `formulaToMinorUnits` and `formulaFromMinorUnits`
unfoldable pub formula_decimals : Text → ℕ
unfolding same_text
formula_decimals currency =
    if same_text currency (codes "JPY") || same_text currency (codes "KRW")
    then 0
    else (if same_text currency (codes "BHD") || same_text currency (codes "KWD") then 3 else 2)

-- `Math.round((minor * bp) / 10_000)`
unfoldable pub formula_apply_basis_points : ℕ → ℕ → ℕ
formula_apply_basis_points minor bp = (minor * bp + 5000) / 10000

-- `xs.reduce((a, b) => a + b, 0)`
abbrev pub sum_from : ℕ → List ℕ → ℕ
sum_from acc [] = acc
sum_from acc (n ∷ ns) = sum_from (acc + n) ns

-- `Math.floor((minor * r) / total)`
abbrev pub floors : ℕ → ℕ → List ℕ → List ℕ
floors minor total [] = []
floors minor total (r ∷ rs) = (minor * r / total) ∷ floors minor total rs

-- `if (result[0] !== undefined) result[0] += remainder`
abbrev pub onto_head : ℕ → List ℕ → List ℕ
onto_head remainder [] = []
onto_head remainder (n ∷ ns) = (n + remainder) ∷ ns

-- none where the numbers are not a number: the ratios are all zero, and there is one.
unfoldable pub formula_allocate : ℕ → List ℕ → Option (List ℕ)
formula_allocate minor [] = some []
formula_allocate minor (r ∷ rs) =
    let total = sum_from 0 (r ∷ rs) in
    let result = floors minor total (r ∷ rs) in
    if eqb total 0 then none else some (onto_head (minor - sum_from 0 result) result)

unfoldable pub query_plan_where : Text → Text → Text
query_plan_where table tenant_id =
    codes "org_id = '" ++ tenant_id ++ codes "' AND deleted_at IS NULL"

-- `s.slice(0, n)`
abbrev pub front : ℕ → Text → Text
front zero s = []
front (suc n) [] = []
front (suc n) (c ∷ s) = c ∷ front n s

-- `s.match(/.{4}/g)!.join('-')`, on a text with four characters at least
unfoldable pub quads : Text → Text
quads (a ∷ b ∷ c ∷ d ∷ []) = a ∷ b ∷ c ∷ d ∷ []
quads (a ∷ b ∷ c ∷ d ∷ e ∷ f ∷ g ∷ h ∷ s) = a ∷ b ∷ c ∷ d ∷ b'-' ∷ quads (e ∷ f ∷ g ∷ h ∷ s)
quads (a ∷ b ∷ c ∷ d ∷ s) = a ∷ b ∷ c ∷ d ∷ []
quads _ = []

module _ (sha256 : Text → Text) where
  unfoldable pub crypto_generate_license : Text → Text → Text → Text
  unfolding quads to_upper
  crypto_generate_license tenant_id plan secret =
      quads (to_upper (front 16 (sha256 (tenant_id ++ (b':' ∷ plan) ++ (b':' ∷ secret)))))

  unfoldable pub crypto_verify_license : Text → Text → Text → Text → Bool
  unfolding crypto_generate_license same_text
  crypto_verify_license tenant_id plan secret key =
      same_text (crypto_generate_license tenant_id plan secret) key

  unfoldable pub crypto_argon2_hash : Text → Text
  crypto_argon2_hash password =
      codes "$argon2id$v=19$m=16,t=2,p=1$" ++ front 16 (sha256 password) ++ (b'$' ∷ sha256 password)

  -- `hash.endsWith(sha256(password))`
  unfoldable pub crypto_argon2_verify : Text → Text → Bool
  unfolding same_text take_last
  crypto_argon2_verify password hash =
      if leb (length (sha256 password)) (length hash)
      then same_text (take_last (length (sha256 password)) hash) (sha256 password)
      else false

-- `_native`; `B` is the type of bridges, and `addon` the native one, if it can be loaded.
module _ {B : Type 0} where
  abbrev pub loaded : Option B → B → B
  loaded none fallback = fallback
  loaded (some addon) fallback = addon

  unfoldable pub get_native : Option B → B → Option B → B × Option B
  get_native addon fallback (some native) = (native, some native)
  get_native addon fallback none = (loaded addon fallback, some (loaded addon fallback))

  unfoldable pub set_native : B → Option B → Option B
  set_native bridge native = some bridge

  unfoldable pub reset_native : Option B → Option B
  reset_native native = none
