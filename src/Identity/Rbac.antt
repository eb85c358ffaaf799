-- ===== src/Identity/Rbac.antt =====
-- packages/identity/src/rbac/index.ts, and `permissionCheck` of the TypeScript fallback in
-- packages/core/src/native/bridge.ts, which answers the same question from lists of names.
-- The tables are objects of JavaScript: a name that every object inherits, such as `toString`, is
-- found in none of the lists below; see `inherited`.
pub mod Laws
mod Tests
use Prim.Native.Nat.{bit_and}
use intellibiz.Shared.{
  ℕ, String, Bool, true, false, not, ◌||◌, Option, none, some, List, [], ◌∷◌, ◌==◌, all, any, eqb,
  or_else, if◌then◌else◌,
}
use intellibiz.Shared.Table
use intellibiz.Shared.Table.{Table}

abbrev pub permissions : Table ℕ
permissions =
    ("read", 0b0000_0001)
    ∷ ("write", 0b0000_0010)
    ∷ ("delete", 0b0000_0100)
    ∷ ("export", 0b0000_1000)
    ∷ ("admin", 0b0001_0000)
    ∷ ("billing", 0b0010_0000)
    ∷ ("impersonate", 0b0100_0000)
    ∷ ("sudo", 0b1000_0000)
    ∷ []

abbrev pub roles : Table ℕ
roles =
    ("owner", 0b1111_1111)
    ∷ ("admin", 0b0011_1111)
    ∷ ("billing", 0b0010_1001)
    ∷ ("member", 0b0000_0011)
    ∷ ("viewer", 0b0000_0001)
    ∷ ("anonymous", 0b0000_0000)
    ∷ []

-- `ROLES[role] ?? 0`. For an inherited name the lookup gives a function or an object, which
-- the bitwise operation reads as 0, as it does here.
unfoldable pub role_mask : String → ℕ
role_mask role = or_else (Table.get role roles) 0

-- `can`, with the role of the active context. For an inherited name the code's `bit` is a
-- function or an object, which the bitwise operation reads as 0: the answer is `false` too.
unfoldable pub can : String → String → Bool
unfolding role_mask
can role permission = elim (Table.get permission permissions) [
  | none ↦ false
  | some bit ↦ not (eqb (bit_and (role_mask role) bit) 0)
]

unfoldable pub can_all : String → List String → Bool
can_all role ps = all (can role) ps

unfoldable pub can_any : String → List String → Bool
can_any role ps = any (can role) ps

abbrev pub get_role_mask : String → ℕ
get_role_mask = role_mask

-- `xs.includes(x)`
unfoldable pub includes : String → List String → Bool
includes x [] = false
includes x (y ∷ ys) = y == x || includes x ys

abbrev pub role_permissions : Table (List String)
role_permissions =
    (
      "owner",
      "read" ∷ "write" ∷ "delete" ∷ "export" ∷ "admin" ∷ "billing" ∷ "impersonate" ∷ "sudo" ∷ [],
    )
    ∷ ("admin", "read" ∷ "write" ∷ "delete" ∷ "export" ∷ "admin" ∷ "billing" ∷ [])
    ∷ ("billing", "read" ∷ "billing" ∷ "export" ∷ [])
    ∷ ("member", "read" ∷ "write" ∷ [])
    ∷ ("viewer", "read" ∷ [])
    ∷ []

-- The properties that an object literal of JavaScript inherits.
abbrev pub inherited : List String
inherited =
    "constructor" ∷ "toString" ∷ "toLocaleString" ∷ "valueOf" ∷ "hasOwnProperty" ∷ "isPrototypeOf"
    ∷ "propertyIsEnumerable" ∷ "__proto__" ∷ "__defineGetter__" ∷ "__defineSetter__"
    ∷ "__lookupGetter__" ∷ "__lookupSetter__" ∷ []

-- `none`: `map[role]` is an inherited function or object, which has no `includes`, and the
-- promise is rejected with a TypeError.
unfoldable pub permission_check : String → String → Option Bool
unfolding includes
permission_check role permission =
    if includes role inherited
    then none
    else some (includes permission (or_else (Table.get role role_permissions) []))
