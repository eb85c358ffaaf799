-- ===== src/Identity/Jwt.antt =====
-- packages/identity/src/jwt/index.ts. `jwtVerify` is code outside: a function from a token to its
-- claims, for one secret and one algorithm.
use intellibiz.Shared.{
  ℕ, Bool, ◌&&◌, ◌||◌, Option, none, some, List, [], ◌∷◌, eqb, leb, if◌then◌else◌, or_else, Result,
  ok, err, ◌+◌,
}
use intellibiz.Shared.Text.{Text, codes}

pub record JwtClaims : Type 0 where
  pub sub : Option Text
  pub tenant_id : Option Text
  pub roles : Option (List Text)
  pub role : Option Text
  pub email : Option Text

pub record VerifiedToken : Type 0 where
  pub user_id : Text
  pub tenant_id : Text
  pub role : Text
  pub email : Option Text

-- A text that counts as false is an empty one, or none.
abbrev pub truthy : Option Text → Option Text
truthy none = none
truthy (some []) = none
truthy (some (c ∷ s)) = some (c ∷ s)

-- `claims.roles?.[0]`
abbrev first_role : Option (List Text) → Option Text
first_role none = none
first_role (some []) = none
first_role (some (r ∷ rs)) = some r

abbrev or_role : Option Text → Option Text → Option Text
or_role none o = o
or_role (some r) o = some r

-- The end of `verifyJWT`, for the two claims that it checks.
unfoldable pub claimed : JwtClaims → Option Text → Option Text → Result VerifiedToken
claimed claims none tenant = err "JWT missing sub claim"
claimed claims (some sub) none = err "JWT missing tenant_id claim"
claimed claims (some sub) (some tenant) = ok (record {
  user_id = sub;
  tenant_id = tenant;
  role = or_else (or_role (first_role claims.roles) claims.role) (codes "member");
  email = claims.email;
})

unfoldable pub verify_jwt : (Text → Result JwtClaims) → Text → Result VerifiedToken
unfolding claimed
verify_jwt jwt_verify token = elim (jwt_verify token) [
  | err e ↦ err e
  | ok claims ↦ claimed claims (truthy claims.sub) (truthy claims.tenant_id)
]

-- `\s`, for ASCII
abbrev is_space : ℕ → Bool
is_space c = eqb c 32 || (leb 9 c && leb c 13)

-- Behind the first white space: the rest of the text, without the white space in front; if nothing
-- is left, the last white space character is taken for the token, if there is one more.
unfoldable pub after_space : Text → Option Text
after_space [] = none
after_space (c ∷ []) = some (c ∷ [])
after_space (c ∷ d ∷ s) =
    let rest = after_space (d ∷ s) in if is_space c then rest else some (c ∷ d ∷ s)

unfoldable pub behind_bearer : Text → Text → Option Text
unfolding after_space
behind_bearer [] [] = none
behind_bearer [] (c ∷ s) = if is_space c then after_space s else none
behind_bearer (p ∷ ps) [] = none
behind_bearer (p ∷ ps) (c ∷ s) =
    let rest = behind_bearer ps s in
    if eqb p (if leb b'A' c && leb c b'Z' then c + 32 else c) then rest else none

-- `/^Bearer\s+(.+)$/i`, on a header without line breaks
unfoldable pub extract_bearer_token : Option Text → Option Text
unfolding behind_bearer
extract_bearer_token none = none
extract_bearer_token (some header) = behind_bearer (codes "bearer") header
