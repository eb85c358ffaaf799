-- ===== src/Identity/Resolver.antt =====
-- packages/identity/src/resolver.ts. Of a request the headers that are read; the configured
-- resolver is a function of the request. `verifyJWT` has the secret and the algorithm in it.
pub mod Origin
mod Tests
use intellibiz.Shared.{
  ℕ, String, Bool, true, false, ◌||◌, Option, none, some, List, [], ◌∷◌, eqb, any, if◌then◌else◌,
  or_else, Result, ok, err,
}
use intellibiz.Shared.Text.{Text, codes, same_text}
use intellibiz.Identity.Jwt.{JwtClaims, VerifiedToken, truthy, verify_jwt, extract_bearer_token}

pub record IncomingRequest : Type 0 where
  pub tenant_header : Option Text
  pub user_header : Option Text
  pub authorization : Option Text
  pub host_header : Option Text

pub record ResolverOptions : Type 0 where
  pub custom_resolver : Option (IncomingRequest → Option Text)
  pub jwt_verify : Option (Text → Result JwtClaims)
  pub strict : Bool

pub record ResolvedIdentity : Type 0 where
  pub tenant_id : Text
  pub user_id : Option Text
  pub role : Text

-- `s.split(c)[0]`
unfoldable pub first_part : ℕ → Text → Text
first_part c [] = []
first_part c (d ∷ s) = let rest = first_part c s in if eqb d c then [] else d ∷ rest

-- `reservedHosts`, without the empty text
abbrev pub reserved_hosts : List Text
reserved_hosts =
    codes "www" ∷ codes "api" ∷ codes "localhost" ∷ codes "127.0.0.1" ∷ codes "0.0.0.0" ∷ []

unfoldable pub is_reserved : Text → Bool
unfolding same_text
is_reserved label = any (same_text label) reserved_hosts

-- `subdomain && !reservedHosts.has(subdomain)`
abbrev pub unreserved : Text → Option Text
unreserved [] = none
unreserved (c ∷ s) = if is_reserved (c ∷ s) then none else some (c ∷ s)

unfoldable pub host_label : Option Text → Option Text
unfolding first_part
host_label host = unreserved (first_part b'.' (first_part b':' (or_else host [])))

-- the first step: what the configured resolver gives
abbrev pub customary : Option (IncomingRequest → Option Text) → IncomingRequest → Option Text
customary none request = none
customary (some resolver) request = truthy (resolver request)

-- the third step: the token, if there is one, it is not empty, and it is verified
abbrev pub believed : Result VerifiedToken → Option VerifiedToken
believed (ok verified) = some verified
believed (err e) = none

abbrev pub checked : Option Text → Option (Text → Result JwtClaims) → Option VerifiedToken
checked (some token) (some jwt_verify) = believed (verify_jwt jwt_verify token)
checked _ _ = none

unfoldable pub verified_token : ResolverOptions → IncomingRequest → Option VerifiedToken
unfolding verify_jwt extract_bearer_token
verified_token options request =
    checked (truthy (extract_bearer_token request.authorization)) options.jwt_verify

abbrev pub member_of : Text → Option Text → ResolvedIdentity
member_of tenant user = record { tenant_id = tenant; user_id = user; role = codes "member" }

-- the fourth and the fifth step
unfoldable pub by_host : Option Text → Bool → Result ResolvedIdentity
by_host (some label) strict = ok (member_of label none)
by_host none true = err "STRICT_TENANCY_VIOLATION"
by_host none false =
    ok (record { tenant_id = codes "system"; user_id = none; role = codes "anonymous" })

-- the steps in their order, over what each of them finds
unfoldable pub first_identity :
    Option Text
    → Option Text
    → Option VerifiedToken
    → IncomingRequest
    → Bool
    → Result ResolvedIdentity
unfolding by_host host_label
first_identity (some tenant) header token request strict = ok (member_of tenant none)
first_identity none (some tenant) token request strict = ok (member_of tenant request.user_header)
first_identity none none (some verified) request strict = ok (record {
  tenant_id = verified.tenant_id;
  user_id = some verified.user_id;
  role = verified.role;
})
first_identity none none none request strict = by_host (host_label request.host_header) strict

unfoldable pub resolve_identity : ResolverOptions → IncomingRequest → Result ResolvedIdentity
unfolding first_identity verified_token
resolve_identity options request =
    first_identity (customary options.custom_resolver request) (truthy request.tenant_header)
      (verified_token options request) request options.strict
