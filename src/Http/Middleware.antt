-- ===== src/Http/Middleware.antt =====
-- packages/http/src/middleware.ts. Of a request the headers that are read, and the host of its URL,
-- which the platform's `URL` finds or not.
pub mod Tenants
pub mod Agreement
mod Tests
use intellibiz.Shared.{
  ℕ, suc, String, Bool, true, false, not, ◌&&◌, ◌||◌, Option, none, some, List, [], ◌∷◌, ◌++◌, eqb,
  leb, all, length, if◌then◌else◌, or_else, Result, ok, err,
}
use intellibiz.Shared.Text.{same_text, Text, codes, is_digit}
use intellibiz.Identity.Jwt.{JwtClaims, VerifiedToken, truthy, verify_jwt, extract_bearer_token}

pub record Request : Type 0 where
  pub tenant_header : Option Text
  pub authorization : Option Text
  pub host_header : Option Text
  pub url_host : Option Text

-- `s.split(':')[0]`
unfoldable pub before_colon : Text → Text
before_colon [] = []
before_colon (c ∷ s) = let rest = before_colon s in if eqb c b':' then [] else c ∷ rest

abbrev raw_host : Option Text → Option Text → Text
raw_host none url = or_else url []
raw_host (some host) url = host

unfoldable pub resolve_host : Request → Text
unfolding before_colon
resolve_host req = before_colon (raw_host (truthy req.host_header) req.url_host)

-- `s.split('.')`, with the part that has been read so far
unfoldable pub split_dots : Text → Text → List Text
split_dots part [] = part ∷ []
split_dots part (c ∷ s) =
    let next = split_dots [] s in
    let same = split_dots (part ++ c ∷ []) s in if eqb c b'.' then part ∷ next else same

-- `filter(Boolean)`
unfoldable pub non_empty : List Text → List Text
non_empty [] = []
non_empty ([] ∷ parts) = non_empty parts
non_empty ((c ∷ s) ∷ parts) = (c ∷ s) ∷ non_empty parts

-- `\d{1,3}`
abbrev is_octet : Text → Bool
is_octet part = leb 1 (length part) && leb (length part) 3 && all is_digit part

unfoldable pub is_ipv4 : Text → Bool
unfolding split_dots
is_ipv4 host = let parts = split_dots [] host in eqb (length parts) 4 && all is_octet parts

-- The first of at least three labels, unless it is `www` or `api`.
unfoldable pub subdomain_of : List Text → Option Text
unfolding same_text
subdomain_of (label ∷ b ∷ c ∷ labels) =
    if same_text label (codes "www") || same_text label (codes "api") then none else some label
subdomain_of _ = none

unfoldable pub host_tenant : Text → Option Text
unfolding is_ipv4 subdomain_of non_empty
host_tenant host = if is_ipv4 host then none else subdomain_of (non_empty (split_dots [] host))

abbrev claimed_tenant : Option VerifiedToken → Option Text
claimed_tenant none = none
claimed_tenant (some token) = truthy (some token.tenant_id)

-- the end of `resolveTenant`
unfoldable pub unresolved : Bool → Result Text
unresolved true = err "STRICT_TENANCY_VIOLATION"
unresolved false = ok (codes "system")

-- The first of the three that is there.
unfoldable pub first_tenant : Option Text → Option Text → Option Text → Bool → Result Text
unfolding unresolved
first_tenant (some header) claim host strict = ok header
first_tenant none (some claim) host strict = ok claim
first_tenant none none (some host) strict = ok host
first_tenant none none none strict = unresolved strict

unfoldable pub resolve_tenant : Request → Option VerifiedToken → Bool → Result Text
unfolding first_tenant host_tenant resolve_host
resolve_tenant req claims strict =
    first_tenant (truthy req.tenant_header) (claimed_tenant claims) (host_tenant (resolve_host req))
      strict

pub record MiddlewareOptions : Type 0 where
  pub jwt_verify : Option (Text → Result JwtClaims)
  pub strict_tenancy : Bool

pub record Store : Type 0 where
  pub trace_id : Text
  pub tenant_id : Text
  pub user_id : Option Text
  pub role : Text

abbrev verified : Result VerifiedToken → Option VerifiedToken
verified (ok token) = some token
verified (err e) = none

abbrev claims_with : (Text → Result JwtClaims) → Option Text → Option VerifiedToken
claims_with jwt_verify none = none
claims_with jwt_verify (some token) = verified (verify_jwt jwt_verify token)

-- `jwtClaims`: the secret is in the verifier of the options, if there is one.
unfoldable pub jwt_claims : MiddlewareOptions → Request → Option VerifiedToken
unfolding verify_jwt extract_bearer_token
jwt_claims opts req = elim opts.jwt_verify [
  | none ↦ none
  | some jwt_verify ↦ claims_with jwt_verify (extract_bearer_token req.authorization)
]

abbrev user_of : Option VerifiedToken → Option Text
user_of none = none
user_of (some token) = some token.user_id

abbrev role_of : Option VerifiedToken → Text
role_of none = codes "anonymous"
role_of (some token) = token.role

abbrev pub stored : Text → Option VerifiedToken → Result Text → Result Store
stored trace_id claims (err e) = err e
stored trace_id claims (ok tenant_id) = ok (record {
  trace_id = trace_id;
  tenant_id = tenant_id;
  user_id = user_of claims;
  role = role_of claims;
})

-- `kernelMiddleware`: the store that the request runs with
unfoldable pub kernel_middleware : MiddlewareOptions → Text → Request → Result Store
unfolding jwt_claims resolve_tenant
kernel_middleware opts trace_id req =
    let claims = jwt_claims opts req in
    stored trace_id claims (resolve_tenant req claims opts.strict_tenancy)
