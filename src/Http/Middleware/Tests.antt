-- ===== src/Http/Middleware/Tests.antt =====
-- middleware.ts and jwt/index.ts at concrete inputs.
use intellibiz.Shared.{String, true, false, none, some, [], Result, ok, err, ◌≡◌, refl}
use intellibiz.Shared.Text.{same_text, Text, codes}
use intellibiz.Identity.Jwt.{
  JwtClaims, VerifiedToken, claimed, verify_jwt, after_space, behind_bearer, extract_bearer_token,
}
use intellibiz.Http.Middleware.{
  Request, MiddlewareOptions, before_colon, resolve_host, split_dots, non_empty, is_ipv4,
  subdomain_of, host_tenant, unresolved, first_tenant, resolve_tenant, jwt_claims,
  kernel_middleware,
}
use intellibiz.Identity.Resolver.{IncomingRequest, resolve_identity}
use intellibiz.Http.Middleware.Agreement.{
  seen_by_middleware, identity_of, with_verifier, resolve_identity-kernel_middleware,
}

middleware : Unit {0}
unfolding kernel_middleware jwt_claims resolve_tenant first_tenant unresolved host_tenant
    subdomain_of same_text is_ipv4 non_empty split_dots resolve_host before_colon verify_jwt claimed
    extract_bearer_token behind_bearer after_space
middleware = tt

abbrev from_host : String → Request
from_host host = record {
  tenant_header = none;
  authorization = some (codes "bearer  abc");
  host_header = some (codes host);
  url_host = none;
}

abbrev claims : JwtClaims
claims = record {
  sub = some (codes "u1");
  tenant_id = some (codes "acme");
  roles = some [];
  role = some (codes "admin");
  email = none;
}

abbrev accepts : Text → Result JwtClaims
accepts bearer = ok claims

abbrev opts : MiddlewareOptions
opts = record { jwt_verify = some accepts; strict_tenancy = true }

abbrev token : VerifiedToken
token = record {
  user_id = codes "u1";
  tenant_id = codes "acme";
  role = codes "admin";
  email = none;
}

tenant_tests :
    (resolve_tenant (from_host "shop.example.com:80") none true ≡ ok (codes "shop"))
    × (resolve_tenant (from_host "www.example.com") none false ≡ ok (codes "system"))
    × (resolve_tenant (from_host "10.0.0.1") none false ≡ ok (codes "system"))
    × (resolve_tenant (from_host "example.com") none true ≡ err "STRICT_TENANCY_VIOLATION")
    × (extract_bearer_token (some (codes "Bearer   x y")) ≡ some (codes "x y"))
    × (extract_bearer_token (some (codes "Basic x")) ≡ none)
    × (verify_jwt accepts (codes "abc") ≡ ok token)
unfolding middleware
tenant_tests = (refl, refl, refl, refl, refl, refl, refl)

abbrev incoming : IncomingRequest
incoming = record {
  tenant_header = none;
  user_header = some (codes "u9");
  authorization = some (codes "Bearer abc");
  host_header = some (codes "shop.example.com");
}

resolve_identity-kernel_middleware_example :
    (resolve_identity (with_verifier accepts true) incoming
      ≡ ok (record { tenant_id = codes "acme"; user_id = some (codes "u1"); role = codes "admin" }))
    × (identity_of (
          kernel_middleware
            (record { jwt_verify = some accepts; strict_tenancy = true })
            (codes "t")
            (seen_by_middleware incoming none))
        ≡ resolve_identity (with_verifier accepts true) incoming)
unfolding middleware
resolve_identity-kernel_middleware_example =
    resolve_identity-kernel_middleware accepts true (codes "t") incoming none (codes "abc") token
      refl refl refl
