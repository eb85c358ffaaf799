-- ===== src/Http/Middleware/Agreement.antt =====
-- packages/http/src/middleware.ts with packages/identity/src/resolver.ts: the two resolutions of a
-- request that carries a verified token, and no tenant header.
use intellibiz.Shared.{Bool, Option, none, some, [], ◌∷◌, Result, ok, err, ◌≡◌, refl, arith}
use intellibiz.Shared.Text.{Text}
use intellibiz.Identity.Jwt.{JwtClaims, VerifiedToken, truthy, verify_jwt, extract_bearer_token}
use intellibiz.Identity.Resolver.{
  IncomingRequest, ResolverOptions, ResolvedIdentity, verified_token, first_identity,
  resolve_identity,
}
use intellibiz.Http.Middleware.{Request, Store, kernel_middleware}
use intellibiz.Http.Middleware.Tenants.{kernel_middleware-verified}

truthy-some : (o : Option Text) (t : Text) → truthy o ≡ some t → o ≡ some t
truthy-some none t h = absurd (ground (arith, h))
truthy-some (some []) t h = absurd (ground (arith, h))
truthy-some (some (c ∷ s)) t h = h

abbrev pub seen_by_middleware : IncomingRequest → Option Text → Request
seen_by_middleware request url_host = record {
  tenant_header = request.tenant_header;
  authorization = request.authorization;
  host_header = request.host_header;
  url_host = url_host;
}

-- The part of a store that is an identity
abbrev pub identity_of : Result Store → Result ResolvedIdentity
identity_of (ok s) = ok (record { tenant_id = s.tenant_id; user_id = s.user_id; role = s.role })
identity_of (err e) = err e

abbrev pub with_verifier : (Text → Result JwtClaims) → Bool → ResolverOptions
with_verifier jwt_verify strict = record {
  custom_resolver = none;
  jwt_verify = some jwt_verify;
  strict = strict;
}

-- For a request with a token that is verified, without a tenant header and without a configured
-- resolver, the identity that is resolved is the one that the kernel middleware runs the request
-- with: the token's tenant, user and role. Neither the host nor the user header changes it.
pub resolve_identity-kernel_middleware :
    (jwt_verify : Text → Result JwtClaims) (strict : Bool) (trace_id : Text)
    (request : IncomingRequest) (url_host : Option Text) (bearer : Text) (token : VerifiedToken)
    → truthy (extract_bearer_token request.authorization) ≡ some bearer
    → verify_jwt jwt_verify bearer ≡ ok token
    → truthy request.tenant_header ≡ none
    → (resolve_identity (with_verifier jwt_verify strict) request
        ≡ ok (record {
          tenant_id = token.tenant_id;
          user_id = some token.user_id;
          role = token.role;
        }))
      × (identity_of (
            kernel_middleware
              (record { jwt_verify = some jwt_verify; strict_tenancy = strict })
              trace_id
              (seen_by_middleware request url_host))
          ≡ resolve_identity (with_verifier jwt_verify strict) request)
unfolding resolve_identity verified_token first_identity
resolve_identity-kernel_middleware jwt_verify strict trace_id request url_host bearer token b v n =
    let kernel =
      kernel_middleware-verified (record { jwt_verify = some jwt_verify; strict_tenancy = strict })
        trace_id (seen_by_middleware request url_host) jwt_verify bearer token refl
        (truthy-some (extract_bearer_token request.authorization) bearer b) v n in
    (rw (n, b, v) refl, rw (kernel, n, b, v) refl)
