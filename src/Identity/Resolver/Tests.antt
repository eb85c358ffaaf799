-- ===== src/Identity/Resolver/Tests.antt =====
-- packages/identity/src/resolver.ts at concrete inputs.
use intellibiz.Shared.{String, true, none, some, [], ok, err, ◌≡◌, refl}
use intellibiz.Shared.Text.{codes, same_text}
use intellibiz.Identity.Jwt.{
  JwtClaims, verify_jwt, claimed, after_space, behind_bearer, extract_bearer_token,
}
use intellibiz.Identity.Resolver.{
  IncomingRequest, ResolverOptions, first_part, is_reserved, host_label, verified_token, member_of,
  by_host, first_identity, resolve_identity,
}
use intellibiz.Identity.Resolver.Origin.{IsGranted, resolve_identity-IsGranted}

resolution : Unit {0}
unfolding resolve_identity first_identity by_host verified_token host_label is_reserved first_part
    same_text verify_jwt claimed extract_bearer_token behind_bearer after_space
resolution = tt

abbrev from_host : String → IncomingRequest
from_host host = record {
  tenant_header = none;
  user_header = some (codes "u9");
  authorization = some (codes "Bearer abc");
  host_header = some (codes host);
}

abbrev claims : JwtClaims
claims = record {
  sub = some (codes "u1");
  tenant_id = some (codes "acme");
  roles = some [];
  role = some (codes "owner");
  email = none;
}

abbrev trusting : ResolverOptions
trusting = record { custom_resolver = none; jwt_verify = some (λ token. ok claims); strict = true }

abbrev without_secret : ResolverOptions
without_secret = record { custom_resolver = none; jwt_verify = none; strict = true }

resolver_tests :
    (resolve_identity without_secret (from_host "shop.example.com:80")
      ≡ ok (member_of (codes "shop") none))
    × (resolve_identity without_secret (from_host "10.0.0.1") ≡ ok (member_of (codes "10") none))
    × (resolve_identity without_secret (from_host "localhost:3000")
        ≡ err "STRICT_TENANCY_VIOLATION")
    × (resolve_identity trusting (record (from_host "x.y") { tenant_header = some (codes "other") })
        ≡ ok (member_of (codes "other") (some (codes "u9"))))
unfolding resolution
resolver_tests = (refl, refl, refl, refl)

resolve_identity-IsGranted_example :
    IsGranted
      (verified_token trusting (from_host "x.y"))
      (record { tenant_id = codes "acme"; user_id = some (codes "u1"); role = codes "owner" })
unfolding resolution
resolve_identity-IsGranted_example = resolve_identity-IsGranted trusting (from_host "x.y") _ refl
