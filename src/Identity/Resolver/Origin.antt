-- ===== src/Identity/Resolver/Origin.antt =====
-- packages/identity/src/resolver.ts: where a resolved identity comes from, and how it stands to the
-- one of packages/http/src/middleware.ts.
use intellibiz.Shared.{
  Bool, true, false, Option, none, some, Result, ok, err, ◌≡◌, ◌⊎◌, inl, inr, refl, subst,
}
use intellibiz.Shared.Text.{Text, codes}
use intellibiz.Identity.Jwt.{VerifiedToken, truthy}
use intellibiz.Identity.Resolver.{
  IncomingRequest, ResolverOptions, ResolvedIdentity, host_label, customary, verified_token,
  by_host, first_identity, resolve_identity,
}

-- The role that an identity may have: a verified token's, in the token's tenant and for its user,
-- or that of a member or of nobody.
abbrev pub IsGranted : Option VerifiedToken → ResolvedIdentity → Type 0
IsGranted token i =
    ((t : VerifiedToken) × (token ≡ some t)
      × (i ≡ record { tenant_id = t.tenant_id; user_id = some t.user_id; role = t.role }))
    ⊎ ((i.role ≡ codes "member") ⊎ ((i.role ≡ codes "anonymous") × (i.user_id ≡ none)))

abbrev GrantedOk : Option VerifiedToken → Result ResolvedIdentity → Type 0
GrantedOk token (ok i) = IsGranted token i
GrantedOk token (err e) = Unit

by_host-Granted :
    (token : Option VerifiedToken) (label : Option Text) (strict : Bool)
    → GrantedOk token (by_host label strict)
unfolding by_host
by_host-Granted token (some label) strict = inr (inl refl)
by_host-Granted token none true = tt
by_host-Granted token none false = inr (inr (refl, refl))

first_identity-Granted :
    (custom header : Option Text) (token : Option VerifiedToken) (request : IncomingRequest)
    (strict : Bool)
    → GrantedOk token (first_identity custom header token request strict)
unfolding first_identity
first_identity-Granted (some tenant) header token request strict = inr (inl refl)
first_identity-Granted none (some tenant) token request strict = inr (inl refl)
first_identity-Granted none none (some t) request strict = inl (t, refl, refl)
first_identity-Granted none none none request strict =
    by_host-Granted none (host_label request.host_header) strict

-- Whatever the headers say, the identity that a request is resolved to is the one of the request's
-- verified token, with the token's role, tenant and user; or else its role is member; or else its role
-- is anonymous and it has no user.
pub resolve_identity-IsGranted :
    (options : ResolverOptions) (request : IncomingRequest) (i : ResolvedIdentity)
    → resolve_identity options request ≡ ok i
    → IsGranted (verified_token options request) i
unfolding resolve_identity
resolve_identity-IsGranted options request i h =
    subst (GrantedOk (verified_token options request)) h (
      first_identity-Granted (customary options.custom_resolver request)
        (truthy request.tenant_header) (verified_token options request) request options.strict)
