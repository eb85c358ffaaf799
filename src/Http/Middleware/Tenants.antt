-- ===== src/Http/Middleware/Tenants.antt =====
-- packages/http/src/middleware.ts: the tenant, the user and the role of a request.
use intellibiz.Shared.{
  Bool, true, false, ◌||◌, Option, none, some, List, [], ◌∷◌, Result, ok, err, ◌≡◌, ◌≢◌, refl, sym,
  ap, ◌∙◌, arith, All, if_intro,
}
use intellibiz.Shared.Text.{same_text, Text, codes}
use intellibiz.Identity.Jwt.{
  JwtClaims, VerifiedToken, truthy, claimed, verify_jwt, extract_bearer_token,
}
use intellibiz.Http.Middleware.{
  Request, MiddlewareOptions, non_empty, split_dots, subdomain_of, is_ipv4, host_tenant,
  resolve_host, unresolved, first_tenant, resolve_tenant, jwt_claims, kernel_middleware,
  claimed_tenant,
}

-- The text has a character, if there is a text.
abbrev IsFilled : Option Text → Type 0
IsFilled none = Unit
IsFilled (some t) = t ≢ []

truthy-IsFilled : (o : Option Text) → IsFilled (truthy o)
truthy-IsFilled none = tt
truthy-IsFilled (some []) = tt
truthy-IsFilled (some (c ∷ s)) = λ e. ground (arith, e)

Filled : List Text → Type 0
Filled labels = All (λ l. l ≢ []) labels

non_empty-Filled : (parts : List Text) → Filled (non_empty parts)
unfolding Filled non_empty
non_empty-Filled [] = tt
non_empty-Filled ([] ∷ parts) = non_empty-Filled parts
non_empty-Filled ((c ∷ s) ∷ parts) = (λ e. ground (arith, e), non_empty-Filled parts)

subdomain_of-IsFilled : (labels : List Text) → Filled labels → IsFilled (subdomain_of labels)
unfolding subdomain_of Filled
subdomain_of-IsFilled [] h = tt
subdomain_of-IsFilled (a ∷ []) h = tt
subdomain_of-IsFilled (a ∷ b ∷ []) h = tt
subdomain_of-IsFilled (a ∷ b ∷ c ∷ labels) h =
    if_intro IsFilled (same_text a (codes "www") || same_text a (codes "api")) (λ t. tt) (λ f. h.0)

host_tenant-IsFilled : (host : Text) → IsFilled (host_tenant host)
unfolding host_tenant
host_tenant-IsFilled host =
    if_intro IsFilled (is_ipv4 host) (λ t. tt)
      (λ f.
        subdomain_of-IsFilled (non_empty (split_dots [] host))
          (non_empty-Filled (split_dots [] host)))

claimed_tenant-IsFilled : (claims : Option VerifiedToken) → IsFilled (claimed_tenant claims)
claimed_tenant-IsFilled none = tt
claimed_tenant-IsFilled (some token) = truthy-IsFilled (some token.tenant_id)

ok-inj : {s t : Text} → ok s ≡ ok t → s ≡ t
ok-inj h = ap (λ r. elim r [ ok x ↦ x | err e ↦ [] ]) h

first_tenant-filled :
    (header claim host : Option Text) (strict : Bool) (t : Text)
    → IsFilled header
    → IsFilled claim
    → IsFilled host
    → first_tenant header claim host strict ≡ ok t
    → t ≢ []
unfolding first_tenant unresolved
first_tenant-filled (some x) claim host strict t a b c h = λ e. a (ok-inj h ∙ e)
first_tenant-filled none (some x) host strict t a b c h = λ e. b (ok-inj h ∙ e)
first_tenant-filled none none (some x) strict t a b c h = λ e. c (ok-inj h ∙ e)
first_tenant-filled none none none true t a b c h = absurd (ground (arith, h))
first_tenant-filled none none none false t a b c h = λ e. filled (ok-inj h ∙ e)
  where
    filled : codes "system" ≡ [] → ⊥
    filled e = ground (arith, e)

-- The tenant that a request resolves to is never the empty text.
pub resolve_tenant-filled :
    (req : Request) (claims : Option VerifiedToken) (strict : Bool) (t : Text)
    → resolve_tenant req claims strict ≡ ok t
    → t ≢ []
unfolding resolve_tenant
resolve_tenant-filled req claims strict t h =
    first_tenant-filled (truthy req.tenant_header) (claimed_tenant claims)
      (host_tenant (resolve_host req)) strict t (truthy-IsFilled req.tenant_header)
      (claimed_tenant-IsFilled claims) (host_tenant-IsFilled (resolve_host req)) h

abbrev pub or_system : Result Text → Result Text
or_system (ok t) = ok t
or_system (err e) = ok (codes "system")

first_tenant-strict :
    (header claim host : Option Text)
    → first_tenant header claim host false ≡ or_system (first_tenant header claim host true)
unfolding first_tenant unresolved
first_tenant-strict (some x) claim host = refl
first_tenant-strict none (some x) host = refl
first_tenant-strict none none (some x) = refl
first_tenant-strict none none none = refl

-- Without strict tenancy a request has the tenant that it has with it, and the tenant `system`
-- where strict tenancy rejects it.
pub resolve_tenant-strict :
    (req : Request) (claims : Option VerifiedToken)
    → resolve_tenant req claims false ≡ or_system (resolve_tenant req claims true)
unfolding resolve_tenant
resolve_tenant-strict req claims =
    first_tenant-strict (truthy req.tenant_header) (claimed_tenant claims)
      (host_tenant (resolve_host req))

claimed-tenant_id :
    (claims : JwtClaims) (sub tenant : Option Text) (token : VerifiedToken)
    → claimed claims sub tenant ≡ ok token
    → tenant ≡ some token.tenant_id
unfolding claimed
claimed-tenant_id claims none tenant token h = absurd (ground (arith, h))
claimed-tenant_id claims (some sub) none token h = absurd (ground (arith, h))
claimed-tenant_id claims (some sub) (some tenant) token h =
    ap (λ r. some (elim r [ ok x ↦ x.tenant_id | err e ↦ [] ])) h

truthy_idem : (o : Option Text) → truthy (truthy o) ≡ truthy o
truthy_idem none = refl
truthy_idem (some []) = refl
truthy_idem (some (c ∷ s)) = refl

-- The tenant claim of a verified token counts as there.
verify_jwt-tenant :
    (jwt_verify : Text → Result JwtClaims) (bearer : Text) (token : VerifiedToken)
    → verify_jwt jwt_verify bearer ≡ ok token
    → truthy (some token.tenant_id) ≡ some token.tenant_id
unfolding verify_jwt
verify_jwt-tenant jwt_verify bearer token h = go (jwt_verify bearer) h
  where
    go :
        (r : Result JwtClaims)
        → (elim r [
          | err e ↦ err e
          | ok claims ↦ claimed claims (truthy claims.sub) (truthy claims.tenant_id)
        ])
          ≡ ok token
        → truthy (some token.tenant_id) ≡ some token.tenant_id
    go (err e) k = absurd (ground (arith, k))
    go (ok claims) k =
        let same = claimed-tenant_id claims (truthy claims.sub) (truthy claims.tenant_id) token k in
        ap truthy (sym same) ∙ (truthy_idem claims.tenant_id ∙ same)

-- A request with a bearer token that is verified, and without a tenant header, runs as the token's
-- user, with the token's role, in the token's tenant, whatever its host is.
pub kernel_middleware-verified :
    (opts : MiddlewareOptions) (trace_id : Text) (req : Request)
    (jwt_verify : Text → Result JwtClaims) (bearer : Text) (token : VerifiedToken)
    → opts.jwt_verify ≡ some jwt_verify
    → extract_bearer_token req.authorization ≡ some bearer
    → verify_jwt jwt_verify bearer ≡ ok token
    → truthy req.tenant_header ≡ none
    → kernel_middleware opts trace_id req
      ≡ ok (record {
        trace_id = trace_id;
        tenant_id = token.tenant_id;
        user_id = some token.user_id;
        role = token.role;
      })
unfolding kernel_middleware jwt_claims resolve_tenant first_tenant
kernel_middleware-verified opts trace_id req jwt_verify bearer token o b v n =
    let t = verify_jwt-tenant jwt_verify bearer token v in rw (o, b, v) (rw (n, t) refl)
