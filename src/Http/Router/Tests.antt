-- ===== src/Http/Router/Tests.antt =====
-- packages/http/src/router.ts at concrete inputs. The values of JSON are numbers here.
use intellibiz.Shared.{
  ℕ, String, true, false, none, some, [], ◌∷◌, eqb, if◌then◌else◌, ltb, length, Result, ok, ◌≡◌,
  refl,
}
use intellibiz.Shared.Text.{Text, codes, same_text}
use intellibiz.Shared.Table.{put}
use intellibiz.Identity.Jwt.{
  JwtClaims, VerifiedToken, claimed, verify_jwt, after_space, behind_bearer, extract_bearer_token,
}
use intellibiz.Http.Middleware.{
  Store, before_colon, resolve_host, split_dots, non_empty, is_ipv4, subdomain_of, host_tenant,
  unresolved, first_tenant, resolve_tenant, jwt_claims, kernel_middleware,
}
use intellibiz.Http.Router.{
  Verb, get, post, text, json, Thrown, domain_error, json_of, error_of, Response, Platform,
  Incoming, RequestContext, sets_status, sets_header, returned, thrown, Ran, RouteHandler,
  plain_handler, build_response, internal_error, raw_body_of, parsed_body, context_of,
}
use intellibiz.Http.Router.Wrapped.{
  apply_call, apply_calls, json_response, error_response, overridden, settled, run_handler,
  wrap_handler, Route, mount, mount_in_group, served, serve,
}
use intellibiz.Http.Router.Responses.{IsMade, RunsAs, wrap_handler-IsMade, serve-verified}

router : Unit {0}
unfolding serve served wrap_handler run_handler settled overridden error_response json_response
    apply_calls apply_call put context_of parsed_body raw_body_of build_response mount_in_group
    mount kernel_middleware jwt_claims resolve_tenant first_tenant unresolved host_tenant
    subdomain_of same_text is_ipv4 non_empty split_dots resolve_host before_colon verify_jwt claimed
    extract_bearer_token behind_bearer after_space
router = tt

-- A response with the status 204 must not have a body.
abbrev platform : Platform ℕ
platform = record {
  parse = λ s. if eqb (length s) 1 then some 1 else none;
  allows = λ status body. if eqb status 204 then false else ltb 199 status;
}

abbrev incoming : String → Incoming ℕ
incoming body = record {
  kernel = record {
    tenant_header = none;
    authorization = some (codes "Bearer abc");
    host_header = some (codes "example.com");
    url_host = none;
  };
  body_text = ok (codes body);
  headers = [];
  params = [];
  query = [];
  forwarded_for = none;
  remote_addr = none;
  url = codes "/";
}

abbrev store : Store
store = record {
  trace_id = codes "t";
  tenant_id = codes "acme";
  user_id = some (codes "u1");
  role = codes "admin";
}

-- It gives back the body that it gets, and sets a status and a header if it has none.
abbrev echo : RequestContext ℕ → Ran ℕ
echo context = elim context.body [
  | some j ↦ record { calls = []; outcome = returned (json j) }
  | none ↦ record {
    calls = sets_header "X-A" (codes "1") ∷ sets_status 202 ∷ [];
    outcome = returned (text context.raw_body);
  }
]

abbrev answers : Verb → RouteHandler ℕ → String → Response ℕ
answers verb h body = wrap_handler platform h verb [] (some store) (incoming body)

abbrev fails : Thrown ℕ → RouteHandler ℕ
fails e = plain_handler (λ context. record {
  calls = sets_header "X-A" (codes "1") ∷ sets_status 202 ∷ [];
  outcome = thrown e;
})

abbrev gone : RouteHandler ℕ
gone =
    plain_handler (λ context. record { calls = sets_status 204 ∷ []; outcome = returned (json 3) })

router_tests :
    (answers post (plain_handler echo) "7"
      ≡ record { status = 201; body = json_of (json 1); headers = [] })
    × (answers get (plain_handler echo) "7"
        ≡ record { status = 202; body = json_of (text []); headers = ("X-A", codes "1") ∷ [] })
    × (answers post (plain_handler echo) "{x" ≡ record {
      status = 202;
      body = json_of (text (codes "{x"));
      headers = ("X-A", codes "1") ∷ [];
    })
    × (answers get gone "" ≡ internal_error [])
    × (answers get (fails (domain_error "CART_EXPIRED" [] 400 none)) ""
        ≡ record { status = 400; body = error_of "CART_EXPIRED" [] none; headers = [] })
    × (mount_in_group (codes "/v1") get (codes "/a") gone []
        ≡ record { verb = get; path = codes "/v1/a"; handler = gone } ∷ [])
unfolding router
router_tests = (refl, refl, refl, refl, refl, refl)

wrap_handler-IsMade_example : IsMade platform (answers post (plain_handler echo) "7")
wrap_handler-IsMade_example =
    wrap_handler-IsMade platform (plain_handler echo) post [] (some store) (incoming "7")

abbrev accepts : Text → Result JwtClaims
accepts bearer = ok (record {
  sub = some (codes "u1");
  tenant_id = some (codes "acme");
  roles = none;
  role = some (codes "admin");
  email = none;
})

abbrev token : VerifiedToken
token = record {
  user_id = codes "u1";
  tenant_id = codes "acme";
  role = codes "admin";
  email = none;
}

abbrev route : Route ℕ
route = record { verb = post; path = codes "/a"; handler = plain_handler echo }

serve-verified_example :
    RunsAs platform (codes "t") token (incoming "7") post (plain_handler echo) (
      serve platform
        (record { jwt_verify = some accepts; strict_tenancy = true })
        (codes "t")
        (some route)
        (incoming "7"))
unfolding router
serve-verified_example =
    serve-verified platform (record { jwt_verify = some accepts; strict_tenancy = true })
      (codes "t") route (incoming "7") accepts (codes "abc") token refl refl refl refl
