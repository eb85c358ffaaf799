-- ===== src/Http/Router/Responses.antt =====
-- packages/http/src/router.ts: what a client gets, and as whom a handler runs.
use intellibiz.Shared.{
  ℕ, String, true, Option, none, some, List, [], ◌∷◌, ◌++◌, Result, ok, ◌≡◌, ◌⊎◌, inl, inr, refl,
  ap, Bool-cases,
}
use intellibiz.Shared.Text.{Text}
use intellibiz.Identity.Jwt.{JwtClaims, VerifiedToken, truthy, verify_jwt, extract_bearer_token}
use intellibiz.Http.Middleware.{MiddlewareOptions, Store}
use intellibiz.Http.Middleware.Tenants.{kernel_middleware-verified}
use intellibiz.Http.Router.{
  Verb, post, Returned, undefined, null, text, json, Thrown, intellibiz_error, domain_error,
  other_error, Body, json_of, error_of, error_json, Response, Platform, Incoming, Outcome, returned,
  thrown, Ran, RequestContext, RouteHandler, plain_handler, action, raw_body_of, parsed_body,
  build_response, internal_error, context_of,
}
use intellibiz.Http.Router.Wrapped.{
  Overrides, no_overrides, json_response, error_response, or_internal, overridden, settled,
  run_handler, wrap_handler, apply_calls, Route, serve, served,
}

-- The platform makes the response, or its status is one of those that the router itself gives.
abbrev pub IsMade : {J : Type 0} → Platform J → Response J → Type 0
IsMade platform r =
    (platform.allows r.status r.body ≡ true)
    ⊎ ((r.status ≡ 200) ⊎ ((r.status ≡ 201) ⊎ ((r.status ≡ 204) ⊎ (r.status ≡ 500))))

-- The store of a verified token
abbrev pub store_of : Text → VerifiedToken → Store
store_of trace_id token = record {
  trace_id = trace_id;
  tenant_id = token.tenant_id;
  user_id = some token.user_id;
  role = token.role;
}

-- The response that is made of what a handler did
abbrev pub made_of : {J : Type 0} → Platform J → Text → Verb → Ran J → Response J
made_of platform trace_id verb ran =
    settled platform (("X-Trace-Id", trace_id) ∷ []) verb (apply_calls ran.calls no_overrides)
      ran.outcome

-- The response is made of what the handler does for the token's user, in the token's tenant.
abbrev pub RunsAs :
    {J : Type 0}
    → Platform J
    → Text
    → VerifiedToken
    → Incoming J
    → Verb
    → RouteHandler J
    → Response J
    → Type 0
RunsAs {J} platform trace_id token c verb (plain_handler f) out =
    (context : RequestContext J) × (context.store ≡ store_of trace_id token)
    × (context.body ≡ parsed_body platform (raw_body_of verb c.body_text))
    × (out ≡ made_of platform trace_id verb (f context))
RunsAs platform trace_id token c verb (action f) out =
    out
    ≡ made_of platform trace_id verb (record {
      calls = [];
      outcome = f (store_of trace_id token) (parsed_body platform (raw_body_of verb c.body_text));
    })

module _ {J : Type 0} (platform : Platform J) where
  json_response-IsMade :
      (headers : List (String × Text)) (body : Body J) (status : ℕ)
      → IsMade platform (or_internal headers (json_response platform headers body status))
  unfolding json_response
  json_response-IsMade headers body status = elim (Bool-cases (platform.allows status body)) [
    | inl t ↦ rw t (inl t)
    | inr f ↦ rw f (inr (inr (inr (inr refl))))
  ]

  build_response-IsMade :
      (headers : List (String × Text)) (result : Returned J) (verb : Verb)
      → IsMade platform (build_response headers result verb)
  unfolding build_response
  build_response-IsMade headers undefined verb = inr (inr (inr (inl refl)))
  build_response-IsMade headers null verb = inr (inr (inr (inl refl)))
  build_response-IsMade headers (text t) verb = inr (inl refl)
  build_response-IsMade headers (json j) post = inr (inr (inl refl))
  build_response-IsMade headers (json j) _ = inr (inl refl)

  overridden-IsMade :
      (headers : List (String × Text)) (status : Option ℕ) (result : Returned J) (verb : Verb)
      → IsMade platform (overridden platform headers status result verb)
  unfolding overridden
  overridden-IsMade headers none result verb = build_response-IsMade headers result verb
  overridden-IsMade headers (some status) result verb =
      json_response-IsMade headers (json_of result) status

  error_response-IsMade :
      (headers : List (String × Text)) (e : Thrown J)
      → IsMade platform (error_response platform headers e)
  unfolding error_response
  error_response-IsMade headers (intellibiz_error code message status details) =
      json_response-IsMade headers (error_json code message status details) status
  error_response-IsMade headers (domain_error code message status details) =
      json_response-IsMade headers (error_of code message details) status
  error_response-IsMade headers (other_error message) = inr (inr (inr (inr refl)))

  settled-IsMade :
      (headers : List (String × Text)) (verb : Verb) (o : Overrides) (outcome : Outcome J)
      → IsMade platform (settled platform headers verb o outcome)
  unfolding settled
  settled-IsMade headers verb o (returned result) =
      overridden-IsMade (headers ++ o.response_headers) o.status_override result verb
  settled-IsMade headers verb o (thrown e) = error_response-IsMade headers e

  -- Every request that reaches a handler gets a response, whatever the handler does: one that the
  -- platform makes of its status and body, or one with the status 200, 201, 204 or 500.
  pub wrap_handler-IsMade :
      (h : RouteHandler J) (verb : Verb) (headers : List (String × Text)) (store : Option Store)
      (c : Incoming J)
      → IsMade platform (wrap_handler platform h verb headers store c)
  unfolding wrap_handler
  wrap_handler-IsMade h verb headers none c = inr (inr (inr (inr refl)))
  wrap_handler-IsMade h verb headers (some store) c =
      let ran = run_handler h (context_of platform store verb c) in
      settled-IsMade headers verb (apply_calls ran.calls no_overrides) ran.outcome

  -- A handler that throws gets the client the response to the error alone: neither a status nor a
  -- header that the handler has set is in it, and if the error is neither an Intellibiz error nor one
  -- with a code and a status, nothing of the error is in it either.
  pub wrap_handler-thrown :
      (h : RouteHandler J) (verb : Verb) (headers : List (String × Text)) (store : Store)
      (c : Incoming J) (e : Thrown J) (message : Text)
      → (run_handler h (context_of platform store verb c)).outcome ≡ thrown e
      → (wrap_handler platform h verb headers (some store) c ≡ error_response platform headers e)
        × (error_response platform headers (other_error message) ≡ internal_error headers)
  unfolding wrap_handler settled error_response
  wrap_handler-thrown h verb headers store c e message h' = (
    ap
        (settled platform headers verb
          (apply_calls (run_handler h (context_of platform store verb c)).calls no_overrides))
        h',
    refl,
  )

  wrap_handler-RunsAs :
      (trace_id : Text) (token : VerifiedToken) (c : Incoming J) (verb : Verb) (h : RouteHandler J)
      → RunsAs platform trace_id token c verb h (
          wrap_handler platform h verb
            (("X-Trace-Id", trace_id) ∷ [])
            (some (store_of trace_id token))
            c)
  unfolding wrap_handler run_handler context_of
  wrap_handler-RunsAs trace_id token c verb (plain_handler f) =
      (context_of platform (store_of trace_id token) verb c, refl, refl, refl)
  wrap_handler-RunsAs trace_id token c verb (action f) = refl

  -- A request with a bearer token that is verified and without a tenant header: its route's handler is
  -- given a context with the token's user, role and tenant and the request's body, and an action runs
  -- with the store of that user, role and tenant on that body. The response is made of what the handler
  -- does, with the trace id in a header.
  pub serve-verified :
      (opts : MiddlewareOptions) (trace_id : Text) (r : Route J) (c : Incoming J)
      (jwt_verify : Text → Result JwtClaims) (bearer : Text) (token : VerifiedToken)
      → opts.jwt_verify ≡ some jwt_verify
      → extract_bearer_token c.kernel.authorization ≡ some bearer
      → verify_jwt jwt_verify bearer ≡ ok token
      → truthy c.kernel.tenant_header ≡ none
      → RunsAs platform trace_id token c r.verb r.handler (serve platform opts trace_id (some r) c)
  unfolding serve served
  serve-verified opts trace_id r c jwt_verify bearer token o b v n =
      rw (kernel_middleware-verified opts trace_id c.kernel jwt_verify bearer token o b v n)
        (wrap_handler-RunsAs trace_id token c r.verb r.handler)
