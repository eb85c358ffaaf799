-- ===== src/Http/Router/Wrapped.antt =====
-- packages/http/src/router.ts: `wrapHandler`, the routes and the server.
use intellibiz.Shared.{
  ℕ, String, Option, none, some, List, [], ◌∷◌, ◌++◌, if◌then◌else◌, Result, ok, err,
}
use intellibiz.Shared.Text.{Text, codes}
use intellibiz.Shared.Table.{Table, put}
use intellibiz.Http.Middleware.{MiddlewareOptions, Store, kernel_middleware}
use intellibiz.Http.Router.{
  Verb, Returned, Thrown, intellibiz_error, domain_error, other_error, Body, plain, json_of,
  error_of, error_json, Response, Platform, Incoming, RequestContext, ContextCall, sets_status,
  sets_header, Outcome, returned, thrown, Ran, RouteHandler, plain_handler, action, build_response,
  internal_error, context_of,
}

-- `_statusOverride` and `_responseHeaders`
pub record Overrides : Type 0 where
  pub status_override : Option ℕ
  pub response_headers : Table Text

abbrev pub no_overrides : Overrides
no_overrides = record { status_override = none; response_headers = [] }

unfoldable pub apply_call : ContextCall → Overrides → Overrides
unfolding put
apply_call (sets_status code) o = record o { status_override = some code }
apply_call (sets_header key value) o = record o {
  response_headers = put key value o.response_headers;
}

unfoldable pub apply_calls : List ContextCall → Overrides → Overrides
unfolding apply_call
apply_calls [] o = o
apply_calls (c ∷ cs) o = apply_calls cs (apply_call c o)

-- what is left of a response that is refused: the refusal is an error without a code
abbrev pub or_internal : {J : Type 0} → List (String × Text) → Option (Response J) → Response J
or_internal headers none = internal_error headers
or_internal headers (some response) = response

unfoldable pub run_handler : {J : Type 0} → RouteHandler J → RequestContext J → Ran J
run_handler (plain_handler f) context = f context
run_handler (action f) context = record { calls = []; outcome = f context.store context.body }

module _ {J : Type 0} (platform : Platform J) where
  -- `c.json(body, status)`: the platform refuses a body with some statuses, which throws.
  unfoldable pub json_response : List (String × Text) → Body J → ℕ → Option (Response J)
  json_response headers body status =
      if platform.allows status body
      then some (record { status = status; body = body; headers = headers })
      else none

  -- the `catch` block: a response that the platform refuses throws on, to the global handler
  unfoldable pub error_response : List (String × Text) → Thrown J → Response J
  unfolding json_response
  error_response headers (intellibiz_error code message status details) =
      or_internal headers (json_response headers (error_json code message status details) status)
  error_response headers (domain_error code message status details) =
      or_internal headers (json_response headers (error_of code message details) status)
  error_response headers (other_error message) = internal_error headers

  -- the end of the `try` block; a refused response is caught as another error.
  unfoldable pub overridden : List (String × Text) → Option ℕ → Returned J → Verb → Response J
  unfolding json_response build_response
  overridden headers (some status) result verb =
      or_internal headers (json_response headers (json_of result) status)
  overridden headers none result verb = build_response headers result verb

  -- the handler is awaited, and then its headers are set
  unfoldable pub settled : List (String × Text) → Verb → Overrides → Outcome J → Response J
  unfolding overridden error_response
  settled headers verb o (returned result) =
      overridden (headers ++ o.response_headers) o.status_override result verb
  settled headers verb o (thrown e) = error_response headers e

  -- `wrapHandler`: `headers` are those that are set already; there is a store if the kernel
  -- middleware has run.
  unfoldable pub wrap_handler :
      RouteHandler J → Verb → List (String × Text) → Option Store → Incoming J → Response J
  unfolding settled apply_calls run_handler context_of
  wrap_handler h verb headers none c = record {
    status = 500;
    body = error_of "KERNEL_NOT_INITIALIZED" (codes "Kernel middleware not mounted.") none;
    headers = headers;
  }
  wrap_handler h verb headers (some store) c =
      let ran = run_handler h (context_of platform store verb c) in
      settled headers verb (apply_calls ran.calls no_overrides) ran.outcome

pub record Route (J : Type 0) : Type 0 where
  pub verb : Verb
  pub path : Text
  pub handler : RouteHandler J

module _ {J : Type 0} where
  -- `router.get` and its like add a route behind those that are there.
  unfoldable pub mount : Verb → Text → RouteHandler J → List (Route J) → List (Route J)
  mount verb path handler routes =
      routes ++ record { verb = verb; path = path; handler = handler } ∷ []

  -- `group(prefix).get` and its like
  unfoldable pub mount_in_group :
      Text → Verb → Text → RouteHandler J → List (Route J) → List (Route J)
  unfolding mount
  mount_in_group prefix verb path handler routes = mount verb (prefix ++ path) handler routes

module _ {J : Type 0} (platform : Platform J) where
  -- What the kernel middleware throws is not an `IntellibizError`: the global error handler answers.
  -- The route is the one that Hono has found for the request, if there is one.
  unfoldable pub served : Text → Result Store → Option (Route J) → Incoming J → Response J
  unfolding wrap_handler
  served trace_id (err e) route c = internal_error []
  served trace_id (ok store) none c = record {
    status = 404;
    body = plain (codes "404 Not Found");
    headers = ("X-Trace-Id", trace_id) ∷ [];
  }
  served trace_id (ok store) (some r) c =
      wrap_handler platform r.handler r.verb (("X-Trace-Id", trace_id) ∷ []) (some store) c

  unfoldable pub serve : MiddlewareOptions → Text → Option (Route J) → Incoming J → Response J
  unfolding kernel_middleware served
  serve opts trace_id route c = served trace_id (kernel_middleware opts trace_id c.kernel) route c
