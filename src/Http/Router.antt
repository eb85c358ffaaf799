-- ===== src/Http/Router.antt =====
-- packages/http/src/router.ts. A handler is code outside: a function of the request's context to
-- what it calls on the context and to what it returns or throws. `J` are the values of JSON but
-- for texts and null. `JSON.parse`, and whether the platform makes a response of a status and a
-- body, are the parameters in `Platform`. Headers are the calls that set them, in order.
pub mod Wrapped
pub mod Responses
mod Tests
use intellibiz.Shared.{
  ℕ, suc, String, Bool, true, false, ◌&&◌, Option, none, some, List, [], ◌∷◌, ◌++◌, if◌then◌else◌,
  or_else, Result, ok, err,
}
use intellibiz.Shared.Text.{Text, codes, same_text}
use intellibiz.Shared.Table.{Table, put}
use intellibiz.Http.Middleware.{Request, MiddlewareOptions, Store, kernel_middleware}

pub data Verb : Type 0 where
  get post put_verb patch delete : Verb

-- What a handler returns
pub data Returned (J : Type 0) : Type 0 where
  undefined null : Returned J
  text : Text → Returned J
  json : J → Returned J

-- What is thrown: an `IntellibizError`, an error that has a code and a status, another error. The
-- details are those that are there, or for the second kind those that count as true.
pub data Thrown (J : Type 0) : Type 0 where
  intellibiz_error domain_error : String → Text → ℕ → Option J → Thrown J
  other_error : Text → Thrown J

-- The body of a response: `error_of` has the code, the message and the details, and `error_json`
-- also the status.
pub data Body (J : Type 0) : Type 0 where
  empty : Body J
  plain : Text → Body J
  json_of : Returned J → Body J
  error_of : String → Text → Option J → Body J
  error_json : String → Text → ℕ → Option J → Body J

pub record Response (J : Type 0) : Type 0 where
  pub status : ℕ
  pub body : Body J
  pub headers : List (String × Text)

pub record Platform (J : Type 0) : Type 0 where
  pub parse : Text → Option J
  pub allows : ℕ → Body J → Bool

-- What the router reads of a request, besides what the kernel middleware reads; the text of its
-- body may be unreadable.
pub record Incoming (J : Type 0) : Type 0 where
  pub kernel : Request
  pub body_text : Result Text
  pub headers : List (String × Text)
  pub params : List (String × Text)
  pub query : List (String × Text)
  pub forwarded_for : Option Text
  pub remote_addr : Option Text
  pub url : Text

pub record RequestContext (J : Type 0) : Type 0 where
  pub store : Store
  pub body : Option J
  pub raw_body : Text
  pub headers : List (String × Text)
  pub params : List (String × Text)
  pub query : List (String × Text)
  pub ip : Text
  pub verb : Verb
  pub url : Text

-- The calls of `status` and `header` on the context
pub data ContextCall : Type 0 where
  sets_status : ℕ → ContextCall
  sets_header : String → Text → ContextCall

pub data Outcome (J : Type 0) : Type 0 where
  returned : Returned J → Outcome J
  thrown : Thrown J → Outcome J

pub record Ran (J : Type 0) : Type 0 where
  pub calls : List ContextCall
  pub outcome : Outcome J

-- An action gets the body, and runs with the store as the active one (`runWithContext`).
pub data RouteHandler (J : Type 0) : Type 0 where
  plain_handler : (RequestContext J → Ran J) → RouteHandler J
  action : (Store → Option J → Outcome J) → RouteHandler J

-- `['POST', 'PUT', 'PATCH'].includes(method)`
abbrev pub has_body : Verb → Bool
has_body post = true
has_body put_verb = true
has_body patch = true
has_body _ = false

abbrev pub text_or_empty : Result Text → Text
text_or_empty (ok t) = t
text_or_empty (err e) = []

unfoldable pub raw_body_of : Verb → Result Text → Text
raw_body_of verb body_text = if has_body verb then text_or_empty body_text else []

module _ {J : Type 0} where
  -- `buildResponse`
  unfoldable pub build_response : List (String × Text) → Returned J → Verb → Response J
  build_response headers undefined verb = record { status = 204; body = empty; headers = headers }
  build_response headers null verb = record { status = 204; body = empty; headers = headers }
  build_response headers (text t) verb = record { status = 200; body = plain t; headers = headers }
  build_response headers (json j) post = record {
    status = 201;
    body = json_of (json j);
    headers = headers;
  }
  build_response headers (json j) _ = record {
    status = 200;
    body = json_of (json j);
    headers = headers;
  }

  abbrev pub internal_error : List (String × Text) → Response J
  internal_error headers = record {
    status = 500;
    body = error_of "INTERNAL_ERROR" (codes "An unexpected error occurred.") none;
    headers = headers;
  }

  -- An empty text is not parsed, and of one that does not parse there is no body.
  unfoldable pub parsed_body : Platform J → Text → Option J
  parsed_body platform [] = none
  parsed_body platform (c ∷ s) = platform.parse (c ∷ s)

  unfoldable pub context_of : Platform J → Store → Verb → Incoming J → RequestContext J
  unfolding raw_body_of parsed_body
  context_of platform store verb c = record {
    store = store;
    body = parsed_body platform (raw_body_of verb c.body_text);
    raw_body = raw_body_of verb c.body_text;
    headers = c.headers;
    params = c.params;
    query = c.query;
    ip = or_else c.forwarded_for (or_else c.remote_addr (codes "0.0.0.0"));
    verb = verb;
    url = c.url;
  }
