-- ===== src/Core/Context.antt =====
-- packages/core/src/context/store.ts, context/service-registry.ts and define-action.ts. The store that
-- async local storage holds is an argument, none outside of every context; Zod's schemas are functions.
pub mod Inherited
mod Tests
use intellibiz.Shared.{
  ℕ, String, Bool, true, false, Option, none, some, List, [], ◌∷◌, ◌++◌, map, Result, ok, err,
}
use intellibiz.Shared.Text.{Text}
use intellibiz.Shared.Table.{Table, get, put}

pub data ContextOrigin : Type 0 where
  http queue cron cli socket test system : ContextOrigin

pub record IntellibizStore : Type 0 where
  pub trace_id : Text
  pub tenant_id : Text
  pub user_id : Option Text
  pub role : Text
  pub start_time : ℕ
  pub origin : ContextOrigin

unfoldable pub get_context : Option IntellibizStore → Result IntellibizStore
get_context none = err "CONTEXT_MISSING"
get_context (some store) = ok store

abbrev pub of_context : {A : Type 0} → (IntellibizStore → A) → Result IntellibizStore → Result A
of_context f (ok store) = ok (f store)
of_context f (err e) = err e

unfoldable pub get_tenant_id : Option IntellibizStore → Result Text
unfolding get_context
get_tenant_id active = of_context (λ s. s.tenant_id) (get_context active)

unfoldable pub get_user_id : Option IntellibizStore → Result (Option Text)
unfolding get_context
get_user_id active = of_context (λ s. s.user_id) (get_context active)

unfoldable pub get_trace_id : Option IntellibizStore → Result Text
unfolding get_context
get_trace_id active = of_context (λ s. s.trace_id) (get_context active)

unfoldable pub get_role : Option IntellibizStore → Result Text
unfolding get_context
get_role active = of_context (λ s. s.role) (get_context active)

unfoldable pub get_origin : Option IntellibizStore → Result ContextOrigin
unfolding get_context
get_origin active = of_context (λ s. s.origin) (get_context active)

unfoldable pub has_context : Option IntellibizStore → Bool
has_context none = false
has_context (some store) = true

-- `runWithContext`: what is run sees the store, whatever was active.
abbrev pub run_with_context : {A : Type 0} → IntellibizStore → (Option IntellibizStore → A) → A
run_with_context store fn = fn (some store)

-- The registered services: a factory for each name. `V` is the type of services.
abbrev pub Factories : Type 0 → Type 0
Factories V = Table (IntellibizStore → V)

module _ {V : Type 0} where
  unfoldable pub register_context_service :
      String → (IntellibizStore → V) → Factories V → Factories V
  unfolding put
  register_context_service name factory factories = put name factory factories

  unfoldable pub get_context_service_factory : String → Factories V → Option (IntellibizStore → V)
  unfolding get
  get_context_service_factory name factories = get name factories

  -- the loop of `buildRegisteredServices`
  unfoldable pub build_from : IntellibizStore → Factories V → Table V → Table V
  unfolding put
  build_from store [] services = services
  build_from store ((name, factory) ∷ factories) services =
      build_from store factories (put name (factory store) services)

  unfoldable pub build_registered_services : IntellibizStore → Factories V → Table V
  unfolding build_from
  build_registered_services store factories = build_from store factories []

  unfoldable pub clear_context_services : Factories V → Factories V
  clear_context_services factories = []

-- The context of an action: the fields of the store, under the services, under `data`.
pub record ActionContext (V D : Type 0) : Type 0 where
  pub store : IntellibizStore
  pub services : Table V
  pub input : D

-- What Zod finds wrong: the path and the message
pub record Issue : Type 0 where
  pub path : List Text
  pub message : Text

abbrev joined_with : ℕ → Text → List Text → Text
joined_with c part [] = part
joined_with c part (p ∷ parts) = part ++ (c ∷ joined_with c p parts)

-- `issue.path.join('.')`
unfoldable pub join_path : List Text → Text
join_path [] = []
join_path (part ∷ parts) = joined_with b'.' part parts

pub data Failure (E : Type 0) : Type 0 where
  context_missing : Failure E
  action_validation_error : List (Text × Text) → Failure E
  thrown : E → Failure E

pub data Promise (R E : Type 0) : Type 0 where
  resolved : R → Promise R E
  rejected : Failure E → Promise R E

pub data Parsed (D : Type 0) : Type 0 where
  valid : D → Parsed D
  invalid : List Issue → Parsed D

-- What `defineAction` is given: a handler, or a schema and a handler. A handler is a function of its
-- context and of the active store.
pub data Definition (V I R E : Type 0) : Type 1 where
  inline_handler : (ActionContext V I → Option IntellibizStore → Promise R E) → Definition V I R E
  with_schema :
      {D : Type 0}
      → (I → Parsed D)
      → (ActionContext V D → Option IntellibizStore → Promise R E)
      → Definition V I R E

unfoldable pub build_action_context :
    {V D : Type 0} → Factories V → IntellibizStore → D → ActionContext V D
unfolding build_registered_services
build_action_context factories parent input = record {
  store = parent;
  services = build_registered_services parent factories;
  input = input;
}

module _ {V R E : Type 0} (factories : Factories V) where
  -- `runWithContext({ ...parent }, () => handler(actionCtx))`
  abbrev pub run_handler :
      {D : Type 0}
      → (ActionContext V D → Option IntellibizStore → Promise R E)
      → IntellibizStore
      → D
      → Promise R E
  run_handler handler parent input =
      run_with_context parent (handler (build_action_context factories parent input))

  unfoldable pub validated :
      {D : Type 0}
      → (ActionContext V D → Option IntellibizStore → Promise R E)
      → IntellibizStore
      → Parsed D
      → Promise R E
  unfolding join_path build_action_context
  validated handler parent (valid input) = run_handler handler parent input
  validated handler parent (invalid issues) =
      rejected (action_validation_error (map (λ i. (join_path i.path, i.message)) issues))

  unfoldable pub run_definition :
      {I : Type 0} → Definition V I R E → IntellibizStore → I → Promise R E
  unfolding validated build_action_context
  run_definition (inline_handler handler) parent input = run_handler handler parent input
  run_definition (with_schema parse handler) parent input = validated handler parent (parse input)

  -- The function that `defineAction` returns; `get_context` comes first.
  unfoldable pub invoke :
      {I : Type 0} → Definition V I R E → Option IntellibizStore → I → Promise R E
  unfolding run_definition get_context
  invoke definition active input = elim (get_context active) [
    | err e ↦ rejected context_missing
    | ok parent ↦ run_definition definition parent input
  ]
