-- ===== src/Core/Context/Inherited.antt =====
-- packages/core/src/define-action.ts and context/service-registry.ts: what an action runs with.
use intellibiz.Shared.{
  String, Bool, true, false, Option, none, some, [], ◌∷◌, ◌==◌, eq_iff, ◌≡◌, refl, sym, ap, ◌∙◌,
  Bool-cases, inl, inr, if◌then◌else◌, subst,
}
use intellibiz.Shared.Table.{Table, get, put, get-put, Distinct, put-Distinct}
use intellibiz.Core.Context.{
  IntellibizStore, get_context, Factories, register_context_service, build_from,
  build_registered_services, ActionContext, context_missing, Promise, rejected, Definition,
  inline_handler, with_schema, validated, run_definition, invoke, build_action_context, Parsed,
  valid, invalid,
}

-- The services that a factory table gives at a store, over others that are there
abbrev pub made_of :
    {V : Type 0} → IntellibizStore → Option (IntellibizStore → V) → Option V → Option V
made_of store none other = other
made_of store (some factory) other = some (factory store)

get-build_from :
    {V : Type 0} (k : String) (store : IntellibizStore) (factories : Factories V)
    (services : Table V)
    → Distinct factories
    → get k (build_from store factories services) ≡ made_of store (get k factories) (get k services)
unfolding build_from get
get-build_from k store [] services h = refl
get-build_from k store ((name, factory) ∷ factories) services h =
    get-build_from k store factories (put name (factory store) services) h.1
    ∙ (elim (Bool-cases (name == k)) [
      | inl e ↦
          let hidden = subst (λ x. get x factories ≡ none) ((eq_iff name k).0 e) h.0 in
          rw (get-put name k (factory store) services, e, hidden) refl
      | inr f ↦ rw (get-put name k (factory store) services, f) refl
    ])

get-build_registered_services :
    {V : Type 0} (k : String) (store : IntellibizStore) (factories : Factories V)
    → Distinct factories
    → get k (build_registered_services store factories) ≡ made_of store (get k factories) none
unfolding build_registered_services
get-build_registered_services k store factories h =
    get-build_from k store factories [] h
    ∙ ap (made_of store (get k factories)) (unfold get in refl)

made_of-if :
    {V : Type 0} (store : IntellibizStore) (b : Bool) (f : IntellibizStore → V)
    (o : Option (IntellibizStore → V))
    → made_of store (if b then some f else o) none
      ≡ (if b then some (f store) else made_of store o none)
made_of-if store true f o = refl
made_of-if store false f o = refl

-- Registering a service changes, in the contexts that are built afterwards, the service of its name
-- and no other: it is what the factory makes of the context's store. The registered names are
-- distinct, which registering keeps.
pub build_registered_services-register :
    {V : Type 0} (k name : String) (f : IntellibizStore → V) (store : IntellibizStore)
    (factories : Factories V)
    → Distinct factories
    → Distinct (register_context_service name f factories)
      × (get k (build_registered_services store (register_context_service name f factories)) ≡ (
          if name == k then some (f store) else get k (build_registered_services store factories)))
unfolding register_context_service
build_registered_services-register k name f store factories h =
    let distinct = put-Distinct name f factories h in
    (
      distinct,
      get-build_registered_services k store (put name f factories) distinct
          ∙ ap (λ o. made_of store o none) (get-put name k f factories)
          ∙ made_of-if store (name == k) f (get k factories)
          ∙ ap (λ o. if name == k then some (f store) else o)
              (sym (get-build_registered_services k store factories h)),
    )

-- An action that is called from within another has the context that the outer one was called in, with
-- the same store, whether its input is validated or not; and a call outside of every context is
-- rejected, before the input is looked at.
pub invoke_nested :
    {V I J R E : Type 0} (factories : Factories V) (inner : Definition V J R E) (to_inner : I → J)
    (store : IntellibizStore) (input : I)
    → (invoke factories
          (inline_handler
            (λ context active. invoke factories inner active (to_inner context.input)))
          (some store)
          input
        ≡ invoke factories inner (some store) (to_inner input))
      × (invoke factories inner none (to_inner input) ≡ rejected context_missing)
unfolding invoke run_definition get_context build_action_context
invoke_nested factories inner to_inner store input = (refl, refl)

-- What holds of parsed data, or where the input is not valid
abbrev pub IfValid : {D : Type 0} → Parsed D → (D → Type 0) → Type 0 → Type 0
IfValid (valid input) P Q = P input
IfValid (invalid issues) P Q = Q

validated-IfValid :
    {V D R E : Type 0} (factories : Factories V)
    (handler other : ActionContext V D → Option IntellibizStore → Promise R E)
    (store : IntellibizStore) (parsed : Parsed D)
    → IfValid parsed
        (λ d.
          validated factories handler store parsed
          ≡ handler (build_action_context factories store d) (some store))
        (validated factories handler store parsed ≡ validated factories other store parsed)
unfolding validated
validated-IfValid factories handler other store (valid input) = refl
validated-IfValid factories handler other store (invalid issues) = refl

-- The handler of an action with a schema runs on what the schema makes of the input, in the context of
-- the caller; on an input that is not valid it does not run, so that the outcome is the same for any
-- other handler.
pub invoke-with_schema :
    {V I D R E : Type 0} (factories : Factories V) (parse : I → Parsed D)
    (handler other : ActionContext V D → Option IntellibizStore → Promise R E)
    (store : IntellibizStore) (input : I)
    → IfValid
        (parse input)
        (λ d.
          invoke factories (with_schema parse handler) (some store) input
          ≡ handler (build_action_context factories store d) (some store))
        (invoke factories (with_schema parse handler) (some store) input
          ≡ invoke factories (with_schema parse other) (some store) input)
unfolding invoke run_definition get_context
invoke-with_schema factories parse handler other store input =
    validated-IfValid factories handler other store (parse input)
