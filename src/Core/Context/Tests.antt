-- ===== src/Core/Context/Tests.antt =====
-- packages/core/src/context and packages/core/src/define-action.ts at concrete inputs.
use intellibiz.Shared.{
  ℕ, ◌+◌, String, none, some, [], ◌∷◌, ok, err, eqb, if◌then◌else◌, ◌≡◌, refl, false,
}
use intellibiz.Shared.Text.{Text, codes}
use intellibiz.Shared.Table.{get, put}
use intellibiz.Core.Context.{
  http, IntellibizStore, get_context, get_tenant_id, has_context, Factories,
  register_context_service, build_from, build_registered_services, join_path, context_missing,
  action_validation_error, resolved, rejected, Parsed, valid, invalid, Definition, with_schema,
  build_action_context, validated, run_definition, invoke,
}

contexts : Unit {0}
unfolding get_context get_tenant_id has_context register_context_service build_from
    build_registered_services join_path build_action_context validated run_definition invoke get put
contexts = tt

abbrev store : IntellibizStore
store = record {
  trace_id = codes "t";
  tenant_id = codes "acme";
  user_id = none;
  role = codes "member";
  start_time = 0;
  origin = http;
}

abbrev factories : Factories Text
factories = register_context_service "db" (λ s. s.tenant_id) []

-- Seven is not valid.
abbrev parse : ℕ → Parsed ℕ
parse n =
    if eqb n 7
    then invalid (record { path = codes "cart" ∷ codes "0" ∷ []; message = codes "no" } ∷ [])
    else valid (n + 1)

abbrev doubles : Definition Text ℕ ℕ String
doubles = with_schema parse (λ context active. resolved (context.input + context.input))

context_tests :
    (invoke factories doubles (some store) 4 ≡ resolved 10)
    × (invoke factories doubles (some store) 7
        ≡ rejected (action_validation_error ((codes "cart.0", codes "no") ∷ [])))
    × (invoke factories doubles none 7 ≡ rejected context_missing)
    × (get_tenant_id (some store) ≡ ok (codes "acme"))
    × (get_tenant_id none ≡ err "CONTEXT_MISSING")
    × (has_context none ≡ false)
unfolding contexts
context_tests = (refl, refl, refl, refl, refl, refl)
