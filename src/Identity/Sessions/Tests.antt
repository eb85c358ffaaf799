-- ===== src/Identity/Sessions/Tests.antt =====
-- packages/identity/src/index.ts in the contexts of tests.
use intellibiz.Shared.{none, [], ok, err, ◌≡◌, refl}
use intellibiz.Shared.Text.{codes}
use intellibiz.Core.Context.{get_context, get_tenant_id}
use intellibiz.Identity.Sessions.{get_active_user, get_active_tenant}
use intellibiz.Testing.State.{
  create_tenant_store, with_tenant_context, as_role, as_owner, as_system_identity,
}

sessions : Unit {0}
unfolding get_context get_tenant_id get_active_user get_active_tenant create_tenant_store
    with_tenant_context as_role as_owner as_system_identity
sessions = tt

session_tests :
    (get_active_user none ≡ err "CONTEXT_MISSING")
    × (as_system_identity [] 0 (codes "acme") get_active_user ≡ err "UNAUTHENTICATED")
    × (as_owner [] 0 (codes "acme") [] get_active_user ≡ err "UNAUTHENTICATED")
    × (as_owner [] 0 (codes "acme") (codes "u1") get_active_user
        ≡ ok (record {
          id = codes "u1";
          email = none;
          tenant_id = codes "acme";
          role = codes "owner";
        }))
    × (as_owner [] 0 (codes "acme") (codes "u1") get_active_tenant ≡ ok (codes "acme"))
unfolding sessions
session_tests = (refl, refl, refl, refl, refl)
