-- ===== src/Testing/State/Tests.antt =====
-- packages/testing/src/index.ts and tenant-context.ts at concrete inputs.
use intellibiz.Shared.{ℕ, String, none, some, List, [], ◌∷◌, ok, ◌≡◌, refl}
use intellibiz.Shared.Text.{codes}
use intellibiz.Core.Context.{get_context, get_tenant_id, get_user_id, get_role}
use intellibiz.Testing.State.{
  create_tenant_store, with_tenant_context, as_role, as_system_identity, as_owner, as_anonymous,
  with_context, with_tenant, MockPayments, no_switches, fail_next, succeed_next, fail_on,
  spy_refund, consume_failure, consume_success, reset_switches, taken, get_step_failure,
}
use intellibiz.Testing.State.Switches.{
  Switch, fails, takes, switch_all, queue_all, errors_of, switch_all-queue_all,
}

state : Unit {0}
unfolding get_context get_tenant_id get_user_id get_role create_tenant_store with_tenant_context
    as_role as_system_identity as_owner as_anonymous with_context with_tenant fail_next succeed_next
    fail_on spy_refund consume_failure consume_success reset_switches taken get_step_failure
    switch_all
state = tt

context_tests :
    (as_system_identity (codes "t") 0 (codes "acme") get_user_id ≡ ok none)
    × (as_owner (codes "t") 0 (codes "acme") (codes "u") get_role ≡ ok (codes "owner"))
    × (as_anonymous (codes "t") 0 (codes "acme") get_tenant_id ≡ ok (codes "acme"))
    × (with_tenant (codes "t") 0 (codes "acme") get_role ≡ ok (codes "member"))
unfolding state
context_tests = (refl, refl, refl, refl)

abbrev quiet : MockPayments ℕ String
quiet = no_switches

abbrev two_failures : MockPayments ℕ String
two_failures = record quiet { step_failures = ("audit", "late") ∷ ("license", "full") ∷ [] }

switch_tests :
    ((consume_failure (fail_next (codes "declined") quiet)).0 ≡ some (codes "declined"))
    × ((consume_failure (consume_failure (fail_next (codes "declined") quiet)).1).0 ≡ none)
    × ((consume_success (succeed_next (some 3) (spy_refund quiet))).0 ≡ some 3)
    × ((get_step_failure "license" two_failures).0 ≡ some "full")
    × ((get_step_failure "license" (reset_switches two_failures)).0 ≡ none)
unfolding state
switch_tests = (refl, refl, refl, refl, refl)

abbrev calls : List (Switch String)
calls = fails "audit" "down" ∷ takes "audit" ∷ takes "audit" ∷ takes "audit" ∷ takes "license" ∷ []

switch_all_tests :
    switch_all calls two_failures ≡ some "late" ∷ some "down" ∷ none ∷ some "full" ∷ []
unfolding state
switch_all_tests = refl

switch_all-queue_all_example :
    switch_all calls two_failures
    ≡ queue_all calls (λ step. errors_of step two_failures.step_failures)
switch_all-queue_all_example = switch_all-queue_all calls two_failures
