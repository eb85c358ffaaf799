-- ===== src/Testing/State.antt =====
-- packages/testing/src/index.ts and tenant-context.ts: the contexts that tests run in, the switches of
-- `mockPayments`, and the reset of everything. The trace id and the time of a new context are
-- arguments.
pub mod Switches
pub mod Fresh
mod Tests
use intellibiz.Shared.{
  ℕ, String, Bool, true, false, Option, none, some, List, [], ◌∷◌, ◌++◌, ◌==◌, if◌then◌else◌,
  or_else, Result, ok, err,
}
use intellibiz.Shared.Text.{Text, codes}
use intellibiz.Shared.Table.{Table}
use intellibiz.Core.Context.{ContextOrigin, http, IntellibizStore, run_with_context}
use intellibiz.Core.Events.Listeners.{Registry, clear_all_listeners}
use intellibiz.Commerce.Dedup.{CacheEntry, clear_webhook_cache}
use intellibiz.Db.Governance.{Log, clear_governance_log}
use intellibiz.Testing.Clock.{Clock}
use intellibiz.Testing.Clock as C
use intellibiz.Testing.Ledger.{TestLedgerEntry}

-- The options without the tenant, for both files
pub record TenantContextOptions : Type 0 where
  pub user_id : Option Text
  pub role : Option Text
  pub trace_id : Option Text
  pub origin : Option ContextOrigin

unfoldable pub create_tenant_store : Text → ℕ → Text → TenantContextOptions → IntellibizStore
create_tenant_store fresh_id now tenant_id opts = record {
  trace_id = or_else opts.trace_id fresh_id;
  tenant_id = tenant_id;
  user_id = opts.user_id;
  role = or_else opts.role (codes "member");
  start_time = now;
  origin = or_else opts.origin http;
}

module _ {A : Type 0} (fresh_id : Text) (now : ℕ) where
  unfoldable pub with_tenant_context :
      Text → TenantContextOptions → (Option IntellibizStore → A) → A
  unfolding create_tenant_store
  with_tenant_context tenant_id overrides fn =
      run_with_context (create_tenant_store fresh_id now tenant_id overrides) fn

  -- `asOwner`, `asAdmin`, `asViewer`, `asSystemIdentity` and `asAnonymous`: a user and a role
  unfoldable pub as_role : Text → Option Text → Text → (Option IntellibizStore → A) → A
  unfolding with_tenant_context
  as_role tenant_id user_id role fn =
      with_tenant_context tenant_id
        (record { user_id = user_id; role = some role; trace_id = none; origin = none }) fn

  unfoldable pub as_system_identity : Text → (Option IntellibizStore → A) → A
  unfolding as_role
  as_system_identity tenant_id fn = as_role tenant_id none (codes "system") fn

  unfoldable pub as_owner : Text → Text → (Option IntellibizStore → A) → A
  unfolding as_role
  as_owner tenant_id user_id fn = as_role tenant_id (some user_id) (codes "owner") fn

  unfoldable pub as_admin : Text → Text → (Option IntellibizStore → A) → A
  unfolding as_role
  as_admin tenant_id user_id fn = as_role tenant_id (some user_id) (codes "admin") fn

  unfoldable pub as_viewer : Text → Text → (Option IntellibizStore → A) → A
  unfolding as_role
  as_viewer tenant_id user_id fn = as_role tenant_id (some user_id) (codes "viewer") fn

  unfoldable pub as_anonymous : Text → (Option IntellibizStore → A) → A
  unfolding as_role
  as_anonymous tenant_id fn = as_role tenant_id none (codes "anonymous") fn

  -- `withContext`: the origin is always HTTP.
  unfoldable pub with_context : Text → TenantContextOptions → (Option IntellibizStore → A) → A
  unfolding create_tenant_store
  with_context tenant_id opts fn =
      run_with_context
        (create_tenant_store fresh_id now tenant_id (record opts { origin = some http })) fn

  unfoldable pub with_tenant : Text → (Option IntellibizStore → A) → A
  unfolding with_context
  with_tenant tenant_id fn =
      with_context tenant_id
        (record { user_id = none; role = none; trace_id = none; origin = none }) fn

-- `_nextFailure`, `_nextSuccess`, `_stepFailures`, and whether there is a `_refundSpy`; `R` is the type
-- of partial results, `X` that of errors.
pub record MockPayments (R X : Type 0) : Type 0 where
  pub next_failure : Option Text
  pub next_success : Option R
  pub step_failures : List (String × X)
  pub refund_spy : Bool

module _ {R X : Type 0} where
  abbrev pub no_switches : MockPayments R X
  no_switches = record {
    next_failure = none;
    next_success = none;
    step_failures = [];
    refund_spy = false;
  }

  unfoldable pub fail_next : Text → MockPayments R X → MockPayments R X
  fail_next code m = record m { next_failure = some code }

  unfoldable pub succeed_next : Option R → MockPayments R X → MockPayments R X
  succeed_next result m = record m { next_success = result }

  unfoldable pub fail_on : String → X → MockPayments R X → MockPayments R X
  fail_on step error m = record m { step_failures = m.step_failures ++ (step, error) ∷ [] }

  unfoldable pub spy_refund : MockPayments R X → MockPayments R X
  spy_refund m = record m { refund_spy = true }

  unfoldable pub consume_failure : MockPayments R X → Option Text × MockPayments R X
  consume_failure m = (m.next_failure, record m { next_failure = none })

  unfoldable pub consume_success : MockPayments R X → Option R × MockPayments R X
  consume_success m = (m.next_success, record m { next_success = none })

  unfoldable pub reset_switches : MockPayments R X → MockPayments R X
  reset_switches m = no_switches

-- `findIndex` and `splice`: the first failure of a step, and the others
unfoldable pub taken : {X : Type 0} → String → List (String × X) → Option X × List (String × X)
taken step [] = (none, [])
taken step ((s, e) ∷ fs) =
    let (found, rest) = taken step fs in if s == step then (some e, fs) else (found, (s, e) ∷ rest)

unfoldable pub get_step_failure :
    {R X : Type 0} → String → MockPayments R X → Option X × MockPayments R X
unfolding taken
get_step_failure step m =
    let (found, rest) = taken step m.step_failures in (found, record m { step_failures = rest })

-- `assertNoGovernanceWarnings`
unfoldable pub assert_no_governance_warnings : Log → Result {0} (Unit {0})
assert_no_governance_warnings [] = ok tt
assert_no_governance_warnings (r ∷ rs) = err "Expected no governance warnings, but found:"

-- What a test may have changed: `_testLedger`, and the state of the other modules
pub record TestState (R X : Type 0) : Type 0 where
  pub ledger : List TestLedgerEntry
  pub clock : Clock
  pub payments : MockPayments R X
  pub cache : Table CacheEntry
  pub registry : Registry
  pub governance_log : Log

unfoldable pub reset_test_state : {R X : Type 0} → TestState R X → TestState R X
unfolding C.reset reset_switches clear_all_listeners clear_governance_log
reset_test_state s = record {
  ledger = [];
  clock = C.reset s.clock;
  payments = reset_switches s.payments;
  cache = clear_webhook_cache s.cache;
  registry = clear_all_listeners s.registry;
  governance_log = clear_governance_log s.governance_log;
}
