-- ===== src/Testing/State/Fresh.antt =====
-- packages/testing/src/index.ts: what the reset leaves of a test in the other modules.
use intellibiz.Shared.{
  pos, ℕ, String, false, Option, none, some, [], Bool-cases, inl, inr, ok, ◌≡◌, refl, ap, arith,
}
use intellibiz.Shared.Table.{get}
use intellibiz.Commerce.Dedup.{evict_expired, is_live, is_duplicate}
use intellibiz.Core.Events.Listeners.{
  ListenerId, listeners_of, listener_count, max_retries_of, clear_all_listeners,
}
use intellibiz.Db.Governance.{clear_governance_log}
use intellibiz.Testing.Clock.{Clock, virtual_now, date_now}
use intellibiz.Testing.Clock as C
use intellibiz.Testing.Ledger.{Filter, filter_entries, get_ledger_entries}
use intellibiz.Testing.State.{
  TestState, reset_test_state, reset_switches, taken, get_step_failure,
  assert_no_governance_warnings,
}

date_now-reset : (real : ℕ) (clock : Clock) → date_now real (C.reset clock) ≡ pos real
unfolding date_now virtual_now C.reset
date_now-reset real clock = elim (Bool-cases clock.installed) [
  | inl t ↦ rw (t) (ap pos (omega arith))
  | inr f ↦ rw (f) refl
]

-- A test that follows a reset finds no trace of the one before: no entries of the ledger, the real
-- time, no failure of a step, no event that counts as a duplicate, no listeners and no warnings.
-- What stays are the retry budgets of listeners.
pub reset_test_state_fresh :
    {R X : Type 0} (s : TestState R X) (filter : Option Filter) (real : ℕ) (step event : String)
    (evict_at check_at : ℕ) (event_id : String) (fn : ListenerId)
    → (get_ledger_entries (reset_test_state s).ledger filter ≡ [])
      × (date_now real (reset_test_state s).clock ≡ pos real)
      × ((get_step_failure step (reset_test_state s).payments).0 ≡ none)
      × ((is_duplicate evict_at check_at event_id (reset_test_state s).cache).0 ≡ false)
      × (listener_count event (reset_test_state s).registry ≡ 0)
      × (assert_no_governance_warnings (reset_test_state s).governance_log ≡ ok tt)
      × (max_retries_of (reset_test_state s).registry fn ≡ max_retries_of s.registry fn)
unfolding reset_test_state get_ledger_entries filter_entries reset_switches taken get_step_failure
    is_duplicate evict_expired is_live get clear_all_listeners listener_count listeners_of
    max_retries_of clear_governance_log assert_no_governance_warnings
reset_test_state_fresh s none real step event evict_at check_at event_id fn =
    (refl, date_now-reset real s.clock, refl, refl, refl, refl, refl)
reset_test_state_fresh s (some filter) real step event evict_at check_at event_id fn =
    (refl, date_now-reset real s.clock, refl, refl, refl, refl, refl)
