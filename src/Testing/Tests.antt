-- ===== src/Testing/Tests.antt =====
-- The tools of packages/testing/src at concrete inputs.
use intellibiz.Shared.{ℕ, ◌*◌, String, none, some, List, [], ◌∷◌, ◌++◌, ok, err, ◌≡◌, refl, pos}
use intellibiz.Shared.Text.{codes, show, same_text, span_digits, read_from}
use intellibiz.Testing.Ledger.{
  TestLedgerEntry, action_is, amount_is, meets, filter_entries, get_last_entry,
  get_entries_in_window, assert_ledger_contains, assert_ledger_not_contains, assert_ledger_count,
  chronological_from, assert_ledger_chronological, single_tenant_from, assert_single_tenant,
  assert_multi_tenant, insert, sort, span_of, assert_entries_span_time, committed, includes,
  assert_transaction_pattern, found_other, not_chronological, tenant_missing, short_span,
}
use intellibiz.Testing.Ledger.Verdicts.{
  Ordered, assert_ledger_chronological_iff, Of, assert_single_tenant_iff, NoneMeets,
  assert_ledger_contains_iff, assert_transaction_pattern-swap,
}
use intellibiz.Testing.Clock.{
  unit_ms, parse_duration, initial, virtual_now, freeze, advance, advance_from_frozen, reset,
  install_virtual_clock, restore_real_clock, date_now,
}
use intellibiz.Testing.Clock.Timeline.{
  Command, advances, advances_from_frozen, freezes, tick, run, turn, turns, time_at, view,
  parse_duration-show, virtual_now-run,
}

tools : Unit {0}
unfolding get_last_entry get_entries_in_window assert_ledger_contains assert_ledger_not_contains
    assert_ledger_count filter_entries meets assert_ledger_chronological chronological_from
    assert_single_tenant single_tenant_from assert_multi_tenant assert_entries_span_time sort insert
    span_of assert_transaction_pattern includes Ordered
tools = tt

abbrev entry : String → String → ℕ → TestLedgerEntry
entry action tenant at = record {
  action = action;
  amount = none;
  currency = some "USD";
  tenant_id = tenant;
  trace_id = "t1";
  timestamp = at;
}

abbrev ledger : List TestLedgerEntry
ledger =
    entry "TRANSACTION_PENDING" "acme" 10
    ∷ entry "TRANSACTION_COMMITTED" "acme" 25
    ∷ entry "paid" "acme" 25
    ∷ []

ledger_tests :
    (assert_ledger_count ledger (amount_is none ∷ []) 3 ≡ none)
    × (assert_ledger_count ledger (action_is "paid" ∷ []) 2
        ≡ some (found_other (action_is "paid" ∷ []) 1))
    × (assert_ledger_chronological (entry "a" "x" 3 ∷ entry "b" "x" 2 ∷ [])
        ≡ some (not_chronological 1))
    × (assert_multi_tenant ledger ("acme" ∷ "other" ∷ []) ≡ some (tenant_missing "other"))
    × (assert_entries_span_time ledger 15 ≡ none)
    × (assert_entries_span_time ledger 16 ≡ some (short_span 15))
    × (get_last_entry ledger (some (action_is "x" ∷ [])) ≡ none)
    × (get_entries_in_window ledger 11 24 ≡ [])
unfolding tools
ledger_tests = (refl, refl, refl, refl, refl, refl, refl, refl)

assert_ledger_chronological_iff_example : Ordered ledger
unfolding tools
assert_ledger_chronological_iff_example = (assert_ledger_chronological_iff ledger).0 refl

assert_single_tenant_iff_example : (tenant : String) × Of tenant ledger
unfolding tools
assert_single_tenant_iff_example = (assert_single_tenant_iff ledger).0 refl

assert_ledger_contains_iff_example : NoneMeets (action_is "refund" ∷ []) ledger
unfolding tools
assert_ledger_contains_iff_example =
    (assert_ledger_contains_iff ledger (action_is "refund" ∷ [])).0.0 refl

assert_transaction_pattern-swap_example :
    assert_transaction_pattern (ledger ++ entry "late" "acme" 30 ∷ []) "t1" committed
    ≡ assert_transaction_pattern (entry "late" "acme" 30 ∷ ledger) "t1" committed
assert_transaction_pattern-swap_example =
    assert_transaction_pattern-swap ledger (entry "late" "acme" 30 ∷ []) "t1" committed

clock_bundle : Unit {0}
unfolding unit_ms parse_duration virtual_now freeze advance advance_from_frozen reset
    install_virtual_clock restore_real_clock date_now tick run turn turns time_at same_text
    span_digits read_from
clock_bundle = tt

abbrev commands : List Command
commands =
    advances (codes "2h")
    ∷ freezes 500 1000
    ∷ advances (codes "1d")
    ∷ advances_from_frozen (codes "30s")
    ∷ []

clock_tests :
    (parse_duration (codes "15m") ≡ ok 900000)
    × (parse_duration (codes "15") ≡ err "Invalid duration format")
    × (parse_duration (codes "1.5h") ≡ err "Invalid duration format")
    × (virtual_now 700 (run commands initial) ≡ pos 31000)
    × (virtual_now 700 (run (advances (codes "2s") ∷ []) initial) ≡ pos 2700)
    × (date_now 700 (run (advances (codes "2s") ∷ []) initial) ≡ pos 700)
unfolding clock_bundle
clock_tests = (refl, refl, refl, refl, refl, refl)

parse_duration-show_example : parse_duration (show 30 ++ codes "d") ≡ ok (30 * 86400000)
unfolding clock_bundle
parse_duration-show_example = parse_duration-show 30 86400000 (codes "d") refl

virtual_now-run_example :
    virtual_now 700 (run commands initial) ≡ time_at 700 (turns commands (view initial))
virtual_now-run_example = virtual_now-run commands initial 700
