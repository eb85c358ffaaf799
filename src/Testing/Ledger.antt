-- ===== src/Testing/Ledger.antt =====
-- packages/testing/src/ledger-assert.ts, and the ledger of index.ts. An assertion gives what went
-- wrong, if something did, in place of the text that it throws.
pub mod Verdicts
use intellibiz.Shared.{
  keep_if, ℕ, suc, ◌-◌, String, Bool, true, false, Option, none, some, List, [], ◌∷◌, ◌++◌, map,
  eqb, ltb, leb, all, any, length, if◌then◌else◌, ◌==◌,
}

pub record TestLedgerEntry : Type 0 where
  pub action : String
  pub amount : Option String
  pub currency : Option String
  pub tenant_id : String
  pub trace_id : String
  pub timestamp : ℕ

-- An entry of a filter: a field, and the value that it has to have. A field that the filter gives
-- as `undefined` is `none`.
pub data Criterion : Type 0 where
  action_is tenant_id_is trace_id_is : String → Criterion
  amount_is currency_is : Option String → Criterion
  timestamp_is : ℕ → Criterion

abbrev pub Filter : Type 0
Filter = List Criterion

abbrev same_option : Option String → Option String → Bool
same_option none none = true
same_option (some s) (some t) = s == t
same_option _ _ = false

-- `entry[k] === v`
unfoldable pub meets : TestLedgerEntry → Criterion → Bool
meets e (action_is s) = e.action == s
meets e (tenant_id_is s) = e.tenant_id == s
meets e (trace_id_is s) = e.trace_id == s
meets e (amount_is o) = same_option e.amount o
meets e (currency_is o) = same_option e.currency o
meets e (timestamp_is n) = eqb e.timestamp n

unfoldable pub filter_entries : List TestLedgerEntry → Filter → List TestLedgerEntry
unfolding meets
filter_entries entries filter = keep_if (λ e. all (meets e) filter) entries

abbrev pub last : {A : Type 0} → List A → Option A
last [] = none
last (x ∷ []) = some x
last (x ∷ y ∷ xs) = last (y ∷ xs)

unfoldable pub get_last_entry : List TestLedgerEntry → Option Filter → Option TestLedgerEntry
unfolding filter_entries
get_last_entry entries none = last entries
get_last_entry entries (some filter) = last (filter_entries entries filter)

unfoldable pub get_entries_in_window : List TestLedgerEntry → ℕ → ℕ → List TestLedgerEntry
get_entries_in_window entries start_ms end_ms =
    keep_if (λ e. if leb start_ms e.timestamp then leb e.timestamp end_ms else false) entries

-- `getLedgerEntries`, `recordTestLedgerEntry`
unfoldable pub get_ledger_entries : List TestLedgerEntry → Option Filter → List TestLedgerEntry
unfolding filter_entries
get_ledger_entries ledger none = ledger
get_ledger_entries ledger (some filter) = filter_entries ledger filter

unfoldable pub record_test_ledger_entry :
    TestLedgerEntry → List TestLedgerEntry → List TestLedgerEntry
record_test_ledger_entry entry ledger = ledger ++ entry ∷ []

-- What an assertion throws.
pub data Failure : Type 0 where
  found_none : Filter → Failure
  found_some found_other : Filter → ℕ → Failure
  not_chronological : ℕ → Failure
  other_tenant : ℕ → String → Failure
  tenant_missing : String → Failure
  too_few : Failure
  short_span : ℕ → Failure
  no_entries no_pending no_committed no_rolled_back : String → Failure

-- none where the assertion passes
abbrev pub Outcome : Type 0
Outcome = Option Failure

unfoldable pub assert_ledger_contains : List TestLedgerEntry → Filter → Outcome
unfolding filter_entries
assert_ledger_contains entries filter =
    if eqb (length (filter_entries entries filter)) 0 then some (found_none filter) else none

unfoldable pub assert_ledger_not_contains : List TestLedgerEntry → Filter → Outcome
unfolding filter_entries
assert_ledger_not_contains entries filter =
    let n = length (filter_entries entries filter) in
    if ltb 0 n then some (found_some filter n) else none

unfoldable pub assert_ledger_count : List TestLedgerEntry → Filter → ℕ → Outcome
unfolding filter_entries
assert_ledger_count entries filter expected =
    let n = length (filter_entries entries filter) in
    if eqb n expected then none else some (found_other filter n)

-- the loop of `assertLedgerChronological`, at index `i`, behind an entry of time `before`
unfoldable pub chronological_from : ℕ → ℕ → List TestLedgerEntry → Outcome
chronological_from i before [] = none
chronological_from i before (e ∷ es) =
    let rest = chronological_from (suc i) e.timestamp es in
    if ltb e.timestamp before then some (not_chronological i) else rest

unfoldable pub assert_ledger_chronological : List TestLedgerEntry → Outcome
unfolding chronological_from
assert_ledger_chronological [] = none
assert_ledger_chronological (e ∷ es) = chronological_from 1 e.timestamp es

unfoldable pub single_tenant_from : ℕ → String → List TestLedgerEntry → Outcome
single_tenant_from i first [] = none
single_tenant_from i first (e ∷ es) =
    let rest = single_tenant_from (suc i) first es in
    if e.tenant_id == first then rest else some (other_tenant i e.tenant_id)

unfoldable pub assert_single_tenant : List TestLedgerEntry → Outcome
unfolding single_tenant_from
assert_single_tenant [] = none
assert_single_tenant (e ∷ es) = single_tenant_from 1 e.tenant_id es

-- `assertMultiTenant`: the set of tenants is asked only for its members.
unfoldable pub assert_multi_tenant : List TestLedgerEntry → List String → Outcome
assert_multi_tenant entries [] = none
assert_multi_tenant entries (tenant ∷ tenants) =
    let rest = assert_multi_tenant entries tenants in
    if any (λ e. e.tenant_id == tenant) entries then rest else some (tenant_missing tenant)

-- `sort((a, b) => a - b)`
unfoldable pub insert : ℕ → List ℕ → List ℕ
insert n [] = n ∷ []
insert n (m ∷ ms) = if leb n m then n ∷ m ∷ ms else m ∷ insert n ms

unfoldable pub sort : List ℕ → List ℕ
unfolding insert
sort [] = []
sort (n ∷ ns) = insert n (sort ns)

abbrev pub last_of : ℕ → List ℕ → ℕ
last_of n [] = n
last_of n (m ∷ ms) = last_of m ms

-- the last less the first
unfoldable pub span_of : List ℕ → ℕ
span_of [] = 0
span_of (n ∷ ns) = last_of n ns - n

unfoldable pub assert_entries_span_time : List TestLedgerEntry → ℕ → Outcome
unfolding sort span_of
assert_entries_span_time entries min_span_ms =
    if ltb (length entries) 2
    then some too_few
    else (if ltb (span_of (sort (map (λ e. e.timestamp) entries))) min_span_ms
        then some (short_span (span_of (sort (map (λ e. e.timestamp) entries))))
        else none)

pub data ExpectedOutcome : Type 0 where
  committed rolled_back : ExpectedOutcome

-- the tests behind `hasPending`
abbrev outcome_missing : ExpectedOutcome → Bool → Bool → String → Outcome
outcome_missing committed has_committed has_rolled_back trace_id =
    if has_committed then none else some (no_committed trace_id)
outcome_missing rolled_back has_committed has_rolled_back trace_id =
    if has_rolled_back then none else some (no_rolled_back trace_id)

-- `actions.includes(action)`
unfoldable pub includes : String → List TestLedgerEntry → Bool
includes action entries = any (λ e. e.action == action) entries

unfoldable pub assert_transaction_pattern :
    List TestLedgerEntry → String → ExpectedOutcome → Outcome
unfolding includes
assert_transaction_pattern entries trace_id expected =
    let found = keep_if (λ e. e.trace_id == trace_id) entries in
    if eqb (length found) 0
    then some (no_entries trace_id)
    else (if includes "TRANSACTION_PENDING" found
        then outcome_missing expected (includes "TRANSACTION_COMMITTED" found)
            (includes "TRANSACTION_ROLLED_BACK" found) trace_id
        else some (no_pending trace_id))
