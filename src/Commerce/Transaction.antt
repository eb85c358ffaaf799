-- ===== src/Commerce/Transaction.antt =====
-- packages/commerce/src/transaction/index.ts. The callback of `transaction` is a program of calls
-- to its handle, each with the rest of the program behind it; what the program computes between
-- the calls is part of that rest, and so is a `try` round a call. A payment provider is code
-- outside: functions on a state `W` of its own, which may throw. `Date.now()` is a sequence of
-- readings.
pub mod Licenses
pub mod Commits
pub mod Payments
pub mod Tracking
pub mod RollsBack
pub mod Willing
pub mod Observed
mod Tests
use intellibiz.Shared.{
  ℕ, suc, ◌+◌, String, Option, none, some, List, [], ◌∷◌, ◌++◌, reverse, Result, ok, err,
}
use intellibiz.Shared.Text.{Text, codes, show}
use intellibiz.Commerce.State.{
  TransactionState, committed, rolled_back, manual_review, pending_bank_reconciliation,
}
use intellibiz.Commerce.Transaction.Licenses.{LicenseIssueParams, LicenseResult, issue_license}

pub data ChargeStatus : Type 0 where
  succeeded pending failed : ChargeStatus

-- The raw response is an opaque value of the provider's.
pub record ChargeResult : Type 0 where
  pub id : String
  pub status : ChargeStatus
  pub raw_response : Option String

-- `A` is the type of amounts, which the orchestrator passes on.
pub record ChargeParams (A : Type 0) : Type 0 where
  pub amount : A
  pub order_id : String
  pub customer_email : String
  pub payment_method_id : Option String

pub record RefundParams (A : Type 0) : Type 0 where
  pub payment_id : String
  pub amount : Option A

pub record PaymentProvider (A W : Type 0) : Type 0 where
  pub name : String
  pub charge : ChargeParams A → W → Result ChargeResult × W
  pub refund : Option (RefundParams A → W → Result (Unit {0}) × W)

-- `NoOpPaymentProvider`
abbrev pub no_op_provider : {A W : Type 0} → PaymentProvider A W
no_op_provider = record {
  name = "noop";
  charge = λ params w. (
    err
        "No payment provider configured. Install @intellibiz/plugin-stripe or another payment plugin.",
    w,
  );
  refund = none;
}

-- A program that uses the transaction's handle.
pub data Program (A T : Type 0) : Type 0 where
  returns : T → Program A T
  throws : String → Program A T
  charges : ChargeParams A → (Result ChargeResult → Program A T) → Program A T
  refunds : RefundParams A → Program A T → Program A T
  issues : LicenseIssueParams → (LicenseResult → Program A T) → Program A T
  grants : LicenseIssueParams → (LicenseResult → Program A T) → Program A T
  revokes : Text → Program A T → Program A T

pub data Compensation : Type 0 where
  refund_charge : ChargeResult → Compensation
  revoke_license : Text → Compensation

-- The calls that reach the provider, each with its answer.
pub data Call : Type 0 where
  charged : Result ChargeResult → Call
  refunded : String → Result (Unit {0}) → Call

-- `txState`, the compensation stack, the provider's state; the clock's next reading; the calls.
pub record Run (W : Type 0) : Type 0 where
  pub value : TransactionState
  pub stack : List Compensation
  pub world : W
  pub readings : ℕ
  pub calls : List Call

-- The state after `tx.payments.charge` has got its result.
unfoldable pub noted : {W : Type 0} → ChargeResult → Run W → Run W
noted r s = record s {
  value = elim r.status [ pending ↦ pending_bank_reconciliation | _ ↦ s.value ];
  stack = s.stack ++ refund_charge r ∷ [];
}

unfoldable pub journal_id : Text → Text → ℕ → Text
journal_id tenant_id trace_id now =
    codes "ibiz_txn_" ++ (tenant_id ++ (codes "_" ++ (trace_id ++ (codes "_" ++ show now))))

-- The closure that `charge` pushes: it asks for the status and for a `refund` of the provider.
unfoldable pub refund_if :
    {A W : Type 0}
    → String
    → ChargeStatus
    → Option (RefundParams A → W → Result (Unit {0}) × W)
    → Run W
    → Result (Unit {0}) × Run W
refund_if id succeeded (some refund) s =
    let (answer, w) = refund (record { payment_id = id; amount = none }) s.world in
    (answer, record s { world = w; calls = s.calls ++ refunded id answer ∷ [] })
refund_if id _ _ s = (ok tt, s)

module _ {A W : Type 0} (provider : PaymentProvider A W) (clock : ℕ → ℕ) (journal : Text) where
  -- the part of `charge` behind the call of the provider
  unfoldable pub charge_settled : Result ChargeResult → Run W → Run W
  unfolding noted
  charge_settled (ok r) s = noted r s
  charge_settled (err e) s = s

  unfoldable pub charge_step : ChargeParams A → Run W → Result ChargeResult × Run W
  charge_step params s =
      let (r, w) = provider.charge params s.world in
      (r, charge_settled r (record s { world = w; calls = s.calls ++ charged r ∷ [] }))

  -- `tx.licenses.issue` reads the clock twice.
  unfoldable pub issue_step : LicenseIssueParams → Run W → LicenseResult × Run W
  issue_step params s =
      let license = issue_license (clock s.readings) (clock (suc s.readings)) journal params in
      (
        license,
        record s {
          stack = s.stack ++ revoke_license license.id ∷ [];
          readings = suc (suc s.readings);
        },
      )

  unfoldable pub interpret : {T : Type 0} → Program A T → Run W → Result T × Run W
  interpret (returns v) s = (ok v, s)
  interpret (throws e) s = (err e, s)
  interpret (charges params rest) s = let (r, s') = charge_step params s in interpret (rest r) s'
  interpret (refunds params rest) s = interpret rest s
  interpret (issues params rest) s =
      let (license, s') = issue_step params s in interpret (rest license) s'
  interpret (grants params rest) s =
      let (license, s') = issue_step params s in interpret (rest license) s'
  interpret (revokes license_id rest) s = interpret rest s

module _ {A W : Type 0} (provider : PaymentProvider A W) where
  -- the closures that `charge` and `issue` push
  unfoldable pub compensate : Compensation → Run W → Result (Unit {0}) × Run W
  unfolding refund_if
  compensate (refund_charge r) s = refund_if r.id r.status provider.refund s
  compensate (revoke_license license_id) s = (ok tt, s)

  -- the loop of `runAll`, over the reversed stack
  unfoldable pub run_all : List Compensation → Run W → Result (Unit {0}) × Run W
  run_all [] s = (ok tt, s)
  run_all (c ∷ cs) s =
      let (r, s') = compensate c s in elim r [ ok _ ↦ run_all cs s' | err e ↦ (err e, s') ]

  -- the `catch` block, and the end of the `try` block
  unfoldable pub finish : {T : Type 0} → Result T → Run W → Result T × Run W
  finish (ok v) s = (
    ok v,
    record s {
      value = elim s.value [
        | pending_bank_reconciliation ↦ pending_bank_reconciliation
        | _ ↦ committed
      ];
    },
  )
  finish (err e) s =
      let (r, s') = run_all (reverse s.stack) s in
      (err e, record s' { value = elim r [ ok _ ↦ rolled_back | err _ ↦ manual_review ] })

-- The first reading of the clock is the journal's.
abbrev pub begun : {W : Type 0} → W → Run W
begun world = record {
  value = TransactionState.pending;
  stack = [];
  world = world;
  readings = 1;
  calls = [];
}

-- `commerce.transaction`: the promise's outcome, with what the run has left
unfoldable pub transaction :
    {A W T : Type 0}
    → PaymentProvider A W
    → (ℕ → ℕ)
    → Text
    → Text
    → Program A T
    → W
    → Result T × Run W
unfolding journal_id
transaction provider clock tenant_id trace_id fn world =
    let journal = journal_id tenant_id trace_id (clock 0) in
    let (result, s) = interpret provider clock journal fn (begun world) in finish provider result s
