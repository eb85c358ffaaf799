-- ===== src/Commerce/Transaction/Tests.antt =====
-- transaction/index.ts at concrete inputs.
use intellibiz.Shared.{
  ℕ, ◌+◌, ◌≤◌, String, ◌≡◌, refl, none, some, [], ◌∷◌, arith, Result, ok, err, Bool, true, false,
  ◌&&◌, ◌==◌, zero, if◌then◌else◌,
}
use intellibiz.Shared.Text.{codes, show, read_from, span_digits, take_last, to_upper, power_of_ten}
use intellibiz.Commerce.State.{committed, rolled_back, manual_review, pending_bank_reconciliation}
use intellibiz.Commerce.Transaction.Licenses.{
  unit_ms, matched_ms, duration_ms, resolve_license_expiry, license_key, issue_license,
}
use intellibiz.Commerce.Transaction.{
  ChargeStatus, succeeded, pending, ChargeParams, RefundParams, PaymentProvider, Program,
  no_op_provider, returns, throws, charges, Run, noted, journal_id, charge_settled, charge_step,
  issue_step, interpret, refund_if, compensate, run_all, finish, transaction,
}
use intellibiz.Commerce.Transaction.Payments.{refunded_ids}
use intellibiz.Commerce.Transaction.RollsBack.{IsUndone, transaction-IsUndone}
use intellibiz.Commerce.Transaction.Commits.{left_open, transaction_commits}

orchestrator : Unit {0}
unfolding transaction finish run_all compensate refund_if interpret charge_step charge_settled noted
    issue_step issue_license license_key resolve_license_expiry duration_ms matched_ms unit_ms
    journal_id show take_last to_upper span_digits read_from
orchestrator = tt

-- A provider that counts its charges, and whose refunds of the payment "p0" fail if it says so.
abbrev refund_of : Bool → RefundParams ℕ → ℕ → Result (Unit {0}) × ℕ
refund_of fails params w = (if fails && params.payment_id == "p0" then err "declined" else ok tt, w)

abbrev id_of : ℕ → String
id_of zero = "p0"
id_of _ = "p1"

abbrev bank : Bool → ChargeStatus → PaymentProvider ℕ ℕ
bank fails status = record {
  name = "bank";
  charge = λ params w. (ok (record { id = id_of w; status = status; raw_response = none }), w + 1);
  refund = some (refund_of fails);
}

abbrev clock : ℕ → ℕ
clock n = 1700000000000 + n

abbrev order : ChargeParams ℕ
order = record { amount = 5; order_id = "o"; customer_email = "c"; payment_method_id = none }

abbrev buys : Program ℕ ℕ → Program ℕ ℕ
buys rest = charges order (λ first. charges order (λ second. rest))

abbrev run : Bool → ChargeStatus → Program ℕ ℕ → Result ℕ × Run ℕ
run fails status fn = transaction (bank fails status) clock (codes "acme") (codes "t") fn 0

abbrev unprovided : Result ℕ × Run ℕ
unprovided =
    transaction no_op_provider clock [] []
      (charges order (λ r. elim r [ ok c ↦ returns 1 | err e ↦ returns 2 ])) 0

runs :
    ((run false succeeded (buys (returns 7))).1.value ≡ committed)
    × ((run false pending (buys (returns 7))).1.value ≡ pending_bank_reconciliation)
    × ((run false succeeded (buys (throws "late"))).1.value ≡ rolled_back)
    × (refunded_ids (run false succeeded (buys (throws "late"))).1.calls ≡ "p1" ∷ "p0" ∷ [])
    × ((run true succeeded (buys (throws "late"))).1.value ≡ manual_review)
    × (unprovided.0 ≡ ok 2)
unfolding orchestrator
runs = (refl, refl, refl, refl, refl, refl)

expiry_tests :
    (resolve_license_expiry 0 (some (codes "30d")) ≡ 2592000000)
    × (resolve_license_expiry 0 (some (codes "30w")) ≡ 31536000000)
    × (resolve_license_expiry 5 none ≡ 31536000005)
    × (license_key (journal_id (codes "acme") (codes "t") (clock 0)) ≡ codes "LIC-00000000")
unfolding orchestrator
expiry_tests = (refl, refl, refl, refl)

transaction-IsUndone_example :
    let out = run false succeeded (buys (throws "late")) in (out.0 ≡ err "late") × IsUndone out.1
unfolding orchestrator
transaction-IsUndone_example =
    transaction-IsUndone (bank false succeeded) (refund_of false) refl clock (codes "acme")
      (codes "t") (buys (throws "late")) 0 "late" refl

transaction_commits_example :
    let out = run false pending (buys (returns 7)) in
    (out.0 ≡ ok 7)
    × (refunded_ids out.1.calls ≡ [])
    × (out.1.value ≡ (if left_open out.1.calls then pending_bank_reconciliation else committed))
unfolding orchestrator
transaction_commits_example =
    transaction_commits (bank false pending) clock (codes "acme") (codes "t") (buys (returns 7)) 0 7
      refl

eight_digits : (power_of_ten 7 ≤ 12345678) × (power_of_ten 7 ≤ 912345678)
eight_digits = (omega arith, omega arith)

last_digits : take_last 8 (show 12345678) ≡ take_last 8 (show 912345678)
unfolding orchestrator
last_digits = refl
