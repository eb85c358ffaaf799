-- ===== src/Commerce/Transaction/Observed.antt =====
-- transaction/index.ts: the state of a provider follows the calls that a transaction makes.
use intellibiz.Shared.{ℕ, some, List, [], ◌∷◌, ◌++◌, reverse, Result, ok, err, ◌≡◌, String}
use intellibiz.Shared.Text.{Text}
use intellibiz.Commerce.Transaction.Licenses.{LicenseIssueParams}
use intellibiz.Commerce.Transaction.{
  ChargeStatus, succeeded, ChargeResult, ChargeParams, RefundParams, PaymentProvider, Program,
  returns, throws, charges, refunds, issues, grants, revokes, Call, charged, refunded, Compensation,
  refund_charge, revoke_license, Run, charge_settled, charge_step, issue_step, interpret, refund_if,
  compensate, run_all, finish, begun, journal_id, transaction,
}

module _ {A W : Type 0} (p : PaymentProvider A W)
    (refund : RefundParams A → W → Result (Unit {0}) × W) (has_refund : p.refund ≡ some refund)
    (I : List Call → W → Type 0)
    (on_charge : (params : ChargeParams A) (cs : List Call) (w : W)
      → I cs w
      → I (cs ++ charged (p.charge params w).0 ∷ []) (p.charge params w).1)
    (on_refund : (params : RefundParams A) (cs : List Call) (w : W)
      → I cs w
      → I (cs ++ refunded params.payment_id (refund params w).0 ∷ []) (refund params w).1) where
  abbrev Observed : Run W → Type 0
  Observed s = I s.calls s.world

  module _ (clock : ℕ → ℕ) (journal : Text) where
    charge_settled-Observed :
        (r : Result ChargeResult) (s : Run W)
        → Observed s
        → Observed (charge_settled p clock journal r s)
    unfolding charge_settled
    charge_settled-Observed (ok r) s h = h
    charge_settled-Observed (err e) s h = h

    charge_step-Observed :
        (params : ChargeParams A) (s : Run W)
        → Observed s
        → Observed (charge_step p clock journal params s).1
    unfolding charge_step
    charge_step-Observed params s h =
        charge_settled-Observed (p.charge params s.world).0 _ (on_charge params s.calls s.world h)

    issue_step-Observed :
        (params : LicenseIssueParams) (s : Run W)
        → Observed s
        → Observed (issue_step p clock journal params s).1
    unfolding issue_step
    issue_step-Observed params s h = h

    interpret-Observed :
        {T : Type 0} (fn : Program A T) (s : Run W)
        → Observed s
        → Observed (interpret p clock journal fn s).1
    unfolding interpret
    interpret-Observed (returns v) s h = h
    interpret-Observed (throws e) s h = h
    interpret-Observed (charges params rest) s h =
        interpret-Observed (rest _) _ (charge_step-Observed params s h)
    interpret-Observed (refunds params rest) s h = interpret-Observed rest s h
    interpret-Observed (issues params rest) s h =
        interpret-Observed (rest _) _ (issue_step-Observed params s h)
    interpret-Observed (grants params rest) s h =
        interpret-Observed (rest _) _ (issue_step-Observed params s h)
    interpret-Observed (revokes id rest) s h = interpret-Observed rest s h

  refund_if-Observed :
      (id : String) (c : ChargeStatus) (s : Run W)
      → Observed s
      → Observed (refund_if id c (some refund) s).1
  unfolding refund_if
  refund_if-Observed id succeeded s h =
      on_refund (record { payment_id = id; amount = _ }) s.calls s.world h
  refund_if-Observed id _ s h = h

  compensate-Observed : (c : Compensation) (s : Run W) → Observed s → Observed (compensate p c s).1
  unfolding compensate
  compensate-Observed (refund_charge r) s h = rw has_refund (refund_if-Observed r.id r.status s h)
  compensate-Observed (revoke_license id) s h = h

  then-Observed :
      (cs : List Compensation) (r : Result (Unit {0})) (s : Run W)
      → Observed s
      → Observed (run_all p cs s).1
      → (let out : Result (Unit {0}) × Run W = elim r [
        | ok _ ↦ run_all p cs s
        | err e ↦ (err e, s)
      ] in
          Observed out.1)
  then-Observed cs (ok u) s h rest = rest
  then-Observed cs (err e) s h rest = h

  run_all-Observed : (cs : List Compensation) (s : Run W) → Observed s → Observed (run_all p cs s).1
  unfolding run_all
  run_all-Observed [] s h = h
  run_all-Observed (c ∷ cs) s h =
      let h' = compensate-Observed c s h in
      then-Observed cs (compensate p c s).0 (compensate p c s).1 h'
        (run_all-Observed cs (compensate p c s).1 h')

  finish-Observed : {T : Type 0} (r : Result T) (s : Run W) → Observed s → Observed (finish p r s).1
  unfolding finish
  finish-Observed (ok v) s h = h
  finish-Observed (err e) s h = run_all-Observed (reverse s.stack) s h

  -- What holds of the calls and the provider's state at the beginning, and is kept by every charge and
  -- every refund, holds at the end.
  pub transaction-Observed :
      {T : Type 0} (clock : ℕ → ℕ) (tenant_id trace_id : Text) (fn : Program A T) (world : W)
      → I [] world
      → Observed (transaction p clock tenant_id trace_id fn world).1
  unfolding transaction
  transaction-Observed clock tenant_id trace_id fn world h =
      let journal = journal_id tenant_id trace_id (clock 0) in
      finish-Observed (interpret p clock journal fn (begun world)).0 _
        (interpret-Observed clock journal fn (begun world) h)
