-- ===== src/Commerce/Transaction/Willing.antt =====
-- transaction/index.ts: failing transactions at a provider whose refunds never throw.
use intellibiz.Shared.{
  ℕ, String, some, List, [], ◌∷◌, reverse, Result, ok, err, ◌≡◌, refl, inl, inr, arith,
}
use intellibiz.Shared.Text.{Text}
use intellibiz.Commerce.State.{rolled_back}
use intellibiz.Commerce.Transaction.{
  ChargeStatus, succeeded, RefundParams, PaymentProvider, Program, Compensation, refund_charge,
  revoke_license, Run, journal_id, interpret, refund_if, compensate, run_all, finish, begun,
  transaction,
}
use intellibiz.Commerce.Transaction.Payments.{charged_ids, refunded_ids}
use intellibiz.Commerce.Transaction.RollsBack.{transaction-IsUndone}

module _ {A W : Type 0} (p : PaymentProvider A W)
    (refund : RefundParams A → W → Result (Unit {0}) × W) (has_refund : p.refund ≡ some refund)
    (never_throws : (params : RefundParams A) (w : W) → (refund params w).0 ≡ ok tt) where
  refund_if-ok :
      (id : String) (c : ChargeStatus) (s : Run W) → (refund_if id c (some refund) s).0 ≡ ok tt
  unfolding refund_if
  refund_if-ok id succeeded s = never_throws _ s.world
  refund_if-ok id _ s = refl

  compensate-ok : (c : Compensation) (s : Run W) → (compensate p c s).0 ≡ ok tt
  unfolding compensate
  compensate-ok (refund_charge r) s = rw has_refund (refund_if-ok r.id r.status s)
  compensate-ok (revoke_license id) s = refl

  run_all-ok : (cs : List Compensation) (s : Run W) → (run_all p cs s).0 ≡ ok tt
  unfolding run_all
  run_all-ok [] s = refl
  run_all-ok (c ∷ cs) s = rw (compensate-ok c s, run_all) (run_all-ok cs (compensate p c s).1)

  finish-rolled_back :
      (T : Type 0) (e : String) (s : Run W) → (finish p {T = T} (err e) s).1.value ≡ rolled_back
  unfolding finish
  finish-rolled_back T e s = rw (run_all-ok (reverse s.stack) s, finish) refl

  value_of :
      {T : Type 0} (clock : ℕ → ℕ) (tenant_id trace_id : Text) (fn : Program A T) (world : W)
      (e : String)
      → (interpret p clock (journal_id tenant_id trace_id (clock 0)) fn (begun world)).0 ≡ err e
      → (transaction p clock tenant_id trace_id fn world).1.value ≡ rolled_back
  unfolding transaction
  value_of {T} clock tenant_id trace_id fn world e failure = rw failure (finish-rolled_back T e _)

  -- The transaction is rolled back, never left to a manual review, and every payment is refunded.
  pub transaction-rolled_back :
      {T : Type 0} (clock : ℕ → ℕ) (tenant_id trace_id : Text) (fn : Program A T) (world : W)
      (e : String)
      → (interpret p clock (journal_id tenant_id trace_id (clock 0)) fn (begun world)).0 ≡ err e
      → let out = transaction p clock tenant_id trace_id fn world in
        (out.0 ≡ err e)
        × (out.1.value ≡ rolled_back)
        × (refunded_ids out.1.calls ≡ reverse (charged_ids out.1.calls))
  transaction-rolled_back clock tenant_id trace_id fn world e failure =
      let undone =
        transaction-IsUndone p refund has_refund clock tenant_id trace_id fn world e failure in
      let value = value_of clock tenant_id trace_id fn world e failure in
      elim undone.1 [
        | inl done ↦ (undone.0, value, done.2)
        | inr review ↦ absurd (ground (arith, value, review.0))
      ]
