-- ===== src/Testing/Gateway/Transactions.antt =====
-- packages/testing/src/mock-gateway.ts with packages/commerce/src/transaction/index.ts: failing
-- transactions against a mock gateway, whose refunds never throw.
use mathlib.Core.List.{append_assoc, append-nil}
use intellibiz.Shared.{
  ℕ, String, List, [], ◌∷◌, ◌++◌, reverse, Result, ok, err, ◌≡◌, refl, sym, ap, ◌∙◌,
}
use intellibiz.Shared.Text.{Text}
use intellibiz.Commerce.State.{rolled_back}
use intellibiz.Commerce.Transaction.{
  ChargeResult, RefundParams, PaymentProvider, Program, Call, charged, refunded, journal_id,
  interpret, begun, transaction,
}
use intellibiz.Commerce.Transaction.Payments.{
  paid, charged_ids, refunded_ids, charged_ids-append, refunded_ids-append,
}
use intellibiz.Commerce.Transaction.Willing.{transaction-rolled_back}
use intellibiz.Commerce.Transaction.Observed.{transaction-Observed}
use intellibiz.Testing.Gateway.{MockGateway, provider, charge, refund}
use intellibiz.Testing.Gateway.Recorded.{
  Adds, payments_in, refunds_in, paid_by, charge-Adds, refund-Adds,
}

-- What the gateway's history holds, as the calls of the transaction say, behind what it held before
abbrev Follows : {A W : Type 0} → MockGateway A W → List Call → MockGateway A W → Type 0
Follows before cs g = Adds before.history (charged_ids cs) (refunded_ids cs) g.history

charged_ids-one : (r : Result ChargeResult) → charged_ids (charged r ∷ []) ≡ paid_by r
charged_ids-one (ok r) = append-nil (paid r)
charged_ids-one (err e) = refl

module _ {A W : Type 0} (before : MockGateway A W) where
  charged-Follows :
      (r : Result ChargeResult) (cs : List Call) (g g' : MockGateway A W)
      → Follows before cs g
      → Adds g.history (paid_by r) [] g'.history
      → Follows before (cs ++ charged r ∷ []) g'
  charged-Follows r cs g g' h a = (
    a.0
        ∙ ap (λ x. x ++ paid_by r) h.0
        ∙ append_assoc (payments_in before.history) (charged_ids cs) (paid_by r)
        ∙ ap (λ x. payments_in before.history ++ x)
            (ap (λ x. charged_ids cs ++ x) (sym (charged_ids-one r))
              ∙ sym (charged_ids-append cs (charged r ∷ []))),
    a.1
        ∙ append-nil (refunds_in g.history)
        ∙ h.1
        ∙ ap (λ x. refunds_in before.history ++ x)
            (sym (append-nil (refunded_ids cs)) ∙ sym (refunded_ids-append cs (charged r ∷ []))),
  )

  refunded-Follows :
      (id : String) (answer : Result (Unit {0})) (cs : List Call) (g g' : MockGateway A W)
      → Follows before cs g
      → Adds g.history [] (id ∷ []) g'.history
      → Follows before (cs ++ refunded id answer ∷ []) g'
  refunded-Follows id answer cs g g' h a = (
    a.0
        ∙ append-nil (payments_in g.history)
        ∙ h.0
        ∙ ap (λ x. payments_in before.history ++ x)
            (sym (append-nil (charged_ids cs))
              ∙ sym (charged_ids-append cs (refunded id answer ∷ []))),
    a.1
        ∙ ap (λ x. x ++ id ∷ []) h.1
        ∙ append_assoc (refunds_in before.history) (refunded_ids cs) (id ∷ [])
        ∙ ap (λ x. refunds_in before.history ++ x)
            (sym (refunded_ids-append cs (refunded id answer ∷ []))),
  )

-- When the callback of a transaction fails at a mock gateway, the transaction is always rolled back,
-- never left to a manual review, and the gateway's own history says so: behind what it held before, it
-- has the payments of the charges that succeeded, whatever made them succeed, and the calls of `refund`
-- for just these payments, the last one first.
pub transaction-mock :
    {A W T : Type 0} (readings clock : ℕ → ℕ) (name : String) (tenant_id trace_id : Text)
    (fn : Program A T) (g : MockGateway A W) (e : String)
    → (interpret
        (provider readings name)
        clock
        (journal_id tenant_id trace_id (clock 0))
        fn
        (begun g)).0
      ≡ err e
    → let out = transaction (provider readings name) clock tenant_id trace_id fn g in
      (out.0 ≡ err e)
      × (out.1.value ≡ rolled_back)
      × ((payments : List String) × (payments_in out.1.world.history
            ≡ payments_in g.history ++ payments)
          × (refunds_in out.1.world.history ≡ refunds_in g.history ++ reverse payments))
unfolding provider
transaction-mock {A} {W} readings clock name tenant_id trace_id fn g e failure =
    let mock : PaymentProvider A (MockGateway A W) = provider readings name in
    let never : RefundParams A → MockGateway A W → Result (Unit {0}) × MockGateway A W =
      λ params w. (ok tt, refund readings params w) in
    let undone =
      transaction-rolled_back mock never refl (λ params w. refl) clock tenant_id trace_id fn g e
        failure in
    let seen =
      transaction-Observed mock never refl (Follows g)
        (λ params cs w h.
          charged-Follows g (charge readings params w).0 cs w (charge readings params w).1 h
            (charge-Adds readings params w))
        (λ params cs w h.
          refunded-Follows g params.payment_id (ok tt) cs w (refund readings params w) h
            (refund-Adds readings params w))
        clock tenant_id trace_id fn g (sym (append-nil _), sym (append-nil _)) in
    (
      undone.0,
      undone.1,
      (
        charged_ids (transaction mock clock tenant_id trace_id fn g).1.calls,
        seen.0,
        seen.1 ∙ ap (λ x. refunds_in g.history ++ x) undone.2,
      ),
    )
