-- ===== src/Commerce/Providers/Open.antt =====
-- packages/commerce/src/providers/payfast.ts with transaction/index.ts: transactions at Ozow, which
-- leaves every charge to the bank.
use mathlib.Core.List.{append-nil}
use intellibiz.Shared.{ℕ, String, [], reverse, err, ◌≡◌, refl, ap, ◌∙◌}
use intellibiz.Shared.Text.{Text}
use intellibiz.Commerce.State.{rolled_back}
use intellibiz.Commerce.Transaction.{
  Program, returns, throws, charges, refunds, issues, grants, revokes, Run, journal_id, noted,
  charge_settled, charge_step, issue_step, interpret, finish, begun, transaction,
}
use intellibiz.Commerce.Transaction.Payments.{charged_ids, refunded_ids, charged_ids-append}
use intellibiz.Commerce.Transaction.RollsBack.{charged_ids-run_all}
use intellibiz.Commerce.Transaction.Willing.{transaction-rolled_back}
use intellibiz.Commerce.Providers.{refund_nothing, ozow_provider}

finish-unpaid :
    (A T : Type 0) (random : ℕ → String) (e : String) (s : Run ℕ)
    → charged_ids s.calls ≡ []
    → charged_ids (finish (ozow_provider {A = A} random) {T = T} (err e) s).1.calls ≡ []
unfolding finish ozow_provider
finish-unpaid A T random e s h =
    charged_ids-run_all (ozow_provider {A = A} random) (refund_nothing random) refl
      (reverse s.stack) s
    ∙ h

module _ {A : Type 0} (random : ℕ → String) (clock : ℕ → ℕ) where
  interpret-unpaid :
      {T : Type 0} (journal : Text) (fn : Program A T) (s : Run ℕ)
      → charged_ids s.calls ≡ []
      → charged_ids (interpret (ozow_provider random) clock journal fn s).1.calls ≡ []
  unfolding interpret charge_step charge_settled issue_step ozow_provider noted
  interpret-unpaid journal (returns v) s h = h
  interpret-unpaid journal (throws e) s h = h
  interpret-unpaid journal (charges params rest) s h =
      interpret-unpaid journal (rest _) _ (charged_ids-append s.calls _ ∙ (append-nil _ ∙ h))
  interpret-unpaid journal (refunds params rest) s h = interpret-unpaid journal rest s h
  interpret-unpaid journal (issues params rest) s h = interpret-unpaid journal (rest _) _ h
  interpret-unpaid journal (grants params rest) s h = interpret-unpaid journal (rest _) _ h
  interpret-unpaid journal (revokes id rest) s h = interpret-unpaid journal rest s h

  unpaid :
      {T : Type 0} (tenant_id trace_id : Text) (fn : Program A T) (draws : ℕ) (e : String)
      → (interpret
          (ozow_provider random)
          clock
          (journal_id tenant_id trace_id (clock 0))
          fn
          (begun draws)).0
        ≡ err e
      → charged_ids (transaction (ozow_provider random) clock tenant_id trace_id fn draws).1.calls
        ≡ []
  unfolding transaction
  unpaid {T} tenant_id trace_id fn draws e failure = rw failure (
      finish-unpaid A T random e _
        (interpret-unpaid (journal_id tenant_id trace_id (clock 0)) fn (begun draws) refl))

  -- A transaction at Ozow that fails is rolled back without a refund, also where it has charged: every
  -- charge is left to the bank, and the rollback passes such charges over.
  pub transaction-ozow :
      {T : Type 0} (tenant_id trace_id : Text) (fn : Program A T) (draws : ℕ) (e : String)
      → (interpret
          (ozow_provider random)
          clock
          (journal_id tenant_id trace_id (clock 0))
          fn
          (begun draws)).0
        ≡ err e
      → let out = transaction (ozow_provider random) clock tenant_id trace_id fn draws in
        (out.0 ≡ err e) × (out.1.value ≡ rolled_back) × (refunded_ids out.1.calls ≡ [])
  unfolding ozow_provider
  transaction-ozow tenant_id trace_id fn draws e failure =
      let back =
        transaction-rolled_back (ozow_provider random) (refund_nothing random) refl
          (λ params w. refl) clock tenant_id trace_id fn draws e failure in
      (back.0, back.1, back.2 ∙ ap reverse (unpaid tenant_id trace_id fn draws e failure))
