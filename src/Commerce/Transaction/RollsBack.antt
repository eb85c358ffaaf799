-- ===== src/Commerce/Transaction/RollsBack.antt =====
-- transaction/index.ts: what a transaction has done when it fails.
use mathlib.Core.List.{append_assoc, append-nil}
use intellibiz.Shared.{
  ℕ, String, ◌≡◌, refl, sym, ap, ◌∙◌, subst, true, false, none, some, List, [], ◌∷◌, ◌++◌, ◌⊎◌, inl,
  inr, reverse, Result, ok, err, arith,
}
use intellibiz.Shared.Text.{Text}
use intellibiz.Commerce.State.{rolled_back, manual_review}
use intellibiz.Commerce.Transaction.{
  ChargeStatus, succeeded, RefundParams, PaymentProvider, Program, Compensation, refund_charge,
  revoke_license, refunded, Run, journal_id, interpret, refund_if, compensate, run_all, finish,
  begun, transaction,
}
use intellibiz.Commerce.Transaction.Payments.{
  paid_if, charged_ids, refunded_ids, refund_failed, stacked_ids, charged_ids-append,
  refunded_ids-append, refund_failed-append, stacked_ids-append, stacked_ids-reverse,
}
use intellibiz.Commerce.Transaction.Tracking.{IsTracked, interpret-IsTracked}

-- What unwinding `ids` from `s` comes to: all were refunded, or some front of them, whose last
-- refund threw.
abbrev Ending : {W : Type 0} → Run W → List String → Result (Unit {0}) → Run W → Type 0
Ending s ids (ok _) s' =
    (refunded_ids s'.calls ≡ refunded_ids s.calls ++ ids)
    × (refund_failed s'.calls ≡ refund_failed s.calls)
Ending s ids (err e) s' =
    ((rest : List String) × (refunded_ids s'.calls ++ rest ≡ refunded_ids s.calls ++ ids))
    × (refund_failed s'.calls ≡ true)

abbrev Unwound : {W : Type 0} → Run W → List String → Result (Unit {0}) × Run W → Type 0
Unwound s ids (r, s') = (charged_ids s'.calls ≡ charged_ids s.calls) × Ending s ids r s'

module _ {A W : Type 0} (provider : PaymentProvider A W)
    (refund : RefundParams A → W → Result (Unit {0}) × W)
    (has_refund : provider.refund ≡ some refund) where
  refund_if-Unwound :
      (id : String) (s : Run W) → Unwound s (id ∷ []) (refund_if id succeeded (some refund) s)
  unfolding refund_if
  refund_if-Unwound id s = go (refund (record { payment_id = id; amount = none }) s.world).0
    where
      go :
          (answer : Result (Unit {0}))
          → Unwound s (id ∷ []) (
            answer,
            record s {
              world = (refund (record { payment_id = id; amount = none }) s.world).1;
              calls = s.calls ++ refunded id answer ∷ [];
            },
          )
      go (ok u) = (
        rw (charged_ids-append, append-nil),
        (rw refunded_ids-append, rw refund_failed-append (ground arith)),
      )
      go (err e) = (
        rw (charged_ids-append, append-nil),
        (([], rw refunded_ids-append (append-nil _)), rw refund_failed-append (ground arith)),
      )

  unpaid-Unwound : (s : Run W) → Unwound s [] (ok tt, s)
  unpaid-Unwound s = (refl, (sym (append-nil _), refl))

  refund_if_status-Unwound :
      (id : String) (c : ChargeStatus) (s : Run W)
      → Unwound s (paid_if id c) (refund_if id c (some refund) s)
  unfolding refund_if
  refund_if_status-Unwound id succeeded s = refund_if-Unwound id s
  refund_if_status-Unwound id _ s = unpaid-Unwound s

  compensate-Unwound :
      (c : Compensation) (s : Run W) → Unwound s (stacked_ids (c ∷ [])) (compensate provider c s)
  unfolding compensate
  compensate-Unwound (refund_charge r) s =
      rw (append-nil, has_refund) (refund_if_status-Unwound r.id r.status s)
  compensate-Unwound (revoke_license id) s = unpaid-Unwound s

  continued-Unwound :
      (cs : List Compensation) (s : Run W) (ids ids' : List String)
      (out : Result (Unit {0}) × Run W)
      → Unwound s ids out
      → ((s₁ : Run W) → Unwound s₁ ids' (run_all provider cs s₁))
      → Unwound s
          (ids ++ ids')
          (elim out.0 [ ok _ ↦ run_all provider cs out.1 | err e ↦ (err e, out.1) ])
  continued-Unwound cs s ids ids' (ok u, s₁) (kept, done) rest =
      joined (run_all provider cs s₁) (rest s₁)
    where
      joined : (out : Result (Unit {0}) × Run W) → Unwound s₁ ids' out → Unwound s (ids ++ ids') out
      joined (ok v, s₂) (kept', done') = (
        kept' ∙ kept,
        (done'.0 ∙ (ap (λ t. t ++ ids') done.0 ∙ append_assoc _ ids ids'), done'.1 ∙ done.1),
      )
      joined (err e, s₂) (kept', done') = (
        kept' ∙ kept,
        ((done'.0.0, done'.0.1 ∙ (ap (λ t. t ++ ids') done.0 ∙ append_assoc _ ids ids')), done'.1),
      )
  continued-Unwound cs s ids ids' (err e, s₁) (kept, done) rest = (
    kept,
    (
      (
        done.0.0 ++ ids',
        sym (append_assoc _ done.0.0 ids')
            ∙ (ap (λ t. t ++ ids') done.0.1 ∙ append_assoc _ ids ids'),
      ),
      done.1,
    ),
  )

  run_all-Unwound :
      (cs : List Compensation) (s : Run W) → Unwound s (stacked_ids cs) (run_all provider cs s)
  unfolding run_all
  run_all-Unwound [] s = unpaid-Unwound s
  run_all-Unwound (c ∷ cs) s =
      subst (λ ids. Unwound s ids (run_all provider (c ∷ cs) s))
        (sym (stacked_ids-append (c ∷ []) cs))
        (continued-Unwound cs s (stacked_ids (c ∷ [])) (stacked_ids cs) (compensate provider c s)
          (compensate-Unwound c s) (run_all-Unwound cs))

  -- Unwinding adds no charges.
  pub charged_ids-run_all :
      (cs : List Compensation) (s : Run W)
      → charged_ids (run_all provider cs s).1.calls ≡ charged_ids s.calls
  charged_ids-run_all cs s = (run_all-Unwound cs s).0

-- How a failed transaction has ended: it is rolled back and every payment was refunded, the last
-- one first, or it needs a manual review and a refund threw, after which none was tried.
abbrev pub IsUndone : {W : Type 0} → Run W → Type 0
IsUndone s =
    ((s.value ≡ rolled_back)
      × (refund_failed s.calls ≡ false)
      × (refunded_ids s.calls ≡ reverse (charged_ids s.calls)))
    ⊎ ((s.value ≡ manual_review)
        × (refund_failed s.calls ≡ true)
        × (rest : List String) × (refunded_ids s.calls ++ rest ≡ reverse (charged_ids s.calls)))

module _ (T : Type 0) {A W : Type 0} (provider : PaymentProvider A W)
    (refund : RefundParams A → W → Result (Unit {0}) × W)
    (has_refund : provider.refund ≡ some refund) where
  finish-IsUndone :
      (e : String) (s : Run W) → IsTracked s → IsUndone (finish provider {T = T} (err e) s).1
  unfolding finish
  finish-IsUndone e s t =
      go (run_all provider (reverse s.stack) s)
        (run_all-Unwound provider refund has_refund (reverse s.stack) s)
    where
      owed : stacked_ids (reverse s.stack) ≡ reverse (charged_ids s.calls)
      owed = stacked_ids-reverse s.stack ∙ ap reverse t.stacked

      go :
          (out : Result (Unit {0}) × Run W)
          → Unwound s (stacked_ids (reverse s.stack)) out
          → IsUndone
              (record (out.1) { value = elim out.0 [ ok _ ↦ rolled_back | err _ ↦ manual_review ] })
      go (ok u, s') (kept, done) =
          inl (refl, done.1 ∙ t.unfailed, (done.0 ∙ rw (t.unrefunded, kept) owed))
      go (err x, s') (kept, done) =
          inr (refl, done.1, done.0.0, (done.0.1 ∙ rw (t.unrefunded, kept) owed))

module _ {A W T : Type 0} (provider : PaymentProvider A W)
    (refund : RefundParams A → W → Result (Unit {0}) × W)
    (has_refund : provider.refund ≡ some refund) where
  -- When the callback fails, the transaction fails with the same error. If the provider can refund,
  -- the payments of the charges that succeeded are refunded in the reverse order of the charges:
  -- either all of them, and the state is ROLLED_BACK, or, if a refund throws, only those up to it,
  -- and the state is MANUAL_REVIEW.
  pub transaction-IsUndone :
      (clock : ℕ → ℕ) (tenant_id trace_id : Text) (fn : Program A T) (world : W) (e : String)
      → (interpret provider clock (journal_id tenant_id trace_id (clock 0)) fn (begun world)).0
        ≡ err e
      → let out = transaction provider clock tenant_id trace_id fn world in
        (out.0 ≡ err e) × IsUndone out.1
  unfolding transaction
  transaction-IsUndone clock tenant_id trace_id fn world e failure = rw failure (
    unfold finish in refl,
    finish-IsUndone T provider refund has_refund e _ (
        interpret-IsTracked provider clock _ fn (begun world)
          (record { stacked = refl; unrefunded = refl; unfailed = refl })),
  )
