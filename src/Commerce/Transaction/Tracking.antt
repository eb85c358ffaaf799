-- ===== src/Commerce/Transaction/Tracking.antt =====
-- transaction/index.ts: what the compensation stack holds while the callback runs.
use mathlib.Core.List.{append-nil}
use intellibiz.Shared.{ℕ, ◌≡◌, sym, false, [], ◌∷◌, ◌++◌, Result, ok, err}
use intellibiz.Shared.Text.{Text}
use intellibiz.Commerce.Transaction.{
  ChargeResult, ChargeParams, PaymentProvider, Program, returns, throws, charges, refunds, issues,
  grants, revokes, charged, Run, charge_settled, charge_step, issue_step, interpret,
}
use intellibiz.Commerce.Transaction.Payments.{
  charged_ids, refunded_ids, refund_failed, stacked_ids, charged_ids-append, refunded_ids-append,
  refund_failed-append, stacked_ids-append,
}

-- Before the end the stack holds the payments so far, and none is refunded.
pub record IsTracked {W : Type 0} (s : Run W) : Type 0 where
  pub stacked : stacked_ids s.stack ≡ charged_ids s.calls
  pub unrefunded : refunded_ids s.calls ≡ []
  pub unfailed : refund_failed s.calls ≡ false

module _ {A W : Type 0} (provider : PaymentProvider A W) (clock : ℕ → ℕ) (journal : Text) where
  charge_step-IsTracked :
      (params : ChargeParams A) (s : Run W)
      → IsTracked s
      → IsTracked (charge_step provider clock journal params s).1
  unfolding charge_step charge_settled
  charge_step-IsTracked params s t = go (provider.charge params s.world).0
    where
      go :
          (r : Result ChargeResult)
          → IsTracked (
              charge_settled provider clock journal r (record s {
                world = (provider.charge params s.world).1;
                calls = s.calls ++ charged r ∷ [];
              }))
      go (ok r) = record {
        stacked = rw (charged_ids-append, stacked_ids-append, t.stacked);
        unrefunded = rw (refunded_ids-append, t.unrefunded);
        unfailed = rw (refund_failed-append, t.unfailed);
      }
      go (err e) = record {
        stacked = rw (charged_ids-append, t.stacked) (sym (append-nil _));
        unrefunded = rw (refunded_ids-append, t.unrefunded);
        unfailed = rw (refund_failed-append, t.unfailed);
      }

  issue_step-IsTracked :
      (params : _) (s : Run W)
      → IsTracked s
      → IsTracked (issue_step provider clock journal params s).1
  unfolding issue_step
  issue_step-IsTracked params s t = record {
    stacked = rw (stacked_ids-append, t.stacked) (append-nil _);
    unrefunded = t.unrefunded;
    unfailed = t.unfailed;
  }

  pub interpret-IsTracked :
      {T : Type 0} (fn : Program A T) (s : Run W)
      → IsTracked s
      → IsTracked (interpret provider clock journal fn s).1
  unfolding interpret
  interpret-IsTracked (returns v) s t = t
  interpret-IsTracked (throws e) s t = t
  interpret-IsTracked (charges params rest) s t =
      interpret-IsTracked (rest _) _ (charge_step-IsTracked params s t)
  interpret-IsTracked (refunds params rest) s t = interpret-IsTracked rest s t
  interpret-IsTracked (issues params rest) s t =
      interpret-IsTracked (rest _) _ (issue_step-IsTracked params s t)
  interpret-IsTracked (grants params rest) s t =
      interpret-IsTracked (rest _) _ (issue_step-IsTracked params s t)
  interpret-IsTracked (revokes id rest) s t = interpret-IsTracked rest s t
