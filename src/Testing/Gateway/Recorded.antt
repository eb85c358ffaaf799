-- ===== src/Testing/Gateway/Recorded.antt =====
-- packages/testing/src/mock-gateway.ts: what the history of a mock gateway says of the payments made and
-- refunded.
use mathlib.Core.List.{append_assoc, append-nil}
use intellibiz.Shared.{
  ℕ, zero, suc, String, Option, none, some, List, [], ◌∷◌, ◌++◌, Result, ok, err, ◌≡◌, refl, sym,
  ap, ◌∙◌,
}
use intellibiz.Commerce.Transaction.{ChargeResult, ChargeParams, RefundParams}
use intellibiz.Commerce.Transaction.Payments.{paid}
use intellibiz.Testing.Gateway.Counts.{charging}
use intellibiz.Testing.Gateway.{
  Method, charge_of, refund_of, CallRecord, Handler, fails_first, custom, MockGateway, with_result,
  with_error, fresh_call, answered, handled, default_charge, handle, decided, charge, refund,
  default_charge_result, assigned,
}

abbrev paid_of : Option ChargeResult → List String
paid_of none = []
paid_of (some r) = paid r

abbrev payment_of : {A : Type 0} → Method A → Option ChargeResult → List String
payment_of (charge_of params) result = paid_of result
payment_of (refund_of params) result = []

abbrev refund_in : {A : Type 0} → Method A → List String
refund_in (charge_of params) = []
refund_in (refund_of params) = params.payment_id ∷ []

-- The payments of the charges in a history that succeeded, and the payments whose refund was called
abbrev pub payments_in : {A : Type 0} → List (CallRecord A) → List String
payments_in [] = []
payments_in (c ∷ cs) = payment_of c.method c.result ++ payments_in cs

abbrev pub refunds_in : {A : Type 0} → List (CallRecord A) → List String
refunds_in [] = []
refunds_in (c ∷ cs) = refund_in c.method ++ refunds_in cs

-- the payment of a charge's answer
abbrev pub paid_by : Result ChargeResult → List String
paid_by (ok r) = paid r
paid_by (err e) = []

module _ {A : Type 0} where
  payments_in-append :
      (xs ys : List (CallRecord A)) → payments_in (xs ++ ys) ≡ payments_in xs ++ payments_in ys
  payments_in-append [] ys = refl
  payments_in-append (c ∷ xs) ys =
      ap (λ r. payment_of c.method c.result ++ r) (payments_in-append xs ys)
      ∙ sym (append_assoc (payment_of c.method c.result) (payments_in xs) (payments_in ys))

  refunds_in-append :
      (xs ys : List (CallRecord A)) → refunds_in (xs ++ ys) ≡ refunds_in xs ++ refunds_in ys
  refunds_in-append [] ys = refl
  refunds_in-append (c ∷ xs) ys =
      ap (λ r. refund_in c.method ++ r) (refunds_in-append xs ys)
      ∙ sym (append_assoc (refund_in c.method) (refunds_in xs) (refunds_in ys))

  with_result-concat :
      (r : ChargeResult) (cs : List (CallRecord A)) (c : CallRecord A)
      → with_result r (cs ++ c ∷ []) ≡ cs ++ record c { result = some r } ∷ []
  with_result-concat r [] c = refl
  with_result-concat r (d ∷ []) c = refl
  with_result-concat r (d ∷ e ∷ cs) c = ap (λ x. d ∷ x) (with_result-concat r (e ∷ cs) c)

  with_error-concat :
      (m : String) (cs : List (CallRecord A)) (c : CallRecord A)
      → with_error m (cs ++ c ∷ []) ≡ cs ++ record c { error = some m } ∷ []
  with_error-concat m [] c = refl
  with_error-concat m (d ∷ []) c = refl
  with_error-concat m (d ∷ e ∷ cs) c = ap (λ x. d ∷ x) (with_error-concat m (e ∷ cs) c)

  -- A history is another with one call behind it, of this payment and of this refund.
  abbrev pub Adds : List (CallRecord A) → List String → List String → List (CallRecord A) → Type 0
  Adds h payments refunded h' =
      (payments_in h' ≡ payments_in h ++ payments) × (refunds_in h' ≡ refunds_in h ++ refunded)

  Adds-concat :
      (h : List (CallRecord A)) (c : CallRecord A)
      → Adds h (payment_of c.method c.result) (refund_in c.method) (h ++ c ∷ [])
  Adds-concat h c = (
    payments_in-append h (c ∷ [])
        ∙ ap (λ r. payments_in h ++ r) (append-nil (payment_of c.method c.result)),
    refunds_in-append h (c ∷ []) ∙ ap (λ r. refunds_in h ++ r) (append-nil (refund_in c.method)),
  )

-- the record of a charge that has no answer yet
abbrev open_call : {A : Type 0} → ChargeParams A → ℕ → CallRecord A
open_call params now = fresh_call (charge_of params) now

module _ {A W : Type 0} (clock : ℕ → ℕ) (params : ChargeParams A) (h : List (CallRecord A))
    (now : ℕ) where
  -- The answer of a charge is what the call's record says.
  abbrev Settles : Result ChargeResult × MockGateway A W → Type 0
  Settles out = Adds h (paid_by out.0) [] out.1.history

  answered-Settles :
      (r : ChargeResult) (g : MockGateway A W)
      → g.history ≡ h ++ (open_call params now) ∷ []
      → Settles (answered r g)
  unfolding answered
  answered-Settles r g e =
      rw (ap (with_result r) e ∙ with_result-concat r h (open_call params now))
        (Adds-concat h (record (open_call params now) { result = some r }))

  unsettled :
      (g : MockGateway A W) (m : String)
      → g.history ≡ h ++ (open_call params now) ∷ []
      → Settles (err m, g)
  unsettled g m e = rw e (Adds-concat h (open_call params now))

  handled-Settles :
      (r : Result ChargeResult) (w : W) (g : MockGateway A W)
      → g.history ≡ h ++ (open_call params now) ∷ []
      → Settles (handled (r, w) g)
  unfolding handled
  handled-Settles (ok r) w g e = answered-Settles r (record g { outside = w }) e
  handled-Settles (err m) w g e = unsettled (record g { outside = w }) m e

  handle-Settles :
      (k : Handler A W) (g : MockGateway A W)
      → g.history ≡ h ++ (open_call params now) ∷ []
      → Settles (handle clock k params g)
  unfolding handle
  handle-Settles (fails_first zero code) g e =
      answered-Settles (default_charge_result (clock g.readings) params g)
        (record g { readings = suc g.readings }) e
  handle-Settles (fails_first (suc n) code) g e =
      unsettled (record g { handler = some (fails_first n code) }) code e
  handle-Settles (custom f) g e = handled-Settles (f params g.outside).0 (f params g.outside).1 g e

  decided-Settles :
      (k : Option (Handler A W)) (m : Option String) (g : MockGateway A W)
      → g.history ≡ h ++ (open_call params now) ∷ []
      → Settles (decided clock k m params g)
  unfolding decided default_charge
  decided-Settles (some k) m g e = handle-Settles k g e
  decided-Settles none (some m) g e =
      rw (ap (with_error m) e ∙ with_error-concat m h (open_call params now))
        (Adds-concat h (record (open_call params now) { error = some m }))
  decided-Settles none none g e =
      answered-Settles (assigned (default_charge_result (clock g.readings) params g) g.next_result)
        (record g { next_result = none; readings = suc g.readings }) e

module _ {A W : Type 0} (clock : ℕ → ℕ) where
  pub charge-Adds :
      (params : ChargeParams A) (g : MockGateway A W)
      → Adds g.history (paid_by (charge clock params g).0) [] (charge clock params g).1.history
  unfolding charge
  charge-Adds params g =
      decided-Settles clock params g.history (clock g.readings) g.handler g.next_error
        (charging clock params g) refl

  pub refund-Adds :
      (params : RefundParams A) (g : MockGateway A W)
      → Adds g.history [] (params.payment_id ∷ []) (refund clock params g).history
  unfolding refund
  refund-Adds params g = Adds-concat g.history (fresh_call (refund_of params) (clock g.readings))
