-- ===== src/Commerce/Transaction/Payments.antt =====
-- transaction/index.ts: the payments that a run has charged and refunded.
use mathlib.Core.List.{append_assoc, append-nil, reverse-append}
use intellibiz.Shared.{
  String, ◌≡◌, refl, sym, ap, ◌∙◌, Bool, true, false, ◌||◌, List, [], ◌∷◌, ◌++◌, reverse, ok, err,
}
use intellibiz.Commerce.Transaction.{
  ChargeStatus, succeeded, ChargeResult, Compensation, refund_charge, revoke_license, Call, charged,
  refunded,
}

-- The payment of a charge that succeeded.
abbrev pub paid_if : String → ChargeStatus → List String
paid_if id succeeded = id ∷ []
paid_if id _ = []

abbrev pub paid : ChargeResult → List String
paid r = paid_if r.id r.status

-- The payments of the charges that succeeded, in the order of the calls.
abbrev pub charged_ids : List Call → List String
charged_ids [] = []
charged_ids (charged (ok r) ∷ cs) = paid r ++ charged_ids cs
charged_ids (_ ∷ cs) = charged_ids cs

-- The payments whose refund the provider was asked for, in the order of the calls.
abbrev pub refunded_ids : List Call → List String
refunded_ids [] = []
refunded_ids (refunded id answer ∷ cs) = id ∷ refunded_ids cs
refunded_ids (_ ∷ cs) = refunded_ids cs

-- Some refund threw.
abbrev pub refund_failed : List Call → Bool
refund_failed [] = false
refund_failed (refunded id (err e) ∷ cs) = true
refund_failed (_ ∷ cs) = refund_failed cs

abbrev pub stacked_ids : List Compensation → List String
stacked_ids [] = []
stacked_ids (refund_charge r ∷ cs) = paid r ++ stacked_ids cs
stacked_ids (revoke_license id ∷ cs) = stacked_ids cs

pub charged_ids-append :
    (xs ys : List Call) → charged_ids (xs ++ ys) ≡ charged_ids xs ++ charged_ids ys
charged_ids-append [] ys = refl
charged_ids-append (charged (ok r) ∷ xs) ys =
    ap (λ t. paid r ++ t) (charged_ids-append xs ys) ∙ sym (append_assoc (paid r) _ _)
charged_ids-append (charged (err e) ∷ xs) ys = charged_ids-append xs ys
charged_ids-append (refunded id a ∷ xs) ys = charged_ids-append xs ys

pub refunded_ids-append :
    (xs ys : List Call) → refunded_ids (xs ++ ys) ≡ refunded_ids xs ++ refunded_ids ys
refunded_ids-append [] ys = refl
refunded_ids-append (charged r ∷ xs) ys = refunded_ids-append xs ys
refunded_ids-append (refunded id a ∷ xs) ys = ap (λ t. id ∷ t) (refunded_ids-append xs ys)

pub refund_failed-append :
    (xs ys : List Call) → refund_failed (xs ++ ys) ≡ (refund_failed xs || refund_failed ys)
refund_failed-append [] ys = refl
refund_failed-append (charged r ∷ xs) ys = refund_failed-append xs ys
refund_failed-append (refunded id (ok u) ∷ xs) ys = refund_failed-append xs ys
refund_failed-append (refunded id (err e) ∷ xs) ys = refl

pub stacked_ids-append :
    (xs ys : List Compensation) → stacked_ids (xs ++ ys) ≡ stacked_ids xs ++ stacked_ids ys
stacked_ids-append [] ys = refl
stacked_ids-append (refund_charge r ∷ xs) ys =
    ap (λ t. paid r ++ t) (stacked_ids-append xs ys) ∙ sym (append_assoc (paid r) _ _)
stacked_ids-append (revoke_license id ∷ xs) ys = stacked_ids-append xs ys

-- At most one payment, so its list reads the same both ways.
reverse-paid_if : (id : String) (c : ChargeStatus) → reverse (paid_if id c) ≡ paid_if id c
reverse-paid_if id succeeded = refl
reverse-paid_if id _ = refl

pub stacked_ids-reverse :
    (cs : List Compensation) → stacked_ids (reverse cs) ≡ reverse (stacked_ids cs)
stacked_ids-reverse [] = refl
stacked_ids-reverse (refund_charge r ∷ cs) =
    ap stacked_ids (reverse-append (refund_charge r ∷ []) cs)
    ∙ (stacked_ids-append (reverse cs) (refund_charge r ∷ [])
        ∙ (rw (stacked_ids-reverse cs, append-nil, reverse-append, reverse-paid_if)))
stacked_ids-reverse (revoke_license id ∷ cs) =
    ap stacked_ids (reverse-append (revoke_license id ∷ []) cs)
    ∙ (stacked_ids-append (reverse cs) (revoke_license id ∷ [])
        ∙ (rw (stacked_ids-reverse cs, append-nil)))
