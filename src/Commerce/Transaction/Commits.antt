-- ===== src/Commerce/Transaction/Commits.antt =====
-- transaction/index.ts: what a transaction has done when it succeeds, and what its handle leaves
-- out.
use mathlib.Core.List.{append_assoc}
use intellibiz.Shared.{
  ℕ, ◌≤◌, ◌≡◌, refl, sym, ap, ◌∙◌, Bool, true, false, ◌||◌, List, [], ◌∷◌, ◌++◌, ok, err,
  if◌then◌else◌, arith,
}
use intellibiz.Shared.Text.{
  Text, codes, show, to_upper, take_last, take_last-append, power_of_ten, length-show,
}
use intellibiz.Commerce.Transaction.Licenses.{license_key}
use intellibiz.Commerce.State.{TransactionState, committed, pending_bank_reconciliation}
use intellibiz.Commerce.Transaction.{
  ChargeStatus, pending, ChargeParams, PaymentProvider, Program, returns, throws, charges, refunds,
  issues, grants, revokes, Call, charged, refunded, Run, noted, journal_id, charge_settled,
  charge_step, issue_step, interpret, finish, begun, transaction,
}
use intellibiz.Commerce.Transaction.Payments.{refunded_ids}
use intellibiz.Commerce.Transaction.Tracking.{interpret-IsTracked}

abbrev is_pending : ChargeStatus → Bool
is_pending pending = true
is_pending _ = false

-- The bank left some charge open.
abbrev pub left_open : List Call → Bool
left_open [] = false
left_open (charged (ok r) ∷ cs) = is_pending r.status || left_open cs
left_open (_ ∷ cs) = left_open cs

left_open-append : (xs ys : List Call) → left_open (xs ++ ys) ≡ (left_open xs || left_open ys)
left_open-append [] ys = refl
left_open-append (charged (ok r) ∷ xs) ys = ground (arith, left_open-append xs ys)
left_open-append (charged (err e) ∷ xs) ys = left_open-append xs ys
left_open-append (refunded id a ∷ xs) ys = left_open-append xs ys

-- While the callback runs, the state says whether the bank left a charge open.
abbrev Follows : {W : Type 0} → Run W → Type 0
Follows s =
    s.value ≡ (if left_open s.calls then pending_bank_reconciliation else TransactionState.pending)

module _ {A W : Type 0} (provider : PaymentProvider A W) (clock : ℕ → ℕ) (journal : Text) where
  charge_step-Follows :
      (params : ChargeParams A) (s : Run W)
      → Follows s
      → Follows (charge_step provider clock journal params s).1
  unfolding charge_step charge_settled noted
  charge_step-Follows params s h =
      ground (arith, left_open-append s.calls (charged (provider.charge params s.world).0 ∷ []))

  interpret-Follows :
      {T : Type 0} (fn : Program A T) (s : Run W)
      → Follows s
      → Follows (interpret provider clock journal fn s).1
  unfolding interpret issue_step
  interpret-Follows (returns v) s h = h
  interpret-Follows (throws e) s h = h
  interpret-Follows (charges params rest) s h =
      interpret-Follows (rest _) _ (charge_step-Follows params s h)
  interpret-Follows (refunds params rest) s h = interpret-Follows rest s h
  interpret-Follows (issues params rest) s h = interpret-Follows (rest _) _ h
  interpret-Follows (grants params rest) s h = interpret-Follows (rest _) _ h
  interpret-Follows (revokes id rest) s h = interpret-Follows rest s h

-- When the callback returns, the transaction resolves to its value and nothing was refunded, also
-- where the callback asked for refunds; the state is PENDING_BANK_RECONCILIATION if the bank left
-- some charge open, and COMMITTED otherwise.
pub transaction_commits :
    {A W T : Type 0} (provider : PaymentProvider A W) (clock : ℕ → ℕ) (tenant_id trace_id : Text)
    (fn : Program A T) (world : W) (v : T)
    → (interpret provider clock (journal_id tenant_id trace_id (clock 0)) fn (begun world)).0 ≡ ok v
    → let out = transaction provider clock tenant_id trace_id fn world in
      (out.0 ≡ ok v)
      × (refunded_ids out.1.calls ≡ [])
      × (out.1.value ≡ (if left_open out.1.calls then pending_bank_reconciliation else committed))
unfolding transaction finish
transaction_commits provider clock tenant_id trace_id fn world v success =
    let journal = journal_id tenant_id trace_id (clock 0) in
    let follows : Follows (interpret provider clock journal fn (begun world)).1 =
      interpret-Follows provider clock journal fn (begun world) refl in
    let tracked =
      interpret-IsTracked provider clock journal fn (begun world)
        (record { stacked = refl; unrefunded = refl; unfailed = refl }) in
    rw success (refl, tracked.unrefunded, ground arith)

ends-journal_id :
    (a b : Text) (now : ℕ)
    → power_of_ten 7 ≤ now
    → take_last 8 (journal_id a b now) ≡ take_last 8 (show now)
unfolding journal_id
ends-journal_id a b now big = simp append_assoc at (
    take_last-append 8 (codes "ibiz_txn_" ++ (a ++ (codes "_" ++ (b ++ codes "_")))) (show now)
      (length-show 7 now big))

-- A license key depends on nothing but the last eight digits of the time at which its transaction
-- began: whatever the tenants and the traces are, transactions whose times have at least eight
-- digits and agree in the last eight issue licenses with the same key.
pub license_key-journal_id :
    (t r t' r' : Text) (now now' : ℕ)
    → power_of_ten 7 ≤ now
    → power_of_ten 7 ≤ now'
    → take_last 8 (show now) ≡ take_last 8 (show now')
    → license_key (journal_id t r now) ≡ license_key (journal_id t' r' now')
unfolding license_key
license_key-journal_id t r t' r' now now' big big' same =
    ap (λ k. codes "LIC-" ++ to_upper k)
      (ends-journal_id t r now big ∙ (same ∙ sym (ends-journal_id t' r' now' big')))
