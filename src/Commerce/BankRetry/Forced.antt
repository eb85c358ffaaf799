-- ===== src/Commerce/BankRetry/Forced.antt =====
-- bank-retry.ts: a payment that is resolved by hand.
use mathlib.Core.List.{append_assoc}
use intellibiz.Shared.{
  ◌∙◌, ℕ, ◌≡◌, refl, true, false, some, [], ◌∷◌, ◌++◌, get_elem?, eqb_iff, arith, get_elem?-set,
}
use intellibiz.Shared.Table
use intellibiz.Shared.Table.{Table}
use intellibiz.Commerce.State.{TransactionState, committed, rolled_back}
use intellibiz.Commerce.BankRetry.{
  succeeded, failed, status, RetryEntry, Machine, settle, answer_entry, at_entry, force_resolve,
  answered, forced, step,
}

forced-eq-settle :
    (m : Machine) (ref : ℕ) (e : RetryEntry) (final : TransactionState)
    → Table.get e.payment_id m.active ≡ some ref
    → get_elem? m.entries ref ≡ some e
    → step (forced e.payment_id final) m ≡ settle ref (record e { timer = false }) final m
unfolding step force_resolve
forced-eq-settle m ref e final at_key at = rw (at_key, force_resolve) (rw (at, at_entry))

resolutions-answered :
    (m : Machine) (ref now : ℕ) (e : RetryEntry)
    → get_elem? m.entries ref ≡ some e
    → e.polling ≡ true
    → ((step (answered now ref (status succeeded)) m).resolutions
        ≡ m.resolutions ++ (ref, committed) ∷ [])
      × ((step (answered now ref (status failed)) m).resolutions
          ≡ m.resolutions ++ (ref, rolled_back) ∷ [])
unfolding step answer_entry settle
resolutions-answered m ref now e at polls =
    (rw (at, at_entry) (ground arith), rw (at, at_entry) (ground arith))

-- A payment that is resolved by hand while its poll is awaited is resolved a second time when the
-- bank then reports success or failure, whatever the first resolution was.
pub resolutions-forced :
    (m : Machine) (ref now : ℕ) (e : RetryEntry) (final : TransactionState)
    → Table.get e.payment_id m.active ≡ some ref
    → get_elem? m.entries ref ≡ some e
    → e.polling ≡ true
    → let m' = step (forced e.payment_id final) m in
      ((step (answered now ref (status succeeded)) m').resolutions
        ≡ m.resolutions ++ (ref, final) ∷ (ref, committed) ∷ [])
      × ((step (answered now ref (status failed)) m').resolutions
          ≡ m.resolutions ++ (ref, final) ∷ (ref, rolled_back) ∷ [])
unfolding settle
resolutions-forced m ref now e final at_key at polls =
    let m' = settle ref (record e { timer = false }) final m in
    let at' : get_elem? m'.entries ref ≡ some (record e { timer = false; resolved = true }) =
      unfold settle in rw (get_elem?-set, (eqb_iff ref ref).1 refl, at) in
    let (yes_answer, no_answer) = resolutions-answered m' ref now _ at' polls in
    rw (forced-eq-settle m ref e final at_key at)
      (yes_answer ∙ append_assoc m.resolutions _ _, no_answer ∙ append_assoc m.resolutions _ _)
