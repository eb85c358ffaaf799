-- ===== src/Commerce/BankRetry/Entries.antt =====
-- bank-retry.ts: one entry is resolved as often as its flag says, by each operation on it.
use intellibiz.Shared.{
  ℕ, suc, ◌+◌, ◌≡◌, refl, true, false, Option, none, some, List, [], ◌∷◌, ◌++◌, inl, inr, ◌-◌, ◌||◌,
  leb, get_elem?, eqb, eqb_iff, if◌then◌else◌, if_intro, arith, get_elem?-set, Bool-cases,
}
use intellibiz.Commerce.State.{TransactionState, committed, rolled_back, manual_review}
use intellibiz.Commerce.BankRetry.{
  succeeded, failed, Answer, status, RetryEntry, Machine, max_poll_duration_ms, max_poll_attempts,
  write, settle, schedule_entry, fire_entry, receive, answer_entry,
}

-- How often `onResolved` has been called for the entry.
abbrev pub resolved_count : ℕ → List (ℕ × TransactionState) → ℕ
resolved_count ref [] = 0
resolved_count ref ((r, final) ∷ rest) =
    if eqb r ref then suc (resolved_count ref rest) else resolved_count ref rest

resolved_count-concat :
    (ref r : ℕ) (final : TransactionState) (rs : List (ℕ × TransactionState))
    → resolved_count ref (rs ++ (r, final) ∷ [])
      ≡ (if eqb r ref then suc (resolved_count ref rs) else resolved_count ref rs)
resolved_count-concat ref r final [] = refl
resolved_count-concat ref r final ((q, f) ∷ rs) =
    ground (arith, resolved_count-concat ref r final rs)

-- An entry that is resolved is at rest, and one that polls has no timer.
pub record IsSteady (e : RetryEntry) : Type 0 where
  pub at_rest : e.resolved ≡ true → (e.timer ≡ false) × (e.polling ≡ false)
  pub one_task : e.polling ≡ true → e.timer ≡ false

-- The entry has been resolved as often as its flag says.
abbrev pub OnceAt : Option RetryEntry → ℕ → Type 0
OnceAt none n = n ≡ 0
OnceAt (some e) n = (n ≡ (if e.resolved then 1 else 0)) × IsSteady e

abbrev pub IsOnce : Machine → Type 0
IsOnce m = (ref : ℕ) → OnceAt (get_elem? m.entries ref) (resolved_count ref m.resolutions)

module _ (m : Machine) (once : IsOnce m) (ref : ℕ) (e : RetryEntry)
    (at : get_elem? m.entries ref ≡ some e) where
  pub at_entry-Once : OnceAt (some e) (resolved_count ref m.resolutions)
  at_entry-Once = rw at at (once ref)

  pub write-IsOnce :
      (e' : RetryEntry) → e'.resolved ≡ e.resolved → IsSteady e' → IsOnce (write ref e' m)
  unfolding write
  write-IsOnce e' same steady r = elim (Bool-cases (eqb ref r)) [
    | inl hit ↦
        let here : ref ≡ r = (eqb_iff ref r).0 hit in
        rw (get_elem?-set, hit, ← here, at) (rw same at_entry-Once.0, steady)
    | inr miss ↦ rw (get_elem?-set, miss) (once r)
  ]

  settle-IsOnce :
      (e' : RetryEntry) (final : TransactionState)
      → e.resolved ≡ false
      → e'.timer ≡ false
      → e'.polling ≡ false
      → IsOnce (settle ref e' final m)
  unfolding settle
  settle-IsOnce e' final fresh still quiet r = elim (Bool-cases (eqb ref r)) [
    | inl hit ↦
        let here : ref ≡ r = (eqb_iff ref r).0 hit in
        rw (get_elem?-set, resolved_count-concat, hit, ← here, at)
          (
            ground (arith, at_entry-Once.0),
            record { at_rest = λ _. (still, quiet); one_task = λ _. still },
          )
    | inr miss ↦ rw (get_elem?-set, resolved_count-concat, miss) (once r)
  ]

  pub schedule_entry-IsOnce :
      (now : ℕ) → e.timer ≡ false → e.polling ≡ false → IsOnce (schedule_entry now ref e m)
  unfolding schedule_entry
  schedule_entry-IsOnce now still quiet =
      if_intro IsOnce e.resolved (λ done. once)
        (λ fresh.
          if_intro IsOnce
            (leb max_poll_duration_ms (now - e.start_time) || leb max_poll_attempts e.attempt)
            (λ over. settle-IsOnce e manual_review fresh still quiet)
            (λ more.
              write-IsOnce (record e { attempt = e.attempt + 1; timer = true }) refl
                (record { at_rest = λ done. cc; one_task = λ polls. cc })))

  pub fire_entry-IsOnce : IsOnce (fire_entry ref e m)
  unfolding fire_entry
  fire_entry-IsOnce =
      if_intro IsOnce e.timer
        (λ is_set.
          if_intro IsOnce e.resolved
            (λ done.
              write-IsOnce (record e { timer = false }) refl (ground (arith, at_entry-Once.1)))
            (λ fresh.
              write-IsOnce (record e { timer = false; polling = true; polls = e.polls + 1 }) refl
                (record { at_rest = λ done. cc; one_task = λ _. refl })))
        (λ none_set. once)

get_elem?-write :
    (ref : ℕ) (e e' : RetryEntry) (m : Machine)
    → get_elem? m.entries ref ≡ some e
    → get_elem? (write ref e' m).entries ref ≡ some e'
unfolding write
get_elem?-write ref e e' m at = rw (get_elem?-set, (eqb_iff ref ref).1 refl, at)

module _ (m : Machine) (once : IsOnce m) (ref : ℕ) (e : RetryEntry)
    (at : get_elem? m.entries ref ≡ some e) (polls : e.polling ≡ true) where
  fresh_while_polling : (e.resolved ≡ false) × (e.timer ≡ false)
  fresh_while_polling = ground (arith, (at_entry-Once m once ref e at).1)

  reschedule-IsOnce :
      (now : ℕ)
      → let e' = record e { polling = false } in IsOnce (schedule_entry now ref e' (write ref e' m))
  reschedule-IsOnce now =
      let e' : RetryEntry = record e { polling = false } in
      let (fresh, still) = fresh_while_polling in
      schedule_entry-IsOnce (write ref e' m)
        (write-IsOnce m once ref e at e' refl
          (record { at_rest = λ done. cc; one_task = λ _. still }))
        ref e' (get_elem?-write ref e e' m at) now still refl

  receive-IsOnce :
      (now : ℕ) (a : Answer) → IsOnce (receive now ref (record e { polling = false }) a m)
  unfolding receive
  receive-IsOnce now (status succeeded) =
      settle-IsOnce m once ref e at _ committed fresh_while_polling.0 fresh_while_polling.1 refl
  receive-IsOnce now (status failed) =
      settle-IsOnce m once ref e at _ rolled_back fresh_while_polling.0 fresh_while_polling.1 refl
  receive-IsOnce now _ = reschedule-IsOnce now

pub answer_entry-IsOnce :
    (m : Machine)
    → IsOnce m
    → (now ref : ℕ) (e : RetryEntry) (answer : Answer) → get_elem? m.entries ref ≡ some e
    → IsOnce (answer_entry now ref e answer m)
unfolding answer_entry
answer_entry-IsOnce m once now ref e answer at =
    if_intro IsOnce e.polling (λ polls. receive-IsOnce m once ref e at polls now answer)
      (λ quiet. once)
