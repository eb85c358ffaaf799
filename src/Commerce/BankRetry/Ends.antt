-- ===== src/Commerce/BankRetry/Ends.antt =====
-- bank-retry.ts: a retry whose polls are answered comes to an end.
use intellibiz.Shared.{
  ℕ, ◌+◌, ◌-◌, ◌≤◌, ◌<◌, ◌||◌, ◌≡◌, refl, sym, subst, true, false, some, List, [], ◌∷◌, ◌⊎◌, inl,
  inr, length, get_elem?, leb, eqb_iff, if_intro, arith, get_elem?-set,
}
use intellibiz.Commerce.State.{committed, rolled_back, manual_review}
use intellibiz.Commerce.BankRetry.{
  succeeded, failed, Answer, status, RetryEntry, Machine, max_poll_duration_ms, max_poll_attempts,
  write, settle, schedule_entry, fire_entry, receive, answer_entry, at_entry, Event, fired,
  answered, step, run,
}

-- The timer fires and its poll is answered, once for each answer.
abbrev pub rounds : ℕ → List (ℕ × Answer) → List Event
rounds ref [] = []
rounds ref ((now, answer) ∷ rest) = fired ref ∷ answered now ref answer ∷ rounds ref rest

-- The entry at `ref` is resolved and at rest.
abbrev pub IsDone : ℕ → Machine → Type 0
IsDone ref m =
    (e : RetryEntry) × (get_elem? m.entries ref ≡ some e)
    × (e.resolved ≡ true)
    × (e.timer ≡ false)
    × (e.polling ≡ false)

-- The entry at `ref` waits for its timer after `n` attempts.
abbrev pub IsWaiting : ℕ → ℕ → Machine → Type 0
IsWaiting ref n m =
    (e : RetryEntry) × (get_elem? m.entries ref ≡ some e)
    × (e.resolved ≡ false)
    × (e.timer ≡ true)
    × (e.attempt ≡ n)

abbrev After : ℕ → ℕ → Machine → Type 0
After ref n m = IsDone ref m ⊎ ((n < max_poll_attempts) × IsWaiting ref (n + 1) m)

module _ (ref : ℕ) (m : Machine) (e : RetryEntry) (at : get_elem? m.entries ref ≡ some e) where
  settle-IsDone :
      (e' : RetryEntry) (final : _)
      → e'.timer ≡ false
      → e'.polling ≡ false
      → IsDone ref (settle ref e' final m)
  unfolding settle
  settle-IsDone e' final still quiet = (
    record e' { resolved = true },
    rw (get_elem?-set, (eqb_iff ref ref).1 refl, at),
    refl,
    still,
    quiet,
  )

  schedule_entry-After :
      (now : ℕ) (e' : RetryEntry)
      → e'.resolved ≡ false
      → e'.timer ≡ false
      → e'.polling ≡ false
      → After ref e'.attempt (schedule_entry now ref e' m)
  unfolding schedule_entry write
  schedule_entry-After now e' fresh still quiet =
      if_intro (After ref e'.attempt) e'.resolved (λ done. cc)
        (λ _.
          if_intro (After ref e'.attempt)
            (leb max_poll_duration_ms (now - e'.start_time) || leb max_poll_attempts e'.attempt)
            (λ over. inl (settle-IsDone e' manual_review still quiet))
            (λ more. inr (
              ground arith,
              (
                record e' { attempt = e'.attempt + 1; timer = true },
                rw (get_elem?-set, (eqb_iff ref ref).1 refl, at),
                fresh,
                refl,
                refl,
              ),
            )))

module _ (ref : ℕ) where
  receive-After :
      (m : Machine) (e : RetryEntry) (now : ℕ) (answer : Answer)
      → get_elem? m.entries ref ≡ some e
      → e.resolved ≡ false
      → e.timer ≡ false
      → e.polling ≡ true
      → let e' = record e { polling = false } in After ref e.attempt (receive now ref e' answer m)
  unfolding receive
  receive-After m e now (status succeeded) at fresh still polls =
      inl (settle-IsDone ref m e at _ committed still refl)
  receive-After m e now (status failed) at fresh still polls =
      inl (settle-IsDone ref m e at _ rolled_back still refl)
  receive-After m e now _ at fresh still polls =
      let e' : RetryEntry = record e { polling = false } in
      schedule_entry-After ref (write ref e' m) e'
        (unfold write in rw (get_elem?-set, (eqb_iff ref ref).1 refl, at)) now e' fresh still refl

module _ (ref : ℕ) (m : Machine) (e : RetryEntry) (at : get_elem? m.entries ref ≡ some e) where
  fired_set :
      e.timer ≡ true
      → e.resolved ≡ false
      → step (fired ref) m
        ≡ write ref (record e { timer = false; polling = true; polls = e.polls + 1 }) m
  unfolding step fire_entry
  fired_set is_set fresh = rw (at, at_entry) (ground arith)

  fired_unset : e.timer ≡ false → step (fired ref) m ≡ m
  unfolding step fire_entry
  fired_unset still = rw (at, at_entry) (ground arith)

  answered_polling :
      (now : ℕ) (answer : Answer)
      → e.polling ≡ true
      → step (answered now ref answer) m ≡ receive now ref (record e { polling = false }) answer m
  unfolding step answer_entry
  answered_polling now answer polls = rw (at, at_entry) (ground arith)

  answered_quiet :
      (now : ℕ) (answer : Answer) → e.polling ≡ false → step (answered now ref answer) m ≡ m
  unfolding step answer_entry
  answered_quiet now answer quiet = rw (at, at_entry) (ground arith)

module _ (ref : ℕ) where
  -- One round resolves the entry, or uses up one attempt.
  round_lem :
      (m : Machine) (n now : ℕ) (answer : Answer)
      → IsWaiting ref n m
      → After ref n (step (answered now ref answer) (step (fired ref) m))
  round_lem m n now answer (e, at, fresh, is_set, attempts) =
      let e₁ : RetryEntry = record e { timer = false; polling = true; polls = e.polls + 1 } in
      let m₁ : Machine = write ref e₁ m in
      let at₁ : get_elem? m₁.entries ref ≡ some e₁ =
        unfold write in rw (get_elem?-set, (eqb_iff ref ref).1 refl, at) in
      rw (fired_set ref m e at is_set fresh) (
        rw (answered_polling ref m₁ e₁ at₁ now answer refl) (
          subst (λ k. After ref k (receive now ref (record e₁ { polling = false }) answer m₁))
            attempts (receive-After ref m₁ e₁ now answer at₁ fresh refl refl)))

  round_done :
      (m : Machine) (now : ℕ) (answer : Answer)
      → IsDone ref m
      → step (answered now ref answer) (step (fired ref) m) ≡ m
  round_done m now answer (e, at, done, still, quiet) =
      rw (fired_unset ref m e at still) (answered_quiet ref m e at now answer quiet)

  rounds-IsDone :
      (answers : List (ℕ × Answer)) (m : Machine)
      → IsDone ref m
      → IsDone ref (run (rounds ref answers) m)
  unfolding run
  rounds-IsDone [] m done = done
  rounds-IsDone ((now, answer) ∷ rest) m done =
      subst (λ s. IsDone ref (run (rounds ref rest) s)) (sym (round_done m now answer done))
        (rounds-IsDone rest m done)

  -- A retry that waits for its timer after `n` attempts is resolved, and has neither a timer nor a
  -- poll left, after one more answer than there are attempts left, whatever the answers are,
  -- errors included, and whenever they come.
  pub run-IsDone :
      (answers : List (ℕ × Answer)) (n : ℕ) (m : Machine)
      → IsWaiting ref n m
      → n ≤ max_poll_attempts
      → max_poll_attempts < n + length answers
      → IsDone ref (run (rounds ref answers) m)
  unfolding run
  run-IsDone [] n m waiting bound enough = absurd (omega arith)
  run-IsDone ((now, answer) ∷ rest) n m waiting bound enough =
      elim (round_lem m n now answer waiting) [
        | inl done ↦ rounds-IsDone rest _ done
        | inr (more, waits) ↦ run-IsDone rest (n + 1) _ waits (omega arith) (omega arith)
      ]
