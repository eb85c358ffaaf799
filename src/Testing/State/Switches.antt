-- ===== src/Testing/State/Switches.antt =====
-- packages/testing/src/index.ts: the failures of steps are queues.
use intellibiz.Shared.{
  String, Option, none, some, List, [], ◌∷◌, ◌++◌, ◌==◌, eq_iff, if◌then◌else◌, ◌≡◌, refl, ap, ◌∙◌,
  arith,
}
use intellibiz.Testing.State.{MockPayments, fail_on, taken, get_step_failure}

-- What a test does with the switches, and what it sees
pub data Switch (X : Type 0) : Type 0 where
  fails : String → X → Switch X
  takes : String → Switch X

module _ {R X : Type 0} where
  unfoldable pub switch_all : List (Switch X) → MockPayments R X → List (Option X)
  unfolding fail_on get_step_failure
  switch_all [] m = []
  switch_all (fails step error ∷ ops) m = switch_all ops (fail_on step error m)
  switch_all (takes step ∷ ops) m =
      let (found, m') = get_step_failure step m in found ∷ switch_all ops m'

module _ {X : Type 0} where
  abbrev pub first : List X → Option X
  first [] = none
  first (e ∷ es) = some e

  abbrev pub others : List X → List X
  others [] = []
  others (e ∷ es) = es

  -- The reference: a queue of errors for each step
  abbrev pub queue_all : List (Switch X) → (String → List X) → List (Option X)
  queue_all [] q = []
  queue_all (fails step error ∷ ops) q =
      queue_all ops (λ other. if step == other then q other ++ error ∷ [] else q other)
  queue_all (takes step ∷ ops) q =
      first (q step) ∷ queue_all ops (λ other. if step == other then others (q other) else q other)

  -- The errors of a step, in their order
  abbrev pub errors_of : String → List (String × X) → List X
  errors_of step [] = []
  errors_of step ((s, e) ∷ fs) =
      let rest = errors_of step fs in if s == step then e ∷ rest else rest

  errors_of-append :
      (other step : String) (error : X) (fs : List (String × X))
      → errors_of other (fs ++ (step, error) ∷ [])
        ≡ (if step == other then errors_of other fs ++ error ∷ [] else errors_of other fs)
  errors_of-append other step error [] = ground arith
  errors_of-append other step error ((s, e) ∷ fs) =
      ground (arith, errors_of-append other step error fs)

  taken-first :
      (step : String) (fs : List (String × X)) → (taken step fs).0 ≡ first (errors_of step fs)
  unfolding taken
  taken-first step [] = refl
  taken-first step ((s, e) ∷ fs) = ground (arith, taken-first step fs)

  errors_of-taken :
      (other step : String) (fs : List (String × X))
      → errors_of other (taken step fs).1
        ≡ (if step == other then others (errors_of other fs) else errors_of other fs)
  unfolding taken
  errors_of-taken other step [] = ground arith
  errors_of-taken other step ((s, e) ∷ fs) =
      ground
        (arith, errors_of-taken other step fs, eq_iff s step, eq_iff step other, eq_iff s other)

switch_all-queues :
    {R X : Type 0} (ops : List (Switch X)) (m : MockPayments R X) (q : String → List X)
    → ((step : String) → errors_of step m.step_failures ≡ q step)
    → switch_all ops m ≡ queue_all ops q
unfolding switch_all fail_on get_step_failure
switch_all-queues [] m q h = refl
switch_all-queues (fails step error ∷ ops) m q h =
    switch_all-queues ops (fail_on step error m)
      (λ other. if step == other then q other ++ error ∷ [] else q other)
      (λ other.
        errors_of-append other step error m.step_failures
        ∙ ap (λ es. if step == other then es ++ error ∷ [] else es) (h other))
switch_all-queues (takes step ∷ ops) m q h =
    ap (λ o. o ∷ switch_all ops (get_step_failure step m).1)
      (taken-first step m.step_failures ∙ ap first (h step))
    ∙ ap (λ os. first (q step) ∷ os)
        (switch_all-queues ops (get_step_failure step m).1
          (λ other. if step == other then others (q other) else q other)
          (λ other.
            errors_of-taken other step m.step_failures
            ∙ ap (λ es. if step == other then others es else es) (h other)))

-- The failures of steps are a queue for each step: whatever sequence of calls of failOn and of
-- questions for a failure comes, each question gets the oldest error of its step that no question has
-- got before, and the other steps keep theirs.
pub switch_all-queue_all :
    {R X : Type 0} (ops : List (Switch X)) (m : MockPayments R X)
    → switch_all ops m ≡ queue_all ops (λ step. errors_of step m.step_failures)
switch_all-queue_all ops m =
    switch_all-queues ops m (λ step. errors_of step m.step_failures) (λ step. refl)
