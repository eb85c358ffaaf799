-- ===== src/Testing/Clock/Timeline.antt =====
-- packages/testing/src/time-travel.ts: durations are read as they are written, and the clock keeps
-- the promise of a clock that either runs at a distance from the real one or stands still.
use intellibiz.Shared.{
  ℤ, pos, plus, ℕ, ◌+◌, ◌*◌, true, Option, none, some, List, [], ◌∷◌, ◌++◌, Result, ok, err, ◌≡◌,
  refl, ap, arith, Option-cases, length, ◌<◌, Bool-cases, inl, inr, sym, ◌∙◌,
}
use intellibiz.Shared.Text.{
  Text, show, Digits-show, length-show_pos, span_digits-append, read_from-show, is_digit, read_from,
  same_text,
}
use intellibiz.Testing.Clock.{
  unit_ms, matched, parse_duration, Clock, virtual_now, reset, freeze, moved, advance, moved_from,
  advance_from_frozen, install_virtual_clock, restore_real_clock,
}

digit-is_no_unit : (c : ℕ) (t : Text) → is_digit c ≡ true → unit_ms (c ∷ t) ≡ none
unfolding unit_ms same_text
digit-is_no_unit c t h = ground (arith, h)

matched-filled :
    (digits unit : Text) (factor : ℕ)
    → 0 < length digits
    → unit_ms unit ≡ some factor
    → matched (digits, unit) ≡ ok (read_from 0 digits * factor)
matched-filled [] unit factor filled h = absurd (omega (arith, filled))
matched-filled (d ∷ digits) unit factor filled h = rw (h, matched) refl

-- The duration of `n` units, written as the number and the unit, is read as `n` times what the unit
-- is in milliseconds.
pub parse_duration-show :
    (n factor : ℕ) (unit : Text)
    → unit_ms unit ≡ some factor
    → parse_duration (show n ++ unit) ≡ ok (n * factor)
unfolding parse_duration
parse_duration-show n factor [] h = absurd (unfold unit_ms in ground (arith, h))
parse_duration-show n factor (c ∷ t) h = elim (Bool-cases (is_digit c)) [
  | inl digit ↦ absurd (ground (arith, h, digit-is_no_unit c t digit))
  | inr other ↦ rw (span_digits-append (show n) c t (Digits-show n) other) (
      matched-filled (show n) (c ∷ t) factor (length-show_pos n) h
      ∙ ap (λ m. ok (m * factor)) (read_from-show n))
]

pub data Command : Type 0 where
  advances advances_from_frozen : Text → Command
  freezes : ℕ → ℕ → Command
  resets installs restores : Command

-- A call that throws has changed nothing.
abbrev pub kept : Clock → Result Clock → Clock
kept clock (ok c) = c
kept clock (err e) = clock

unfoldable pub tick : Command → Clock → Clock
unfolding advance advance_from_frozen freeze reset install_virtual_clock restore_real_clock
tick (advances duration) clock = kept clock (advance duration clock)
tick (advances_from_frozen duration) clock = kept clock (advance_from_frozen duration clock)
tick (freezes real timestamp_ms) clock = freeze real timestamp_ms clock
tick resets clock = reset clock
tick installs clock = install_virtual_clock clock
tick restores clock = restore_real_clock clock

unfoldable pub run : List Command → Clock → Clock
unfolding tick
run [] clock = clock
run (c ∷ cs) clock = run cs (tick c clock)

-- The specification: a time that runs at a distance from the real one, or one that stands.
pub data Timeline : Type 0 where
  shifted : ℤ → Timeline
  standing : ℕ → Timeline

unfoldable pub time_at : ℕ → Timeline → ℤ
time_at real (shifted z) = plus z real
time_at real (standing at) = pos at

abbrev pub later : Result ℕ → Timeline → Timeline
later (ok ms) (shifted z) = shifted (plus z ms)
later _ time = time

abbrev pub later_standing : Result ℕ → Timeline → Timeline
later_standing (ok ms) (standing at) = standing (at + ms)
later_standing _ time = time

unfoldable pub turn : Command → Timeline → Timeline
turn (advances duration) time = later (parse_duration duration) time
turn (advances_from_frozen duration) time = later_standing (parse_duration duration) time
turn (freezes real timestamp_ms) time = standing timestamp_ms
turn installs time = time
turn _ time = shifted (pos 0)

unfoldable pub turns : List Command → Timeline → Timeline
unfolding turn
turns [] time = time
turns (c ∷ cs) time = turns cs (turn c time)

abbrev seen : ℤ → Option ℕ → Timeline
seen offset none = shifted offset
seen offset (some at) = standing at

-- What can be seen of the state: the offset of a frozen clock is forgotten.
abbrev pub view : Clock → Timeline
view clock = seen clock.offset clock.frozen_at

seen-later : (z : ℤ) (o : Option ℕ) (ms : ℕ) → seen (plus z ms) o ≡ later (ok ms) (seen z o)
seen-later z none ms = refl
seen-later z (some at) ms = refl

view-moved :
    (r : Result ℕ) (clock : Clock) → view (kept clock (moved r clock)) ≡ later r (view clock)
view-moved (err e) clock = refl
view-moved (ok ms) clock = seen-later clock.offset clock.frozen_at ms

later_standing-shifted : (r : Result ℕ) (z : ℤ) → later_standing r (shifted z) ≡ shifted z
later_standing-shifted (err e) z = refl
later_standing-shifted (ok ms) z = refl

view-moved_from :
    (o : Option ℕ) (r : Result ℕ) (clock : Clock)
    → clock.frozen_at ≡ o
    → view (kept clock (moved_from o r clock)) ≡ later_standing r (seen clock.offset o)
view-moved_from none r clock h = rw h (sym (later_standing-shifted r clock.offset))
view-moved_from (some at) (err e) clock h = rw h refl
view-moved_from (some at) (ok ms) clock h = refl

view-tick : (c : Command) (clock : Clock) → view (tick c clock) ≡ turn c (view clock)
unfolding tick turn advance advance_from_frozen freeze reset install_virtual_clock
    restore_real_clock
view-tick (advances duration) clock = view-moved (parse_duration duration) clock
view-tick (advances_from_frozen duration) clock =
    view-moved_from clock.frozen_at (parse_duration duration) clock refl
view-tick (freezes real timestamp_ms) clock = refl
view-tick resets clock = refl
view-tick installs clock = refl
view-tick restores clock = refl

virtual_now-view : (real : ℕ) (clock : Clock) → virtual_now real clock ≡ time_at real (view clock)
unfolding virtual_now time_at
virtual_now-view real clock = elim (Option-cases clock.frozen_at) [
  | inl e ↦ rw (e, virtual_now) refl
  | inr e ↦ rw (e.1, virtual_now) refl
]

view-run : (cs : List Command) (clock : Clock) → view (run cs clock) ≡ turns cs (view clock)
unfolding run turns
view-run [] clock = refl
view-run (c ∷ cs) clock = view-run cs (tick c clock) ∙ ap (turns cs) (view-tick c clock)

-- Whatever is called on the virtual clock, and in whatever order, the time that it tells at a real
-- time is the one of the specification after the same calls: a time that runs at a distance from the
-- real one or stands still, in which a call that throws changes nothing.
pub virtual_now-run :
    (cs : List Command) (clock : Clock) (real : ℕ)
    → virtual_now real (run cs clock) ≡ time_at real (turns cs (view clock))
virtual_now-run cs clock real =
    virtual_now-view real (run cs clock) ∙ ap (time_at real) (view-run cs clock)
