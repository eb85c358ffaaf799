-- ===== src/Testing/Clock.antt =====
-- packages/testing/src/time-travel.ts: the virtual clock. The state that its functions change is
-- passed on; the real time is an argument, which the code reads from `Date.now`.
pub mod Timeline
use intellibiz.Shared.{
  ℤ, pos, negsuc, difference, plus, ℕ, suc, ◌+◌, ◌-◌, ◌*◌, ◌≤◌, Bool, true, false, Option, none,
  some, List, [], ◌∷◌, ltb, if◌then◌else◌, Result, ok, err,
}
use intellibiz.Shared.Text.{Text, codes, same_text, span_digits, read_from}

-- the factor of a unit
unfoldable pub unit_ms : Text → Option ℕ
unfolding same_text
unit_ms unit =
    if same_text unit (codes "ms")
    then some 1
    else (if same_text unit (codes "s")
        then some 1000
        else (if same_text unit (codes "m")
            then some 60000
            else (if same_text unit (codes "h")
                then some 3600000
                else (if same_text unit (codes "d")
                    then some 86400000
                    else (if same_text unit (codes "w")
                        then some 604800000
                        else (if same_text unit (codes "y") then some 31536000000 else none))))))

-- The match of `/^(\d+)(ms|s|m|h|d|w|y)$/`: digits, at least one, and then a unit.
abbrev matched : Text × Text → Result ℕ
matched ([], unit) = err "Invalid duration format"
matched (d ∷ digits, unit) = elim (unit_ms unit) [
  | none ↦ err "Invalid duration format"
  | some factor ↦ ok (read_from 0 (d ∷ digits) * factor)
]

unfoldable pub parse_duration : Text → Result ℕ
unfolding unit_ms span_digits read_from
parse_duration duration = matched (span_digits duration)

-- `_offset`, `_frozenAt`, and whether `Date.now` is the virtual clock
pub record Clock : Type 0 where
  pub offset : ℤ
  pub frozen_at : Option ℕ
  pub installed : Bool

abbrev pub initial : Clock
initial = record { offset = pos 0; frozen_at = none; installed = false }

-- `_originalDateNow()` is `real`.
unfoldable pub virtual_now : ℕ → Clock → ℤ
virtual_now real clock = elim clock.frozen_at [ some at ↦ pos at | none ↦ plus clock.offset real ]

-- `Date.now()`
unfoldable pub date_now : ℕ → Clock → ℤ
unfolding virtual_now
date_now real clock = if clock.installed then virtual_now real clock else pos real

unfoldable pub install_virtual_clock : Clock → Clock
install_virtual_clock clock = record clock { installed = true }

unfoldable pub restore_real_clock : Clock → Clock
restore_real_clock clock = record { offset = pos 0; frozen_at = none; installed = false }

unfoldable pub reset : Clock → Clock
reset clock = record clock { offset = pos 0; frozen_at = none }

unfoldable pub get_offset : Clock → ℤ
get_offset clock = clock.offset

unfoldable pub freeze : ℕ → ℕ → Clock → Clock
freeze real timestamp_ms clock = record clock {
  offset = difference timestamp_ms real;
  frozen_at = some timestamp_ms;
}

-- the change of the state, by what the duration is parsed to
abbrev pub moved : Result ℕ → Clock → Result Clock
moved (err e) clock = err e
moved (ok ms) clock = ok (record clock { offset = plus clock.offset ms })

unfoldable pub advance : Text → Clock → Result Clock
unfolding parse_duration
advance duration clock = moved (parse_duration duration) clock

-- what the frozen clock does with what the duration is parsed to
abbrev pub moved_from : Option ℕ → Result ℕ → Clock → Result Clock
moved_from none r clock = err "advanceFromFrozen: clock is not frozen. Call time.freeze() first."
moved_from (some at) (err e) clock = err e
moved_from (some at) (ok ms) clock = ok (record clock { frozen_at = some (at + ms) })

unfoldable pub advance_from_frozen : Text → Clock → Result Clock
unfolding parse_duration
advance_from_frozen duration clock = moved_from clock.frozen_at (parse_duration duration) clock
