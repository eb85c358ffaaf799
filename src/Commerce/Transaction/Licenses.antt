-- ===== src/Commerce/Transaction/Licenses.antt =====
-- transaction/index.ts: the licenses that a transaction issues, and their expiry.
pub mod Laws
use intellibiz.Shared.{
  ℕ, ◌+◌, ◌*◌, Bool, true, false, ◌||◌, Option, none, some, List, [], ◌∷◌, ◌++◌, eqb, if◌then◌else◌,
}
use intellibiz.Shared.Text.{Text, codes, show, read_from, span_digits, take_last, to_upper}

pub record LicenseIssueParams : Type 0 where
  pub plan : Text
  pub duration : Option Text

-- The expiry is the time value of the source's `Date`.
pub record LicenseResult : Type 0 where
  pub id : Text
  pub key : Text
  pub plan : Text
  pub expires_at : ℕ

abbrev pub year_ms : ℕ
year_ms = 365 * 24 * 60 * 60 * 1000

-- the table of `ms`, for the units that the regular expression lets through
unfoldable pub unit_ms : Text → ℕ → Option ℕ
unit_ms (u ∷ []) n =
    if eqb u b'm'
    then some (n * 60 * 1000)
    else if eqb u b'h'
    then some (n * 60 * 60 * 1000)
    else if eqb u b'd'
    then some (n * 24 * 60 * 60 * 1000)
    else if eqb u b'y'
    then some (n * 365 * 24 * 60 * 60 * 1000)
    else none
unit_ms _ n = none

-- The groups of the match, for a text split behind its digits.
unfoldable pub matched_ms : Text × Text → Option ℕ
unfolding unit_ms
matched_ms ([], unit) = none
matched_ms (d ∷ ds, unit) = unit_ms unit (read_from 0 (d ∷ ds))

-- `duration.match(/^(\d+)(d|h|m|y)$/)`, and the product with the unit
unfoldable pub duration_ms : Text → Option ℕ
unfolding matched_ms
duration_ms s = matched_ms (span_digits s)

unfoldable pub resolve_license_expiry : ℕ → Option Text → ℕ
resolve_license_expiry now none = now + year_ms
resolve_license_expiry now (some duration) = elim (duration_ms duration) [
  | none ↦ now + year_ms
  | some ms ↦ now + ms
]

unfoldable pub license_key : Text → Text
license_key journal = codes "LIC-" ++ to_upper (take_last 8 journal)

-- The two readings of the clock are for the id and for the expiry.
unfoldable pub issue_license : ℕ → ℕ → Text → LicenseIssueParams → LicenseResult
issue_license now later journal params = record {
  id = codes "ibiz_lic_" ++ show now;
  key = license_key journal;
  plan = params.plan;
  expires_at = resolve_license_expiry later params.duration;
}
