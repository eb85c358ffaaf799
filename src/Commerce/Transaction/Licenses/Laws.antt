-- ===== src/Commerce/Transaction/Licenses/Laws.antt =====
-- transaction/index.ts: what the durations of licenses mean.
use intellibiz.Shared.{
  ℕ, ◌+◌, ◌*◌, ◌≡◌, refl, ap, ◌∙◌, false, some, [], ◌∷◌, ◌++◌, ◌<◌, arith, length,
}
use intellibiz.Shared.Text.{
  Text, show, read_from, is_digit, span_digits-append, Digits-show, read_from-show, length-show_pos,
}
use intellibiz.Commerce.Transaction.Licenses.{
  matched_ms, duration_ms, unit_ms, resolve_license_expiry,
}

matched_ms_lem :
    (s unit : Text) (n : ℕ)
    → 0 < length s
    → read_from 0 s ≡ n
    → matched_ms (s, unit) ≡ unit_ms unit n
unfolding matched_ms
matched_ms_lem [] unit n h r = absurd (omega arith)
matched_ms_lem (c ∷ s) unit n h r = ap (unit_ms unit) r

duration_ms-show :
    (n c : ℕ) → is_digit c ≡ false → duration_ms (show n ++ c ∷ []) ≡ unit_ms (c ∷ []) n
unfolding duration_ms
duration_ms-show n c stop =
    ap matched_ms (span_digits-append (show n) c [] (Digits-show n) stop)
    ∙ matched_ms_lem (show n) (c ∷ []) n (length-show_pos n) (read_from-show n)

-- A license whose duration is a decimal number and one of the units m, h, d and y expires so many
-- minutes, hours, days or years of 365 days after the reading of the clock.
pub resolve_license_expiry-show :
    (now n : ℕ)
    → (resolve_license_expiry now (some (show n ++ b'm' ∷ [])) ≡ now + n * 60000)
      × (resolve_license_expiry now (some (show n ++ b'h' ∷ [])) ≡ now + n * 3600000)
      × (resolve_license_expiry now (some (show n ++ b'd' ∷ [])) ≡ now + n * 86400000)
      × (resolve_license_expiry now (some (show n ++ b'y' ∷ [])) ≡ now + n * 31536000000)
unfolding resolve_license_expiry unit_ms
resolve_license_expiry-show now n = (
  rw (duration_ms-show n b'm' refl, resolve_license_expiry) (omega arith),
  rw (duration_ms-show n b'h' refl, resolve_license_expiry) (omega arith),
  rw (duration_ms-show n b'd' refl, resolve_license_expiry) (omega arith),
  rw (duration_ms-show n b'y' refl, resolve_license_expiry) (omega arith),
)
