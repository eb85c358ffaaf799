-- ===== src/Shared/Strings.antt =====
-- JavaScript's `toString` of whole numbers, as a native string.
use Prim.Native.Nat.{ℕ, zero, suc, ◌/◌, ◌%◌}
use Prim.Native.String.{String, char_at, ◌++◌}
use intellibiz.Shared.Tests.{ltb, if◌then◌else◌}

-- `n.toString(base)`: one digit for each step; `fuel` above the number is enough.
unfoldable pub digits_from : ℕ → ℕ → ℕ → String
digits_from base zero n = ""
digits_from base (suc fuel) n =
    let front = digits_from base fuel (n / base) in
    let digit = String.◌∷◌ (char_at "0123456789abcdefghijklmnopqrstuvwxyz" (n % base)) String.[] in
    if ltb n base then digit else front ++ digit

unfoldable pub to_string : ℕ → ℕ → String
unfolding digits_from
to_string base n = digits_from base (suc n) n
