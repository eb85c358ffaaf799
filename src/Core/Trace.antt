-- ===== src/Core/Trace.antt =====
-- packages/core/src/trace.ts: trace ids. The clock and the random bytes are arguments; a text is its
-- code units.
pub mod Chronology
pub mod Validity
mod Tests
use intellibiz.Shared.{
  ℕ, zero, suc, ◌+◌, ◌-◌, ◌/◌, ◌%◌, Bool, true, false, ◌&&◌, ◌||◌, Option, none, some, List, [],
  ◌∷◌, ◌++◌, eqb, ltb, leb, length, all, replicate, if◌then◌else◌,
}
use intellibiz.Shared.Text.{Text, codes, is_digit}

abbrev pub hex_digit : ℕ → ℕ
hex_digit d = if ltb d 10 then b'0' + d else b'a' + (d - 10)

-- One digit for each step; `fuel` above the number is enough.
unfoldable pub hex_from : ℕ → ℕ → Text → Text
hex_from zero n acc = acc
hex_from (suc fuel) n acc =
    let slice_to = hex_from fuel (n / 16) (hex_digit (n % 16) ∷ acc) in
    if ltb n 16 then hex_digit n ∷ acc else slice_to

-- `n.toString(16)`
unfoldable pub to_hex : ℕ → Text
unfolding hex_from
to_hex n = hex_from (suc n) n []

-- `s.padStart(width, '0')`
abbrev pub pad_start : ℕ → Text → Text
pad_start width s = replicate (width - length s) b'0' ++ s

-- `s.padEnd(width, '0')`
abbrev pub pad_end : ℕ → Text → Text
pad_end width s = s ++ replicate (width - length s) b'0'

-- `s.slice(0, k)`
abbrev pub slice_to : ℕ → Text → Text
slice_to zero s = []
slice_to (suc k) [] = []
slice_to (suc k) (c ∷ s) = c ∷ slice_to k s

-- `toString('hex')` of a buffer
abbrev pub bytes_hex : List ℕ → Text
bytes_hex [] = []
bytes_hex (b ∷ bs) = hex_digit (b / 16) ∷ hex_digit (b % 16) ∷ bytes_hex bs

unfoldable pub create_trace_id : ℕ → List ℕ → Text
unfolding to_hex
create_trace_id now random = codes "ibiz_trc_" ++ (pad_start 12 (to_hex now) ++ bytes_hex random)

unfoldable pub create_test_trace_id : Text → Text
create_test_trace_id seed = codes "ibiz_tst_" ++ slice_to 20 (pad_end 20 seed)

-- `[0-9a-f]`
abbrev pub is_lower_hex : ℕ → Bool
is_lower_hex c = is_digit c || (leb b'a' c && leb c b'f')

-- what stands behind a prefix
unfoldable pub behind : Text → Text → Option Text
behind [] s = some s
behind (c ∷ p) [] = none
behind (c ∷ p) (d ∷ s) = if eqb c d then behind p s else none

abbrev pub is_tail : Option Text → Bool
is_tail none = false
is_tail (some s) = eqb (length s) 28 && all is_lower_hex s

unfoldable pub is_trace_id : Text → Bool
unfolding behind
is_trace_id value =
    is_tail (behind (codes "ibiz_trc_") value) || is_tail (behind (codes "ibiz_tst_") value)
