-- ===== src/Core/Trace/Validity.antt =====
-- packages/core/src/trace.ts: which ids the test of trace ids accepts.
use intellibiz.Shared.{
  ℕ, zero, suc, ◌+◌, ◌-◌, ◌*◌, ◌/◌, ◌%◌, ◌^◌, ◌<◌, ◌≤◌, Bool, true, false, ◌&&◌, ◌||◌, List, [],
  ◌∷◌, eqb, length, all, replicate, All, length-append, length-replicate, ◌≡◌, refl, ap, ◌∙◌, arith,
}
use intellibiz.Shared.Text.{Text}
use intellibiz.Core.Trace.{
  hex_digit, pad_end, slice_to, bytes_hex, create_trace_id, create_test_trace_id, is_lower_hex,
  behind, is_trace_id,
}
use intellibiz.Core.Trace.Chronology.{fixed, trace_id-fixed}

hex_digit-hex : (d : ℕ) → d < 16 → is_lower_hex (hex_digit d) ≡ true
hex_digit-hex d h = ground arith

all-fixed : (w n : ℕ) (rest : Text) → all is_lower_hex (fixed w n rest) ≡ all is_lower_hex rest
all-fixed zero n rest = refl
all-fixed (suc w) n rest =
    all-fixed w (n / 16) (hex_digit (n % 16) ∷ rest)
    ∙ ap (λ b. b && all is_lower_hex rest) (hex_digit-hex (n % 16) (omega arith))

length-fixed : (w n : ℕ) (rest : Text) → length (fixed w n rest) ≡ w + length rest
length-fixed zero n rest = omega arith
length-fixed (suc w) n rest =
    let shorter = length-fixed w (n / 16) (hex_digit (n % 16) ∷ rest) in omega (arith, shorter)

all-bytes_hex :
    (random : List ℕ) → All (λ b. b < 256) random → all is_lower_hex (bytes_hex random) ≡ true
all-bytes_hex [] h = refl
all-bytes_hex (b ∷ bs) h =
    rw (hex_digit-hex (b / 16) (ground (arith, h.0)), hex_digit-hex (b % 16) (omega arith))
      (all-bytes_hex bs h.1)

length-bytes_hex : (random : List ℕ) → length (bytes_hex random) ≡ 2 * length random
length-bytes_hex [] = refl
length-bytes_hex (b ∷ bs) = let rest = length-bytes_hex bs in omega (arith, rest)

hex_tail :
    (s : Text)
    → length s ≡ 28
    → all is_lower_hex s ≡ true
    → eqb (length s) 28 && all is_lower_hex s ≡ true
hex_tail s sized digits = rw (sized, digits) refl

or_true : (a b : Bool) → a ≡ true → a || b ≡ true
or_true a b h = rw (h) refl

-- The test of trace ids accepts every id that is created: with eight random bytes, at a time that has
-- at most twelve hexadecimal digits.
pub is_trace_id-create_trace_id :
    (now : ℕ) (random : List ℕ)
    → now < 16 ^ 12
    → length random ≡ 8
    → All (λ b. b < 256) random
    → is_trace_id (create_trace_id now random) ≡ true
unfolding is_trace_id behind create_trace_id
is_trace_id-create_trace_id now random fits eight bytes =
    let digits = bytes_hex random in
    let sized = length-fixed 12 now digits in
    let pairs = length-bytes_hex random in
    rw (trace_id-fixed now random fits) (
      or_true _ _ (
        hex_tail (fixed 12 now digits) (omega (arith, sized, pairs, eight))
          (all-fixed 12 now digits ∙ all-bytes_hex random bytes)))

length-slice_to : (k : ℕ) (s : Text) → k ≤ length s → length (slice_to k s) ≡ k
length-slice_to zero s h = refl
length-slice_to (suc k) [] h = absurd (omega arith)
length-slice_to (suc k) (c ∷ s) h = ap suc (length-slice_to k s (omega arith))

length-pad_end : (width : ℕ) (s : Text) → width ≤ length (pad_end width s)
length-pad_end width s =
    let joined = length-append s (replicate (width - length s) b'0') in
    let copies = length-replicate {A = ℕ} (width - length s) b'0' in omega (arith, joined, copies)

-- The test of trace ids accepts no id of a test, whatever the seed: these have 20 characters behind
-- their prefix, and the test wants 28.
pub is_trace_id-create_test_trace_id :
    (seed : Text) → is_trace_id (create_test_trace_id seed) ≡ false
unfolding is_trace_id behind create_test_trace_id
is_trace_id-create_test_trace_id seed =
    rw (length-slice_to 20 (pad_end 20 seed) (length-pad_end 20 seed)) refl
