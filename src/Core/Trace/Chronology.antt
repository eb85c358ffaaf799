-- ===== src/Core/Trace/Chronology.antt =====
-- packages/core/src/trace.ts: trace ids sort by time.
use intellibiz.Shared.{
  ℕ, zero, suc, ◌+◌, ◌-◌, ◌*◌, ◌/◌, ◌%◌, ◌^◌, ◌<◌, ◌≤◌, Bool, true, false, ◌&&◌, ◌||◌, List, [],
  ◌∷◌, ◌++◌, eqb, ltb, length, replicate, ◌≡◌, refl, sym, ap, ◌∙◌, subst, Bool-cases, inl, inr,
  arith,
}
use intellibiz.Shared.Text.{Text}
use intellibiz.Core.Trace.{hex_digit, hex_from, to_hex, pad_start, bytes_hex, create_trace_id}

-- The lexical order of texts
abbrev pub lt_text : Text → Text → Bool
lt_text s [] = false
lt_text [] (d ∷ t) = true
lt_text (c ∷ s) (d ∷ t) = ltb c d || (eqb c d && lt_text s t)

-- The last `w` hexadecimal digits of a number, in front of a text
abbrev pub fixed : ℕ → ℕ → Text → Text
fixed zero n rest = rest
fixed (suc w) n rest = fixed w (n / 16) (hex_digit (n % 16) ∷ rest)

abbrev pub limit : ℕ → ℕ
limit zero = 1
limit (suc w) = 16 * limit w

replicate-onto : (c k : ℕ) (rest : Text) → replicate k c ++ c ∷ rest ≡ c ∷ (replicate k c ++ rest)
replicate-onto c zero rest = refl
replicate-onto c (suc k) rest = ap (λ s. c ∷ s) (replicate-onto c k rest)

fixed_zero : (w : ℕ) (rest : Text) → replicate w b'0' ++ rest ≡ fixed w 0 rest
fixed_zero zero rest = refl
fixed_zero (suc w) rest = sym (replicate-onto b'0' w rest) ∙ fixed_zero w (b'0' ∷ rest)

pub fixed-append : (w n : ℕ) (s t : Text) → fixed w n s ++ t ≡ fixed w n (s ++ t)
fixed-append zero n s t = refl
fixed-append (suc w) n s t = fixed-append w (n / 16) (hex_digit (n % 16) ∷ s) t

single-fixed :
    (w n : ℕ) (rest : Text) → n < 16 → replicate w b'0' ++ hex_digit n ∷ rest ≡ fixed (suc w) n rest
single-fixed w n rest small =
    let none_left : 0 ≡ n / 16 = omega arith in
    let all_left : n ≡ n % 16 = omega arith in
    fixed_zero w (hex_digit n ∷ rest)
    ∙ ap (λ q. fixed w q (hex_digit n ∷ rest)) none_left
    ∙ ap (λ r. fixed w (n / 16) (hex_digit r ∷ rest)) all_left

padded_single :
    (fuel w n width : ℕ) (rest : Text)
    → ltb n 16 ≡ true
    → width ≡ suc w + length rest
    → replicate (width - length (hex_from (suc fuel) n rest)) b'0' ++ hex_from (suc fuel) n rest
      ≡ fixed (suc w) n rest
unfolding hex_from
padded_single fuel w n width rest t e =
    let room : width - suc (length rest) ≡ w = omega (arith, e) in
    rw (t) (
      ap (λ k. replicate k b'0' ++ hex_digit n ∷ rest) room
      ∙ single-fixed w n rest (ground (arith, t)))

-- Padding gives all digits, if they suffice.
padded :
    (fuel w n width : ℕ) (rest : Text)
    → n < fuel
    → n < limit (suc w)
    → width ≡ suc w + length rest
    → replicate (width - length (hex_from fuel n rest)) b'0' ++ hex_from fuel n rest
      ≡ fixed (suc w) n rest
unfolding hex_from
padded zero w n width rest enough fits e = absurd (omega arith)
padded (suc fuel) zero n width rest enough fits e =
    padded_single fuel 0 n width rest (ground arith) e
padded (suc fuel) (suc w) n width rest enough fits e = elim (Bool-cases (ltb n 16)) [
  | inl t ↦ padded_single fuel (suc w) n width rest t e
  | inr f ↦
      let large : 16 ≤ n = ground (arith, f) in
      rw (f) (
        padded fuel w (n / 16) width (hex_digit (n % 16) ∷ rest) (omega (arith, large))
          (omega arith) (omega arith))
]

pub pad_start-fixed : (now : ℕ) → now < 16 ^ 12 → pad_start 12 (to_hex now) ≡ fixed 12 now []
unfolding to_hex
pad_start-fixed now fits = padded (suc now) 11 now 12 [] (omega arith) fits refl

lt_text-same : (c : ℕ) (s t : Text) → lt_text s t ≡ true → lt_text (c ∷ s) (c ∷ t) ≡ true
lt_text-same c s t h = ground (arith, h)

lt_text-smaller : (c d : ℕ) (s t : Text) → c < d → lt_text (c ∷ s) (d ∷ t) ≡ true
lt_text-smaller c d s t h = ground (arith, h)

lt_text-fixed_same :
    (w n : ℕ) (s t : Text) → lt_text s t ≡ true → lt_text (fixed w n s) (fixed w n t) ≡ true
lt_text-fixed_same zero n s t h = h
lt_text-fixed_same (suc w) n s t h =
    lt_text-fixed_same w (n / 16) (hex_digit (n % 16) ∷ s) (hex_digit (n % 16) ∷ t)
      (lt_text-same (hex_digit (n % 16)) s t h)

hex_digit-lt : (m n : ℕ) → m < n → n < 16 → hex_digit m < hex_digit n
hex_digit-lt m n h bound = ground arith

lt_text-fixed :
    (w m n : ℕ) (s t : Text) → m < n → n < limit w → lt_text (fixed w m s) (fixed w n t) ≡ true
lt_text-fixed zero m n s t h fits = absurd (omega arith)
lt_text-fixed (suc w) m n s t h fits = elim (Bool-cases (ltb (m / 16) (n / 16))) [
  | inl y ↦
      lt_text-fixed w (m / 16) (n / 16) (hex_digit (m % 16) ∷ s) (hex_digit (n % 16) ∷ t)
        (ground (arith, y)) (omega arith)
  | inr f ↦
      let same : m / 16 ≡ n / 16 = ground (arith, f) in
      subst
        (λ q.
          lt_text (fixed w (m / 16) (hex_digit (m % 16) ∷ s)) (fixed w q (hex_digit (n % 16) ∷ t))
          ≡ true)
        same
        (lt_text-fixed_same w (m / 16) (hex_digit (m % 16) ∷ s) (hex_digit (n % 16) ∷ t) (
          lt_text-smaller (hex_digit (m % 16)) (hex_digit (n % 16)) s t
            (hex_digit-lt (m % 16) (n % 16) (ground (arith, f)) (omega arith))))
]

pub trace_id-fixed :
    (now : ℕ) (random : List ℕ)
    → now < 16 ^ 12
    → pad_start 12 (to_hex now) ++ bytes_hex random ≡ fixed 12 now (bytes_hex random)
trace_id-fixed now random fits =
    ap (λ s. s ++ bytes_hex random) (pad_start-fixed now fits)
    ∙ fixed-append 12 now [] (bytes_hex random)

-- Trace ids sort by time, whatever their random parts are: an id that is created before another one
-- comes before it in the lexical order, as long as the clock has at most twelve hexadecimal digits.
pub create_trace_id_sorted :
    (earlier later : ℕ) (random random' : List ℕ)
    → earlier < later
    → later < 16 ^ 12
    → lt_text (create_trace_id earlier random) (create_trace_id later random') ≡ true
unfolding create_trace_id
create_trace_id_sorted earlier later random random' h fits =
    rw (trace_id-fixed earlier random (omega arith), trace_id-fixed later random' fits)
      (lt_text-fixed 12 earlier later (bytes_hex random) (bytes_hex random') h fits)
