-- ===== src/Shared/Text.antt =====
-- Texts as lists of code points, for the code that walks them: digits, numbers in decimal, and the
-- methods of JavaScript's strings that the program calls.
use Prim.Native.Nat.{ℕ, zero, suc, ◌+◌, ◌-◌, ◌*◌, ◌/◌, ◌%◌, ◌≤◌, ◌<◌}
use Prim.Native.Char.{code}
use Prim.Native.String.{String}
use mathlib.Core.Path.{ap, ◌∙◌, ◌≡◌, refl}
use mathlib.Core.Logic.{inl, inr}
use mathlib.Core.Bool.{Bool, true, false, ◌&&◌}
use mathlib.Core.List.{List, [], ◌∷◌, ◌++◌, map}
use native.Mathlib.Omega.{arith}
use intellibiz.Shared.Tests.{eqb, eqb_iff, Bool-cases, if_intro, ltb, leb, if◌then◌else◌}
use intellibiz.Shared.Lists.{length, length-append}

abbrev pub Text : Type 0
Text = List ℕ

abbrev pub codes : String → Text
codes String.[] = []
codes (String.◌∷◌ c s) = code c ∷ codes s

-- `\d`
abbrev pub is_digit : ℕ → Bool
is_digit c = leb b'0' c && leb c b'9'

-- `s === t`
unfoldable pub same_text : Text → Text → Bool
same_text [] [] = true
same_text (c ∷ s) (d ∷ t) = eqb c d && same_text s t
same_text _ _ = false

-- One digit for each step; `fuel` above the number is enough.
show_from : ℕ → ℕ → Text
show_from zero n = []
show_from (suc fuel) n =
    let front = show_from fuel (n / 10) in
    if ltb n 10 then (b'0' + n) ∷ [] else front ++ (b'0' + n % 10) ∷ []

-- `String(n)` of a whole number
unfoldable pub show : ℕ → Text
unfolding show_from
show n = show_from (suc n) n

-- `parseInt(s, 10)` of digits, from an accumulator
unfoldable pub read_from : ℕ → Text → ℕ
read_from acc [] = acc
read_from acc (c ∷ cs) = read_from (acc * 10 + (c - b'0')) cs

-- the longest front of digits, and the rest
unfoldable pub span_digits : Text → Text × Text
span_digits [] = ([], [])
span_digits (c ∷ cs) =
    let (digits, rest) = span_digits cs in if is_digit c then (c ∷ digits, rest) else ([], c ∷ cs)

-- `s.toUpperCase()` on ASCII letters, all that the program gives it
unfoldable pub to_upper : Text → Text
to_upper = map (λ c. if leb b'a' c && leb c b'z' then c - 32 else c)

-- `s.toLowerCase()` on ASCII letters
abbrev pub lower_of : ℕ → ℕ
lower_of c = if leb b'A' c && leb c b'Z' then c + 32 else c

unfoldable pub to_lower : Text → Text
to_lower = map lower_of

abbrev upper_char : ℕ → ℕ
upper_char c = if leb b'a' c && leb c b'z' then c - 32 else c

upper_char_idem : (c : ℕ) → upper_char (upper_char c) ≡ upper_char c
upper_char_idem c = ground arith

pub to_upper_idem : (s : Text) → to_upper (to_upper s) ≡ to_upper s
unfolding to_upper
to_upper_idem [] = refl
to_upper_idem (c ∷ s) =
    ap (λ x. x ∷ to_upper (to_upper s)) (upper_char_idem c)
    ∙ ap (λ r. upper_char c ∷ r) (to_upper_idem s)

abbrev pub onto_first : ℕ → List Text → List Text
onto_first d [] = (d ∷ []) ∷ []
onto_first d (part ∷ parts) = (d ∷ part) ∷ parts

-- `s.split(c)`
unfoldable pub split : ℕ → Text → List Text
split c [] = [] ∷ []
split c (d ∷ s) = let rest = split c s in if eqb d c then [] ∷ rest else onto_first d rest

-- `s.slice(-k)`
unfoldable pub take_last : ℕ → Text → Text
take_last k [] = []
take_last k (c ∷ cs) = if leb (length (c ∷ cs)) k then c ∷ cs else take_last k cs

read_from-append : (acc : ℕ) (s t : Text) → read_from acc (s ++ t) ≡ read_from (read_from acc s) t
unfolding read_from
read_from-append acc [] t = refl
read_from-append acc (c ∷ s) t = read_from-append (acc * 10 + (c - b'0')) s t

read_from-show_from : (fuel n : ℕ) → n < fuel → read_from 0 (show_from fuel n) ≡ n
unfolding show_from
read_from-show_from zero n h = absurd (omega arith)
read_from-show_from (suc fuel) n h = ground (
  arith,
  read_from-append 0 (show_from fuel (n / 10)) ((b'0' + n % 10) ∷ []),
  read_from-show_from fuel (n / 10),
  last n,
  single n,
)
  where
    last : (m : ℕ) → read_from (m / 10) ((b'0' + m % 10) ∷ []) ≡ m
    last m = unfold read_from in omega arith

    single : (m : ℕ) → read_from 0 ((b'0' + m) ∷ []) ≡ m
    single m = unfold read_from in omega arith

-- Reading what was shown gives the number back.
pub read_from-show : (n : ℕ) → read_from 0 (show n) ≡ n
unfolding show
read_from-show n = read_from-show_from (suc n) n (omega arith)

-- Every code point of a shown number is a digit.
abbrev pub Digits : Text → Type 0
Digits [] = Unit
Digits (c ∷ cs) = (is_digit c ≡ true) × Digits cs

Digits-concat : (s : Text) (c : ℕ) → Digits s → is_digit c ≡ true → Digits (s ++ c ∷ [])
Digits-concat [] c h d = (d, tt)
Digits-concat (x ∷ s) c h d = (h.0, Digits-concat s c h.1 d)

Digits-show_from : (fuel n : ℕ) → Digits (show_from fuel n)
unfolding show_from
Digits-show_from zero n = tt
Digits-show_from (suc fuel) n =
    if_intro Digits (ltb n 10) (λ small. (ground arith, tt))
      (λ large.
        Digits-concat (show_from fuel (n / 10)) (b'0' + n % 10) (Digits-show_from fuel (n / 10))
          (ground arith))

pub Digits-show : (n : ℕ) → Digits (show n)
unfolding show
Digits-show n = Digits-show_from (suc n) n

-- Digits before anything else are split off whole.
pub span_digits-append :
    (s : Text) (c : ℕ) (t : Text)
    → Digits s
    → is_digit c ≡ false
    → span_digits (s ++ c ∷ t) ≡ (s, c ∷ t)
unfolding span_digits
span_digits-append [] c t d stop = ground arith
span_digits-append (x ∷ s) c t d stop = ground (arith, span_digits-append s c t d.1 stop)

abbrev pub power_of_ten : ℕ → ℕ
power_of_ten zero = 1
power_of_ten (suc k) = 10 * power_of_ten k

length-show_from : (k fuel n : ℕ) → n < fuel → power_of_ten k ≤ n → k < length (show_from fuel n)
unfolding show_from
length-show_from k zero n h big = absurd (omega arith)
length-show_from zero (suc fuel) n h big =
    ground (arith, length-append (show_from fuel (n / 10)) ((b'0' + n % 10) ∷ []))
length-show_from (suc k) (suc fuel) n h big = ground (
  arith,
  length-append (show_from fuel (n / 10)) ((b'0' + n % 10) ∷ []),
  length-show_from k fuel (n / 10),
  positive k,
)
  where
    positive : (j : ℕ) → 0 < power_of_ten j
    positive zero = omega arith
    positive (suc j) = omega (arith, positive j)

-- A number of `k + 1` digits or more is shown by as many code points.
pub length-show : (k n : ℕ) → power_of_ten k ≤ n → k < length (show n)
unfolding show
length-show k n big = length-show_from k (suc n) n (omega arith) big

pub length-show_pos : (n : ℕ) → 0 < length (show n)
unfolding show
length-show_pos zero = omega arith
length-show_pos (suc n) = length-show 0 (suc n) (omega arith)

-- What ends a text is enough to know its last `k` code points.
pub take_last-append : (k : ℕ) (s t : Text) → k ≤ length t → take_last k (s ++ t) ≡ take_last k t
unfolding take_last
take_last-append k [] t h = refl
take_last-append k (c ∷ s) t h = ground (arith, length-append s t, take_last-append k s t h)

-- Texts that are the same by the test are equal, and the other way round.
pub same_text_self : (s : Text) → same_text s s ≡ true
unfolding same_text
same_text_self [] = refl
same_text_self (c ∷ s) = ground (arith, same_text_self s)

pub same_text-eq : (s t : Text) → same_text s t ≡ true → s ≡ t
unfolding same_text
same_text-eq [] [] h = refl
same_text-eq [] (d ∷ t) h = absurd (ground (arith, h))
same_text-eq (c ∷ s) [] h = absurd (ground (arith, h))
same_text-eq (c ∷ s) (d ∷ t) h = elim (Bool-cases (eqb c d)) [
  | inl e ↦ ap (λ x. x ∷ s) ((eqb_iff c d).0 e) ∙ ap (λ x. d ∷ x) (same_text-eq s t (rw e at h))
  | inr f ↦ absurd (ground (arith, h, f))
]
