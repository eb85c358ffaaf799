-- ===== src/Cli/Names/Slugs/Plain.antt =====
-- packages/cli/src/scaffold.ts: slugs are file names already.
use intellibiz.Shared.{
  ℕ, Bool, true, false, ◌||◌, [], ◌∷◌, map, keep_if, All, ◌≡◌, refl, ap, ◌∙◌, Bool-cases, inl, inr,
  arith,
}
use intellibiz.Shared.Text.{Text}
use intellibiz.Shared.Trim.{is_space, trim, trim_start, trim-Solid}
use intellibiz.Cli.Names.{
  is_upper, split_humps, dash_runs, is_blank, is_dash, is_allowed, drop_first_dash, drop_last_dash,
  lower_letter, to_kebab_case,
}
use intellibiz.Cli.Names.Slugs.{words_of, is_word_char, is_slug, is_slug-to_kebab_case}

-- A slug character: a letter, a digit or a dash
abbrev pub IsPlain : ℕ → Type 0
IsPlain c = is_word_char c || is_dash c ≡ true

pub words_of-IsPlain :
    (after : Bool) (s : Text) → words_of is_word_char after s ≡ true → All IsPlain s
words_of-IsPlain after [] h = tt
words_of-IsPlain true (c ∷ s) h = elim (Bool-cases (is_dash c)) [
  | inl t ↦ absurd (ground (arith, h, t))
  | inr f ↦ (ground (arith, h, f), words_of-IsPlain false s (ground (arith, h, f)))
]
words_of-IsPlain false (c ∷ s) h = elim (Bool-cases (is_dash c)) [
  | inl t ↦ (ground (arith, h, t), words_of-IsPlain true s (ground (arith, h, t)))
  | inr f ↦ (ground (arith, h, f), words_of-IsPlain false s (ground (arith, h, f)))
]

pub solid : (s : Text) → All IsPlain s → All (λ c. is_space c ≡ false) s
solid [] h = tt
solid (c ∷ s) (h, hs) = (ground (arith, h), solid s hs)

split_humps-plain : (s : Text) → All IsPlain s → split_humps s ≡ s
unfolding split_humps
split_humps-plain [] h = refl
split_humps-plain (c ∷ []) h = refl
split_humps-plain (c ∷ d ∷ s) (h, (k, hs)) =
    let small : is_upper d ≡ false = ground (arith, k) in
    let rest = split_humps-plain (d ∷ s) (k, hs) in rw (small) (ground (arith, rest))

dash_runs-plain : (s : Text) → All IsPlain s → dash_runs is_blank false s ≡ s
unfolding dash_runs
dash_runs-plain [] h = refl
dash_runs-plain (c ∷ s) (h, hs) =
    let solid_char : is_blank c ≡ false = ground (arith, h) in
    rw (solid_char) (ap (λ r. c ∷ r) (dash_runs-plain s hs))

keep_if-plain : (s : Text) → All IsPlain s → keep_if is_allowed s ≡ s
keep_if-plain [] h = refl
keep_if-plain (c ∷ s) (h, hs) =
    let kept : is_allowed c ≡ true = ground (arith, h) in
    rw (kept) (ap (λ r. c ∷ r) (keep_if-plain s hs))

lower_letter-plain : (s : Text) → All IsPlain s → map lower_letter s ≡ s
lower_letter-plain [] h = refl
lower_letter-plain (c ∷ s) (h, hs) =
    let small : is_upper c ≡ false = ground (arith, h) in
    rw (small) (ap (λ r. c ∷ r) (lower_letter-plain s hs))

dash_runs-words :
    (after : Bool) (s : Text) → words_of is_word_char after s ≡ true → dash_runs is_dash after s ≡ s
unfolding dash_runs
dash_runs-words after [] h = refl
dash_runs-words true (c ∷ s) h = elim (Bool-cases (is_dash c)) [
  | inl t ↦ absurd (ground (arith, h, t))
  | inr f ↦ rw (f) (ap (λ r. c ∷ r) (dash_runs-words false s (ground (arith, h, f))))
]
dash_runs-words false (c ∷ s) h = elim (Bool-cases (is_dash c)) [
  | inl t ↦
      let dash : b'-' ≡ c = ground (arith, t) in
      rw (t) (
        ap (λ d. d ∷ dash_runs is_dash true s) dash
        ∙ ap (λ r. c ∷ r) (dash_runs-words true s (ground (arith, h, t))))
  | inr f ↦ rw (f) (ap (λ r. c ∷ r) (dash_runs-words false s (ground (arith, h, f))))
]

drop_last_dash-words :
    (after : Bool) (c : ℕ) (s : Text)
    → words_of is_word_char after (c ∷ s) ≡ true
    → drop_last_dash (c ∷ s) ≡ c ∷ s
unfolding drop_last_dash
drop_last_dash-words true c [] h = ground (arith, h)
drop_last_dash-words false c [] h = ground (arith, h)
drop_last_dash-words true c (d ∷ s) h =
    ap (λ r. c ∷ r) (drop_last_dash-words false d s (ground (arith, h)))
drop_last_dash-words false c (d ∷ s) h = elim (Bool-cases (is_dash c)) [
  | inl t ↦ ap (λ r. c ∷ r) (drop_last_dash-words true d s (rw t at h))
  | inr f ↦ ap (λ r. c ∷ r) (drop_last_dash-words false d s (ground (arith, h, f)))
]

drop_first_dash-words :
    (c : ℕ) (s : Text) → words_of is_word_char true (c ∷ s) ≡ true → drop_first_dash (c ∷ s) ≡ c ∷ s
unfolding drop_first_dash
drop_first_dash-words c s h = elim (Bool-cases (is_dash c)) [
  | inl t ↦ absurd (ground (arith, h, t))
  | inr f ↦ rw (f) refl
]

pub words_of-within :
    (s : Text) → words_of is_word_char true s ≡ true → words_of is_word_char false s ≡ true
words_of-within [] h = refl
words_of-within (c ∷ s) h = ground (arith, h)

-- A slug is its own file name.
pub to_kebab_case-slug : (s : Text) → is_slug s ≡ true → to_kebab_case s ≡ s
unfolding to_kebab_case trim trim_start split_humps dash_runs drop_first_dash drop_last_dash
to_kebab_case-slug [] h = refl
to_kebab_case-slug (c ∷ s) h =
    let plain = words_of-IsPlain true (c ∷ s) h in
    rw
      (
        trim-Solid (c ∷ s) (solid (c ∷ s) plain),
        split_humps-plain (c ∷ s) plain,
        dash_runs-plain (c ∷ s) plain,
        keep_if-plain (c ∷ s) plain,
        dash_runs-words false (c ∷ s) (words_of-within (c ∷ s) h),
        drop_first_dash-words c s h,
        drop_last_dash-words true c s h,
      )
      (lower_letter-plain (c ∷ s) plain)

-- Making a file name of a file name changes nothing.
pub to_kebab_case_idem : (name : Text) → to_kebab_case (to_kebab_case name) ≡ to_kebab_case name
to_kebab_case_idem name = to_kebab_case-slug (to_kebab_case name) (is_slug-to_kebab_case name)
