-- ===== src/Cli/Names/Slugs.antt =====
-- packages/cli/src/scaffold.ts: file names are slugs.
pub mod Plain
use intellibiz.Shared.{
  ℕ, ◌+◌, ◌-◌, Bool, true, false, not, ◌&&◌, ◌||◌, List, [], ◌∷◌, ◌++◌, map, eqb, leb, keep_if, All,
  if◌then◌else◌, ◌≡◌, refl, sym, ap, ◌∙◌, Bool-cases, inl, inr, if_intro, arith,
}
use intellibiz.Shared.Text.{Text, is_digit}
use intellibiz.Shared.Trim.{is_space, trim, trim}
use intellibiz.Cli.Names.{
  is_lower, is_upper, is_alnum, split_humps, dash_runs, is_blank, is_dash, is_allowed,
  drop_first_dash, drop_last_dash, lower_letter, to_kebab_case,
}

-- Words of characters that pass `p`, with one dash between two words; `after` says that a dash, or the
-- beginning, was before.
abbrev pub words_of : (ℕ → Bool) → Bool → Text → Bool
words_of p after [] = not after
words_of p after (c ∷ s) =
    let word = words_of p false s in
    let next = words_of p true s in
    if is_dash c then (if after then false else next) else p c && word

-- lower-case letters and digits
abbrev pub is_word_char : ℕ → Bool
is_word_char c = is_lower c || is_digit c

abbrev pub is_slug : Text → Bool
is_slug [] = true
is_slug (c ∷ s) = words_of is_word_char true (c ∷ s)

-- Allowed characters without two dashes in a row
abbrev spaced : Bool → Text → Bool
spaced after [] = true
spaced after (c ∷ s) =
    let word = spaced false s in
    let next = spaced true s in
    if is_dash c then (if after then false else next) else is_alnum c && word

keep_if-allowed : (s : Text) → All (λ c. is_allowed c ≡ true) (keep_if is_allowed s)
keep_if-allowed [] = tt
keep_if-allowed (c ∷ s) = elim (Bool-cases (is_allowed c)) [
  | inl t ↦ rw (t) (t, keep_if-allowed s)
  | inr f ↦ rw (f) (keep_if-allowed s)
]

spaced-dash_runs :
    (within : Bool) (s : Text)
    → All (λ c. is_allowed c ≡ true) s
    → spaced within (dash_runs is_dash within s) ≡ true
unfolding dash_runs
spaced-dash_runs within [] h = refl
spaced-dash_runs true (c ∷ s) (h, hs) =
    ground (arith, h, spaced-dash_runs true s hs, spaced-dash_runs false s hs)
spaced-dash_runs false (c ∷ s) (h, hs) =
    ground (arith, h, spaced-dash_runs true s hs, spaced-dash_runs false s hs)

spaced-drop_first_dash : (s : Text) → spaced false s ≡ true → spaced true (drop_first_dash s) ≡ true
unfolding drop_first_dash
spaced-drop_first_dash [] h = refl
spaced-drop_first_dash (c ∷ s) h = ground (arith, h)

words_of-drop_last_dash :
    (after : Bool) (c : ℕ) (s : Text)
    → spaced after (c ∷ s) ≡ true
    → words_of is_alnum after (drop_last_dash (c ∷ s)) ≡ true
unfolding drop_last_dash
words_of-drop_last_dash true c [] h = ground (arith, h)
words_of-drop_last_dash false c [] h = ground (arith, h)
words_of-drop_last_dash true c (d ∷ s) h = ground (arith, h, words_of-drop_last_dash false d s)
words_of-drop_last_dash false c (d ∷ s) h =
    ground (arith, h, words_of-drop_last_dash false d s, words_of-drop_last_dash true d s)

lower_letter-word : (c : ℕ) → is_alnum c ≡ true → is_word_char (lower_letter c) ≡ true
lower_letter-word c h = ground (arith, h)

lower_letter-dash : (c : ℕ) → is_dash (lower_letter c) ≡ is_dash c
lower_letter-dash c = ground arith

words_of-lower_letter :
    (after : Bool) (s : Text)
    → words_of is_alnum after s ≡ true
    → words_of is_word_char after (map lower_letter s) ≡ true
words_of-lower_letter after [] h = h
words_of-lower_letter after (c ∷ s) h = elim (Bool-cases (is_dash c)) [
  | inl t ↦ rw (lower_letter-dash c, t) (dashed after (words_of-lower_letter true s) (rw t at h))
  | inr f ↦
      let kept : is_alnum c && words_of is_alnum false s ≡ true = rw f at h in
      rw (lower_letter-dash c, f, lower_letter-word c (ground (arith, kept)))
        (words_of-lower_letter false s (ground (arith, kept)))
]
  where
    dashed :
        (b : Bool)
        → (words_of is_alnum true s ≡ true → words_of is_word_char true (map lower_letter s) ≡ true)
        → (if b then false else words_of is_alnum true s) ≡ true
        → (if b then false else words_of is_word_char true (map lower_letter s)) ≡ true
    dashed true f h = h
    dashed false f h = f h

words-is_slug : (s : Text) → words_of is_word_char true s ≡ true → is_slug s ≡ true
words-is_slug [] h = refl
words-is_slug (c ∷ s) h = h

finished-is_slug :
    (s : Text) → spaced true s ≡ true → is_slug (map lower_letter (drop_last_dash s)) ≡ true
finished-is_slug [] h = unfold drop_last_dash in refl
finished-is_slug (c ∷ s) h =
    words-is_slug (map lower_letter (drop_last_dash (c ∷ s)))
      (words_of-lower_letter true (drop_last_dash (c ∷ s)) (words_of-drop_last_dash true c s h))

-- A file name is a slug, whatever the name that it is made of: words of lower-case letters and digits
-- with single dashes between them, or nothing. So no file name leads out of its directory.
pub is_slug-to_kebab_case : (name : Text) → is_slug (to_kebab_case name) ≡ true
unfolding to_kebab_case
is_slug-to_kebab_case name =
    let allowed = keep_if is_allowed (dash_runs is_blank false (split_humps (trim name))) in
    finished-is_slug (drop_first_dash (dash_runs is_dash false allowed)) (
      spaced-drop_first_dash (dash_runs is_dash false allowed) (
        spaced-dash_runs false allowed
          (keep_if-allowed (dash_runs is_blank false (split_humps (trim name))))))
