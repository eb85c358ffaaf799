-- ===== src/Cli/Names/Identifiers.antt =====
-- packages/cli/src/scaffold.ts: the key of an override is an identifier.
use intellibiz.Shared.{
  ℕ, Bool, true, false, ◌&&◌, ◌||◌, Option, none, some, [], ◌∷◌, all, ◌≡◌, refl, subst, Bool-cases,
  inl, inr, arith,
}
use intellibiz.Shared.Text.{Text}
use intellibiz.Shared.Trim.{trim, trim_start, trim-Solid}
use intellibiz.Cli.Names.{
  is_lower, is_upper, is_alnum, is_dash, is_separator, is_empty, upper_letter, join_words,
  from_letter, to_camel_case, to_kebab_case, ScaffoldedOverride, scaffold_override,
}
use intellibiz.Cli.Names.Slugs.{words_of, is_word_char, is_slug, is_slug-to_kebab_case}
use intellibiz.Cli.Names.Slugs.Plain.{solid, words_of-IsPlain, words_of-within}

-- A letter and then letters and digits, or nothing
abbrev pub is_key : Text → Bool
is_key [] = true
is_key (c ∷ s) = (is_lower c || is_upper c) && all is_alnum s

is_key-from_letter : (s : Text) → all is_alnum s ≡ true → is_key (from_letter s) ≡ true
unfolding from_letter
is_key-from_letter [] h = refl
is_key-from_letter (c ∷ s) h = ground (arith, h, is_key-from_letter s)

abbrev key_of : Option ScaffoldedOverride → Text
key_of none = []
key_of (some o) = o.key

-- The run of separators inside a slug
abbrev run_of : Bool → ℕ → Text
run_of true d = d ∷ []
run_of false d = []

join_words-words :
    (after : Bool) (d : ℕ) (s : Text)
    → words_of is_word_char after s ≡ true
    → all is_alnum (join_words (run_of after d) s) ≡ true
unfolding join_words
join_words-words true d [] h = absurd (ground (arith, h))
join_words-words false d [] h = refl
join_words-words true d (c ∷ s) h = elim (Bool-cases (is_dash c)) [
  | inl t ↦ absurd (ground (arith, h, t))
  | inr f ↦
      let word : is_separator c ≡ false = ground (arith, h, f) in
      let plain : is_alnum c ≡ true = ground (arith, h, f) in
      let raised : is_alnum (upper_letter c) ≡ true = ground (arith, plain) in
      rw (word, plain, raised) (join_words-words false d s (ground (arith, h, f)))
]
join_words-words false d (c ∷ s) h = elim (Bool-cases (is_dash c)) [
  | inl t ↦ rw (t) (join_words-words true c s (rw t at h))
  | inr f ↦
      let word : is_separator c ≡ false = ground (arith, h, f) in
      let plain : is_alnum c ≡ true = ground (arith, h, f) in
      rw (word, plain) (join_words-words false d s (ground (arith, h, f)))
]

is_key-slug : (s : Text) → is_slug s ≡ true → is_key (to_camel_case s) ≡ true
unfolding to_camel_case trim trim_start join_words from_letter
is_key-slug [] h = refl
is_key-slug (c ∷ s) h = rw (trim-Solid (c ∷ s) (solid (c ∷ s) (words_of-IsPlain true (c ∷ s) h))) (
    is_key-from_letter (join_words [] (c ∷ s))
      (join_words-words false c (c ∷ s) (words_of-within (c ∷ s) h)))

-- Whatever the flag, the key that the file of an override sets is a letter with letters and digits
-- behind it, or it is nothing, for a flag that has no letter.
pub scaffold_override-key :
    (raw_flag : Text) (o : ScaffoldedOverride)
    → scaffold_override raw_flag ≡ some o
    → is_key o.key ≡ true
unfolding scaffold_override
scaffold_override-key raw_flag o h = elim (Bool-cases (is_empty (to_kebab_case raw_flag))) [
  | inl t ↦ absurd (ground (arith, h, t))
  | inr f ↦
      let flag = to_kebab_case raw_flag in
      let made : some (record { file = flag; flag = flag; key = to_camel_case flag }) ≡ some o =
        rw f at h in
      subst (λ x. is_key (key_of x) ≡ true) made (is_key-slug flag (is_slug-to_kebab_case raw_flag))
]
