-- ===== src/Cli/Resolved.antt =====
-- packages/cli/src/scaffold.ts: resolved options name known modules, and are settled.
use intellibiz.Shared.{
  keep_if, Bool, true, some, List, [], ◌∷◌, or_else, ◌≡◌, refl, sym, ap, ◌∙◌, Bool-cases, inl, inr,
  arith,
}
use intellibiz.Shared.Text.{Text, same_text, same_text_self, same_text-eq}
use intellibiz.Cli.{
  module_names, listed, store, scaffold_templates, ScaffoldOptions, ResolvedScaffoldOptions,
  resolve_scaffold_options,
}

listed_head : (x : Text) (xs : List Text) → listed (x ∷ xs) x ≡ true
unfolding listed
listed_head x xs = rw (same_text_self x) refl

listed_later : (x y : Text) (ys : List Text) → listed ys x ≡ true → listed (y ∷ ys) x ≡ true
unfolding listed
listed_later x y ys h = elim (Bool-cases (same_text x y)) [ inl t ↦ rw (t) refl | inr f ↦ rw (f) h ]

-- A member of a kept list passes the test.
listed-keep_if :
    (p : Text → Bool) (x : Text) (xs : List Text) → listed (keep_if p xs) x ≡ true → p x ≡ true
unfolding listed
listed-keep_if p x [] h = absurd (ground (arith, h))
listed-keep_if p x (y ∷ ys) h = elim (Bool-cases (p y)) [
  | inl t ↦ elim (Bool-cases (same_text x y)) [
    | inl e ↦ ap p (same_text-eq x y e) ∙ t
    | inr f ↦ listed-keep_if p x ys (rw f at (rw t at h))
  ]
  | inr f ↦ listed-keep_if p x ys (rw f at h)
]

-- Keeping by the kept list is keeping by the test, for a list between the two.
keep_if-listed :
    (p : Text → Bool) (all_kept xs : List Text)
    → ((x : Text) → listed all_kept x ≡ true → p x ≡ true)
    → ((x : Text) → listed xs x ≡ true → p x ≡ true → listed all_kept x ≡ true)
    → keep_if (listed all_kept) xs ≡ keep_if p xs
keep_if-listed p all_kept [] sound complete = refl
keep_if-listed p all_kept (x ∷ xs) sound complete =
    let rest = keep_if-listed p all_kept xs sound (λ y h. complete y (listed_later y x xs h)) in
    elim (Bool-cases (p x)) [
      | inl t ↦ rw (t, complete x (listed_head x xs) t) (ap (λ r. x ∷ r) rest)
      | inr f ↦ elim (Bool-cases (listed all_kept x)) [
        | inl l ↦ absurd (ground (arith, f, sound x l))
        | inr n ↦ rw (f, n) rest
      ]
    ]

listed-kept :
    (p : Text → Bool) (x : Text) (xs : List Text)
    → listed xs x ≡ true
    → p x ≡ true
    → listed (keep_if p xs) x ≡ true
unfolding listed
listed-kept p x [] h t = h
listed-kept p x (y ∷ ys) h t = elim (Bool-cases (same_text x y)) [
  | inl e ↦ rw (sym (ap p (same_text-eq x y e)) ∙ t) (rw (e) refl)
  | inr f ↦
      let later = listed-kept p x ys (rw f at h) t in
      elim (Bool-cases (p y)) [
        | inl k ↦ rw (k) (listed_later x y (keep_if p ys) later)
        | inr n ↦ rw (n) later
      ]
]

keep_if_idem :
    (p : Text → Bool) (xs : List Text) → keep_if (listed (keep_if p xs)) xs ≡ keep_if p xs
keep_if_idem p xs =
    keep_if-listed p (keep_if p xs) xs (λ x h. listed-keep_if p x xs h)
      (λ x h t. listed-kept p x xs h t)

abbrev requested_of : ScaffoldOptions → List Text
requested_of options =
    or_else options.modules (scaffold_templates (or_else options.template store)).modules

-- Resolved options, as options
abbrev pub settled : ResolvedScaffoldOptions → ScaffoldOptions
settled r = record {
  template = some r.template;
  modules = some r.modules;
  tests = some r.tests;
  docker = some r.docker;
  ci = some r.ci;
}

-- Resolved options are settled: they may be handed on as options and resolve to themselves, whatever
-- the first options were. In particular the modules have lost their unknown names and their
-- repetitions, and stand in the order of the known names.
pub resolve_scaffold_options_idem :
    (options : ScaffoldOptions)
    → resolve_scaffold_options (settled (resolve_scaffold_options options))
      ≡ resolve_scaffold_options options
unfolding resolve_scaffold_options
resolve_scaffold_options_idem options =
    ap (λ ms. record (resolve_scaffold_options options) { modules = ms })
      (keep_if_idem (listed (requested_of options)) module_names)
