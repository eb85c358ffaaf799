-- ===== src/Db/Sql/Placeholders.antt =====
-- packages/db/src/sql/template.ts: the placeholders of a text, and what renumbering does to them.
use mathlib.Core.List.{append-nil, append_assoc}
use intellibiz.Shared.{
  ℕ, ◌+◌, true, false, Option, none, some, List, [], ◌∷◌, ◌++◌, map, eqb, if◌then◌else◌, length,
  ◌≡◌, refl, sym, ap, subst, ◌<◌, ◌∙◌, arith, All, if_intro, Bool-cases, inl, inr,
}
use intellibiz.Shared.Text.{
  Text, show, read_from, is_digit, Digits, Digits-show, read_from-show, length-show_pos,
}
use intellibiz.Db.Sql.{mark, shifted, renumber_from, renumber}

abbrev number_of : Text → List ℕ
number_of [] = []
number_of (d ∷ ds) = read_from 0 (d ∷ ds) ∷ []

holes_from : Option Text → Text → List ℕ
holes_from none [] = []
holes_from (some ds) [] = number_of ds
holes_from none (c ∷ s) =
    let plain_rest = holes_from none s in
    let match_rest = holes_from (some []) s in if eqb c b'$' then match_rest else plain_rest
holes_from (some ds) (c ∷ s) =
    let plain_rest = holes_from none s in
    let match_rest = holes_from (some []) s in
    let digit_rest = holes_from (some (ds ++ c ∷ [])) s in
    if is_digit c
    then digit_rest
    else number_of ds ++ (if eqb c b'$' then match_rest else plain_rest)

-- The numbers of the placeholders of a text, in their order.
unfoldable pub holes : Text → List ℕ
unfolding holes_from
holes s = holes_from none s

-- A text that does not go on a number before it.
abbrev pub Clear : Text → Type 0
Clear [] = Unit
Clear (c ∷ s) = is_digit c ≡ false

pub Clear-append : (s t : Text) → Clear s → Clear t → Clear (s ++ t)
Clear-append [] t h k = k
Clear-append (c ∷ s) t h k = h

holes_from-Clear :
    (ds t : Text) → Clear t → holes_from (some ds) t ≡ number_of ds ++ holes_from none t
unfolding holes_from
holes_from-Clear [] [] h = refl
holes_from-Clear (d ∷ ds) [] h = refl
holes_from-Clear ds (c ∷ t) h = rw h refl

holes_from-digit :
    (ds : Text) (c : ℕ) (s : Text)
    → is_digit c ≡ true
    → holes_from (some ds) (c ∷ s) ≡ holes_from (some (ds ++ c ∷ [])) s
unfolding holes_from
holes_from-digit ds c s h = rw h refl

holes_from-Digits :
    (ds s t : Text) → Digits s → holes_from (some ds) (s ++ t) ≡ holes_from (some (ds ++ s)) t
holes_from-Digits ds [] t h =
    subst (λ x. holes_from (some ds) t ≡ holes_from (some x) t) (sym (append-nil ds)) refl
holes_from-Digits ds (c ∷ s) t h =
    holes_from-digit ds c (s ++ t) h.0
    ∙ (holes_from-Digits (ds ++ c ∷ []) s t h.1
        ∙ ap (λ x. holes_from (some x) t) (append_assoc ds (c ∷ []) s))

number_of_lem : (s : Text) → 0 < length s → number_of s ≡ read_from 0 s ∷ []
number_of_lem [] h = absurd (omega (arith, h))
number_of_lem (c ∷ s) h = refl

number_of-show : (n : ℕ) → number_of (show n) ≡ n ∷ []
number_of-show n = number_of_lem (show n) (length-show_pos n) ∙ ap (λ k. k ∷ []) (read_from-show n)

-- A placeholder in front.
pub holes-mark : (n : ℕ) (t : Text) → Clear t → holes (mark n ++ t) ≡ n ∷ holes t
unfolding holes mark holes_from
holes-mark n t h =
    holes_from-Digits [] (show n) t (Digits-show n)
    ∙ (holes_from-Clear (show n) t h ∙ ap (λ ns. ns ++ holes_from none t) (number_of-show n))

holes_from-append :
    (o : Option Text) (s t : Text)
    → Clear t
    → holes_from o (s ++ t) ≡ holes_from o s ++ holes_from none t
unfolding holes_from
holes_from-append none [] t h = refl
holes_from-append (some ds) [] t h = holes_from-Clear ds t h
holes_from-append none (c ∷ s) t h = elim (Bool-cases (eqb c b'$')) [
  | inl e ↦ rw (e, holes_from) (holes_from-append (some []) s t h)
  | inr e ↦ rw (e, holes_from) (holes_from-append none s t h)
]
holes_from-append (some ds) (c ∷ s) t h = elim (Bool-cases (is_digit c)) [
  | inl d ↦ rw (d, holes_from) (holes_from-append (some (ds ++ c ∷ [])) s t h)
  | inr d ↦ elim (Bool-cases (eqb c b'$')) [
    | inl e ↦
        rw (d, e, holes_from)
          (ap (λ x. number_of ds ++ x) (holes_from-append (some []) s t h)
            ∙ sym (append_assoc (number_of ds) (holes_from (some []) s) (holes_from none t)))
    | inr e ↦
        rw (d, e, holes_from)
          (ap (λ x. number_of ds ++ x) (holes_from-append none s t h)
            ∙ sym (append_assoc (number_of ds) (holes_from none s) (holes_from none t)))
  ]
]

-- The placeholders of a text and those of one behind it that does not go on its last number.
pub holes-append : (s t : Text) → Clear t → holes (s ++ t) ≡ holes s ++ holes t
unfolding holes
holes-append s t h = holes_from-append none s t h

Clear-shifted : (offset : ℕ) (ds t : Text) → Clear (shifted offset ds ++ t)
unfolding shifted mark
Clear-shifted offset [] t = refl
Clear-shifted offset (d ∷ ds) t = refl

Clear-renumber_from : (offset : ℕ) (ds s : Text) → Clear (renumber_from offset (some ds) s)
unfolding renumber_from shifted mark
Clear-renumber_from offset [] [] = refl
Clear-renumber_from offset (d ∷ ds) [] = refl
Clear-renumber_from offset ds (c ∷ s) =
    if_intro Clear (is_digit c) (λ d. Clear-renumber_from offset (ds ++ c ∷ []) s)
      (λ d. Clear-shifted offset ds _)

pub Clear-renumber : (offset : ℕ) (s : Text) → Clear s → Clear (renumber offset s)
unfolding renumber renumber_from
Clear-renumber offset [] h = tt
Clear-renumber offset (c ∷ s) h =
    if_intro Clear (eqb c b'$') (λ e. Clear-renumber_from offset [] s) (λ e. h)

holes-shifted :
    (offset : ℕ) (ds t : Text)
    → Clear t
    → holes_from none (shifted offset ds ++ t)
      ≡ map (λ n. n + offset) (number_of ds) ++ holes_from none t
unfolding shifted mark holes_from holes
holes-shifted offset [] t h = holes_from-Clear [] t h
holes-shifted offset (d ∷ ds) t h = holes-mark (read_from 0 (d ∷ ds) + offset) t h

map-append : (f : ℕ → ℕ) (xs ys : List ℕ) → map f (xs ++ ys) ≡ map f xs ++ map f ys
map-append f [] ys = refl
map-append f (x ∷ xs) ys = ap (λ zs. f x ∷ zs) (map-append f xs ys)

-- The numbers of a renumbered text are those of the text, moved.
Moved : ℕ → Option Text → Text → Type 0
Moved offset o s =
    holes_from none (renumber_from offset o s) ≡ map (λ n. n + offset) (holes_from o s)

outside-Moved :
    (offset c : ℕ) (s : Text)
    → Moved offset (some []) s
    → Moved offset none s
    → Moved offset none (c ∷ s)
unfolding Moved holes_from renumber_from
outside-Moved offset c s h k = elim (Bool-cases (eqb c b'$')) [
  | inl e ↦ rw (e, holes_from, renumber_from) h
  | inr e ↦ rw (e, holes_from, renumber_from) (rw e k)
]

-- Behind the digits of a match.
behind-Moved :
    (offset : ℕ) (ds : Text) (c : ℕ) (s : Text)
    → is_digit c ≡ false
    → Moved offset none (c ∷ s)
    → holes_from none (shifted offset ds ++ renumber_from offset none (c ∷ s))
      ≡ map (λ n. n + offset) (number_of ds ++ holes_from none (c ∷ s))
unfolding Moved renumber renumber_from holes_from
behind-Moved offset ds c s d h =
    holes-shifted offset ds (renumber_from offset none (c ∷ s)) (Clear-renumber offset (c ∷ s) d)
    ∙ (ap (λ x. map (λ n. n + offset) (number_of ds) ++ x) h
        ∙ sym (map-append (λ n. n + offset) (number_of ds) (holes_from none (c ∷ s))))

renumber_from-Moved : (offset : ℕ) (o : Option Text) (s : Text) → Moved offset o s
unfolding Moved holes_from renumber_from shifted
renumber_from-Moved offset none [] = refl
renumber_from-Moved offset (some []) [] = refl
renumber_from-Moved offset (some (d ∷ ds)) [] =
    let m = read_from 0 (d ∷ ds) + offset in
    subst (λ x. holes_from (some []) x ≡ m ∷ []) (append-nil (show m))
      (unfold holes mark in holes-mark m [] tt)
renumber_from-Moved offset none (c ∷ s) =
    outside-Moved offset c s (renumber_from-Moved offset (some []) s)
      (renumber_from-Moved offset none s)
renumber_from-Moved offset (some ds) (c ∷ s) = elim (Bool-cases (is_digit c)) [
  | inl d ↦ rw (d, holes_from, renumber_from) (renumber_from-Moved offset (some (ds ++ c ∷ [])) s)
  | inr d ↦
      rw (d, holes_from, renumber_from)
        (behind-Moved offset ds c s d (
          outside-Moved offset c s (renumber_from-Moved offset (some []) s)
            (renumber_from-Moved offset none s)))
]

-- Renumbering moves the number of each placeholder by the offset, and leaves the placeholders in
-- their order.
pub holes-renumber :
    (offset : ℕ) (s : Text) → holes (renumber offset s) ≡ map (λ n. n + offset) (holes s)
unfolding holes renumber Moved
holes-renumber offset s = renumber_from-Moved offset none s

-- A literal piece of a template: no `$`, and no digit in front.
abbrev pub Literal : Text → Type 0
Literal s = Clear s × All (λ c. eqb c b'$' ≡ false) s

pub holes-Literal : (s : Text) → All (λ c. eqb c b'$' ≡ false) s → holes s ≡ []
unfolding holes holes_from
holes-Literal [] h = refl
holes-Literal (c ∷ s) h = rw (h.0, holes_from) (holes-Literal s h.1)
