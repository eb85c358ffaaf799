-- ===== src/Db/Sql/Filters/Keywords.antt =====
-- packages/db/src/sql/template.ts: what the search for a keyword finds.
use intellibiz.Shared.{
  ℕ, Bool, true, not, ◌&&◌, Option, none, some, List, [], ◌∷◌, ◌++◌, map, any, length, ◌≡◌, refl,
  ap, arith, if_intro,
}
use intellibiz.Shared.Text.{Text}
use intellibiz.Db.Sql.Filters.{take, drop, is_word, upper_of, keyword_here, find_keyword}

-- The two parts are the text, and the second begins with one of the keywords.
abbrev pub FoundIn : List Text → Text → Option (Text × Text) → Type 0
FoundIn words s none = Unit
FoundIn words s (some (before, from)) =
    (s ≡ before ++ from) × (any (λ w. keyword_here w from) words ≡ true)

FoundIn-cons :
    (words : List Text) (c : ℕ) (s : Text) (o : Option (Text × Text))
    → FoundIn words s o
    → FoundIn words (c ∷ s) (elim o [ none ↦ none | some (before, from) ↦ some (c ∷ before, from) ])
FoundIn-cons words c s none h = tt
FoundIn-cons words c s (some (before, from)) h = (ap (λ r. c ∷ r) h.0, h.1)

pub find_keyword-FoundIn :
    (words : List Text) (s : Text) (inside : Bool) → FoundIn words s (find_keyword words inside s)
unfolding find_keyword
find_keyword-FoundIn words [] inside = tt
find_keyword-FoundIn words (c ∷ s) inside =
    if_intro (FoundIn words (c ∷ s)) (not inside && any (λ w. keyword_here w (c ∷ s)) words)
      (λ t. (refl, ground (arith, t)))
      (λ f. FoundIn-cons words c s _ (find_keyword-FoundIn words s (is_word c)))

-- A keyword that is there is a piece of the text, in whatever case of letters.
pub keyword_here-taken :
    (p s : Text)
    → keyword_here p s ≡ true
    → (map upper_of (take (length p) s) ≡ p) × (s ≡ take (length p) s ++ drop (length p) s)
unfolding keyword_here
keyword_here-taken [] s h = (refl, refl)
keyword_here-taken (c ∷ p) [] h = ground (arith, h)
keyword_here-taken (c ∷ p) (d ∷ s) h =
    let rest = keyword_here-taken p s (ground (arith, h)) in
    let same : upper_of d ≡ c = ground (arith, h) in
    (rw (same, rest.0) refl, ap (λ r. d ∷ r) rest.1)
