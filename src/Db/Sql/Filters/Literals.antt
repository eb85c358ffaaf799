-- ===== src/Db/Sql/Filters/Literals.antt =====
-- packages/db/src/sql/template.ts: the tenant id in the filters, as SQL reads a text in quotes.
use intellibiz.Shared.{
  ℕ, Bool, true, false, Option, none, some, [], ◌∷◌, ◌++◌, eqb, eqb_iff, if◌then◌else◌, ◌≡◌, refl,
  sym, ap, ◌∙◌, if_intro,
}
use intellibiz.Shared.Text.{Text}
use intellibiz.Db.Sql.Filters.{escape}

abbrev pub with_char : ℕ → Option (Text × Text) → Option (Text × Text)
with_char c none = none
with_char c (some (t, rest)) = some (c ∷ t, rest)

-- The text that SQL reads behind an opening quote, and what is left behind the closing one: two quotes
-- are one in the text. The Boolean says that a quote has just been read.
unfoldable pub read_literal : Bool → Text → Option (Text × Text)
read_literal false [] = none
read_literal true [] = some ([], [])
read_literal false (c ∷ s) =
    let quoted = read_literal true s in
    let rest = read_literal false s in if eqb c 39 then quoted else with_char c rest
read_literal true (c ∷ s) =
    let rest = read_literal false s in if eqb c 39 then with_char 39 rest else some ([], c ∷ s)

-- What is escaped is read back, and ends where it ends.
pub read_literal-escape :
    (t rest : Text) → read_literal false (escape t ++ (39 ∷ 32 ∷ rest)) ≡ some (t, 32 ∷ rest)
unfolding read_literal escape
read_literal-escape [] rest = refl
read_literal-escape (c ∷ t) rest =
    let h = read_literal-escape t rest in
    if_intro (λ x. read_literal false (x ++ (39 ∷ 32 ∷ rest)) ≡ some (c ∷ t, 32 ∷ rest)) (eqb c 39)
      (λ q.
        let e : c ≡ 39 = (eqb_iff c 39).0 q in
        ap (with_char 39) h ∙ ap (λ d. some (d ∷ t, 32 ∷ rest)) (sym e))
      (λ q. rw q (ap (with_char c) h))
