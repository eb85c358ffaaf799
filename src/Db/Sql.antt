-- ===== src/Db/Sql.antt =====
-- packages/db/src/sql/template.ts: the tagged template and its fragments. A text is a list of code
-- points, a parameter a value of type `A`.
pub mod Filters
pub mod Placeholders
pub mod Numbering
mod Tests
use intellibiz.Shared.{
  ℕ, suc, ◌+◌, Bool, true, false, Option, none, some, List, [], ◌∷◌, ◌++◌, eqb, if◌then◌else◌,
  length,
}
use intellibiz.Shared.Text.{Text, show, read_from, is_digit}

pub record SqlFragment (A : Type 0) : Type 0 where
  pub sql : Text
  pub params : List A

-- What `isFragment` tells apart.
pub data Value (A : Type 0) : Type 0 where
  plain : A → Value A
  inlined : SqlFragment A → Value A

-- A placeholder
unfoldable pub mark : ℕ → Text
mark n = b'$' ∷ show n

-- What stands for a `$` and the digits behind it.
unfoldable pub shifted : ℕ → Text → Text
unfolding mark
shifted offset [] = b'$' ∷ []
shifted offset (d ∷ ds) = mark (read_from 0 (d ∷ ds) + offset)

-- The rest of a text, outside of a match, or behind a `$` and some digits.
unfoldable pub renumber_from : ℕ → Option Text → Text → Text
unfolding shifted
renumber_from offset none [] = []
renumber_from offset (some ds) [] = shifted offset ds
renumber_from offset none (c ∷ s) =
    let plain_rest = renumber_from offset none s in
    let match_rest = renumber_from offset (some []) s in
    if eqb c b'$' then match_rest else c ∷ plain_rest
renumber_from offset (some ds) (c ∷ s) =
    let plain_rest = renumber_from offset none s in
    let match_rest = renumber_from offset (some []) s in
    let digit_rest = renumber_from offset (some (ds ++ c ∷ [])) s in
    if is_digit c
    then digit_rest
    else shifted offset ds ++ (if eqb c b'$' then match_rest else c ∷ plain_rest)

-- text.replace(/\$(\d+)/g, (_, n) => `$${parseInt(n) + offset}`)
unfoldable pub renumber : ℕ → Text → Text
unfolding renumber_from
renumber offset s = renumber_from offset none s

module _ {A : Type 0} where
  -- `text` and `params`, after one value
  unfoldable pub add_value : Value A → SqlFragment A → SqlFragment A
  unfolding mark renumber
  add_value (plain a) out = record {
    sql = out.sql ++ mark (length (out.params ++ a ∷ []));
    params = out.params ++ a ∷ [];
  }
  add_value (inlined f) out = record {
    sql = out.sql ++ renumber (length out.params) f.sql;
    params = out.params ++ f.params;
  }

  abbrev pub add_literal : Text → SqlFragment A → SqlFragment A
  add_literal s out = record out { sql = out.sql ++ s }

  -- The loop over the strings of the template, each with the value behind it, if there is one.
  unfoldable pub compile_from : List Text → List (Value A) → SqlFragment A → SqlFragment A
  unfolding add_value
  compile_from [] values out = out
  compile_from (s ∷ strings) [] out = compile_from strings [] (add_literal s out)
  compile_from (s ∷ strings) (v ∷ values) out =
      compile_from strings values (add_value v (add_literal s out))

  abbrev pub no_sql : SqlFragment A
  no_sql = record { sql = []; params = [] }

  -- `sql.fragment`; and `sql` up to the injection of the filters
  unfoldable pub fragment : List Text → List (Value A) → SqlFragment A
  unfolding compile_from
  fragment strings values = compile_from strings values no_sql

  -- One round of the loop of `join`, for a fragment that others follow, and the last round.
  unfoldable pub join_from : List (SqlFragment A) → SqlFragment A → SqlFragment A → SqlFragment A
  unfolding add_value
  join_from [] separator out = out
  join_from (f ∷ []) separator out = add_value (inlined f) out
  join_from (f ∷ g ∷ fragments) separator out =
      join_from (g ∷ fragments) separator
        (add_value (inlined separator) (add_value (inlined f) out))

  -- `sql.join`
  unfoldable pub join : List (SqlFragment A) → SqlFragment A → SqlFragment A
  unfolding join_from
  join fragments separator = join_from fragments separator no_sql
