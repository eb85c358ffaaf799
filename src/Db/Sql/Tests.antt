-- ===== src/Db/Sql/Tests.antt =====
-- template.ts at concrete inputs.
use intellibiz.Shared.{ℕ, List, [], ◌∷◌, ◌≡◌, refl, arith, All}
use intellibiz.Shared.Text.{Text, codes, show, read_from, to_upper, to_lower}
use intellibiz.Shared.Trim.{trim_start, trim}
use intellibiz.Db.Sql.{
  SqlFragment, Value, plain, inlined, mark, shifted, renumber_from, renumber, add_value,
  compile_from, fragment, join_from, join,
}
use intellibiz.Db.Sql.Placeholders.{holes, Literal}
use intellibiz.Db.Sql.Filters.{
  starts_with, contains, keyword_here, find_keyword, expand, escape, combined, passes,
  before_clause, at_where, inject_filters, sql,
}
use intellibiz.Db.Sql.Filters.Injection.{inject_filters_idem}
use intellibiz.Db.Sql.Numbering.{IsNumbered, fragment-IsNumbered}

template : Unit {0}
unfolding fragment join join_from compile_from add_value renumber renumber_from shifted mark show
    read_from holes
template = tt

abbrev paid : SqlFragment ℕ
paid = fragment (codes "a = " ∷ [] ∷ []) (plain 7 ∷ [])

abbrev strings : List Text
strings = codes "b = " ∷ codes " AND " ∷ codes " AND c = " ∷ [] ∷ []

abbrev values : List (Value ℕ)
values = plain 5 ∷ inlined paid ∷ plain 9 ∷ []

abbrev comma : SqlFragment ℕ
comma = fragment (codes " OR " ∷ []) []

-- In the last two, a literal that begins with a digit runs into the placeholder before it, and a
-- dollar amount in a fragment's literal is taken for a placeholder.
template_tests :
    ((fragment strings values).sql ≡ codes "b = $1 AND a = $2 AND c = $3")
    × ((fragment strings values).params ≡ 5 ∷ 7 ∷ 9 ∷ [])
    × ((join (paid ∷ paid ∷ []) comma).sql ≡ codes "a = $1 OR a = $2")
    × ((fragment {A = ℕ} (codes "x < " ∷ codes "0" ∷ []) (plain 5 ∷ [])).sql ≡ codes "x < $10")
    × ((fragment {A = ℕ}
          ([] ∷ codes " AND " ∷ [] ∷ [])
          (plain 5 ∷ inlined (fragment (codes "note = 'costs $5'" ∷ []) []) ∷ [])).sql
        ≡ codes "$1 AND note = 'costs $6'")
unfolding template
template_tests = (refl, refl, refl, refl, refl)

literals : All Literal (codes "a = " ∷ [] ∷ [])
literals = ((refl, (refl, (refl, (refl, (refl, tt))))), ((tt, tt), tt))

paid-IsNumbered : IsNumbered paid
paid-IsNumbered =
    (fragment-IsNumbered (codes "a = " ∷ [] ∷ []) (plain 7 ∷ []) (omega arith) literals (tt, tt)).0

fragment-IsNumbered_example :
    IsNumbered (fragment (codes "a = " ∷ [] ∷ []) (inlined paid ∷ []))
    × ((fragment (codes "a = " ∷ [] ∷ []) (inlined paid ∷ [])).params ≡ 7 ∷ [])
unfolding template
fragment-IsNumbered_example =
    fragment-IsNumbered (codes "a = " ∷ [] ∷ []) (inlined paid ∷ []) (omega arith) literals
      (paid-IsNumbered, tt)

filters : Unit {0}
unfolding template sql inject_filters passes at_where before_clause combined escape expand
    find_keyword keyword_here contains starts_with trim trim_start to_lower to_upper
filters = tt

-- The last two: what the filters say does not bind an OR behind them, and a tenant id with `$&`
-- brings the matched WHERE into the text.
filter_tests :
    (inject_filters (codes "UPDATE t SET x = 1") (codes "t1") ≡ codes "UPDATE t SET x = 1")
    × (inject_filters (codes "select * from o limit 5") (codes "o'x")
        ≡ codes "select * from o WHERE org_id = 'o''x' AND deleted_at IS NULL limit 5")
    × ((sql {A = ℕ}
          (codes "t1")
          (codes " SELECT * FROM o WHERE a = " ∷ codes " OR b = " ∷ [] ∷ [])
          (plain 1 ∷ plain 2 ∷ [])).text
        ≡ codes "SELECT * FROM o WHERE org_id = 't1' AND deleted_at IS NULL AND a = $1 OR b = $2")
    × (inject_filters (codes "SELECT x FROM o WHERE y") (codes "$&")
        ≡ codes "SELECT x FROM o WHERE org_id = 'WHERE' AND deleted_at IS NULL AND y")
unfolding filters
filter_tests = (refl, refl, refl, refl)

inject_filters_idem_example :
    inject_filters (inject_filters (codes "SELECT x FROM o WHERE y") (codes "t1")) (codes "t2")
    ≡ inject_filters (codes "SELECT x FROM o WHERE y") (codes "t1")
inject_filters_idem_example =
    inject_filters_idem (codes "SELECT x FROM o WHERE y") (codes "t1") (codes "t2")
