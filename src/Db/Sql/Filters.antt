-- ===== src/Db/Sql/Filters.antt =====
-- packages/db/src/sql/template.ts: `injectFilters`, on texts of ASCII characters.
pub mod Keywords
pub mod Literals
pub mod Injection
use intellibiz.Shared.{
  ℕ, zero, suc, ◌+◌, Bool, true, false, not, ◌&&◌, ◌||◌, Option, none, some, List, [], ◌∷◌, ◌++◌,
  map, eqb, leb, if◌then◌else◌, reverse, any, ◌-◌,
}
use intellibiz.Shared.Trim.{is_space, trim_start, trim}
use intellibiz.Shared.Text.{Text, codes, to_upper, is_digit, to_lower, lower_of}
use intellibiz.Db.Sql.{Value, fragment}

abbrev pub take : ℕ → Text → Text
take zero s = []
take (suc n) [] = []
take (suc n) (c ∷ s) = c ∷ take n s

abbrev pub drop : ℕ → Text → Text
drop zero s = s
drop (suc n) [] = []
drop (suc n) (c ∷ s) = drop n s

-- `\w`
abbrev pub is_word : ℕ → Bool
is_word c = is_digit c || (leb b'A' c && leb c b'Z') || (leb b'a' c && leb c b'z') || eqb c b'_'

-- `s.startsWith(p)`
unfoldable pub starts_with : Text → Text → Bool
starts_with [] s = true
starts_with (p ∷ ps) [] = false
starts_with (p ∷ ps) (c ∷ s) = eqb p c && starts_with ps s

-- `s.includes(p)`
unfoldable pub contains : Text → Text → Bool
unfolding starts_with
contains p [] = starts_with p []
contains p (c ∷ s) = starts_with p (c ∷ s) || contains p s

abbrev pub upper_of : ℕ → ℕ
upper_of c = if leb b'a' c && leb c b'z' then c - 32 else c

-- Does the text begin with the keyword, in any case of letters, and does the keyword end there?
unfoldable pub keyword_here : Text → Text → Bool
keyword_here [] [] = true
keyword_here [] (c ∷ s) = not (is_word c)
keyword_here (p ∷ ps) [] = false
keyword_here (p ∷ ps) (c ∷ s) = eqb p (upper_of c) && keyword_here ps s

-- The first match of `\b(...)\b`, as the text before it and the text from it on; `inside` says
-- whether a character of a word stands before.
unfoldable pub find_keyword : List Text → Bool → Text → Option (Text × Text)
unfolding keyword_here
find_keyword words inside [] = none
find_keyword words inside (c ∷ s) =
    let rest = find_keyword words (is_word c) s in
    if not inside && any (λ w. keyword_here w (c ∷ s)) words
    then some ([], c ∷ s)
    else elim rest [ none ↦ none | some (before, from) ↦ some (c ∷ before, from) ]

-- The replacement text of `String.replace`, with its patterns `$$`, `$&`, `` $` `` and `$'`;
-- `dollar` says whether a `$` stands before.
unfoldable pub expand : Text → Text → Text → Bool → Text → Text
expand matched before behind false [] = []
expand matched before behind true [] = b'$' ∷ []
expand matched before behind false (c ∷ s) =
    let plain = c ∷ expand matched before behind false s in
    let pattern_ = expand matched before behind true s in if eqb c b'$' then pattern_ else plain
expand matched before behind true (c ∷ s) =
    let rest = expand matched before behind false s in
    if eqb c b'$'
    then b'$' ∷ rest
    else if eqb c b'&'
    then matched ++ rest
    else if eqb c 96
    then before ++ rest
    else if eqb c 39
    then behind ++ rest
    else b'$' ∷ c ∷ rest

-- `tenantId.replace(/'/g, "''")`
unfoldable pub escape : Text → Text
escape [] = []
escape (c ∷ s) = if eqb c 39 then 39 ∷ 39 ∷ escape s else c ∷ escape s

-- `combined`
unfoldable pub combined : Text → Text
unfolding escape
combined tenant_id = codes "org_id = '" ++ (escape tenant_id ++ codes "' AND deleted_at IS NULL")

abbrev pub where_keyword : List Text
where_keyword = codes "WHERE" ∷ []

abbrev pub clause_keywords : List Text
clause_keywords = codes "ORDER BY" ∷ codes "LIMIT" ∷ codes "GROUP BY" ∷ codes "HAVING" ∷ []

-- Are the filters left out?
unfoldable pub passes : Text → Bool
unfolding trim starts_with contains to_lower to_upper
passes sql =
    not (starts_with (codes "SELECT") (to_upper (trim sql)))
    || contains (codes "org_id") (to_lower sql)

-- The text without a WHERE, split before the first clause behind it.
unfoldable pub before_clause : Text → Text → Option (Text × Text) → Text
unfolding combined
before_clause tenant_id sql none = sql ++ (codes " WHERE " ++ combined tenant_id)
before_clause tenant_id sql (some (before, from)) =
    before ++ (codes "WHERE " ++ (combined tenant_id ++ (codes " " ++ from)))

-- The text split before its WHERE.
unfoldable pub at_where : Text → Text → Option (Text × Text) → Text
unfolding before_clause expand find_keyword
at_where tenant_id sql none = before_clause tenant_id sql (find_keyword clause_keywords false sql)
at_where tenant_id sql (some (before, from)) =
    before
    ++ (expand (take 5 from) before (drop 5 from) false
          (codes "WHERE " ++ (combined tenant_id ++ codes " AND"))
        ++ drop 5 from)

unfoldable pub inject_filters : Text → Text → Text
unfolding passes at_where
inject_filters sql tenant_id =
    if passes sql then sql else at_where tenant_id sql (find_keyword where_keyword false sql)

pub record SqlQuery (A : Type 0) : Type 0 where
  pub text : Text
  pub params : List A
  pub tenant_id : Text

-- The tag `sql`.
unfoldable pub sql : {A : Type 0} → Text → List Text → List (Value A) → SqlQuery A
unfolding inject_filters
sql tenant_id strings values =
    let out = fragment strings values in
    record {
      text = inject_filters (trim out.sql) tenant_id;
      params = out.params;
      tenant_id = tenant_id;
    }
