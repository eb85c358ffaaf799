-- ===== src/Db/Sql/Filters/Injection.antt =====
-- packages/db/src/sql/template.ts: what `injectFilters` makes of a statement.
use intellibiz.Shared.{
  true, false, map, any, ◌⊎◌, Option, none, some, [], ◌∷◌, ◌++◌, eqb, ◌≡◌, refl, sym, ap, subst,
  arith, All, if_intro,
}
use intellibiz.Shared.Text.{Text, codes, to_lower, lower_of}
use intellibiz.Db.Sql.Filters.Literals.{read_literal}
use intellibiz.Db.Sql.Filters.{
  upper_of, keyword_here, clause_keywords, starts_with, contains, passes, expand, combined,
  before_clause, at_where, find_keyword, where_keyword, inject_filters,
}

starts_with-append : (p s : Text) → starts_with p (p ++ s) ≡ true
unfolding starts_with
starts_with-append [] s = refl
starts_with-append (c ∷ p) s = ground (arith, starts_with-append p s)

contains-front : (p s : Text) → contains p (p ++ s) ≡ true
unfolding contains starts_with
contains-front [] [] = refl
contains-front [] (c ∷ s) = refl
contains-front (c ∷ p) s = rw (starts_with-append (c ∷ p) s) refl

contains-behind : (p x s : Text) → contains p s ≡ true → contains p (x ++ s) ≡ true
unfolding contains
contains-behind p [] s h = h
contains-behind p (c ∷ x) s h = ground (arith, contains-behind p x s h)

to_lower-append : (x y : Text) → to_lower (x ++ y) ≡ to_lower x ++ to_lower y
unfolding to_lower
to_lower-append [] y = refl
to_lower-append (c ∷ x) y = ap (λ r. lower_of c ∷ r) (to_lower-append x y)

-- A statement that names the tenant column is left alone.
abbrev Names : Text → Type 0
Names s = contains (codes "org_id") (to_lower s) ≡ true

Names-behind : (x s : Text) → Names s → Names (x ++ s)
Names-behind x s h =
    subst (λ t. contains (codes "org_id") t ≡ true) (sym (to_lower-append x s))
      (contains-behind (codes "org_id") (to_lower x) (to_lower s) h)

Names-here : (s : Text) → Names (codes "org_id" ++ s)
unfolding to_lower
Names-here s = contains-front (codes "org_id") (to_lower s)

before_clause-Names :
    (tenant_id sql : Text) (o : Option (Text × Text)) → Names (before_clause tenant_id sql o)
unfolding before_clause combined
before_clause-Names tenant_id sql none =
    Names-behind sql _ (Names-behind (codes " WHERE ") _ (Names-here _))
before_clause-Names tenant_id sql (some (before, from)) =
    Names-behind before _ (Names-behind (codes "WHERE ") _ (Names-here _))

at_where-Names :
    (tenant_id sql : Text) (o : Option (Text × Text)) → Names (at_where tenant_id sql o)
unfolding at_where combined expand
at_where-Names tenant_id sql none = before_clause-Names tenant_id sql _
at_where-Names tenant_id sql (some (before, from)) =
    Names-behind before _ (Names-behind (codes "WHERE ") _ (Names-here _))

passes-Names : (s : Text) → Names s → passes s ≡ true
unfolding passes
passes-Names s h = ground (arith, h)

passes-inject_filters : (sql tenant_id : Text) → passes (inject_filters sql tenant_id) ≡ true
unfolding inject_filters
passes-inject_filters sql tenant_id =
    if_intro (λ s. passes s ≡ true) (passes sql) (λ t. t)
      (λ f.
        passes-Names (at_where tenant_id sql (find_keyword where_keyword false sql))
          (at_where-Names tenant_id sql (find_keyword where_keyword false sql)))

inject_filters-passes :
    (sql tenant_id : Text) → passes sql ≡ true → inject_filters sql tenant_id ≡ sql
unfolding inject_filters
inject_filters-passes sql tenant_id h = rw h refl

-- Injecting the filters a second time, for whatever tenant, changes nothing: the filters are not doubled,
-- and those of another tenant do not follow.
pub inject_filters_idem :
    (sql tenant_id other : Text)
    → inject_filters (inject_filters sql tenant_id) other ≡ inject_filters sql tenant_id
inject_filters_idem sql tenant_id other =
    inject_filters-passes (inject_filters sql tenant_id) other (passes-inject_filters sql tenant_id)

abbrev pub NoDollar : Text → Type 0
NoDollar s = All (λ c. eqb c b'$' ≡ false) s

-- The filters of a tenant, before `tail`: SQL reads the tenant's id between the quotes, and behind it
-- that deleted rows are left out.
abbrev pub Filters : Text → Text → Text → Type 0
Filters tenant_id tail text =
    (rest : Text) × (text ≡ codes "org_id = '" ++ rest)
    × (read_literal false rest ≡ some (tenant_id, codes " AND deleted_at IS NULL" ++ tail))

-- The statement with the filters behind a WHERE at its end; or before its first clause; or with the
-- filters, and an AND, behind the WHERE that it has.
abbrev pub AtEnd : Text → Text → Text → Type 0
AtEnd sql tenant_id out =
    (filters : Text) × Filters tenant_id [] filters × (out ≡ sql ++ (codes " WHERE " ++ filters))

abbrev pub BeforeClause : Text → Text → Text → Type 0
BeforeClause sql tenant_id out =
    (before : Text) × (from : Text) × (filters : Text) × (sql ≡ before ++ from)
    × (any (λ w. keyword_here w from) clause_keywords ≡ true)
    × Filters tenant_id (codes " " ++ from) filters
    × (out ≡ before ++ (codes "WHERE " ++ filters))

abbrev pub BehindWhere : Text → Text → Text → Type 0
BehindWhere sql tenant_id out =
    (before : Text) × (keyword : Text) × (conditions : Text) × (filters : Text) × (sql
      ≡ before ++ (keyword ++ conditions))
    × (map upper_of keyword ≡ codes "WHERE")
    × Filters tenant_id (codes " AND" ++ conditions) filters
    × (out ≡ before ++ (codes "WHERE " ++ filters))

abbrev pub IsFiltered : Text → Text → Text → Type 0
IsFiltered sql tenant_id out =
    (((find_keyword where_keyword false sql ≡ none)
        × ((find_keyword clause_keywords false sql ≡ none) × AtEnd sql tenant_id out))
      ⊎ ((find_keyword where_keyword false sql ≡ none) × BeforeClause sql tenant_id out))
    ⊎ BehindWhere sql tenant_id out
