-- ===== src/Db/Sql/Numbering.antt =====
-- packages/db/src/sql/template.ts: the placeholders of a compiled text count its parameters.
use mathlib.Core.List.{append-nil, append_assoc}
use intellibiz.Shared.{
  ℕ, zero, suc, ◌+◌, ◌≤◌, List, [], ◌∷◌, ◌++◌, map, length, ◌≡◌, refl, sym, ap, ◌∙◌, subst, arith,
  All, length-append,
}
use intellibiz.Shared.Text.{Text}
use intellibiz.Db.Sql.{
  SqlFragment, Value, plain, inlined, mark, renumber, add_value, add_literal, compile_from, no_sql,
  fragment, join_from, join,
}
use intellibiz.Db.Sql.Placeholders.{
  holes, Clear, Clear-append, Clear-renumber, holes-mark, holes-append, holes-renumber, Literal,
  holes-Literal,
}

-- k + 1, ..., k + n
abbrev pub range_from : ℕ → ℕ → List ℕ
range_from k zero = []
range_from k (suc n) = suc k ∷ range_from (suc k) n

map-range_from : (k j n : ℕ) → map (λ i. i + k) (range_from j n) ≡ range_from (j + k) n
map-range_from k j zero = refl
map-range_from k j (suc n) =
    let e : suc j + k ≡ suc (j + k) = omega arith in
    subst (λ i. (suc j + k) ∷ map (λ x. x + k) (range_from (suc j) n) ≡ i ∷ range_from i n) e
      (ap (λ xs. (suc j + k) ∷ xs) (map-range_from k (suc j) n))

range_from-append : (k m n : ℕ) → range_from k m ++ range_from (k + m) n ≡ range_from k (m + n)
range_from-append k zero n =
    let e : k + 0 ≡ k = omega arith in let e' : 0 + n ≡ n = omega arith in rw (e, e') refl
range_from-append k (suc m) n =
    let e : k + suc m ≡ suc k + m = omega arith in
    let e' : suc m + n ≡ suc (m + n) = omega arith in
    rw (e, e') (ap (λ xs. suc k ∷ xs) (range_from-append (suc k) m n))

-- The next placeholder behind `k` of them.
range_from-next : (k n : ℕ) → n ≡ k + 1 → range_from 0 k ++ n ∷ [] ≡ range_from 0 n
range_from-next k n h =
    let e : suc (0 + k) ≡ k + 1 = omega arith in rw h (rw e at (range_from-append 0 k 1))

holes_alone : (n : ℕ) → holes (mark n) ≡ n ∷ []
holes_alone n =
    subst (λ x. holes x ≡ n ∷ []) (append-nil (mark n))
      (holes-mark n [] tt ∙ ap (λ xs. n ∷ xs) (unfold holes in refl))

module _ {A : Type 0} where
  -- The placeholders are $1, $2, ..., in this order, one for each parameter, and the text does not
  -- begin with a digit.
  abbrev pub IsNumbered : SqlFragment A → Type 0
  IsNumbered f = (holes f.sql ≡ range_from 0 (length f.params)) × Clear f.sql

  abbrev pub Fits : Value A → Type 0
  Fits (plain a) = Unit
  Fits (inlined f) = IsNumbered f

  add_literal-IsNumbered :
      (s : Text) (out : SqlFragment A) → Literal s → IsNumbered out → IsNumbered (add_literal s out)
  add_literal-IsNumbered s out l h = (
    holes-append out.sql s l.0
        ∙ (ap (λ x. holes out.sql ++ x) (holes-Literal s l.1) ∙ (append-nil (holes out.sql) ∙ h.0)),
    Clear-append out.sql s h.1 l.0,
  )

  add_value-IsNumbered :
      (v : Value A) (out : SqlFragment A) → Fits v → IsNumbered out → IsNumbered (add_value v out)
  unfolding add_value
  add_value-IsNumbered (plain a) out f h =
      let n = length (out.params ++ a ∷ []) in
      (
        holes-append out.sql (mark n) (unfold mark in refl)
            ∙ (ap (λ x. holes out.sql ++ x) (holes_alone n)
                ∙ (ap (λ x. x ++ n ∷ []) h.0
                    ∙ range_from-next (length out.params) n (length-append out.params (a ∷ [])))),
        Clear-append out.sql (mark n) h.1 (unfold mark in refl),
      )
  add_value-IsNumbered (inlined x) out f h =
      let k = length out.params in
      let joined : range_from 0 k ++ range_from (0 + k) (length x.params)
          ≡ range_from 0 (length (out.params ++ x.params)) =
        range_from-append 0 k (length x.params)
        ∙ ap (range_from 0) (sym (length-append out.params x.params)) in
      (
        holes-append out.sql (renumber k x.sql) (Clear-renumber k x.sql f.1)
            ∙ (ap (λ y. y ++ holes (renumber k x.sql)) h.0
                ∙ (ap (λ y. range_from 0 k ++ y)
                      (holes-renumber k x.sql
                        ∙ (ap (map (λ i. i + k)) f.0 ∙ map-range_from k 0 (length x.params)))
                    ∙ joined)),
        Clear-append out.sql (renumber (length out.params) x.sql) h.1
            (Clear-renumber (length out.params) x.sql f.1),
      )

  compile_from-IsNumbered :
      (strings : List Text) (values : List (Value A)) (out : SqlFragment A)
      → All Literal strings
      → All Fits values
      → IsNumbered out
      → IsNumbered (compile_from strings values out)
  unfolding compile_from
  compile_from-IsNumbered [] values out l f h = h
  compile_from-IsNumbered (s ∷ strings) [] out l f h =
      compile_from-IsNumbered strings [] (add_literal s out) l.1 tt
        (add_literal-IsNumbered s out l.0 h)
  compile_from-IsNumbered (s ∷ strings) (v ∷ values) out l f h =
      compile_from-IsNumbered strings values (add_value v (add_literal s out)) l.1 f.1
        (add_value-IsNumbered v (add_literal s out) f.0 (add_literal-IsNumbered s out l.0 h))

  abbrev pub params_of : List (Value A) → List A
  params_of [] = []
  params_of (plain a ∷ values) = a ∷ params_of values
  params_of (inlined f ∷ values) = f.params ++ params_of values

  compile_from-params :
      (strings : List Text) (values : List (Value A)) (out : SqlFragment A)
      → length values ≤ length strings
      → (compile_from strings values out).params ≡ out.params ++ params_of values
  unfolding compile_from add_value
  compile_from-params [] [] out h = sym (append-nil out.params)
  compile_from-params (s ∷ strings) [] out h =
      compile_from-params strings [] (add_literal s out) (omega arith)
  compile_from-params [] (v ∷ values) out h = absurd (omega (arith, h))
  compile_from-params (s ∷ strings) (plain a ∷ values) out h =
      compile_from-params strings values (add_value (plain a) (add_literal s out))
        (omega (arith, h))
      ∙ append_assoc out.params (a ∷ []) (params_of values)
  compile_from-params (s ∷ strings) (inlined f ∷ values) out h =
      compile_from-params strings values (add_value (inlined f) (add_literal s out))
        (omega (arith, h))
      ∙ append_assoc out.params f.params (params_of values)

  -- A template whose literal pieces hold no `$` and begin with no digit, and whose inlined
  -- fragments are numbered, compiles to a numbered text: its placeholders are $1, $2, ..., one for
  -- each parameter. The parameters are those of its values, in their order.
  pub fragment-IsNumbered :
      (strings : List Text) (values : List (Value A))
      → length values ≤ length strings
      → All Literal strings
      → All Fits values
      → IsNumbered (fragment strings values) × ((fragment strings values).params ≡ params_of values)
  unfolding fragment
  fragment-IsNumbered strings values n l f = (
    compile_from-IsNumbered strings values no_sql l f (unfold holes in refl, tt),
    compile_from-params strings values no_sql n,
  )

  join_from-IsNumbered :
      (fragments : List (SqlFragment A)) (separator out : SqlFragment A)
      → All IsNumbered fragments
      → IsNumbered separator
      → IsNumbered out
      → IsNumbered (join_from fragments separator out)
  unfolding join_from
  join_from-IsNumbered [] separator out f s h = h
  join_from-IsNumbered (x ∷ []) separator out f s h = add_value-IsNumbered (inlined x) out f.0 h
  join_from-IsNumbered (x ∷ y ∷ fragments) separator out f s h =
      join_from-IsNumbered (y ∷ fragments) separator
        (add_value (inlined separator) (add_value (inlined x) out)) f.1 s
        (add_value-IsNumbered (inlined separator) (add_value (inlined x) out) s
          (add_value-IsNumbered (inlined x) out f.0 h))

  -- Numbered fragments, joined by a numbered separator, are numbered.
  pub join-IsNumbered :
      (fragments : List (SqlFragment A)) (separator : SqlFragment A)
      → All IsNumbered fragments
      → IsNumbered separator
      → IsNumbered (join fragments separator)
  unfolding join
  join-IsNumbered fragments separator f s =
      join_from-IsNumbered fragments separator no_sql f s (unfold holes in refl, tt)
