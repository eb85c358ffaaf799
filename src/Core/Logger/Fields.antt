-- ===== src/Core/Logger/Fields.antt =====
-- packages/core/src/logger.ts: what stands in a line.
use intellibiz.Shared.{
  String, Option, none, some, [], ◌∷◌, ◌==◌, eq_iff, if◌then◌else◌, ◌≡◌, refl, ap, ◌∙◌, subst,
  Bool-cases, inl, inr,
}
use intellibiz.Shared.Table.{Table, get, put, get-put, Distinct, put-Distinct}
use intellibiz.Core.Logger.{LogLevel, level_name, spread, ContextLogger, line_of, child}

-- The first of two values that is there
abbrev pub else_in : {V : Type 0} → Option V → Option V → Option V
else_in (some v) o = some v
else_in none o = o

module _ {V : Type 0} where
  pub get-spread :
      (k : String) (object fields : Table V)
      → Distinct fields
      → get k (spread object fields) ≡ else_in (get k fields) (get k object)
  unfolding spread get
  get-spread k object [] h = refl
  get-spread k object ((j, v) ∷ fields) h =
      get-spread k (put j v object) fields h.1 ∙ (elim (Bool-cases (j == k)) [
        | inl e ↦
            let hidden = subst (λ x. get x fields ≡ none) ((eq_iff j k).0 e) h.0 in
            rw (get-put j k v object, e, hidden) refl
        | inr f ↦ rw (get-put j k v object, f) refl
      ])

  pub spread-Distinct :
      (object fields : Table V) → Distinct object → Distinct (spread object fields)
  unfolding spread
  spread-Distinct object [] h = h
  spread-Distinct object ((k, v) ∷ fields) h =
      spread-Distinct (put k v object) fields (put-Distinct k v object h)

  else_in_assoc : (a b c : Option V) → else_in a (else_in b c) ≡ else_in (else_in a b) c
  else_in_assoc none b c = refl
  else_in_assoc (some v) b c = refl

module _ {V : Type 0} (of_text : String → V) where
  -- the fields that the logger itself sets
  abbrev pub stamp : LogLevel → String → Table V
  stamp entry time = ("level", of_text (level_name entry)) ∷ ("time", of_text time) ∷ []

  -- A field of a line is what the call's own fields say, else the message, else what the logger is
  -- bound to, the last child's bindings first, else the level or the time. So the call and the
  -- bindings may replace the level and the time, and the call may replace the trace and the tenant.
  -- No table has a key twice.
  pub line_of-child :
      (k : String) (logger : ContextLogger V) (extra meta : Table V) (entry : LogLevel)
      (time message : String)
      → Distinct logger.bindings
      → Distinct extra
      → Distinct meta
      → get k (line_of of_text (child extra logger) entry time message meta)
        ≡ else_in (get k meta) (
            if "msg" == k
            then some (of_text message)
            else else_in (else_in (get k extra) (get k logger.bindings)) (get k (stamp entry time)))
  unfolding line_of child
  line_of-child k logger extra meta entry time message bound h h' =
      let bindings = spread logger.bindings extra in
      let head = spread (stamp entry time) bindings in
      get-spread k (put "msg" (of_text message) head) meta h'
      ∙ ap (else_in (get k meta)) (
          get-put "msg" k (of_text message) head
          ∙ ap (λ o. if "msg" == k then some (of_text message) else o)
              (get-spread k (stamp entry time) bindings
                  (spread-Distinct logger.bindings extra bound)
                ∙ ap (λ o. else_in o (get k (stamp entry time)))
                    (get-spread k logger.bindings extra h)))
