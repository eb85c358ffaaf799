-- ===== src/Shared/Table.antt =====
-- JavaScript's `Map` with string keys, in insertion order: a write to a key that is there keeps
-- the key's place, and any other write goes to the end.
use Prim.Native.String.{String}
use mathlib.Core.Path.{◌≡◌, refl}
use mathlib.Core.Logic.{inl, inr}
use mathlib.Core.Bool.{Bool, true, false}
use mathlib.Core.Option.{Option, none, some}
use mathlib.Core.List.{List, [], ◌∷◌, map}
use native.Mathlib.Omega.{arith}
use text.Mathlib.Text.{◌==◌}
use text.Mathlib.TextEquality.{eq_iff}
use intellibiz.Shared.Tests.{if◌then◌else◌, Bool-cases}

abbrev pub Table {ℓ} : Type ℓ → Type ℓ
Table V = List (String × V)

-- A comparison that fails one way round fails the other way round.
pub eqb_flip : (s t : String) → (s == t) ≡ false → (t == s) ≡ false
eqb_flip s t h = ground (arith, eq_iff s t, eq_iff t s)

module _ {ℓ} {V : Type ℓ} where
  -- m.get(k)
  unfoldable pub get : String → Table V → Option V
  get k [] = none
  get k ((j, v) ∷ m) = if j == k then some v else get k m

  abbrev is_some : Option V → Bool
  is_some none = false
  is_some (some v) = true

  -- m.has(k)
  abbrev pub has : String → Table V → Bool
  has k m = is_some (get k m)

  -- m.set(k, v)
  unfoldable pub put : String → V → Table V → Table V
  put k v [] = (k, v) ∷ []
  put k v ((j, w) ∷ m) = if j == k then (j, v) ∷ m else (j, w) ∷ put k v m

  -- m.delete(k)
  unfoldable pub delete : String → Table V → Table V
  delete k [] = []
  delete k ((j, v) ∷ m) = if j == k then delete k m else (j, v) ∷ delete k m

  -- Array.from(m.keys())
  unfoldable pub keys : Table V → List String
  keys m = map (λ e. e.0) m

  pub get-put :
      (k j : String) (v : V) (m : Table V)
      → get j (put k v m) ≡ (if k == j then some v else get j m)
  unfolding get put
  get-put k j v [] = refl
  get-put k j v ((i, w) ∷ m) = ground (arith, eq_iff k j, eq_iff i k, eq_iff i j, get-put k j v m)

  pub get-delete :
      (k j : String) (m : Table V) → get j (delete k m) ≡ (if k == j then none else get j m)
  unfolding get delete
  get-delete k j [] = ground arith
  get-delete k j ((i, w) ∷ m) = ground (arith, eq_iff k j, eq_iff i k, eq_iff i j, get-delete k j m)

-- No key stands twice, which the writes below keep.
abbrev pub Distinct {ℓ} : {V : Type ℓ} → Table V → Type ℓ
Distinct [] = Unit
Distinct ((k, v) ∷ m) = (get k m ≡ none) × Distinct m

module _ {ℓ} {V : Type ℓ} where
  pub put-Distinct : (k : String) (v : V) (m : Table V) → Distinct m → Distinct (put k v m)
  unfolding put
  put-Distinct k v [] h = (unfold get in refl, tt)
  put-Distinct k v ((j, w) ∷ m) h = elim (Bool-cases (j == k)) [
    | inl e ↦ rw e h
    | inr e ↦ rw e (rw (get-put, eqb_flip j k e) h.0, put-Distinct k v m h.1)
  ]

pub ruleset table_laws = (get-put, get-delete)
