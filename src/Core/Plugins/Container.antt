-- ===== src/Core/Plugins/Container.antt =====
-- packages/core/src/plugin/registry.ts: `DIContainer`, over service instances of type `V`.
use Prim.Native.String.{◌++◌}
use intellibiz.Shared.{
  String, Bool, true, false, Option, none, some, List, [], ◌∷◌, if◌then◌else◌, Result, ok, err,
  ◌==◌, ◌≡◌, refl, arith, eq_iff, inl, inr, Bool-cases, ap, ◌∙◌,
}
use intellibiz.Shared.Table.{Table, get, put, has, get-put}

-- `DIContainer.register`
unfoldable pub register : {V : Type 0} → String → V → Table V → Result (Table V)
register key value services =
    if has key services then err "already registered" else ok (put key value services)

-- `DIContainer.get`
unfoldable pub fetch : {V : Type 0} → String → Table V → Result V
fetch key services = elim (get key services) [ none ↦ err "not registered" | some v ↦ ok v ]

-- One round of the loop of `sandboxedView`.
abbrev pub add_to : {V : Type 0} → String → Option V → Table V → Table V
add_to key none view = view
add_to key (some v) view = put key v view

unfoldable pub sandboxed_from : {V : Type 0} → Table V → List String → Table V → Table V
sandboxed_from services [] view = view
sandboxed_from services (key ∷ allowed) view =
    sandboxed_from services allowed (add_to key (get key services) view)

-- `DIContainer.sandboxedView`
unfoldable pub sandboxed_view : {V : Type 0} → Table V → List String → Table V
unfolding sandboxed_from
sandboxed_view services allowed = sandboxed_from services allowed []

-- The key of a service that the container keeps for its plugin.
unfoldable pub namespaced : String → String → String
namespaced name service_name = name ++ ("." ++ service_name)

-- `xs.includes(x)`
abbrev pub includes : String → List String → Bool
includes x [] = false
includes x (y ∷ ys) = if y == x then true else includes x ys

abbrev or_also : {V : Type 0} → Option V → Option V → Option V
or_also none o = o
or_also (some v) o = some v

or_also-none : {V : Type 0} (o : Option V) → or_also o none ≡ o
or_also-none none = refl
or_also-none (some v) = refl

get-add_to :
    {V : Type 0} (k key : String) (o : Option V) (view : Table V)
    → get key (add_to k o view) ≡ (if k == key then or_also o (get key view) else get key view)
get-add_to k key none view = ground arith
get-add_to k key (some v) view = get-put k key v view

twice :
    {V : Type 0} (later : Bool) (a o : Option V)
    → (if later then or_also a (or_also a o) else or_also a o) ≡ or_also a o
twice true none o = refl
twice true (some v) o = refl
twice false a o = refl

-- Two rounds that may add the same key.
both_rounds :
    {V : Type 0} (k key : String) (later : Bool) (services : Table V) (o : Option V)
    → (if later
        then or_also (get key services) (if k == key then or_also (get k services) o else o)
        else (if k == key then or_also (get k services) o else o))
      ≡ (if (if k == key then true else later) then or_also (get key services) o else o)
both_rounds k key later services o = elim (Bool-cases (k == key)) [
  | inl t ↦
      let e : k ≡ key = ground (arith, eq_iff k key, t) in
      rw t (rw e (twice later (get key services) o))
  | inr f ↦ rw f refl
]

get-sandboxed_from :
    {V : Type 0} (services : Table V) (allowed : List String) (view : Table V) (key : String)
    → get key (sandboxed_from services allowed view)
      ≡ (if includes key allowed then or_also (get key services) (get key view) else get key view)
unfolding sandboxed_from
get-sandboxed_from services [] view key = refl
get-sandboxed_from services (k ∷ allowed) view key =
    get-sandboxed_from services allowed (add_to k (get k services) view) key
    ∙ (ap (λ x. if includes key allowed then or_also (get key services) x else x)
          (get-add_to k key (get k services) view)
        ∙ both_rounds k key (includes key allowed) services (get key view))

-- A plugin's view holds the services that it declared and that are registered, and nothing else.
pub get-sandboxed_view :
    {V : Type 0} (services : Table V) (allowed : List String) (key : String)
    → get key (sandboxed_view services allowed)
      ≡ (if includes key allowed then get key services else none)
unfolding sandboxed_view get
get-sandboxed_view services allowed key =
    get-sandboxed_from services allowed [] key
    ∙ ap (λ x. if includes key allowed then x else none) (or_also-none (get key services))
