-- ===== src/Core/Plugins/Circular/Orders.antt =====
-- packages/core/src/plugin/registry.ts: what it means that `detectCircular` finds nothing.
use intellibiz.Shared.{
  ℕ, zero, suc, String, true, false, List, [], ◌∷◌, ◌++◌, ◌==◌, ◌≡◌, refl, ap, arith, All,
  Bool-cases, inl, inr, ◌⊎◌, eq_refl, subst,
}
use intellibiz.Shared.Table.{Table}
use intellibiz.Core.Plugins.Container.{includes}
use intellibiz.Core.Plugins.Circular.{Visit, visited, cycle, unfinished, deps_of, visit_all, dfs}

abbrev pub Mem : String → List String → Type 0
Mem x xs = includes x xs ≡ true

-- Each name stands before all of its dependencies, which are in the list too: no dependency leads
-- from a name back to it.
abbrev pub Ordered : Table (List String) → List String → Type 0
Ordered m [] = Unit
Ordered m (x ∷ xs) = All (λ dep. Mem dep xs) (deps_of m x) × Ordered m xs

abbrev Sub : List String → List String → Type 0
Sub xs ys = (x : String) → Mem x xs → Mem x ys

-- Every visited name is on the path or in the order.
abbrev Covered : List String → List String → List String → Type 0
Covered path order seen = (x : String) → Mem x seen → Mem x path ⊎ Mem x order

-- What a visit adds to an order.
abbrev Extends :
    Table (List String) → List String → List String → List String → List String → Type 0
Extends m path order names seen =
    (order' : List String) × Ordered m order'
    × Sub order order'
    × Covered path order' seen
    × All (λ x. Mem x order') names

Mem-here : (x : String) (xs : List String) → Mem x (x ∷ xs)
Mem-here x xs = ground (arith, eq_refl x)

Mem-there : (x y : String) (xs : List String) → Mem x xs → Mem x (y ∷ xs)
Mem-there x y xs h = ground (arith, h)

All-Sub :
    (names xs ys : List String) → Sub xs ys → All (λ x. Mem x xs) names → All (λ x. Mem x ys) names
All-Sub [] xs ys s h = tt
All-Sub (n ∷ ns) xs ys s h = (s n h.0, All-Sub ns xs ys s h.1)

Mem-append : (x : String) (xs ys : List String) → Mem x (xs ++ ys) → Mem x xs ⊎ Mem x ys
Mem-append x [] ys h = inr h
Mem-append x (y ∷ xs) ys h = elim (Bool-cases (y == x)) [
  | inl t ↦ inl (rw t refl)
  | inr f ↦ rw f (Mem-append x xs ys (rw f at h))
]

Mem-alone : (x name : String) (xs : List String) → Mem x (name ∷ []) → Mem x (name ∷ xs)
Mem-alone x name xs h = ground (arith, h)

Mem-left : (x : String) (xs ys : List String) → Mem x xs → Mem x (xs ++ ys)
Mem-left x [] ys h = absurd (ground (arith, h))
Mem-left x (y ∷ xs) ys h = elim (Bool-cases (y == x)) [
  | inl t ↦ rw t refl
  | inr f ↦ rw f (Mem-left x xs ys (rw f at h))
]

Mem-last : (x name : String) (xs : List String) → name == x ≡ true → Mem x (xs ++ name ∷ [])
Mem-last x name [] h = ground (arith, h)
Mem-last x name (y ∷ xs) h = elim (Bool-cases (y == x)) [
  | inl t ↦ rw t refl
  | inr f ↦ rw f (Mem-last x name xs h)
]

Covered-below :
    (path order seen : List String) (name : String)
    → Covered path order seen
    → Covered (path ++ name ∷ []) order (name ∷ seen)
Covered-below path order seen name c x h = elim (Bool-cases (name == x)) [
  | inl t ↦ inl (Mem-last x name path t)
  | inr f ↦ elim (c x (rw f at h)) [ inl p ↦ inl (Mem-left x path (name ∷ []) p) | inr q ↦ inr q ]
]

seen_of : Visit → List String
seen_of (visited seen) = seen
seen_of _ = []

visited-inj : {s t : List String} → visited s ≡ visited t → s ≡ t
unfolding seen_of
visited-inj h = ap seen_of h

-- A loop that ends has had a first visit that ended.
visit_all-first :
    (visit : String → List String → Visit) (name : String) (names seen seen' : List String)
    → visit_all visit (name ∷ names) seen ≡ visited seen'
    → (seen1 : List String) × (visit name seen ≡ visited seen1)
      × (visit_all visit names seen1 ≡ visited seen')
unfolding visit_all
visit_all-first visit name names seen seen' h = go (visit name seen) refl h
  where
    go :
        (v : Visit)
        → visit name seen ≡ v
        → (elim v [
          | visited s ↦ visit_all visit names s
          | cycle c ↦ cycle c
          | unfinished ↦ unfinished
        ])
          ≡ visited seen'
        → (seen1 : List String) × (visit name seen ≡ visited seen1)
          × (visit_all visit names seen1 ≡ visited seen')
    go (visited s) e k = (s, e, k)
    go (cycle c) e k = absurd (ground (arith, k))
    go unfinished e k = absurd (ground (arith, k))

module _ (m : Table (List String)) where
  Sound : (String → List String → Visit) → List String → Type 0
  Sound visit path =
      (name : String) (seen seen' order : List String)
      → visit name seen ≡ visited seen'
      → Ordered m order
      → Covered path order seen
      → Extends m path order (name ∷ []) seen'

  visit_all-Sound :
      (visit : String → List String → Visit) (path : List String)
      → Sound visit path
      → (names seen seen' order : List String) → visit_all visit names seen ≡ visited seen'
      → Ordered m order
      → Covered path order seen
      → Extends m path order names seen'
  unfolding visit_all Sound
  visit_all-Sound visit path sound [] seen seen' order h o c =
      (order, o, λ x k. k, subst (Covered path order) (visited-inj h) c, tt)
  visit_all-Sound visit path sound (name ∷ names) seen seen' order h o c =
      let first = visit_all-first visit name names seen seen' h in
      let one = sound name seen first.0 order first.1 o c in
      let rest = visit_all-Sound visit path sound names first.0 seen' one.0 first.2 one.1 one.3 in
      (rest.0, rest.1, λ x k. rest.2 x (one.2 x k), rest.3, (rest.2 name one.4.0, rest.4))

  visited_before :
      (path : List String) (name : String) (seen seen' order : List String)
      → Ordered m order
      → Covered path order seen
      → seen ≡ seen'
      → includes name path ≡ false
      → Mem name seen
      → Extends m path order (name ∷ []) seen'
  visited_before path name seen seen' order o c e f t = (
    order,
    o,
    λ x k. k,
    subst (Covered path order) e c,
    (elim (c name t) [ inl p ↦ absurd (ground (arith, p, f)) | inr q ↦ q ], tt),
  )

  visited_now :
      (path : List String) (name : String) (seen' order : List String)
      → Extends m (path ++ name ∷ []) order (deps_of m name) seen'
      → Extends m path order (name ∷ []) seen'
  visited_now path name seen' order (order', o, sub, covered, deps) = (
    name ∷ order',
    (deps, o),
    λ x k. Mem-there x name order' (sub x k),
    λ x k. elim (covered x k) [
      | inl p ↦ elim (Mem-append x path (name ∷ []) p) [
        | inl q ↦ inl q
        | inr q ↦ inr (Mem-alone x name order' q)
      ]
      | inr q ↦ inr (Mem-there x name order' q)
    ],
    (Mem-here name order', tt),
  )

  dfs-Sound : (fuel : ℕ) (path : List String) → Sound (dfs fuel m path) path
  unfolding dfs Sound
  dfs-Sound zero path name seen seen' order h o c = absurd (ground (arith, h))
  dfs-Sound (suc fuel) path name seen seen' order h o c = elim (Bool-cases (includes name path)) [
    | inl t ↦ absurd (ground (arith, rw (t, dfs) at h))
    | inr f ↦ elim (Bool-cases (includes name seen)) [
      | inl t ↦
          visited_before path name seen seen' order o c (visited-inj (rw (f, t, dfs) at h)) f t
      | inr g ↦ visited_now path name seen' order (
          visit_all-Sound (dfs fuel m (path ++ name ∷ [])) (path ++ name ∷ [])
            (dfs-Sound fuel (path ++ name ∷ [])) (deps_of m name) (name ∷ seen) seen' order
            (rw (f, g, dfs) at h) o (Covered-below path order seen name c))
    ]
  ]

-- A visit that ends without a cycle: the name stands in an order of names and their dependencies.
pub dfs-Ordered :
    (m : Table (List String)) (fuel : ℕ) (name : String) (seen' : List String)
    → dfs fuel m [] name [] ≡ visited seen'
    → (order : List String) × Ordered m order × Mem name order
unfolding Sound
dfs-Ordered m fuel name seen' h =
    let out = dfs-Sound m fuel [] name [] seen' [] h tt (λ x k. inr k) in (out.0, out.1, out.4.0)
