-- ===== src/Core/Plugins/Circular/Cycles.antt =====
-- packages/core/src/plugin/registry.ts: the cycle that `detectCircular` throws is one.
use intellibiz.Shared.{
  ℕ, zero, suc, String, true, some, List, [], ◌∷◌, ◌++◌, or_else, ◌==◌, ◌≡◌, refl, ◌∙◌, ap, arith,
  Bool-cases, inl, inr, eq_iff, subst,
}
use intellibiz.Shared.Table.{Table}
use intellibiz.Core.Plugins.Container.{includes}
use intellibiz.Core.Plugins.Circular.{
  Visit, visited, cycle, unfinished, deps_of, slice_from, visit_all, dfs, detect_from,
}

abbrev Next : Table (List String) → String → List String → Type 0
Next m x [] = Unit
Next m x (y ∷ ys) = includes y (deps_of m x) ≡ true

-- Each name depends on the next one.
abbrev pub Linked : Table (List String) → List String → Type 0
Linked m [] = Unit
Linked m (x ∷ xs) = Next m x xs × Linked m xs

-- A chain of dependencies that ends where it began.
abbrev pub IsCycle : Table (List String) → List String → Type 0
IsCycle m c =
    Linked m c × ((name : String) × (between : List String) × (c ≡ name ∷ (between ++ name ∷ [])))

Linked-append :
    (m : Table (List String)) (path : List String) (x y : String)
    → Linked m (path ++ x ∷ [])
    → includes y (deps_of m x) ≡ true
    → Linked m ((path ++ x ∷ []) ++ y ∷ [])
Linked-append m [] x y h k = (k, (tt, tt))
Linked-append m (z ∷ []) x y h k = (h.0, Linked-append m [] x y h.1 k)
Linked-append m (z ∷ w ∷ path) x y h k = (h.0, Linked-append m (w ∷ path) x y h.1 k)

IsCycle-slice_from :
    (m : Table (List String)) (path : List String) (name : String)
    → includes name path ≡ true
    → Linked m (path ++ name ∷ [])
    → IsCycle m (slice_from name path ++ name ∷ [])
unfolding slice_from
IsCycle-slice_from m [] name i h = absurd (ground (arith, i))
IsCycle-slice_from m (x ∷ path) name i h = elim (Bool-cases (x == name)) [
  | inl t ↦
      let e : x ≡ name = ground (arith, eq_iff x name, t) in
      rw t (h, (name, path, ap (λ z. z ∷ (path ++ name ∷ [])) e))
  | inr f ↦ rw f (IsCycle-slice_from m path name (rw f at i) h.1)
]

-- The visit that threw.
visit_all-cycle :
    (visit : String → List String → Visit) (names seen c : List String)
    → visit_all visit names seen ≡ cycle c
    → (name : String) × (seen1 : List String) × (includes name names ≡ true)
      × (visit name seen1 ≡ cycle c)
unfolding visit_all
visit_all-cycle visit [] seen c h = absurd (ground (arith, h))
visit_all-cycle visit (name ∷ names) seen c h =
    go (visit name seen) refl (λ s. visit_all-cycle visit names s c) h
  where
    go :
        (v : Visit)
        → visit name seen ≡ v
        → ((s : List String)
            → visit_all visit names s ≡ cycle c
            → (n : String) × (seen1 : List String) × (includes n names ≡ true)
              × (visit n seen1 ≡ cycle c))
        → (elim v [
          | visited s ↦ visit_all visit names s
          | cycle c ↦ cycle c
          | unfinished ↦ unfinished
        ])
          ≡ cycle c
        → (n : String) × (seen1 : List String) × (includes n (name ∷ names) ≡ true)
          × (visit n seen1 ≡ cycle c)
    go (visited s) e later k =
        let found = later s k in (found.0, found.1, ground (arith, found.2), found.3)
    go (cycle d) e later k = (name, seen, ground (arith, eq_iff name name), e ∙ k)
    go unfinished e later k = absurd (ground (arith, k))

names_of : Visit → List String
names_of (cycle c) = c
names_of _ = []

-- What `dfs` throws is a cycle, if its path and its name are a chain of dependencies.
dfs-IsCycle :
    (m : Table (List String)) (fuel : ℕ) (path : List String) (name : String) (seen c : List String)
    → dfs fuel m path name seen ≡ cycle c
    → Linked m (path ++ name ∷ [])
    → IsCycle m c
unfolding dfs names_of
dfs-IsCycle m zero path name seen c h l = absurd (ground (arith, h))
dfs-IsCycle m (suc fuel) path name seen c h l = elim (Bool-cases (includes name path)) [
  | inl t ↦ subst (IsCycle m) (ap names_of (rw (t, dfs) at h)) (IsCycle-slice_from m path name t l)
  | inr f ↦ elim (Bool-cases (includes name seen)) [
    | inl t ↦ absurd (ground (arith, rw (f, t, dfs) at h))
    | inr g ↦
        let found =
          visit_all-cycle (dfs fuel m (path ++ name ∷ [])) (deps_of m name) (name ∷ seen) c
            (rw (f, g, dfs) at h) in
        dfs-IsCycle m fuel (path ++ name ∷ []) found.0 found.1 c found.3
          (Linked-append m path name found.0 l found.2)
  ]
]

-- The loop over the plugins throws what one of their visits throws.
pub detect_from-IsCycle :
    (m : Table (List String)) (fuel : ℕ) (plugins : List (String × List String)) (c : List String)
    → detect_from fuel m plugins ≡ some c
    → IsCycle m c
unfolding detect_from
detect_from-IsCycle m fuel [] c h = absurd (ground (arith, h))
detect_from-IsCycle m fuel ((name, deps) ∷ plugins) c h =
    go (dfs fuel m [] name []) refl (detect_from-IsCycle m fuel plugins c) h
  where
    go :
        (v : Visit)
        → dfs fuel m [] name [] ≡ v
        → (detect_from fuel m plugins ≡ some c → IsCycle m c)
        → (elim v [ cycle d ↦ some d | _ ↦ detect_from fuel m plugins ]) ≡ some c
        → IsCycle m c
    go (visited s) e later k = later k
    go (cycle d) e later k =
        let same : d ≡ c = ap (λ o. or_else o []) k in
        dfs-IsCycle m fuel [] name [] c (rw same at e) (tt, tt)
    go unfinished e later k = later k
