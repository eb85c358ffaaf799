-- ===== src/Core/Plugins/Circular/Fuel.antt =====
-- packages/core/src/plugin/registry.ts: the recursion of `detectCircular` ends.
use intellibiz.Shared.{
  ℕ, zero, suc, ◌+◌, ◌≤◌, ◌<◌, String, Bool, true, false, some, List, [], ◌∷◌, ◌++◌, if◌then◌else◌,
  length, ◌==◌, ◌≡◌, refl, ap, arith, Bool-cases, Option-cases, inl, inr, eq_iff,
}
use intellibiz.Shared.Table.{Table, get, put}
use intellibiz.Core.Plugins.Container.{includes}
use intellibiz.Core.Plugins.Circular.{
  Visit, visited, cycle, unfinished, dep_map_from, dep_map, deps_of, visit_all, dfs,
}

abbrev pub is_unfinished : Visit → Bool
is_unfinished unfinished = true
is_unfinished _ = false

-- How many names of the map are not on the path.
abbrev off_path : Table (List String) → List String → ℕ
off_path [] path = 0
off_path ((k, deps) ∷ m) path = if includes k path then off_path m path else suc (off_path m path)

includes-append :
    (x : String) (xs ys : List String)
    → includes x (xs ++ ys) ≡ (if includes x xs then true else includes x ys)
includes-append x [] ys = refl
includes-append x (y ∷ xs) ys = ground (arith, includes-append x xs ys)

off_path-append :
    (m : Table (List String)) (path : List String) (name : String)
    → off_path m (path ++ name ∷ []) ≤ off_path m path
off_path-append [] path name = omega arith
off_path-append ((k, deps) ∷ m) path name =
    ground (arith, includes-append k path (name ∷ []), off_path-append m path name)

-- A name of the map that the path did not have.
off_path-shrinks :
    (m : Table (List String)) (path : List String) (name : String) (deps : List String)
    → get name m ≡ some deps
    → includes name path ≡ false
    → off_path m (path ++ name ∷ []) < off_path m path
unfolding get
off_path-shrinks [] path name deps h f = absurd (ground (arith, h))
off_path-shrinks ((k, ds) ∷ m) path name deps h f = elim (Bool-cases (k == name)) [
  | inl t ↦
      let e : k ≡ name = ground (arith, eq_iff k name, t) in
      rw e (
        ground (
          arith,
          includes-append name path (name ∷ []),
          eq_iff name name,
          off_path-append m path name,
          f,
        ))
  | inr g ↦ ground (
    arith,
    includes-append k path (name ∷ []),
    off_path-shrinks m path name deps (rw g at h) f,
    g,
  )
]

visit_all_finishes :
    (visit : String → List String → Visit) (names seen : List String)
    → ((name : String) (seen : List String) → is_unfinished (visit name seen) ≡ false)
    → is_unfinished (visit_all visit names seen) ≡ false
unfolding visit_all
visit_all_finishes visit [] seen h = refl
visit_all_finishes visit (name ∷ names) seen h =
    go (visit name seen) (h name seen) (λ s. visit_all_finishes visit names s h)
  where
    go :
        (v : Visit)
        → is_unfinished v ≡ false
        → ((s : List String) → is_unfinished (visit_all visit names s) ≡ false)
        → is_unfinished (elim v [
          | visited s ↦ visit_all visit names s
          | cycle c ↦ cycle c
          | unfinished ↦ unfinished
        ])
          ≡ false
    go (visited s) e later = later s
    go (cycle d) e later = refl
    go unfinished e later = e

-- `dfs` ends if it has more fuel than there are names left off its path.
dfs_finishes :
    (m : Table (List String)) (fuel : ℕ) (path : List String) (name : String) (seen : List String)
    → off_path m path < fuel
    → is_unfinished (dfs fuel m path name seen) ≡ false
unfolding dfs deps_of
dfs_finishes m zero path name seen h = absurd (omega (arith, h))
dfs_finishes m (suc fuel) path name seen h = elim (Bool-cases (includes name path)) [
  | inl t ↦ rw (t, dfs) refl
  | inr f ↦ elim (Bool-cases (includes name seen)) [
    | inl t ↦ rw (f, t, dfs) refl
    | inr g ↦
        rw (f, g, dfs)
          (elim (Option-cases (get name m)) [
            | inl e ↦ rw e (unfold visit_all in refl)
            | inr (deps, e) ↦
                visit_all_finishes (dfs fuel m (path ++ name ∷ [])) (deps_of m name) (name ∷ seen)
                  (λ n seen1.
                    dfs_finishes m fuel (path ++ name ∷ []) n seen1
                      (omega (arith, off_path-shrinks m path name deps e f, h)))
          ])
  ]
]

off_path-none : (m : Table (List String)) → off_path m [] ≡ length m
off_path-none [] = refl
off_path-none ((k, deps) ∷ m) = ap suc (off_path-none m)

length-put :
    (name : String) (deps : List String) (m : Table (List String))
    → length (put name deps m) ≤ suc (length m)
unfolding put
length-put name deps [] = omega arith
length-put name deps ((k, ds) ∷ m) = ground (arith, length-put name deps m)

length-dep_map_from :
    (plugins : List (String × List String)) (m : Table (List String))
    → length (dep_map_from plugins m) ≤ length plugins + length m
unfolding dep_map_from
length-dep_map_from [] m = omega arith
length-dep_map_from ((name, deps) ∷ plugins) m =
    omega (arith, length-dep_map_from plugins (put name deps m), length-put name deps m)

-- The fuel of `detectCircular` is enough for each of its visits.
pub detect_finishes :
    (plugins : List (String × List String)) (name : String)
    → is_unfinished (dfs (suc (suc (length plugins))) (dep_map plugins) [] name []) ≡ false
unfolding dep_map
detect_finishes plugins name =
    dfs_finishes (dep_map plugins) (suc (suc (length plugins))) [] name []
      (omega (arith, off_path-none (dep_map plugins), length-dep_map_from plugins []))
