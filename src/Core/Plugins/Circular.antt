-- ===== src/Core/Plugins/Circular.antt =====
-- packages/core/src/plugin/registry.ts: `detectCircular`. `visited` and `path` are lists of names;
-- the recursion of `dfs` runs on fuel, one unit for each step down.
pub mod Cycles
pub mod Fuel
pub mod Orders
pub mod Verdict
use intellibiz.Shared.{
  ℕ, zero, suc, ◌+◌, String, Bool, true, false, Option, none, some, List, [], ◌∷◌, ◌++◌,
  if◌then◌else◌, or_else, length, ◌==◌,
}
use intellibiz.Shared.Table.{Table, get, put}
use intellibiz.Core.Plugins.Container.{includes}

-- What `dfs` leaves: the names visited, the cycle that it throws, or that the fuel was too little.
pub data Visit : Type 0 where
  visited : List String → Visit
  cycle : List String → Visit
  unfinished : Visit

-- The dependencies by name; the last of two plugins with the same name counts.
unfoldable pub dep_map_from :
    List (String × List String) → Table (List String) → Table (List String)
dep_map_from [] m = m
dep_map_from ((name, deps) ∷ plugins) m = dep_map_from plugins (put name deps m)

unfoldable pub dep_map : List (String × List String) → Table (List String)
unfolding dep_map_from
dep_map plugins = dep_map_from plugins []

unfoldable pub deps_of : Table (List String) → String → List String
deps_of m name = or_else (get name m) []

-- `path.slice(path.indexOf(name))`
unfoldable pub slice_from : String → List String → List String
slice_from name [] = []
slice_from name (x ∷ path) = if x == name then x ∷ path else slice_from name path

-- The loop over the dependencies: `visit` is `dfs` below the path of its caller.
unfoldable pub visit_all : (String → List String → Visit) → List String → List String → Visit
visit_all visit [] seen = visited seen
visit_all visit (name ∷ names) seen = elim (visit name seen) [
  | visited seen' ↦ visit_all visit names seen'
  | cycle c ↦ cycle c
  | unfinished ↦ unfinished
]

unfoldable pub dfs : ℕ → Table (List String) → List String → String → List String → Visit
unfolding visit_all
dfs zero m path name seen = unfinished
dfs (suc fuel) m path name seen = elim (includes name path) [
  | true ↦ cycle (slice_from name path ++ name ∷ [])
  | false ↦ elim (includes name seen) [
    | true ↦ visited seen
    | false ↦ visit_all (dfs fuel m (path ++ name ∷ [])) (deps_of m name) (name ∷ seen)
  ]
]

-- The loop over the plugins, each with a new set.
unfoldable pub detect_from :
    ℕ → Table (List String) → List (String × List String) → Option (List String)
unfolding dfs
detect_from fuel m [] = none
detect_from fuel m ((name, deps) ∷ plugins) = elim (dfs fuel m [] name []) [
  | cycle c ↦ some c
  | _ ↦ detect_from fuel m plugins
]

-- A path has no name twice and, but for its end, only names of plugins.
unfoldable pub detect_circular : List (String × List String) → Option (List String)
unfolding detect_from dep_map
detect_circular plugins = detect_from (suc (suc (length plugins))) (dep_map plugins) plugins
