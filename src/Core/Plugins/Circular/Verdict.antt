-- ===== src/Core/Plugins/Circular/Verdict.antt =====
-- packages/core/src/plugin/registry.ts: both answers of `detectCircular`.
use intellibiz.Shared.{
  ℕ, suc, String, false, none, some, List, [], ◌∷◌, length, ◌≡◌, refl, arith, All,
}
use intellibiz.Shared.Table.{Table}
use intellibiz.Core.Plugins.Circular.{
  Visit, visited, cycle, unfinished, dep_map, dfs, detect_from, detect_circular,
}
use intellibiz.Core.Plugins.Circular.Cycles.{IsCycle, detect_from-IsCycle}
use intellibiz.Core.Plugins.Circular.Fuel.{is_unfinished, detect_finishes}
use intellibiz.Core.Plugins.Circular.Orders.{Mem, Ordered, dfs-Ordered}

-- What `detectCircular` throws is a cycle: each of its names declares the next one as a
-- dependency, and the last is the first.
pub detect_circular-IsCycle :
    (plugins : List (String × List String)) (c : List String)
    → detect_circular plugins ≡ some c
    → IsCycle (dep_map plugins) c
unfolding detect_circular
detect_circular-IsCycle plugins c h =
    detect_from-IsCycle (dep_map plugins) (suc (suc (length plugins))) plugins c h

-- The name stands in a list of names and of all that they depend on, each before its dependencies.
abbrev pub Resolved : Table (List String) → String × List String → Type 0
Resolved m plugin = (order : List String) × Ordered m order × Mem plugin.0 order

detect_from-Resolved :
    (m : Table (List String)) (fuel : ℕ) (plugins : List (String × List String))
    → ((name : String) → is_unfinished (dfs fuel m [] name []) ≡ false)
    → detect_from fuel m plugins ≡ none
    → All (Resolved m) plugins
unfolding detect_from
detect_from-Resolved m fuel [] f h = tt
detect_from-Resolved m fuel ((name, deps) ∷ plugins) f h =
    go (dfs fuel m [] name []) refl (f name) (detect_from-Resolved m fuel plugins f) h
  where
    go :
        (v : Visit)
        → dfs fuel m [] name [] ≡ v
        → is_unfinished v ≡ false
        → (detect_from fuel m plugins ≡ none → All (Resolved m) plugins)
        → (elim v [ cycle d ↦ some d | _ ↦ detect_from fuel m plugins ]) ≡ none
        → All (Resolved m) ((name, deps) ∷ plugins)
    go (visited s) e n later k = (dfs-Ordered m fuel name s e, later k)
    go (cycle d) e n later k = absurd (ground (arith, k))
    go unfinished e n later k = absurd (ground (arith, n))

-- When `detectCircular` does not throw, every plugin has an order in which it and all that it
-- depends on, directly or not, stand each before its own dependencies.
pub detect_circular-Resolved :
    (plugins : List (String × List String))
    → detect_circular plugins ≡ none
    → All (Resolved (dep_map plugins)) plugins
unfolding detect_circular
detect_circular-Resolved plugins h =
    detect_from-Resolved (dep_map plugins) (suc (suc (length plugins))) plugins
      (detect_finishes plugins) h
