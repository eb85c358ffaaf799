-- ===== src/Core/Plugins/Tests.antt =====
-- registry.ts at concrete inputs.
use intellibiz.Shared.{ℕ, String, none, some, List, [], ◌∷◌, ◌≡◌, refl, ok, All}
use intellibiz.Shared.Table
use intellibiz.Shared.Table.{Table, get, has}
use intellibiz.Core.Plugins.Container.{register, fetch, sandboxed_from, sandboxed_view, namespaced}
use intellibiz.Core.Plugins.Circular.{
  dep_map_from, dep_map, deps_of, slice_from, visit_all, dfs, detect_from, detect_circular,
}
use intellibiz.Core.Plugins.Circular.Cycles.{IsCycle}
use intellibiz.Core.Plugins.Circular.Verdict.{
  Resolved, detect_circular-IsCycle, detect_circular-Resolved,
}
use intellibiz.Core.Plugins.{
  PluginDefinition, PluginRegistry, missing_dependency, missing, register_short, register_service,
  register_services, load_new, load, load_each, load_all,
}

registry : Unit {0}
unfolding load_all load_each load load_new register_services register_service register_short missing
    register fetch sandboxed_view sandboxed_from namespaced detect_circular detect_from dfs
    visit_all slice_from deps_of dep_map dep_map_from Table.get Table.put
registry = tt

abbrev plugin : String → List String → List (String × ℕ) → PluginDefinition ℕ
plugin name deps [] = record { name = name; dependencies = deps; services = [] }
plugin name deps ((service, n) ∷ rest) = record {
  name = name;
  dependencies = deps;
  services = (service, λ view. ok n) ∷ [];
}

abbrev base : PluginDefinition ℕ
base = plugin "base" [] (("db", 1) ∷ [])

abbrev shop : PluginDefinition ℕ
shop = plugin "shop" ("db" ∷ []) (("cart", 2) ∷ [])

abbrev empty : PluginRegistry ℕ
empty = record { services = []; loaded = [] }

abbrev with_base : PluginRegistry ℕ
with_base = (load_all (base ∷ []) empty).1

-- Two plugins that need each other's services by their keys: no cycle of plugin names.
abbrev crossed : List (PluginDefinition ℕ)
crossed = plugin "a" ("y" ∷ []) (("x", 1) ∷ []) ∷ plugin "b" ("x" ∷ []) (("y", 2) ∷ []) ∷ []

abbrev ring : List (String × List String)
ring = ("d", "b" ∷ []) ∷ ("b", "c" ∷ []) ∷ ("c", "b" ∷ []) ∷ []

abbrev diamond : List (String × List String)
diamond = ("top", "l" ∷ "r" ∷ []) ∷ ("l", "base" ∷ []) ∷ ("r", "base" ∷ []) ∷ ("base", []) ∷ []

loading_tests :
    ((load_all (base ∷ shop ∷ []) empty).0 ≡ none)
    × ((load_all (base ∷ shop ∷ []) empty).1.loaded ≡ "base" ∷ "shop" ∷ [])
    × (fetch "shop.cart" (load_all (base ∷ shop ∷ []) empty).1.services ≡ ok 2)
    × (fetch "cart" (load_all (base ∷ shop ∷ []) empty).1.services ≡ ok 2)
    × ((load_all (shop ∷ base ∷ []) empty).0 ≡ some (missing_dependency "shop" "db"))
    × ((load_all crossed empty).0 ≡ some (missing_dependency "a" "y"))
    × (detect_circular ring ≡ some ("b" ∷ "c" ∷ "b" ∷ []))
    × (detect_circular diamond ≡ none)
unfolding registry
loading_tests = (refl, refl, refl, refl, refl, refl, refl, refl)

detect_circular-IsCycle_example : IsCycle (dep_map ring) ("b" ∷ "c" ∷ "b" ∷ [])
unfolding registry
detect_circular-IsCycle_example = detect_circular-IsCycle ring ("b" ∷ "c" ∷ "b" ∷ []) refl

detect_circular-Resolved_example : All (Resolved (dep_map diamond)) diamond
unfolding registry
detect_circular-Resolved_example = detect_circular-Resolved diamond refl
