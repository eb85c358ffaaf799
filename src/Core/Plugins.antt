-- ===== src/Core/Plugins.antt =====
-- packages/core/src/plugin/registry.ts. `V` is the type of service instances. A service factory is
-- code of the plugin: a function of its view of the container, which may throw. A plugin's services
-- stand in the order of `Object.entries`.
pub mod Container
pub mod Circular
pub mod Loading
mod Tests
use intellibiz.Shared.{
  ℕ, suc, String, Bool, true, false, not, Option, none, some, List, [], ◌∷◌, ◌++◌, if◌then◌else◌,
  or_else, length, map, Result, ok, err, ◌==◌,
}
use intellibiz.Shared.Table.{Table, get, put, has}
use intellibiz.Core.Plugins.Circular.{detect_circular}
use intellibiz.Core.Plugins.Container.{register, sandboxed_view, namespaced, includes}

pub record PluginDefinition (V : Type 0) : Type 0 where
  pub name : String
  pub dependencies : List String
  pub services : List (String × (Table V → Result V))

-- What `detectCircular` reads of the plugins.
abbrev pub declared : {V : Type 0} → List (PluginDefinition V) → List (String × List String)
declared plugins = map (λ p. (p.name, p.dependencies)) plugins

-- `PluginRegistry`
pub record PluginRegistry (V : Type 0) : Type 0 where
  pub services : Table V
  pub loaded : List String

-- The loop over the declared dependencies: the first that is missing.
unfoldable pub missing : {V : Type 0} → Table V → List String → Option String
missing services [] = none
missing services (dep ∷ deps) = if has dep services then missing services deps else some dep

-- The name without its namespace is registered if it is free.
unfoldable pub register_short : {V : Type 0} → String → V → Table V → Table V
register_short service_name instance_ services =
    if has service_name services then services else put service_name instance_ services

-- The errors that `loadAll` rejects with.
pub data LoadError : Type 0 where
  circular_dependency : List String → LoadError
  missing_dependency : String → String → LoadError
  factory_threw : String → String → String → LoadError

-- The `try` block for one service, and what it leaves of the container.
unfoldable pub register_service :
    {V : Type 0} → String → String → Result V → Table V → Option LoadError × Table V
unfolding register register_short
register_service name service_name (err e) services =
    (some (factory_threw name service_name e), services)
register_service name service_name (ok v) services =
    elim (register (namespaced name service_name) v services) [
      | ok services' ↦ (none, register_short service_name v services')
      | err e ↦ (some (factory_threw name service_name e), services)
    ]

unfoldable pub register_services :
    {V : Type 0}
    → String
    → Table V
    → List (String × (Table V → Result V))
    → Table V
    → Option LoadError × Table V
unfolding register_service
register_services name deps [] services = (none, services)
register_services name deps ((service_name, factory) ∷ rest) services =
    let (r, services') = register_service name service_name (factory deps) services in
    elim r [ none ↦ register_services name deps rest services' | some e ↦ (some e, services') ]

-- The end of `load`: the plugin is noted if every service was registered.
abbrev pub loaded_with :
    {V : Type 0}
    → String
    → List String
    → Option LoadError × Table V
    → Option LoadError × PluginRegistry V
loaded_with name loaded (none, services) =
    (none, record { services = services; loaded = loaded ++ name ∷ [] })
loaded_with name loaded (some e, services) =
    (some e, record { services = services; loaded = loaded })

unfoldable pub load_new :
    {V : Type 0}
    → PluginDefinition V
    → PluginRegistry V
    → Option String
    → Option LoadError × PluginRegistry V
unfolding register_services
load_new plugin s (some dep) = (some (missing_dependency plugin.name dep), s)
load_new plugin s none = loaded_with plugin.name s.loaded (
    register_services plugin.name (sandboxed_view s.services plugin.dependencies) plugin.services
      s.services)

-- `load`
unfoldable pub load :
    {V : Type 0} → PluginDefinition V → PluginRegistry V → Option LoadError × PluginRegistry V
unfolding load_new missing
load plugin s =
    if includes plugin.name s.loaded
    then (none, s)
    else load_new plugin s (missing s.services plugin.dependencies)

-- the loop of `loadAll`
unfoldable pub load_each :
    {V : Type 0}
    → List (PluginDefinition V)
    → PluginRegistry V
    → Option LoadError × PluginRegistry V
unfolding load
load_each [] s = (none, s)
load_each (plugin ∷ plugins) s =
    let (r, s') = load plugin s in elim r [ none ↦ load_each plugins s' | some e ↦ (some e, s') ]

-- `loadAll`
unfoldable pub load_all :
    {V : Type 0}
    → List (PluginDefinition V)
    → PluginRegistry V
    → Option LoadError × PluginRegistry V
unfolding load_each
load_all plugins s = elim (detect_circular (declared plugins)) [
  | some cycle ↦ (some (circular_dependency cycle), s)
  | none ↦ load_each plugins s
]
