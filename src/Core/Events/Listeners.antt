-- ===== src/Core/Events/Listeners.antt =====
-- packages/core/src/events/bus.ts: the registry of listeners and of their retry budgets.
use intellibiz.Shared.{
  ℤ, pos, negsuc, ℕ, suc, String, Bool, false, Option, none, some, List, [], ◌∷◌, ◌++◌, eqb, leb,
  if◌then◌else◌, or_else, length, ◌≡◌, refl, arith, ◌==◌, eq_iff, length-append,
}
use intellibiz.Shared.Table.{Table, get, put, delete, keys, get-put, get-delete}

-- attempt <= maxRetries
abbrev pub within : ℕ → ℤ → Bool
within attempt (pos m) = leb attempt m
within attempt (negsuc m) = false

-- The identity of a function.
abbrev pub ListenerId : Type 0
ListenerId = ℕ

abbrev pub default_max_retries : ℤ
default_max_retries = pos 3

-- `listeners` and `listenerMaxRetries`
pub record Registry : Type 0 where
  pub listeners : Table (List ListenerId)
  pub budgets : List (ListenerId × ℤ)

-- A write to the weak map hides the writes before it.
unfoldable pub budget_of : List (ListenerId × ℤ) → ListenerId → Option ℤ
budget_of [] fn = none
budget_of ((g, m) ∷ ms) fn = if eqb g fn then some m else budget_of ms fn

unfoldable pub max_retries_of : Registry → ListenerId → ℤ
unfolding budget_of
max_retries_of registry fn = or_else (budget_of registry.budgets fn) default_max_retries

unfoldable pub listeners_of : Registry → String → List ListenerId
listeners_of registry event = or_else (get event registry.listeners) []

unfoldable pub with_budget : ListenerId → Option ℤ → Registry → Registry
with_budget fn none registry = registry
with_budget fn (some m) registry = record registry { budgets = (fn, m) ∷ registry.budgets }

-- `on`
unfoldable pub subscribe : String → ListenerId → Option ℤ → Registry → Registry
unfolding listeners_of with_budget
subscribe event fn max_retries registry = with_budget fn max_retries (record registry {
  listeners = put event (listeners_of registry event ++ fn ∷ []) registry.listeners;
})

unfoldable pub off : String → Registry → Registry
off event registry = record registry { listeners = delete event registry.listeners }

unfoldable pub clear_all_listeners : Registry → Registry
clear_all_listeners registry = record registry { listeners = [] }

unfoldable pub listener_count : String → Registry → ℕ
unfolding listeners_of
listener_count event registry = length (listeners_of registry event)

unfoldable pub registered_events : Registry → List String
registered_events registry = keys registry.listeners

-- A registration adds one listener to its event and none to another. A retry budget that comes with
-- it is the budget of that listener from then on; every other listener keeps its own, and so does
-- this one if none comes.
pub subscribe_frame :
    (event other : String) (fn g : ListenerId) (m : Option ℤ) (registry : Registry)
    → (listener_count other (subscribe event fn m registry) ≡ (
        if event == other
        then suc (listener_count other registry)
        else listener_count other registry))
      × (max_retries_of (subscribe event fn m registry) g
          ≡ (if eqb fn g then or_else m (max_retries_of registry g) else max_retries_of registry g))
unfolding subscribe listener_count max_retries_of
subscribe_frame event other fn g none registry = (
  rw (get-put event other _ registry.listeners)
      (ground (arith, eq_iff event other, length-append (listeners_of registry event) (fn ∷ []))),
  ground arith,
)
subscribe_frame event other fn g (some b) registry = (
  rw (get-put event other _ registry.listeners)
      (ground (arith, eq_iff event other, length-append (listeners_of registry event) (fn ∷ []))),
  ground arith,
)

-- After `off` the event has no listeners, and every other event keeps its own; a listener that is
-- registered again has its old retry budget.
pub off_frame :
    (event other : String) (g : ListenerId) (registry : Registry)
    → (listeners_of (off event registry) other
        ≡ (if event == other then [] else listeners_of registry other))
      × (max_retries_of (off event registry) g ≡ max_retries_of registry g)
unfolding off listeners_of max_retries_of
off_frame event other g registry =
    (rw (get-delete event other registry.listeners) (ground arith), refl)
