-- ===== src/Commerce/Dedup.antt =====
-- packages/commerce/src/webhooks/dedup.ts: the cache of processed event ids, the handlers and the
-- pipeline. `Date.now()` is an argument for each time that the code reads it. A handler is code of
-- the application: a function on a state `W` of its own, which may reject.
pub mod Cache
pub mod Pipeline
pub mod Once
mod Tests
use Prim.Native.String.{◌++◌}
use mathlib.Core.List as L
use intellibiz.Shared.{
  ℕ, ◌+◌, ◌*◌, String, Bool, false, Option, none, some, List, [], ◌∷◌, ltb, if◌then◌else◌,
}
use intellibiz.Shared.Table
use intellibiz.Shared.Table.{Table}

abbrev pub default_ttl_ms : ℕ
default_ttl_ms = 24 * 60 * 60 * 1000

pub record CacheEntry : Type 0 where
  pub processed_at : ℕ
  pub expires_at : ℕ

-- the key under which an event id is stored
unfoldable pub key : String → String
key event_id = "ibiz_wh_evt_" ++ event_id

-- the loop of `evictExpired`, for one reading of the clock
unfoldable pub evict_expired : ℕ → Table CacheEntry → Table CacheEntry
evict_expired now [] = []
evict_expired now ((k, e) ∷ m) =
    if ltb e.expires_at now then evict_expired now m else (k, e) ∷ evict_expired now m

-- `!entry` is false, and otherwise the entry must outlive the second reading
unfoldable pub is_live : ℕ → Option CacheEntry → Bool
is_live now none = false
is_live now (some e) = ltb now e.expires_at

-- The answer and the cache that the eviction leaves. The clock is read twice.
unfoldable pub is_duplicate : ℕ → ℕ → String → Table CacheEntry → Bool × Table CacheEntry
unfolding is_live
is_duplicate evict_at check_at event_id cache =
    let cache' = evict_expired evict_at cache in
    (is_live check_at (Table.get (key event_id) cache'), cache')

unfoldable pub mark_processed : ℕ → ℕ → String → Table CacheEntry → Table CacheEntry
mark_processed now ttl_ms event_id cache =
    Table.put (key event_id) (record { processed_at = now; expires_at = now + ttl_ms }) cache

abbrev pub clear_webhook_cache : Table CacheEntry → Table CacheEntry
clear_webhook_cache cache = []

-- The payload is a value of the provider's, which the engine only passes on.
pub record WebhookEvent (P : Type 0) : Type 0 where
  pub kind : String
  pub payload : P
  pub event_id : String
  pub provider : String

-- How a handler's promise settles.
pub data Settled : Type 0 where
  fulfilled : Settled
  thrown : String → Settled

-- What `processWebhook` resolves to; `rejected` when the handler's error passes through it.
pub data Outcome : Type 0 where
  processed duplicate no_handler : Outcome
  rejected : String → Outcome

-- The readings of the clock in one call of `processWebhook`, in their order.
pub record Clock : Type 0 where
  pub evict_at : ℕ
  pub check_at : ℕ
  pub mark_at : ℕ

module _ (P W : Type 0) where
  abbrev pub Handler : Type 0
  Handler = WebhookEvent P → W → Settled × W

  pub record Engine : Type 0 where
    pub cache : Table CacheEntry
    pub handlers : Table Handler
    -- the application's own state, and the ids whose handler has been called
    pub world : W
    pub calls : List String

  -- What stands before the `await`: the two early returns, or the handler that will be called.
  pub data Reception : Type 0 where
    answered : Outcome → Reception
    starts : Handler → Reception

module _ {P W : Type 0} where
  unfoldable pub handle : String → Handler P W → Engine P W → Engine P W
  handle provider handler s = record s { handlers = Table.put provider handler s.handlers }

  unfoldable pub receive : Clock → WebhookEvent P → Engine P W → Reception P W × Engine P W
  receive clock ev s =
      let (known, cache') = is_duplicate clock.evict_at clock.check_at ev.event_id s.cache in
      let s' = record s { cache = cache' } in
      if known then (answered duplicate, s') else elim (Table.get ev.provider s.handlers) [
        | none ↦ (answered no_handler, s')
        | some handler ↦ (starts handler, s')
      ]

  -- `handler(event)`, which the ghost list `calls` records
  unfoldable pub run_handler : Handler P W → WebhookEvent P → Engine P W → Settled × Engine P W
  run_handler handler ev s =
      let (settled, world') = handler ev s.world in
      (settled, record s { world = world'; calls = L.◌++◌ s.calls (ev.event_id ∷ []) })

  -- What stands behind the `await`.
  unfoldable pub complete : ℕ → WebhookEvent P → Settled → Engine P W → Outcome × Engine P W
  complete now ev fulfilled s =
      (processed, record s { cache = mark_processed now default_ttl_ms ev.event_id s.cache })
  complete now ev (thrown reason) s = (rejected reason, s)

  resume : ℕ → WebhookEvent P → Reception P W → Engine P W → Outcome × Engine P W
  unfolding run_handler
  resume now ev (answered outcome) s = (outcome, s)
  resume now ev (starts handler) s =
      let (settled, s') = run_handler handler ev s in complete now ev settled s'

  -- `processWebhook` with nothing else between its two halves
  unfoldable pub process_webhook : Clock → WebhookEvent P → Engine P W → Outcome × Engine P W
  unfolding resume receive complete
  process_webhook clock ev s =
      let (reception, s') = receive clock ev s in resume clock.mark_at ev reception s'

  -- Deliveries one after the other, with the outcome of each.
  pub process_all : List (Clock × WebhookEvent P) → Engine P W → List Outcome × Engine P W
  process_all [] s = ([], s)
  process_all ((clock, ev) ∷ rest) s =
      let (outcome, s') = process_webhook clock ev s in
      let (outcomes, s'') = process_all rest s' in (outcome ∷ outcomes, s'')

  -- Two deliveries of which the second arrives while the handler of the first is awaited.
  pub process_overlapping :
      Clock
      → WebhookEvent P
      → Clock
      → WebhookEvent P
      → Engine P W
      → (Outcome × Outcome) × Engine P W
  process_overlapping c d c' d' s =
      let (r, s₁) = receive c d s in
      let (r', s₂) = receive c' d' s₁ in
      let (o, s₃) = resume c.mark_at d r s₂ in
      let (o', s₄) = resume c'.mark_at d' r' s₃ in ((o, o'), s₄)
