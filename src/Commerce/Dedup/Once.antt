-- ===== src/Commerce/Dedup/Once.antt =====
-- dedup.ts: a sequence of deliveries handles each event at most once.
use intellibiz.Shared.{
  ℕ, suc, ◌+◌, ◌≤◌, ◌<◌, String, ◌≡◌, refl, ap, Bool, true, false, some, List, [], ◌∷◌, inl, inr,
  arith, ◌==◌, ◌&&◌, eq_iff, lt→ltb, if◌then◌else◌, Bool-cases, All,
}
use intellibiz.Shared.Table
use intellibiz.Shared.Table.{Table, Distinct}
use intellibiz.Commerce.Dedup.{
  CacheEntry, key, default_ttl_ms, is_live, WebhookEvent, Outcome, processed, duplicate, Clock,
  Engine, process_webhook, process_all,
}
use intellibiz.Commerce.Dedup.Cache.{
  is_duplicate_lem, get-evict_expired_live, get-mark_processed, evict_expired-Distinct,
  mark_processed-Distinct,
}
use intellibiz.Commerce.Dedup.Pipeline.{
  cache-process_webhook_cases, cache-process_webhook, process_webhook_known,
}

abbrev is_processed : Outcome → Bool
is_processed processed = true
is_processed _ = false

hit_parts : (b : Bool) (o : Outcome) → b && is_processed o ≡ true → (b ≡ true) × (o ≡ processed)
hit_parts b o h = ground arith

-- How many of the deliveries of the event `id` were answered `processed`.
abbrev pub processed_count :
    {P : Type 0} → String → List (Clock × WebhookEvent P) → List Outcome → ℕ
processed_count id ((c, ev) ∷ ds) (o ∷ os) =
    if ev.event_id == id && is_processed o
    then suc (processed_count id ds os)
    else processed_count id ds os
processed_count id _ _ = 0

-- The readings of the clock for one delivery stand in order, and lie within one time to live
-- that begins at `start`.
abbrev pub Within : {P : Type 0} → ℕ → Clock × WebhookEvent P → Type 0
Within start (c, ev) =
    (c.evict_at ≤ c.check_at) × (c.check_at < start + default_ttl_ms) × (start ≤ c.mark_at)

module _ {P W : Type 0} (start : ℕ) where
  process_webhook-Distinct :
      (c : Clock) (ev : WebhookEvent P) (s : Engine P W)
      → Distinct s.cache
      → Distinct (process_webhook c ev s).1.cache
  process_webhook-Distinct c ev s d = elim (cache-process_webhook_cases c ev s) [
    | inl evicted ↦ rw evicted (evict_expired-Distinct c.evict_at s.cache d)
    | inr (done, fresh) ↦ rw (cache-process_webhook c ev s done) (
        mark_processed-Distinct c.mark_at default_ttl_ms ev.event_id _
          (evict_expired-Distinct c.evict_at s.cache d))
  ]

  -- The event is in the cache, and stays there for the whole time.
  IsHeld : String → Engine P W → Type 0
  IsHeld id s =
      (e : CacheEntry) × (Table.get (key id) s.cache ≡ some e)
      × (start + default_ttl_ms ≤ e.expires_at)

  module _ (id : String) (c : Clock) (ev : WebhookEvent P) (s : Engine P W) (d : Distinct s.cache)
      (within : Within start (c, ev)) where
    process_webhook-IsHeld : IsHeld id s → IsHeld id (process_webhook c ev s).1
    unfolding IsHeld
    process_webhook-IsHeld (e, at, long) =
        let kept = get-evict_expired_live c.evict_at (key id) s.cache e d at (omega arith) in
        elim (cache-process_webhook_cases c ev s) [
          | inl evicted ↦ (e, rw evicted kept, long)
          | inr (done, fresh) ↦ elim (Bool-cases (ev.event_id == id)) [
            | inl same ↦ (
              record { processed_at = c.mark_at; expires_at = c.mark_at + default_ttl_ms },
              rw (cache-process_webhook c ev s done) (rw get-mark_processed (rw same)),
              omega arith,
            )
            | inr other ↦ (
              e,
              rw (cache-process_webhook c ev s done) (rw get-mark_processed (rw other kept)),
              long,
            )
          ]
        ]

    process_webhook_held :
        IsHeld id s → (ev.event_id == id) ≡ true → (process_webhook c ev s).0 ≡ duplicate
    unfolding IsHeld is_live
    process_webhook_held (e, at, long) same =
        ap (λ (r : Outcome × Engine P W). r.0)
          (process_webhook_known c ev s (
            rw (is_duplicate_lem c.evict_at c.check_at ev.event_id s.cache within.0 d)
              (rw ((eq_iff ev.event_id id).0 same) (rw at (lt→ltb _ _ (omega arith))))))

    IsHeld-once_processed :
        (ev.event_id == id) ≡ true
        → (process_webhook c ev s).0 ≡ processed
        → IsHeld id (process_webhook c ev s).1
    unfolding IsHeld
    IsHeld-once_processed same done = (
      record { processed_at = c.mark_at; expires_at = c.mark_at + default_ttl_ms },
      rw (cache-process_webhook c ev s done) (rw get-mark_processed (rw same)),
      omega arith,
    )

  none_once_held :
      (id : String) (ds : List (Clock × WebhookEvent P)) (s : Engine P W)
      → Distinct s.cache
      → All (Within start) ds
      → IsHeld id s
      → processed_count id ds (process_all ds s).0 ≡ 0
  unfolding process_all
  none_once_held id [] s d within held = refl
  none_once_held id ((c, ev) ∷ ds) s d within held = ground (
    arith,
    process_webhook_held id c ev s d within.0 held,
    none_once_held id ds (process_webhook c ev s).1 (process_webhook-Distinct c ev s d) within.1
        (process_webhook-IsHeld id c ev s d within.0 held),
  )

  -- Of deliveries that come one after the other, within one time to live, at most one with a
  -- given event id is processed, whatever the handlers do and whatever was in the cache.
  pub processed_count-le :
      (id : String) (ds : List (Clock × WebhookEvent P)) (s : Engine P W)
      → Distinct s.cache
      → All (Within start) ds
      → processed_count id ds (process_all ds s).0 ≤ 1
  unfolding process_all
  processed_count-le id [] s d within = omega arith
  processed_count-le id ((c, ev) ∷ ds) s d within =
      let s' = (process_webhook c ev s).1 in
      let d' = process_webhook-Distinct c ev s d in
      let later = processed_count-le id ds s' d' within.1 in
      elim (Bool-cases (ev.event_id == id && is_processed (process_webhook c ev s).0)) [
        | inl hit ↦
            let (same, done) = hit_parts _ _ hit in
            rw hit (
              rw
                (none_once_held id ds s' d' within.1
                  (IsHeld-once_processed id c ev s d within.0 same done))
                (omega arith))
        | inr miss ↦ rw miss later
      ]
