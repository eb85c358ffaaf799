-- ===== src/Commerce/Dedup/Pipeline.antt =====
-- dedup.ts: `processWebhook`, one delivery at a time and two at once.
use mathlib.Core.List.{append_assoc}
use intellibiz.Shared.{
  ℕ, ◌+◌, ◌≤◌, ◌<◌, String, ◌≡◌, true, false, some, [], ◌∷◌, ◌++◌, ◌⊎◌, inl, inr, arith, eq_refl,
  lt→ltb, Option-cases,
}
use intellibiz.Shared.Table
use intellibiz.Shared.Table.{Table, Distinct, get-put, put-Distinct}
use intellibiz.Commerce.Dedup.{
  default_ttl_ms, evict_expired, is_duplicate, mark_processed, WebhookEvent, processed, duplicate,
  rejected, Clock, Engine, Handler, starts, receive, complete, resume, process_webhook,
  process_overlapping,
}
use intellibiz.Commerce.Dedup.Cache.{
  is_duplicate-evict_expired, is_duplicate-mark_processed, evict_expired-Distinct,
}

module _ {P W : Type 0} (c : Clock) (ev : WebhookEvent P) (s : Engine P W) where
  pub cache-process_webhook :
      (process_webhook c ev s).0 ≡ processed
      → (process_webhook c ev s).1.cache
        ≡ mark_processed c.mark_at default_ttl_ms ev.event_id (evict_expired c.evict_at s.cache)
  unfolding process_webhook is_duplicate
  cache-process_webhook e = ground arith

  pub process_webhook_known :
      (is_duplicate c.evict_at c.check_at ev.event_id s.cache).0 ≡ true
      → process_webhook c ev s ≡ (duplicate, record s { cache = evict_expired c.evict_at s.cache })
  unfolding process_webhook is_duplicate
  process_webhook_known e = ground arith

  -- Whatever the outcome, the cache is the evicted one, or that with this event marked.
  pub cache-process_webhook_cases :
      ((process_webhook c ev s).1.cache ≡ evict_expired c.evict_at s.cache)
      ⊎ (((process_webhook c ev s).0 ≡ processed)
          × ((is_duplicate c.evict_at c.check_at ev.event_id s.cache).0 ≡ false))
  unfolding process_webhook is_duplicate
  cache-process_webhook_cases = ground arith

  -- A handler that rejects was called for an event that is new, and the event stays new.
  inversion_rejected :
      (reason : String)
      → (process_webhook c ev s).0 ≡ rejected reason
      → ((is_duplicate c.evict_at c.check_at ev.event_id s.cache).0 ≡ false)
        × ((process_webhook c ev s).1.cache ≡ evict_expired c.evict_at s.cache)
        × ((process_webhook c ev s).1.handlers ≡ s.handlers)
        × (handler : Handler P W) × (Table.get ev.provider s.handlers ≡ some handler)
  unfolding process_webhook is_duplicate
  inversion_rejected reason e = elim (Option-cases (Table.get ev.provider s.handlers)) [
    | inl missing ↦ absurd (ground arith)
    | inr (handler, at) ↦ (ground arith, ground arith, ground arith, handler, at)
  ]

module _ {P W : Type 0} (c : Clock) (ev : WebhookEvent P) (s : Engine P W) (handler : Handler P W)
    (fresh : (is_duplicate c.evict_at c.check_at ev.event_id s.cache).0 ≡ false)
    (at : Table.get ev.provider s.handlers ≡ some handler) where
  receive_fresh :
      receive c ev s ≡ (starts handler, record s { cache = evict_expired c.evict_at s.cache })
  unfolding receive is_duplicate
  receive_fresh = ground arith

  calls-process_webhook : (process_webhook c ev s).1.calls ≡ s.calls ++ ev.event_id ∷ []
  unfolding process_webhook is_duplicate
  calls-process_webhook = ground arith

-- The second half adds its event to the calls, however the handler ends.
calls-resume :
    {P W : Type 0} (now : ℕ) (ev : WebhookEvent P) (handler : Handler P W) (s : Engine P W)
    → (resume now ev (starts handler) s).1.calls ≡ s.calls ++ ev.event_id ∷ []
unfolding resume complete
calls-resume now ev handler s = ground arith

module _ {P W : Type 0} where
  -- An event that was processed is a duplicate for as long as it lives: a further delivery with
  -- its id, from whichever provider, is answered `duplicate`, calls no handler, and leaves the
  -- application's state alone.
  pub process_webhook_idem :
      (c c' : Clock) (ev ev' : WebhookEvent P) (s : Engine P W)
      → Distinct s.cache
      → (process_webhook c ev s).0 ≡ processed
      → ev.event_id ≡ ev'.event_id
      → c'.evict_at ≤ c'.check_at
      → c'.check_at < c.mark_at + default_ttl_ms
      → let s' = (process_webhook c ev s).1 in
        let again = process_webhook c' ev' s' in
        (again.0 ≡ duplicate) × (again.1.calls ≡ s'.calls) × (again.1.world ≡ s'.world)
  process_webhook_idem c c' ev ev' s d e same order alive =
      let s' = (process_webhook c ev s).1 in
      let known : (is_duplicate c'.evict_at c'.check_at ev'.event_id s'.cache).0 ≡ true =
        rw (cache-process_webhook c ev s e) (
          rw
            (is_duplicate-mark_processed c'.evict_at c'.check_at c.mark_at default_ttl_ms
              ev.event_id ev'.event_id (evict_expired c.evict_at s.cache) order
              (evict_expired-Distinct c.evict_at s.cache d))
            (rw same (rw eq_refl (lt→ltb _ _ alive)))) in
      ground (arith, process_webhook_known c' ev' s' known)

  -- A delivery whose handler rejects is not marked: the rejection comes back to the caller, and
  -- the next delivery of the event, at no earlier a time, calls the handler again.
  pub process_webhook_retry :
      (c c' : Clock) (ev : WebhookEvent P) (s : Engine P W) (reason : String)
      → Distinct s.cache
      → (process_webhook c ev s).0 ≡ rejected reason
      → c.evict_at ≤ c.check_at
      → c.check_at ≤ c'.check_at
      → c'.evict_at ≤ c'.check_at
      → let s' = (process_webhook c ev s).1 in
        (process_webhook c' ev s').1.calls ≡ s'.calls ++ ev.event_id ∷ []
  process_webhook_retry c c' ev s reason d e h later h' =
      let (fresh, cache_left, handlers_left, handler, at) = inversion_rejected c ev s reason e in
      calls-process_webhook c' ev (process_webhook c ev s).1 handler
        (rw cache_left (
          is_duplicate-evict_expired c.evict_at c.check_at c'.evict_at c'.check_at ev.event_id
            s.cache d h h' later fresh))
        (rw handlers_left at)

  -- The deduplication does not cover a delivery that arrives while the handler of an earlier one
  -- is awaited: if the event is new, both deliveries call the handler.
  pub calls-process_overlapping :
      (c c' : Clock) (ev ev' : WebhookEvent P) (s : Engine P W) (handler : Handler P W)
      → Distinct s.cache
      → (is_duplicate c.evict_at c.check_at ev.event_id s.cache).0 ≡ false
      → ev.event_id ≡ ev'.event_id
      → ev.provider ≡ ev'.provider
      → Table.get ev.provider s.handlers ≡ some handler
      → c.evict_at ≤ c.check_at
      → c.check_at ≤ c'.check_at
      → c'.evict_at ≤ c'.check_at
      → (process_overlapping c ev c' ev' s).1.calls ≡ s.calls ++ (ev.event_id ∷ ev.event_id ∷ [])
  unfolding process_overlapping
  calls-process_overlapping c c' ev ev' s handler d fresh same same_provider at h later h' =
      let s₁ : Engine P W = record s { cache = evict_expired c.evict_at s.cache } in
      let fresh' : (is_duplicate c'.evict_at c'.check_at ev'.event_id s₁.cache).0 ≡ false =
        rw (← same) (
          is_duplicate-evict_expired c.evict_at c.check_at c'.evict_at c'.check_at ev.event_id
            s.cache d h h' later fresh) in
      rw (receive_fresh c ev s handler fresh at) (
        rw (receive_fresh c' ev' s₁ handler fresh' (rw (← same_provider) at))
          (rw calls-resume (rw calls-resume (rw (← same) (append_assoc s.calls _ _)))))
