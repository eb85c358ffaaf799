-- ===== src/Commerce/PayFast/Events/Statuses.antt =====
-- packages/commerce/src/providers/payfast.ts and webhooks/dedup.ts: the notifications about one payment.
use intellibiz.Shared.{◌+◌, ◌≤◌, ◌<◌, String, some, ◌++◌, or_else, ◌≡◌, ap, sym, ◌∙◌}
use intellibiz.Shared.Text.{Text, codes}
use intellibiz.Shared.Table.{Distinct}
use intellibiz.Commerce.Dedup.{Clock, Engine, process_webhook, processed, duplicate, default_ttl_ms}
use intellibiz.Commerce.Dedup.Pipeline.{process_webhook_idem}
use intellibiz.Commerce.PayFast.{Params, get_param}
use intellibiz.Commerce.PayFast.Events.{parse_pay_fast}

module _ (search_params : Text → Params) (as_string : Text → String) where
  event_id-parse_pay_fast :
      (random body id : Text)
      → get_param (codes "m_payment_id") (search_params body) ≡ some id
      → (parse_pay_fast search_params as_string random body).event_id ≡ as_string id
  unfolding parse_pay_fast
  event_id-parse_pay_fast random body id named =
      ap (λ o. as_string (or_else o (codes "pf_" ++ random))) named

  -- Of the notifications about one payment of PayFast only the first is handled: one that follows a
  -- processed one within the time to live, whatever status the two have, is answered as a duplicate,
  -- calls no handler, and leaves the application's state alone.
  pub process_webhook-parse_pay_fast :
      {W : Type 0} (random random' body body' id : Text) (c c' : Clock) (s : Engine Params W)
      → get_param (codes "m_payment_id") (search_params body) ≡ some id
      → get_param (codes "m_payment_id") (search_params body') ≡ some id
      → Distinct s.cache
      → (process_webhook c (parse_pay_fast search_params as_string random body) s).0 ≡ processed
      → c'.evict_at ≤ c'.check_at
      → c'.check_at < c.mark_at + default_ttl_ms
      → let s' = (process_webhook c (parse_pay_fast search_params as_string random body) s).1 in
        let again = process_webhook c' (parse_pay_fast search_params as_string random' body') s' in
        (again.0 ≡ duplicate) × (again.1.calls ≡ s'.calls) × (again.1.world ≡ s'.world)
  process_webhook-parse_pay_fast random random' body body' id c c' s named named' d e order alive =
      process_webhook_idem c c' (parse_pay_fast search_params as_string random body)
        (parse_pay_fast search_params as_string random' body') s d e
        (event_id-parse_pay_fast random body id named
          ∙ sym (event_id-parse_pay_fast random' body' id named'))
        order alive
