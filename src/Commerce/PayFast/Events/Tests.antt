-- ===== src/Commerce/PayFast/Events/Tests.antt =====
-- packages/commerce/src/providers/payfast.ts: events of notifications at concrete inputs.
use intellibiz.Shared.{ℕ, ◌+◌, String, [], ◌∷◌, if◌then◌else◌, ok, err, ◌≡◌, refl, arith}
use intellibiz.Shared.Text.{Text, codes, same_text}
use intellibiz.Shared.Table
use intellibiz.Commerce.Dedup.{
  evict_expired, is_duplicate, mark_processed, WebhookEvent, fulfilled, duplicate, Clock, Engine,
  Handler, receive, complete, process_webhook, key,
}
use intellibiz.Commerce.PayFast.{Params, get_param}
use intellibiz.Commerce.PayFast.Events.{put_param, from_entries, parse_pay_fast, parse_ozow}
use intellibiz.Commerce.PayFast.Events.Statuses.{process_webhook-parse_pay_fast}

notifications : Unit {0}
unfolding process_webhook receive complete is_duplicate mark_processed evict_expired key Table.get
    Table.put put_param from_entries parse_pay_fast parse_ozow get_param same_text
notifications = tt

-- Two notifications about the payment 42
abbrev search_params : Text → Params
search_params body = (codes "m_payment_id", codes "42") ∷ (codes "payment_status", body) ∷ []

abbrev as_string : Text → String
as_string s = if same_text s (codes "42") then "42" else "other"

abbrev count_up : Handler Params ℕ
count_up ev w = (fulfilled, w + 1)

abbrev start : Engine Params ℕ
start = record { cache = []; handlers = ("payfast", count_up) ∷ []; world = 0; calls = [] }

abbrev at : ℕ → Clock
at t = record { evict_at = t; check_at = t; mark_at = t }

abbrev pending : WebhookEvent Params
pending = parse_pay_fast search_params as_string [] (codes "PENDING")

abbrev complete_event : WebhookEvent Params
complete_event = parse_pay_fast search_params as_string [] (codes "COMPLETE")

event_tests :
    (pending.kind ≡ "payment.failed")
    × (complete_event.kind ≡ "payment.completed")
    × (complete_event.event_id ≡ "42")
    × (from_entries []
          ((codes "a", codes "1") ∷ (codes "b", codes "2") ∷ (codes "a", codes "3") ∷ [])
        ≡ (codes "a", codes "3") ∷ (codes "b", codes "2") ∷ [])
    × (parse_ozow (λ s. err "SyntaxError") as_string [] [] ≡ err "SyntaxError")
    × (parse_ozow (λ s. ok ((codes "status", codes "Complete") ∷ [])) as_string (codes "1") []
        ≡ ok (record {
          kind = "payment.completed";
          payload = (codes "status", codes "Complete") ∷ [];
          event_id = "other";
          provider = "ozow";
        }))
unfolding notifications
event_tests = (refl, refl, refl, refl, refl, refl)

process_webhook-parse_pay_fast_example :
    let s' = (process_webhook (at 1) pending start).1 in
    let again = process_webhook (at 2) complete_event s' in
    (again.0 ≡ duplicate) × (again.1.calls ≡ s'.calls) × (again.1.world ≡ s'.world)
unfolding notifications
process_webhook-parse_pay_fast_example =
    process_webhook-parse_pay_fast search_params as_string [] [] (codes "PENDING")
      (codes "COMPLETE") (codes "42") (at 1) (at 2) start refl refl tt refl (omega arith)
      (omega arith)
