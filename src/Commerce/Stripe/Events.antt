-- ===== src/Commerce/Stripe/Events.antt =====
-- packages/commerce/src/providers/stripe.ts: the events that Stripe's notifications are parsed to,
-- without their timestamp. `JSON.parse` is an argument, and so is the random id that stands in for a
-- missing one; `as_string` gives the string of a text.
mod Tests
use intellibiz.Shared.{String, Option, none, some, List, [], ◌++◌, or_else, Result, ok, err, ◌==◌}
use intellibiz.Shared.Text.{Text, codes}
use intellibiz.Commerce.Dedup.{WebhookEvent}

-- The fields that are looked at: `type`, `id`, and `data`, if it is there, with its `object`
pub record StripeBody (P : Type 0) : Type 0 where
  pub kind : Option Text
  pub id : Option Text
  pub data_object : Option (Option P)

-- `parsed['data']?.['object'] ?? {}`
abbrev pub object_of : {P : Type 0} → P → Option (Option P) → P
object_of empty none = empty
object_of empty (some none) = empty
object_of empty (some (some object)) = object

abbrev pub stripe_event :
    {P : Type 0} → P → (Text → String) → Text → Result (StripeBody P) → Result (WebhookEvent P)
stripe_event empty as_string random (err e) = err e
stripe_event empty as_string random (ok parsed) = ok (record {
  kind = as_string (or_else parsed.kind (codes "unknown"));
  payload = object_of empty parsed.data_object;
  event_id = as_string (or_else parsed.id (codes "evt_" ++ random));
  provider = "stripe";
})

unfoldable pub parse_stripe :
    {P : Type 0}
    → P
    → (Text → Result (StripeBody P))
    → (Text → String)
    → Text
    → Text
    → Result (WebhookEvent P)
parse_stripe empty json as_string random body = stripe_event empty as_string random (json body)
