-- ===== src/Commerce/PayFast/Events.antt =====
-- packages/commerce/src/providers/payfast.ts: the events that the notifications of PayFast and of Ozow
-- are parsed to, without their timestamp, which the webhook pipeline does not read. `as_string` gives
-- the string of a text; the random id that stands in for a missing one is an argument, and so is
-- `JSON.parse`, of which the fields are texts.
pub mod Statuses
mod Tests
use intellibiz.Shared.{
  ℕ, String, Bool, true, false, Option, none, some, List, [], ◌∷◌, ◌++◌, if◌then◌else◌, or_else,
  Result, ok, err,
}
use intellibiz.Shared.Text.{Text, codes, same_text}
use intellibiz.Commerce.Dedup.{WebhookEvent}
use intellibiz.Commerce.PayFast.{Params, get_param}

-- A later entry of `Object.fromEntries` replaces an earlier one of its name.
unfoldable pub put_param : Text → Text → Params → Params
unfolding same_text
put_param k v [] = (k, v) ∷ []
put_param k v ((l, w) ∷ object) =
    let rest = put_param k v object in if same_text l k then (l, v) ∷ object else (l, w) ∷ rest

unfoldable pub from_entries : Params → Params → Params
unfolding put_param
from_entries object [] = object
from_entries object ((k, v) ∷ entries) = from_entries (put_param k v object) entries

-- `status === text`
abbrev pub is_status : Text → Option Text → Bool
is_status text none = false
is_status text (some status) = same_text status text

unfoldable pub parse_pay_fast :
    (Text → Params) → (Text → String) → Text → Text → WebhookEvent Params
unfolding get_param from_entries same_text
parse_pay_fast search_params as_string random body =
    let params = search_params body in
    record {
      kind =
          if is_status (codes "COMPLETE") (get_param (codes "payment_status") params)
          then "payment.completed"
          else "payment.failed";
      payload = from_entries [] params;
      event_id =
          as_string (or_else (get_param (codes "m_payment_id") params) (codes "pf_" ++ random));
      provider = "payfast";
    }

-- the event of what `JSON.parse` gives
abbrev ozow_event : (Text → String) → Text → Result Params → Result (WebhookEvent Params)
ozow_event as_string random (err e) = err e
ozow_event as_string random (ok parsed) = ok (record {
  kind =
      if is_status (codes "Complete") (get_param (codes "status") parsed)
      then "payment.completed"
      else "payment.pending";
  payload = parsed;
  event_id = as_string (or_else (get_param (codes "id") parsed) (codes "oz_" ++ random));
  provider = "ozow";
})

unfoldable pub parse_ozow :
    (Text → Result Params) → (Text → String) → Text → Text → Result (WebhookEvent Params)
unfolding get_param same_text
parse_ozow json as_string random body = ozow_event as_string random (json body)
