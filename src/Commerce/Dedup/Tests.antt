-- ===== src/Commerce/Dedup/Tests.antt =====
-- dedup.ts at concrete inputs, and the theorems at inputs that meet their hypotheses.
use intellibiz.Shared.{ℕ, ◌+◌, ◌≤◌, String, ◌≡◌, refl, List, [], ◌∷◌, arith}
use intellibiz.Shared.Table
use intellibiz.Commerce.Dedup.{
  evict_expired, is_duplicate, mark_processed, WebhookEvent, fulfilled, thrown, processed,
  duplicate, no_handler, rejected, Clock, Engine, Handler, handle, receive, complete,
  process_webhook, process_all, process_overlapping, key,
}
use intellibiz.Commerce.Dedup.Pipeline.{calls-process_overlapping}
use intellibiz.Commerce.Dedup.Once.{processed_count, processed_count-le}

dedup : Unit {0}
unfolding process_webhook process_all process_overlapping receive complete is_duplicate
    mark_processed evict_expired key handle Table.get Table.put
dedup = tt

abbrev count_up : Handler (Unit {0}) ℕ
count_up ev w = (fulfilled, w + 1)

abbrev fails : Handler (Unit {0}) ℕ
fails ev w = (thrown "offline", w)

abbrev start : Engine (Unit {0}) ℕ
start = record {
  cache = [];
  handlers = ("stripe", count_up) ∷ ("ozow", fails) ∷ [];
  world = 0;
  calls = [];
}

abbrev event : String → String → WebhookEvent (Unit {0})
event provider id = record { kind = "paid"; payload = tt; event_id = id; provider = provider }

abbrev at : ℕ → Clock
at t = record { evict_at = t; check_at = t; mark_at = t }

outcomes :
    (process_all
      ((at 1, event "stripe" "e1")
        ∷ (at 2, event "stripe" "e1")
        ∷ (at 3, event "ozow" "e2")
        ∷ (at 4, event "payfast" "e3")
        ∷ (at 86400002, event "stripe" "e1")
        ∷ [])
      start).0
    ≡ processed ∷ duplicate ∷ rejected "offline" ∷ no_handler ∷ processed ∷ []
unfolding dedup
outcomes = refl

calls-process_overlapping_example :
    (process_overlapping (at 1) (event "stripe" "e1") (at 2) (event "stripe" "e1") start).1.calls
    ≡ "e1" ∷ "e1" ∷ []
unfolding dedup
calls-process_overlapping_example =
    calls-process_overlapping (at 1) (at 2) (event "stripe" "e1") (event "stripe" "e1") start
      count_up tt refl refl refl refl (omega arith) (omega arith) (omega arith)

abbrev twice : List (Clock × WebhookEvent (Unit {0}))
twice = (at 1, event "stripe" "e1") ∷ (at 2, event "stripe" "e1") ∷ []

processed_count-le_example : processed_count "e1" twice (process_all twice start).0 ≤ 1
processed_count-le_example = processed_count-le 1 "e1" twice start tt (omega arith)
