-- ===== src/Core/Events/Loop.antt =====
-- packages/core/src/events/bus.ts: the retry loop that `emit` runs for one listener.
use intellibiz.Shared.{ℤ, ℕ, ◌+◌, ◌*◌, ◌-◌, ◌^◌, min, String, List, [], ◌∷◌, ◌++◌, if◌then◌else◌}
use intellibiz.Core.Events.Listeners.{within, ListenerId, Registry, max_retries_of}

abbrev pub base_backoff_ms : ℕ
base_backoff_ms = 1000

-- Only attempts from 1 on are asked for.
unfoldable pub backoff_ms : ℕ → ℕ
backoff_ms attempt = min (base_backoff_ms * 2 ^ (attempt - 1)) 30000

-- Where the loop of a listener stands: `fn` is awaited, `sleep` is awaited, or the loop has ended:
-- by a delivery, in the dead letter queue, or by the test of `while`.
pub data Phase : Type 0 where
  calling : Phase
  sleeping : ℕ → Phase
  returned dead ended : Phase

pub record Delivery : Type 0 where
  pub listener : ListenerId
  pub max_retries : ℤ
  pub attempt : ℕ
  pub phase : Phase

-- What the environment does to one loop; a rejection comes with `Date.now()`.
pub data Signal : Type 0 where
  fulfilled : Signal
  rejected : String → ℕ → Signal
  woken : Signal

-- The test of `while`, and the call behind it.
unfoldable pub next_attempt : Delivery → Delivery
next_attempt d = record d { phase = if within d.attempt d.max_retries then calling else ended }

-- The call that a loop makes when it gets to `fn`.
unfoldable pub call_of : Delivery → List (ListenerId × ℕ)
call_of d = elim d.phase [ calling ↦ (d.listener, d.attempt + 1) ∷ [] | _ ↦ [] ]

-- The `catch` block.
unfoldable pub caught : Delivery → Delivery
unfolding backoff_ms
caught d = record d {
  attempt = d.attempt + 1;
  phase =
      if within (d.attempt + 1) d.max_retries then sleeping (backoff_ms (d.attempt + 1)) else dead;
}

-- One loop under one signal; a signal that the loop does not wait for cannot come.
unfoldable pub advance : Phase → Signal → Delivery → Delivery
unfolding caught next_attempt
advance calling fulfilled d = record d { phase = returned }
advance calling (rejected reason now) d = caught d
advance (sleeping ms) woken d = next_attempt d
advance _ _ d = d

unfoldable pub react : Signal → Delivery → Delivery
unfolding advance
react s d = advance d.phase s d

-- The loop of a listener up to its first `await`.
unfoldable pub begun : Registry → ListenerId → Delivery
unfolding next_attempt
begun registry fn =
    next_attempt (record {
      listener = fn;
      max_retries = max_retries_of registry fn;
      attempt = 0;
      phase = ended;
    })

unfoldable pub first_calls : List Delivery → List (ListenerId × ℕ)
unfolding call_of
first_calls [] = []
first_calls (d ∷ ds) = call_of d ++ first_calls ds
