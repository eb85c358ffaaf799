-- ===== src/Testing/Gateway.antt =====
-- packages/testing/src/mock-gateway.ts: the mock payment provider, as a provider of transactions.
-- Its calls are awaited one after the other; what a custom handler keeps is a state `W` outside.
pub mod Counts
pub mod Failures
pub mod Recorded
pub mod Transactions
mod Tests
use Prim.Native.String.{◌++◌ as ◌⧺◌}
use intellibiz.Shared.{
  ℕ, zero, suc, ◌+◌, ◌/◌, ◌%◌, String, Bool, Option, none, some, List, [], ◌∷◌, ◌++◌, ltb, length,
  if◌then◌else◌, or_else, Result, ok, err,
}
use intellibiz.Shared.Strings.{to_string}
use intellibiz.Testing.Ledger.{last}
use intellibiz.Commerce.Transaction.{
  ChargeStatus, succeeded, ChargeResult, ChargeParams, RefundParams, PaymentProvider,
}

pub record PartialResult : Type 0 where
  pub id : Option String
  pub status : Option ChargeStatus
  pub raw_response : Option String

pub data Method (A : Type 0) : Type 0 where
  charge_of : ChargeParams A → Method A
  refund_of : RefundParams A → Method A

-- An error is its code, which is also its message.
pub record CallRecord (A : Type 0) : Type 0 where
  pub method : Method A
  pub timestamp : ℕ
  pub result : Option ChargeResult
  pub error : Option String

-- `_customChargeHandler`: the one that `failNextN` makes, with its `remaining`, or another
pub data Handler (A W : Type 0) : Type 0 where
  fails_first : ℕ → String → Handler A W
  custom : (ChargeParams A → W → Result ChargeResult × W) → Handler A W

-- The state of a gateway; `spies` are the objects that `spyRefund` has given, as places of
-- `spy_calls`. `readings` counts the calls of `Date.now()`.
pub record MockGateway (A W : Type 0) : Type 0 where
  pub name : String
  pub history : List (CallRecord A)
  pub next_result : Option PartialResult
  pub next_error : Option String
  pub handler : Option (Handler A W)
  pub spies : List ℕ
  pub spy_calls : List ℕ
  pub charge_count : ℕ
  pub refund_count : ℕ
  pub outside : W
  pub readings : ℕ

unfoldable pub create_mock_gateway : {A W : Type 0} → String → W → MockGateway A W
create_mock_gateway name w = record {
  name = name;
  history = [];
  next_result = none;
  next_error = none;
  handler = none;
  spies = [];
  spy_calls = [];
  charge_count = 0;
  refund_count = 0;
  outside = w;
  readings = 0;
}

-- `this._callHistory[this._callHistory.length - 1]!.result = result`
abbrev pub with_result : {A : Type 0} → ChargeResult → List (CallRecord A) → List (CallRecord A)
with_result r [] = []
with_result r (c ∷ []) = record c { result = some r } ∷ []
with_result r (c ∷ d ∷ cs) = c ∷ with_result r (d ∷ cs)

abbrev pub with_error : {A : Type 0} → String → List (CallRecord A) → List (CallRecord A)
with_error e [] = []
with_error e (c ∷ []) = record c { error = some e } ∷ []
with_error e (c ∷ d ∷ cs) = c ∷ with_error e (d ∷ cs)

-- `Object.assign(result, this._nextChargeResult)`
unfoldable pub assigned : ChargeResult → Option PartialResult → ChargeResult
assigned r none = r
assigned r (some p) = record {
  id = or_else p.id r.id;
  status = or_else p.status r.status;
  raw_response = elim p.raw_response [ none ↦ r.raw_response | some raw ↦ some raw ];
}

abbrev pub incremented : ℕ → List ℕ → List ℕ
incremented i [] = []
incremented zero (n ∷ ns) = suc n ∷ ns
incremented (suc i) (n ∷ ns) = n ∷ incremented i ns

-- the loop over the spies
unfoldable pub bump : List ℕ → List ℕ → List ℕ
bump [] calls = calls
bump (spy ∷ spies) calls = bump spies (incremented spy calls)

abbrev pub fresh_call : {A : Type 0} → Method A → ℕ → CallRecord A
fresh_call method now = record { method = method; timestamp = now; result = none; error = none }

abbrev pub if_charge : {A : Type 0} → Method A → List (ChargeParams A) → List (ChargeParams A)
if_charge (charge_of params) rest = params ∷ rest
if_charge (refund_of params) rest = rest

-- `this._callHistory.filter(c => c.method === 'charge')`, of each the parameters
abbrev pub charges : {A : Type 0} → List (CallRecord A) → List (ChargeParams A)
charges [] = []
charges (c ∷ cs) = if_charge c.method (charges cs)

module _ {A W : Type 0} where
  unfoldable pub succeed_next : Option PartialResult → MockGateway A W → MockGateway A W
  succeed_next result g = record g { next_result = result }

  unfoldable pub fail_next : String → MockGateway A W → MockGateway A W
  fail_next code g = record g { next_error = some code }

  unfoldable pub fail_next_n : ℕ → String → MockGateway A W → MockGateway A W
  fail_next_n count code g = record g { handler = some (fails_first count code) }

  unfoldable pub override_charge :
      (ChargeParams A → W → Result ChargeResult × W) → MockGateway A W → MockGateway A W
  override_charge f g = record g { handler = some (custom f) }

  unfoldable pub spy_refund : MockGateway A W → ℕ × MockGateway A W
  spy_refund g = (
    length g.spy_calls,
    record g { spies = g.spies ++ length g.spy_calls ∷ []; spy_calls = g.spy_calls ++ 0 ∷ [] },
  )

  -- The two fields of the raw response are one text.
  unfoldable pub default_charge_result : ℕ → ChargeParams A → MockGateway A W → ChargeResult
  unfolding to_string
  default_charge_result now params g = record {
    id = "pay_mock_" ⧺ (to_string 36 now ⧺ ("_" ⧺ to_string 10 g.charge_count));
    status = succeeded;
    raw_response = some (g.name ⧺ (":" ⧺ params.order_id));
  }

  -- what `charge` and `refund` do first
  abbrev pub called : Method A → ℕ → MockGateway A W → MockGateway A W
  called method now g = record g {
    history = g.history ++ fresh_call method now ∷ [];
    readings = suc g.readings;
  }

  -- the last two statements of `charge`, and of the way through a handler
  unfoldable pub answered : ChargeResult → MockGateway A W → Result ChargeResult × MockGateway A W
  answered r g = (ok r, record g { history = with_result r g.history })

  -- A throw of a handler leaves the call's record as it is.
  unfoldable pub handled :
      Result ChargeResult × W → MockGateway A W → Result ChargeResult × MockGateway A W
  unfolding answered
  handled (ok r, w) g = answered r (record g { outside = w })
  handled (err e, w) g = (err e, record g { outside = w })

module _ {A W : Type 0} (clock : ℕ → ℕ) where
  -- the default, which reads the clock
  unfoldable pub default_charge :
      ChargeParams A → MockGateway A W → Result ChargeResult × MockGateway A W
  unfolding answered assigned default_charge_result
  default_charge params g =
      answered (assigned (default_charge_result (clock g.readings) params g) g.next_result)
        (record g { next_result = none; readings = suc g.readings })

  -- The handler of `failNextN` ends with the default, to which no next result is assigned.
  unfoldable pub handle :
      Handler A W → ChargeParams A → MockGateway A W → Result ChargeResult × MockGateway A W
  unfolding handled answered default_charge_result
  handle (fails_first zero code) params g =
      answered (default_charge_result (clock g.readings) params g)
        (record g { readings = suc g.readings })
  handle (fails_first (suc remaining) code) params g =
      (err code, record g { handler = some (fails_first remaining code) })
  handle (custom f) params g = handled (f params g.outside) g

  -- the part of `charge` behind the count
  unfoldable pub decided :
      Option (Handler A W)
      → Option String
      → ChargeParams A
      → MockGateway A W
      → Result ChargeResult × MockGateway A W
  unfolding handle default_charge
  decided (some h) error params g = handle h params g
  decided none (some e) params g =
      (err e, record g { next_error = none; history = with_error e g.history })
  decided none none params g = default_charge params g

  unfoldable pub charge : ChargeParams A → MockGateway A W → Result ChargeResult × MockGateway A W
  unfolding decided
  charge params g =
      let g' = called (charge_of params) (clock g.readings) g in
      decided g.handler g.next_error params (record g' { charge_count = suc g.charge_count })

  unfoldable pub refund : RefundParams A → MockGateway A W → MockGateway A W
  unfolding bump
  refund params g =
      let g' = called (refund_of params) (clock g.readings) g in
      record g' { refund_count = suc g.refund_count; spy_calls = bump g.spies g.spy_calls }

  -- The gateway as the provider of a transaction
  unfoldable pub provider : String → PaymentProvider A (MockGateway A W)
  unfolding charge refund
  provider name = record {
    name = name;
    charge = charge;
    refund = some (λ params g. (ok tt, refund params g));
  }

module _ {A W : Type 0} where
  unfoldable pub reset : MockGateway A W → MockGateway A W
  reset g = record g {
    history = [];
    next_result = none;
    next_error = none;
    handler = none;
    spies = [];
    charge_count = 0;
    refund_count = 0;
  }

  unfoldable pub get_last_charge : MockGateway A W → Option (ChargeParams A)
  get_last_charge g = last (charges g.history)
