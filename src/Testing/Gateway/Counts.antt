-- ===== src/Testing/Gateway/Counts.antt =====
-- packages/testing/src/mock-gateway.ts: the counts of a mock gateway are those of its history.
use intellibiz.Shared.{
  ℕ, zero, suc, ◌+◌, String, Option, none, some, List, [], ◌∷◌, ◌++◌, length, Result, ok, err, ◌≡◌,
  refl, sym, ap, arith, ◌∙◌, length-append,
}
use intellibiz.Commerce.Transaction.{ChargeResult, ChargeParams, RefundParams}
use intellibiz.Testing.Ledger.{last}
use intellibiz.Testing.Gateway.{
  PartialResult, Method, charge_of, refund_of, CallRecord, Handler, fails_first, custom,
  MockGateway, succeed_next, fail_next, fail_next_n, override_charge, spy_refund, with_result,
  with_error, if_charge, charges, called, fresh_call, answered, handled, default_charge, handle,
  decided, charge, refund, reset, get_last_charge, default_charge_result, assigned,
}

module _ {A : Type 0} where
  charges-with_result :
      (r : ChargeResult) (cs : List (CallRecord A)) → charges (with_result r cs) ≡ charges cs
  charges-with_result r [] = refl
  charges-with_result r (c ∷ []) = refl
  charges-with_result r (c ∷ d ∷ cs) = ap (if_charge c.method) (charges-with_result r (d ∷ cs))

  charges-with_error :
      (e : String) (cs : List (CallRecord A)) → charges (with_error e cs) ≡ charges cs
  charges-with_error e [] = refl
  charges-with_error e (c ∷ []) = refl
  charges-with_error e (c ∷ d ∷ cs) = ap (if_charge c.method) (charges-with_error e (d ∷ cs))

  length-with_result :
      (r : ChargeResult) (cs : List (CallRecord A)) → length (with_result r cs) ≡ length cs
  length-with_result r [] = refl
  length-with_result r (c ∷ []) = refl
  length-with_result r (c ∷ d ∷ cs) = ap suc (length-with_result r (d ∷ cs))

  length-with_error : (e : String) (cs : List (CallRecord A)) → length (with_error e cs) ≡ length cs
  length-with_error e [] = refl
  length-with_error e (c ∷ []) = refl
  length-with_error e (c ∷ d ∷ cs) = ap suc (length-with_error e (d ∷ cs))

  if_charge-append :
      (m : Method A) (xs ys : List (ChargeParams A)) → if_charge m (xs ++ ys) ≡ if_charge m xs ++ ys
  if_charge-append (charge_of params) xs ys = refl
  if_charge-append (refund_of params) xs ys = refl

  charges-append : (xs ys : List (CallRecord A)) → charges (xs ++ ys) ≡ charges xs ++ charges ys
  charges-append [] ys = refl
  charges-append (c ∷ xs) ys =
      ap (if_charge c.method) (charges-append xs ys)
      ∙ if_charge-append c.method (charges xs) (charges ys)

  length-charges_concat :
      (h : List (CallRecord A)) (c : CallRecord A)
      → length (charges (h ++ c ∷ [])) ≡ length (charges h) + length (charges (c ∷ []))
  length-charges_concat h c =
      ap length (charges-append h (c ∷ [])) ∙ length-append (charges h) (charges (c ∷ []))

  last-concat : (xs : List (ChargeParams A)) (x : ChargeParams A) → last (xs ++ x ∷ []) ≡ some x
  last-concat [] x = refl
  last-concat (y ∷ []) x = refl
  last-concat (y ∷ z ∷ xs) x = last-concat (z ∷ xs) x

-- The history has these charges, and as many calls as the counts say.
abbrev pub Tallied : {A : Type 0} → List (CallRecord A) → ℕ → ℕ → Type 0
Tallied h charge_count refund_count =
    (length (charges h) ≡ charge_count) × (length h ≡ charge_count + refund_count)

-- The counts of a gateway are the numbers of charges and refunds in its history.
abbrev pub Counted : {A W : Type 0} → MockGateway A W → Type 0
Counted g = Tallied g.history g.charge_count g.refund_count

-- Two gateways have the same calls in their histories, and the same counts.
abbrev SameCalls : {A W : Type 0} → MockGateway A W → MockGateway A W → Type 0
SameCalls g h =
    (charges h.history ≡ charges g.history)
    × (length h.history ≡ length g.history)
    × (h.charge_count ≡ g.charge_count)
    × (h.refund_count ≡ g.refund_count)

SameCalls-Counted : {A W : Type 0} (g h : MockGateway A W) → SameCalls g h → Counted g → Counted h
SameCalls-Counted g h same counted =
    (ap length same.0 ∙ counted.0 ∙ sym same.2, omega (arith, same.1, same.2, same.3, counted.1))

module _ {A W : Type 0} (clock : ℕ → ℕ) where
  answered-SameCalls : (r : ChargeResult) (g : MockGateway A W) → SameCalls g (answered r g).1
  unfolding answered
  answered-SameCalls r g =
      (charges-with_result r g.history, length-with_result r g.history, refl, refl)

  handled-SameCalls :
      (r : Result ChargeResult) (w : W) (g : MockGateway A W) → SameCalls g (handled (r, w) g).1
  unfolding handled
  handled-SameCalls (ok r) w g = answered-SameCalls r (record g { outside = w })
  handled-SameCalls (err e) w g = (refl, refl, refl, refl)

  handle-SameCalls :
      (h : Handler A W) (params : ChargeParams A) (g : MockGateway A W)
      → SameCalls g (handle clock h params g).1
  unfolding handle
  handle-SameCalls (fails_first zero code) params g =
      answered-SameCalls (default_charge_result (clock g.readings) params g)
        (record g { readings = suc g.readings })
  handle-SameCalls (fails_first (suc n) code) params g = (refl, refl, refl, refl)
  handle-SameCalls (custom f) params g =
      handled-SameCalls (f params g.outside).0 (f params g.outside).1 g

  decided-SameCalls :
      (h : Option (Handler A W)) (e : Option String) (params : ChargeParams A) (g : MockGateway A W)
      → SameCalls g (decided clock h e params g).1
  unfolding decided default_charge
  decided-SameCalls (some h) e params g = handle-SameCalls h params g
  decided-SameCalls none (some e) params g =
      (charges-with_error e g.history, length-with_error e g.history, refl, refl)
  decided-SameCalls none none params g =
      answered-SameCalls
        (assigned (default_charge_result (clock g.readings) params g) g.next_result)
        (record g { next_result = none; readings = suc g.readings })

  -- The state in which `charge` decides on its answer.
  abbrev pub charging : ChargeParams A → MockGateway A W → MockGateway A W
  charging params g = record (called (charge_of params) (clock g.readings) g) {
    charge_count = suc g.charge_count;
  }

  charging-Counted :
      (params : ChargeParams A) (g : MockGateway A W) → Counted g → Counted (charging params g)
  charging-Counted params g h =
      let c = fresh_call (charge_of params) (clock g.readings) in
      (
        omega (arith, length-charges_concat g.history c, h.0),
        omega (arith, length-append g.history (c ∷ []), h.1),
      )

  charge-Counted :
      (params : ChargeParams A) (g : MockGateway A W)
      → Counted g
      → Counted (charge clock params g).1
  unfolding charge
  charge-Counted params g h =
      SameCalls-Counted (charging params g) (charge clock params g).1
        (decided-SameCalls g.handler g.next_error params (charging params g))
        (charging-Counted params g h)

  refund-Counted :
      (params : RefundParams A) (g : MockGateway A W) → Counted g → Counted (refund clock params g)
  unfolding refund
  refund-Counted params g h =
      let c = fresh_call (refund_of params) (clock g.readings) in
      (
        omega (arith, length-charges_concat g.history c, h.0),
        omega (arith, length-append g.history (c ∷ []), h.1),
      )

  -- The last charge is the one that was called last, whatever came of it.
  pub get_last_charge-charge :
      (params : ChargeParams A) (g : MockGateway A W)
      → get_last_charge (charge clock params g).1 ≡ some params
  unfolding get_last_charge charge
  get_last_charge-charge params g =
      ap last (
        (decided-SameCalls g.handler g.next_error params (charging params g)).0
        ∙ charges-append g.history (fresh_call (charge_of params) (clock g.readings) ∷ []))
      ∙ last-concat (charges g.history) params

-- What a test calls on a gateway
pub data Operation (A W : Type 0) : Type 0 where
  succeeds_next : Option PartialResult → Operation A W
  fails_next : String → Operation A W
  fails_next_n : ℕ → String → Operation A W
  overrides : (ChargeParams A → W → Result ChargeResult × W) → Operation A W
  spies resets : Operation A W
  charges_with : ChargeParams A → Operation A W
  refunds_with : RefundParams A → Operation A W

unfoldable pub operate :
    {A W : Type 0} → (ℕ → ℕ) → Operation A W → MockGateway A W → MockGateway A W
unfolding succeed_next fail_next fail_next_n override_charge spy_refund reset charge refund
operate clock (succeeds_next result) g = succeed_next result g
operate clock (fails_next code) g = fail_next code g
operate clock (fails_next_n n code) g = fail_next_n n code g
operate clock (overrides f) g = override_charge f g
operate clock spies g = (spy_refund g).1
operate clock resets g = reset g
operate clock (charges_with params) g = (charge clock params g).1
operate clock (refunds_with params) g = refund clock params g

unfoldable pub operate_all :
    {A W : Type 0} → (ℕ → ℕ) → List (Operation A W) → MockGateway A W → MockGateway A W
unfolding operate
operate_all clock [] g = g
operate_all clock (o ∷ os) g = operate_all clock os (operate clock o g)

operate-Counted :
    {A W : Type 0} (clock : ℕ → ℕ) (o : Operation A W) (g : MockGateway A W)
    → Counted g
    → Counted (operate clock o g)
unfolding operate succeed_next fail_next fail_next_n override_charge spy_refund reset
operate-Counted clock (succeeds_next result) g h = h
operate-Counted clock (fails_next code) g h = h
operate-Counted clock (fails_next_n n code) g h = h
operate-Counted clock (overrides f) g h = h
operate-Counted clock spies g h = h
operate-Counted clock resets g h = (refl, refl)
operate-Counted clock (charges_with params) g h = charge-Counted clock params g h
operate-Counted clock (refunds_with params) g h = refund-Counted clock params g h

-- Whatever is called on a gateway, and whatever a custom handler does: if its charge count is the number
-- of charges in its history, and the two counts together are the length of the history, then they are so
-- afterwards.
pub operate_all-Counted :
    {A W : Type 0} (clock : ℕ → ℕ) (os : List (Operation A W)) (g : MockGateway A W)
    → Counted g
    → Counted (operate_all clock os g)
unfolding operate_all
operate_all-Counted clock [] g h = h
operate_all-Counted clock (o ∷ os) g h =
    operate_all-Counted clock os (operate clock o g) (operate-Counted clock o g h)
