-- ===== src/Testing/Gateway/Failures.antt =====
-- packages/testing/src/mock-gateway.ts: failures that are asked for.
use intellibiz.Shared.{
  ℕ, suc, String, Option, some, List, [], ◌∷◌, length, replicate, Result, ok, err, All, ◌≡◌, refl,
  ap, sym, subst, ◌∙◌,
}
use intellibiz.Commerce.Transaction.{succeeded, ChargeResult, ChargeParams}
use intellibiz.Testing.Gateway.Counts.{charging}
use intellibiz.Testing.Gateway.{
  fails_first, MockGateway, fail_next_n, answered, default_charge_result, handle, decided, charge,
}

abbrev pub Succeeds : Result ChargeResult → Type 0
Succeeds (ok r) = r.status ≡ succeeded
Succeeds (err e) = ⊥

-- An answer that throws the code, with `n` more to throw
abbrev Fails :
    {A W : Type 0} → ℕ → String → Option String → Result ChargeResult × MockGateway A W → Type 0
Fails n code error (r, g) =
    (r ≡ err code) × (g.handler ≡ some (fails_first n code)) × (g.next_error ≡ error)

abbrev Settles : {A W : Type 0} → String → Result ChargeResult × MockGateway A W → Type 0
Settles code (r, g) = Succeeds r × (g.handler ≡ some (fails_first 0 code))

module _ {A W : Type 0} (clock : ℕ → ℕ) where
  -- charges, one after the other, each caught if it throws
  unfoldable pub after : List (ChargeParams A) → MockGateway A W → MockGateway A W
  unfolding charge
  after [] g = g
  after (p ∷ ps) g = after ps (charge clock p g).1

  unfoldable pub outcomes : List (ChargeParams A) → MockGateway A W → List (Result ChargeResult)
  unfolding charge
  outcomes [] g = []
  outcomes (p ∷ ps) g = (charge clock p g).0 ∷ outcomes ps (charge clock p g).1

  failed_charge :
      (p : ChargeParams A) (n : ℕ) (code : String) (g : MockGateway A W)
      → g.handler ≡ some (fails_first (suc n) code)
      → Fails n code g.next_error (charge clock p g)
  unfolding charge decided handle
  failed_charge p n code g h =
      subst (λ o. Fails n code g.next_error (decided clock o g.next_error p (charging clock p g)))
        (sym h) (refl, refl, refl)

  settled_charge :
      (p : ChargeParams A) (code : String) (g : MockGateway A W)
      → g.handler ≡ some (fails_first 0 code)
      → Settles code (charge clock p g)
  unfolding charge decided handle answered default_charge_result
  settled_charge p code g h =
      subst (λ o. Settles code (decided clock o g.next_error p (charging clock p g))) (sym h)
        (refl, h)

  failing :
      (ps : List (ChargeParams A)) (code : String) (g : MockGateway A W)
      → g.handler ≡ some (fails_first (length ps) code)
      → (outcomes ps g ≡ replicate (length ps) (err code))
        × ((after ps g).handler ≡ some (fails_first 0 code))
        × ((after ps g).next_error ≡ g.next_error)
  unfolding outcomes after
  failing [] code g h = (refl, h, refl)
  failing (p ∷ ps) code g h =
      let one = failed_charge p (length ps) code g h in
      let rest = failing ps code (charge clock p g).1 one.1 in
      (
        ap (λ r. r ∷ outcomes ps (charge clock p g).1) one.0 ∙ ap (λ rs. err code ∷ rs) rest.0,
        rest.1,
        rest.2 ∙ one.2,
      )

  succeeding :
      (qs : List (ChargeParams A)) (code : String) (g : MockGateway A W)
      → g.handler ≡ some (fails_first 0 code)
      → All Succeeds (outcomes qs g)
  unfolding outcomes
  succeeding [] code g h = tt
  succeeding (q ∷ qs) code g h =
      let one = settled_charge q code g h in (one.0, succeeding qs code (charge clock q g).1 one.1)

  -- After `failNextN` exactly the next so many charges throw the code, and those behind them succeed;
  -- an error that `failNext` has set is not used.
  pub fail_next_n-outcomes :
      (ps qs : List (ChargeParams A)) (code : String) (g : MockGateway A W)
      → (outcomes ps (fail_next_n (length ps) code g) ≡ replicate (length ps) (err code))
        × All Succeeds (outcomes qs (after ps (fail_next_n (length ps) code g)))
        × ((after ps (fail_next_n (length ps) code g)).next_error ≡ g.next_error)
  unfolding fail_next_n
  fail_next_n-outcomes ps qs code g =
      let h = failing ps code (fail_next_n (length ps) code g) refl in
      (h.0, succeeding qs code (after ps (fail_next_n (length ps) code g)) h.1, h.2)
