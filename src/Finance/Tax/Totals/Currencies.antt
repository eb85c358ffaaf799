-- ===== src/Finance/Tax/Totals/Currencies.antt =====
-- packages/finance/src/tax/calculator.ts: a total is in one currency.
use intellibiz.Shared.{
  ℕ, Option, none, some, List, [], ◌∷◌, Result, ok, err, All, ◌≡◌, refl, sym, ap, arith, ◌∙◌,
  Bool-cases, inl, inr, subst,
}
use intellibiz.Shared.Text.{Text, codes, to_upper, to_upper_idem, same_text, same_text-eq}
use intellibiz.Finance.Money.{Money, Decimals, made, money, guarded, add, times}
use intellibiz.Finance.Tax.Totals.{
  and_then, LineItem, TotalInput, TotalResult, tax_rate_bp, subtotal_from, taxed, total_of,
  calculate_total,
}

-- A computation that gives a result has given one at each of its steps.
and_then_ok :
    {A B : Type 0} (r : Result A) (f : A → Result B) (b : B)
    → and_then r f ≡ ok b
    → (a : A) × (r ≡ ok a) × (f a ≡ ok b)
and_then_ok (ok a) f b h = (a, refl, h)
and_then_ok (err e) f b h = absurd (ground (arith, h))

module _ {D : Type 0} (dec : Decimals D) where
  value : Money D → Result (Money D) → Money D
  value m (ok a) = a
  value m (err e) = m

  ok-Money : (a b : Money D) → ok a ≡ ok b → a ≡ b
  unfolding value
  ok-Money a b h = ap (value a) h

  made-currency :
      (currency : Text) (o : Option D) (m : Money D)
      → made dec currency o ≡ ok m
      → m.currency ≡ to_upper currency
  made-currency currency none m h = absurd (ground (arith, h))
  made-currency currency (some d) m h =
      ap (λ x. x.currency)
        (sym (ok-Money (record { amount = d; currency = to_upper currency }) m h))

  money-currency :
      (amount currency : Text) (m : Money D)
      → money dec amount currency ≡ ok m
      → m.currency ≡ to_upper currency
  unfolding money
  money-currency amount currency m h = made-currency currency (dec.parse amount) m h

  add-currency :
      (a b m : Money D)
      → add dec a b ≡ ok m
      → (a.currency ≡ b.currency) × (m.currency ≡ to_upper a.currency)
  unfolding add guarded
  add-currency a b m h = elim (Bool-cases (same_text a.currency b.currency)) [
    | inl t ↦ (same_text-eq a.currency b.currency t, money-currency _ a.currency m (rw t at h))
    | inr f ↦ absurd (ground (arith, h, f))
  ]

  -- The currency of a line, and of the sum
  abbrev pub In : Text → LineItem D → Type 0
  In currency item = to_upper item.price.currency ≡ currency

  subtotal_from-In :
      (acc : Money D) (items : List (LineItem D)) (m : Money D)
      → subtotal_from dec acc items ≡ ok m
      → to_upper acc.currency ≡ acc.currency
      → All (In acc.currency) items × (m.currency ≡ acc.currency)
  unfolding subtotal_from
  subtotal_from-In acc [] m h upper = (tt, ap (λ x. x.currency) (sym (ok-Money acc m h)))
  subtotal_from-In acc (item ∷ items) m h upper =
      let line =
        and_then_ok (times dec item.price (some (dec.of_nat item.quantity)))
          (λ l. and_then (add dec acc l) (λ acc'. subtotal_from dec acc' items)) m h in
      let sum = and_then_ok (add dec acc line.0) (λ acc'. subtotal_from dec acc' items) m line.2 in
      let priced =
        money-currency (dec.to_fixed (dec.mul item.price.amount (dec.of_nat item.quantity)))
          item.price.currency line.0 line.1 in
      let added = add-currency acc line.0 sum.0 sum.1 in
      let kept = added.1 ∙ upper in
      let rest = subtotal_from-In sum.0 items m sum.2 (ap to_upper kept ∙ upper ∙ sym kept) in
      ((sym priced ∙ sym added.0, subst (λ c. All (In c) items) kept rest.0), rest.1 ∙ kept)

  -- The total, the tax and the sum are in a currency, and so is the result.
  abbrev pub IsIn : Text → TotalResult D → Type 0
  IsIn currency r =
      (r.subtotal.currency ≡ to_upper currency)
      × (r.tax_total.currency ≡ to_upper currency)
      × (r.grand_total.currency ≡ to_upper currency)
      × (r.currency ≡ currency)

  ok-TotalResult : (a b : TotalResult D) → ok a ≡ ok b → a ≡ b
  ok-TotalResult a b h = ap (λ r. elim r [ ok x ↦ x | err e ↦ a ]) h

  taxed-IsIn :
      (currency : Text) (bp : ℕ) (subtotal : Money D) (r : TotalResult D)
      → subtotal.currency ≡ to_upper currency
      → taxed dec currency bp subtotal ≡ ok r
      → IsIn currency r
  unfolding taxed
  taxed-IsIn currency bp subtotal r given h =
      let rate = dec.div (dec.of_nat bp) (dec.of_nat 10000) in
      let finished : Money D → Money D → TotalResult D = λ t g. record {
        subtotal = subtotal;
        tax_total = t;
        grand_total = g;
        currency = currency;
        tax_rate = rate;
      } in
      let tax =
        and_then_ok (times dec subtotal (some rate))
          (λ t. and_then (add dec subtotal t) (λ g. ok (finished t g))) r h in
      let grand = and_then_ok (add dec subtotal tax.0) (λ g. ok (finished tax.0 g)) r tax.2 in
      let added = add-currency subtotal tax.0 grand.0 grand.1 in
      let out = ok-TotalResult (finished tax.0 grand.0) r grand.2 in
      subst (IsIn currency) out
        (given, sym added.0 ∙ given, added.1 ∙ ap to_upper given ∙ to_upper_idem currency, refl)

  total_of-IsIn :
      (items : List (LineItem D)) (bp : ℕ) (r : TotalResult D)
      → total_of dec items bp ≡ ok r
      → All (In (to_upper r.currency)) items × IsIn r.currency r
  total_of-IsIn [] bp r h = absurd (ground (arith, h))
  total_of-IsIn (item ∷ items) bp r h =
      let currency = item.price.currency in
      let zero =
        and_then_ok (money dec (codes "0") currency)
          (λ z. and_then (subtotal_from dec z (item ∷ items)) (taxed dec currency bp)) r h in
      let started = money-currency (codes "0") currency zero.0 zero.1 in
      let summed =
        and_then_ok (subtotal_from dec zero.0 (item ∷ items)) (taxed dec currency bp) r zero.2 in
      let lines =
        subtotal_from-In zero.0 (item ∷ items) summed.0 summed.1
          (ap to_upper started ∙ to_upper_idem currency ∙ sym started) in
      let done = taxed-IsIn currency bp summed.0 r (lines.1 ∙ started) summed.2 in
      (
        subst (λ c. All (In c) (item ∷ items)) (started ∙ ap to_upper (sym done.3)) lines.0,
        subst (λ c. IsIn c r) (sym done.3) done,
      )

  -- A total of a cart mixes no currencies: if it is given, then the prices of all items are in its
  -- currency, and so are the subtotal, the tax and the grand total.
  pub calculate_total-IsIn :
      (input : TotalInput D) (r : TotalResult D)
      → calculate_total dec input ≡ ok r
      → All (In (to_upper r.currency)) input.items × IsIn r.currency r
  unfolding calculate_total
  calculate_total-IsIn input r h =
      total_of-IsIn input.items (tax_rate_bp input.rate_bp input.destination) r h
