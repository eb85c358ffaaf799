-- ===== src/Testing/Ledger/Verdicts.antt =====
-- packages/testing/src/ledger-assert.ts: what it means for a ledger that an assertion passes.
use intellibiz.Shared.{
  keep_if, ℕ, suc, String, Bool, true, false, ◌||◌, none, List, [], ◌∷◌, ◌++◌, eqb, ltb, all, any,
  length, ◌==◌, ◌≡◌, ◌↔◌, refl, arith, eq_iff, All, Bool-cases, inl, inr, ◌≤◌, length-append, sym,
  ◌∙◌,
}
use intellibiz.Testing.Ledger.{
  TestLedgerEntry, Filter, meets, filter_entries, assert_ledger_contains,
  assert_ledger_not_contains, chronological_from, assert_ledger_chronological, single_tenant_from,
  assert_single_tenant, ExpectedOutcome, includes, assert_transaction_pattern,
}

All-map {ℓ κ} :
    {A : Type ℓ} (P Q : A → Type κ) (xs : List A) → ((x : A) → P x → Q x) → All P xs → All Q xs
All-map P Q [] f h = tt
All-map P Q (x ∷ xs) f h = (f x h.0, All-map P Q xs f h.1)

-- Every entry stands before the entries that are not earlier.
unfoldable pub Ordered : List TestLedgerEntry → Type 0
Ordered [] = Unit
Ordered (e ∷ es) = All (λ d. e.timestamp ≤ d.timestamp) es × Ordered es

chronological_from-Ordered :
    (i before : ℕ) (es : List TestLedgerEntry)
    → chronological_from i before es ≡ none
    → All (λ d. before ≤ d.timestamp) es × Ordered es
unfolding chronological_from Ordered
chronological_from-Ordered i before [] h = (tt, tt)
chronological_from-Ordered i before (e ∷ es) h = elim (Bool-cases (ltb e.timestamp before)) [
  | inl t ↦ absurd (ground (arith, h, t))
  | inr f ↦
      let rest = chronological_from-Ordered (suc i) e.timestamp es (rw f at h) in
      let bound : before ≤ e.timestamp = ground (arith, f) in
      (
        (
          bound,
          All-map (λ d. e.timestamp ≤ d.timestamp) (λ d. before ≤ d.timestamp) es
              (λ d le. omega (arith, le, bound)) rest.0,
        ),
        rest,
      )
]

Ordered-chronological_from :
    (i before : ℕ) (es : List TestLedgerEntry)
    → All (λ d. before ≤ d.timestamp) es
    → Ordered es
    → chronological_from i before es ≡ none
unfolding chronological_from Ordered
Ordered-chronological_from i before [] h o = refl
Ordered-chronological_from i before (e ∷ es) h o =
    ground (arith, h.0, Ordered-chronological_from (suc i) e.timestamp es o.0 o.1)

-- The chronological assertion passes exactly when no entry of the ledger is earlier than any entry
-- that stands before it.
pub assert_ledger_chronological_iff :
    (es : List TestLedgerEntry) → (assert_ledger_chronological es ≡ none) ↔ Ordered es
unfolding assert_ledger_chronological Ordered
assert_ledger_chronological_iff [] = (λ h. tt, λ h. refl)
assert_ledger_chronological_iff (e ∷ es) = (
  chronological_from-Ordered 1 e.timestamp es,
  λ h. Ordered-chronological_from 1 e.timestamp es h.0 h.1,
)

-- Every entry is the tenant's.
abbrev pub Of : String → List TestLedgerEntry → Type 0
Of tenant es = All (λ e. e.tenant_id ≡ tenant) es

single_tenant_from-Of :
    (i : ℕ) (tenant : String) (es : List TestLedgerEntry)
    → single_tenant_from i tenant es ≡ none
    → Of tenant es
unfolding single_tenant_from
single_tenant_from-Of i tenant [] h = tt
single_tenant_from-Of i tenant (e ∷ es) h = elim (Bool-cases (e.tenant_id == tenant)) [
  | inl t ↦ (
    ground (arith, t, eq_iff e.tenant_id tenant),
    single_tenant_from-Of (suc i) tenant es (rw t at h),
  )
  | inr f ↦ absurd (ground (arith, h, f))
]

Of-single_tenant_from :
    (i : ℕ) (tenant : String) (es : List TestLedgerEntry)
    → Of tenant es
    → single_tenant_from i tenant es ≡ none
unfolding single_tenant_from
Of-single_tenant_from i tenant [] h = refl
Of-single_tenant_from i tenant (e ∷ es) h =
    ground (arith, h.0, eq_iff e.tenant_id tenant, Of-single_tenant_from (suc i) tenant es h.1)

-- The single-tenant assertion passes exactly when there is a tenant whose the entries all are.
pub assert_single_tenant_iff :
    (es : List TestLedgerEntry)
    → (assert_single_tenant es ≡ none) ↔ ((tenant : String) × Of tenant es)
unfolding assert_single_tenant
assert_single_tenant_iff [] = (λ h. ("", tt), λ h. refl)
assert_single_tenant_iff (e ∷ es) = (
  λ h. (e.tenant_id, (refl, single_tenant_from-Of 1 e.tenant_id es h)),
  λ h. rw h.1.0 (Of-single_tenant_from 1 h.0 es h.1.1),
)

-- No entry meets the filter.
abbrev pub NoneMeets : Filter → List TestLedgerEntry → Type 0
NoneMeets filter es = All (λ e. all (meets e) filter ≡ false) es

length-keep_if_zero :
    {A : Type 0} (p : A → Bool) (xs : List A)
    → (length (keep_if p xs) ≡ 0) ↔ All (λ x. p x ≡ false) xs
length-keep_if_zero p [] = (λ h. tt, λ h. refl)
length-keep_if_zero p (x ∷ xs) = elim (Bool-cases (p x)) [
  | inl t ↦ (λ h. absurd (ground (arith, h, t)), λ h. absurd (ground (arith, h.0, t)))
  | inr f ↦ (
    λ h. (f, (length-keep_if_zero p xs).0 (rw f at h)),
    λ h. ground (arith, f, (length-keep_if_zero p xs).1 h.1),
  )
]

-- The assertion that an entry is missing passes exactly when no entry meets the filter, and the
-- assertion that one is there exactly when the former does not pass.
pub assert_ledger_contains_iff :
    (es : List TestLedgerEntry) (filter : Filter)
    → ((assert_ledger_not_contains es filter ≡ none) ↔ NoneMeets filter es)
      × ((assert_ledger_contains es filter ≡ none)
          ↔ (¬ (assert_ledger_not_contains es filter ≡ none)))
unfolding assert_ledger_contains assert_ledger_not_contains filter_entries
assert_ledger_contains_iff es filter =
    let zero_iff = length-keep_if_zero (λ e. all (meets e) filter) es in
    (
      (λ h. zero_iff.0 (ground (arith, h)), λ h. ground (arith, zero_iff.1 h)),
      (
        λ h g. ground (arith, h, g),
        λ h. elim (Bool-cases (eqb (length (keep_if (λ e. all (meets e) filter) es)) 0)) [
          | inl t ↦ absurd (h (ground (arith, t)))
          | inr f ↦ rw f refl
        ],
      ),
    )

keep_if-append :
    {A : Type 0} (p : A → Bool) (xs ys : List A)
    → keep_if p (xs ++ ys) ≡ keep_if p xs ++ keep_if p ys
keep_if-append p [] ys = refl
keep_if-append p (x ∷ xs) ys = ground (arith, keep_if-append p xs ys)

any-append :
    {A : Type 0} (p : A → Bool) (xs ys : List A) → any p (xs ++ ys) ≡ (any p xs || any p ys)
any-append p [] ys = refl
any-append p (x ∷ xs) ys = ground (arith, any-append p xs ys)

or_comm : (a b : Bool) → (a || b) ≡ (b || a)
or_comm true true = refl
or_comm true false = refl
or_comm false true = refl
or_comm false false = refl

any-swap : {A : Type 0} (p : A → Bool) (xs ys : List A) → any p (xs ++ ys) ≡ any p (ys ++ xs)
any-swap p xs ys = any-append p xs ys ∙ or_comm (any p xs) (any p ys) ∙ sym (any-append p ys xs)

length-swap : {A : Type 0} (xs ys : List A) → length (xs ++ ys) ≡ length (ys ++ xs)
length-swap xs ys = omega (arith, length-append xs ys, length-append ys xs)

includes-swap :
    (action : String) (xs ys : List TestLedgerEntry)
    → includes action (xs ++ ys) ≡ includes action (ys ++ xs)
unfolding includes
includes-swap action xs ys = any-swap (λ e. e.action == action) xs ys

-- The assertion on a transaction's pattern does not see the order of the entries: its verdict is
-- the same when the later entries of a ledger are put in front of the earlier ones.
pub assert_transaction_pattern-swap :
    (xs ys : List TestLedgerEntry) (trace_id : String) (expected : ExpectedOutcome)
    → assert_transaction_pattern (xs ++ ys) trace_id expected
      ≡ assert_transaction_pattern (ys ++ xs) trace_id expected
unfolding assert_transaction_pattern
assert_transaction_pattern-swap xs ys trace_id expected =
    let mine : TestLedgerEntry → Bool = λ e. e.trace_id == trace_id in
    let us = keep_if mine xs in
    let vs = keep_if mine ys in
    rw
      (
        keep_if-append mine xs ys,
        keep_if-append mine ys xs,
        length-swap us vs,
        includes-swap "TRANSACTION_PENDING" us vs,
        includes-swap "TRANSACTION_COMMITTED" us vs,
        includes-swap "TRANSACTION_ROLLED_BACK" us vs,
      )
      refl
