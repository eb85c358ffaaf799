-- ===== src/Core/Config/Requirements.antt =====
-- packages/core/src/config/validate.ts and schema.ts: what a configuration needs, in terms of what the
-- caller writes, and that the dependency rules test for it.
use intellibiz.Shared.{
  String, Bool, true, false, not, ◌&&◌, Option, none, some, List, [], ◌∷◌, length, All, ◌≡◌, ◌⊎◌,
  refl, sym, subst, or_else,
}
use intellibiz.Shared.Text.{Text, to_upper}
use intellibiz.Core.Config.{
  AuthProvider, internal, external, Auth, LedgerMode, atomic, background, DependencyRule,
  dependency_rules, lacks_secret, is_atomic, is_unaudited, is_true, Warning, sudo_allowed,
  dry_run_set, no_tenancy, missing,
}
use intellibiz.Core.Schema.{
  GovernanceInput, ConfigInput, is_schema_module, governed, filled, governed_part, upper_part,
  completed,
}

-- What a configuration needs, each with the flag and the condition that its error names
pub data Requirement : Type 0 where
  secret tenancy audit production_run currency : Requirement

abbrev pub requirements : List Requirement
requirements = secret ∷ tenancy ∷ audit ∷ production_run ∷ currency ∷ []

abbrev pub names_of : Requirement → String × String
names_of secret = ("auth.jwtSecret", "auth.provider = \"internal\"")
names_of tenancy = ("tenancy", "ledger.mode = \"atomic\"")
names_of audit = ("governance.auditAll", "governance.allowSudo = true")
names_of production_run = ("environment.dryRun = false", "production")
names_of currency = ("finance.baseCurrency", "commerce")

-- Internal authentication needs a secret that is not empty.
abbrev HasSecret : AuthProvider → Option Text → Type 0
HasSecret external s = Unit
HasSecret internal (some (c ∷ s)) = Unit
HasSecret internal _ = ⊥

abbrev AuthMet : Option Auth → Type 0
AuthMet none = Unit
AuthMet (some a) = HasSecret a.provider a.jwt_secret

-- A ledger needs tenancy unless its mode is background.
abbrev LedgerMet : Option (Option LedgerMode) → Bool → Type 0
LedgerMet none t = Unit
LedgerMet (some (some background)) t = Unit
LedgerMet (some _) t = t ≡ true

-- Sudo needs that the audit is not switched off.
abbrev AuditMet : Option Bool → Option Bool → Type 0
AuditMet (some false) (some true) = ⊥
AuditMet _ _ = Unit

abbrev GovernanceMet : Option GovernanceInput → Type 0
GovernanceMet none = Unit
GovernanceMet (some g) = AuditMet g.audit_all g.allow_sudo

-- There is no dry run in production.
abbrev RunMet : Option (Option Bool) → Bool → Type 0
RunMet (some (some true)) production = production ≡ false
RunMet _ production = Unit

-- Commerce needs a base currency.
abbrev CurrencyMet : Bool → Option Text → Type 0
CurrencyMet true none = ⊥
CurrencyMet true (some []) = ⊥
CurrencyMet _ _ = Unit

abbrev pub Met : Bool → ConfigInput → Requirement → Type 0
Met production i secret = AuthMet i.auth
Met production i tenancy = LedgerMet i.ledger i.has_tenancy
Met production i audit = GovernanceMet i.governance
Met production i production_run = RunMet i.environment production
Met production i currency = CurrencyMet i.has_commerce i.base_currency

abbrev pub Chosen : Option Bool → Type 0
Chosen (some true) = Unit
Chosen _ = ⊥

-- What is warned of: sudo, if it is allowed
abbrev pub SudoGiven : Option GovernanceInput → Type 0
SudoGiven none = ⊥
SudoGiven (some g) = Chosen g.allow_sudo

-- a dry run
abbrev pub DryRun : Option (Option Bool) → Type 0
DryRun none = ⊥
DryRun (some o) = Chosen o

-- production without tenancy
abbrev pub NoTenancy : Bool → Bool → Type 0
NoTenancy false true = Unit
NoTenancy _ _ = ⊥

abbrev pub Applies : Bool → ConfigInput → Warning → Type 0
Applies production i sudo_allowed = SudoGiven i.governance
Applies production i dry_run_set = DryRun i.environment
Applies production i no_tenancy = NoTenancy i.has_tenancy production

-- Of the warnings, those that apply, in their order
abbrev pub AreThose : (Warning → Type 0) → List Warning → List Warning → Type 0
AreThose P [] out = out ≡ []
AreThose P (w ∷ ws) out =
    (P w × ((rest : List Warning) × (out ≡ w ∷ rest) × AreThose P ws rest))
    ⊎ (¬ P w × AreThose P ws out)

-- The first requirement that is not met, with its names
abbrev pub FirstUnmet : (Requirement → Type 0) → List Requirement → String → String → Type 0
FirstUnmet P [] flag requires = ⊥
FirstUnmet P (r ∷ rs) flag requires =
    (¬ P r × ((flag, requires) ≡ names_of r)) ⊎ (P r × FirstUnmet P rs flag requires)

-- The modules are of the schema's, and the base currency has three letters.
abbrev pub CurrencyValid : Option Text → Type 0
CurrencyValid none = Unit
CurrencyValid (some t) = length t ≡ 3

abbrev pub IsValid : ConfigInput → Type 0
IsValid i =
    All (λ m. is_schema_module m ≡ true) (or_else i.modules []) × CurrencyValid i.base_currency

-- Of a test and a proposition: the test says that the proposition fails.
abbrev pub Decides : Bool → Type 0 → Type 0
Decides true P = ¬ P
Decides false P = P

secret-Decides :
    (p : AuthProvider) (s : Option Text)
    → Decides (lacks_secret (some (record { provider = p; jwt_secret = s }))) (HasSecret p s)
secret-Decides internal none = λ h. h
secret-Decides internal (some []) = λ h. h
secret-Decides internal (some (c ∷ s)) = tt
secret-Decides external s = tt

auth-Decides : (o : Option Auth) → Decides (lacks_secret o) (AuthMet o)
auth-Decides none = tt
auth-Decides (some a) = secret-Decides a.provider a.jwt_secret

pub false≢true : ¬ (false ≡ true)
false≢true = λ h. subst (λ b. elim b [ true ↦ ⊥ | false ↦ Unit {0} ]) h tt

ledger-Decides :
    (o : Option (Option LedgerMode)) (t : Bool)
    → Decides (is_atomic (filled atomic o) && not t) (LedgerMet o t)
ledger-Decides none t = tt
ledger-Decides (some none) true = refl
ledger-Decides (some none) false = false≢true
ledger-Decides (some (some atomic)) true = refl
ledger-Decides (some (some atomic)) false = false≢true
ledger-Decides (some (some background)) t = tt

audit-Decides :
    (a s : Option Bool)
    → Decides
        (is_unaudited (some (governed (record { audit_all = a; allow_sudo = s }))))
        (AuditMet a s)
audit-Decides none none = tt
audit-Decides none (some true) = tt
audit-Decides none (some false) = tt
audit-Decides (some true) none = tt
audit-Decides (some true) (some true) = tt
audit-Decides (some true) (some false) = tt
audit-Decides (some false) none = tt
audit-Decides (some false) (some true) = λ h. h
audit-Decides (some false) (some false) = tt

governance-Decides :
    (o : Option GovernanceInput) → Decides (is_unaudited (governed_part o)) (GovernanceMet o)
governance-Decides none = tt
governance-Decides (some g) = audit-Decides g.audit_all g.allow_sudo

run-Decides :
    (o : Option (Option Bool)) (production : Bool)
    → Decides (is_true (filled false o) && production) (RunMet o production)
run-Decides none production = tt
run-Decides (some none) production = tt
run-Decides (some (some false)) production = tt
run-Decides (some (some true)) true = λ h. false≢true (sym h)
run-Decides (some (some true)) false = refl

currency-Decides :
    (c : Bool) (o : Option Text) → Decides (c && missing (upper_part o)) (CurrencyMet c o)
unfolding to_upper
currency-Decides false o = tt
currency-Decides true none = λ h. h
currency-Decides true (some []) = λ h. h
currency-Decides true (some (c ∷ s)) = tt

-- The rules are the requirements, in this order.
abbrev pub AreRules : Bool → ConfigInput → List DependencyRule → List Requirement → Type 0
AreRules production i [] [] = Unit
AreRules production i (rule ∷ rules) (r ∷ rs) =
    ((rule.flag, rule.requires) ≡ names_of r)
    × Decides (rule.is_violated (completed i)) (Met production i r)
    × AreRules production i rules rs
AreRules production i _ _ = ⊥

pub dependency_rules-AreRules :
    (production : Bool) (i : ConfigInput)
    → AreRules production i (dependency_rules production) requirements
unfolding completed
dependency_rules-AreRules production i = (
  refl,
  auth-Decides i.auth,
  (
    refl,
    ledger-Decides i.ledger i.has_tenancy,
    (
      refl,
      governance-Decides i.governance,
      (
        refl,
        run-Decides i.environment production,
        (refl, currency-Decides i.has_commerce i.base_currency, tt),
      ),
    ),
  ),
)
