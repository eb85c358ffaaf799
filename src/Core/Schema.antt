-- ===== src/Core/Schema.antt =====
-- packages/core/src/config/schema.ts: what the schema makes of a configuration that a caller writes, for
-- the fields that packages/core/src/config/validate.ts looks at and for `modules`. Of the other fields it
-- is taken that they are as the schema asks. Texts are of ASCII characters; Zod's messages are arguments.
use intellibiz.Shared.{
  ℕ, suc, Bool, true, false, Option, none, some, List, [], ◌∷◌, ◌++◌, eqb, any, length,
  if◌then◌else◌, or_else,
}
use intellibiz.Shared.Text.{Text, codes, show, same_text, to_upper}
use intellibiz.Core.Config.{
  Auth, LedgerMode, atomic, Governance, IntellibizConfig, Issue, SchemaResult, success, failure,
}

-- The fields with a default may be left out.
pub record GovernanceInput : Type 0 where
  pub audit_all : Option Bool
  pub allow_sudo : Option Bool

-- `ledger` and `environment` are the parts, if they are there: of the one `mode`, of the other `dryRun`.
pub record ConfigInput : Type 0 where
  pub modules : Option (List Text)
  pub auth : Option Auth
  pub ledger : Option (Option LedgerMode)
  pub has_tenancy : Bool
  pub governance : Option GovernanceInput
  pub environment : Option (Option Bool)
  pub has_commerce : Bool
  pub base_currency : Option Text

pub record Messages : Type 0 where
  pub invalid_enum : Text
  pub wrong_length : Text

abbrev pub schema_modules : List Text
schema_modules =
    codes "commerce"
    ∷ codes "finance"
    ∷ codes "identity"
    ∷ codes "legal"
    ∷ codes "db"
    ∷ codes "inventory"
    ∷ codes "logistics"
    ∷ []

unfoldable pub is_schema_module : Text → Bool
unfolding same_text
is_schema_module name = any (same_text name) schema_modules

abbrev pub governed : GovernanceInput → Governance
governed g = record {
  audit_all = or_else g.audit_all true;
  allow_sudo = or_else g.allow_sudo false;
}

abbrev pub filled : {A : Type 0} → A → Option (Option A) → Option A
filled default none = none
filled default (some o) = some (or_else o default)

abbrev pub governed_part : Option GovernanceInput → Option Governance
governed_part none = none
governed_part (some g) = some (governed g)

abbrev pub upper_part : Option Text → Option Text
upper_part none = none
upper_part (some t) = some (to_upper t)

-- the configuration with its defaults
unfoldable pub completed : ConfigInput → IntellibizConfig
unfolding to_upper
completed i = record {
  auth = i.auth;
  ledger_mode = filled atomic i.ledger;
  has_tenancy = i.has_tenancy;
  governance = governed_part i.governance;
  dry_run = filled false i.environment;
  has_commerce = i.has_commerce;
  base_currency = upper_part i.base_currency;
}

module _ (messages : Messages) where
  unfoldable pub module_issues : ℕ → List Text → List Issue
  unfolding is_schema_module show
  module_issues n [] = []
  module_issues n (name ∷ names) =
      let rest = module_issues (suc n) names in
      if is_schema_module name
      then rest
      else record { path = codes "modules." ++ show n; message = messages.invalid_enum } ∷ rest

  -- `z.string().length(3)`
  unfoldable pub currency_issues : Option Text → List Issue
  currency_issues none = []
  currency_issues (some t) =
      if eqb (length t) 3
      then []
      else record { path = codes "finance.baseCurrency"; message = messages.wrong_length } ∷ []

  unfoldable pub issues_of : ConfigInput → List Issue
  unfolding module_issues currency_issues
  issues_of i = module_issues 0 (or_else i.modules []) ++ currency_issues i.base_currency

  abbrev pub parsed : List Issue → ConfigInput → SchemaResult
  parsed [] i = success (completed i)
  parsed (issue ∷ issues) i = failure (issue ∷ issues)

  -- `IntellibizConfigSchema.safeParse`
  unfoldable pub safe_parse : ConfigInput → SchemaResult
  unfolding issues_of completed
  safe_parse i = parsed (issues_of i) i
