-- ===== src/Core/Config.antt =====
-- packages/core/src/config/validate.ts. Of a configuration the fields that are looked at here. The
-- schema is a function from what the caller writes to the configuration with its defaults, or to
-- the issues; Core.Schema has it.
pub mod Requirements
pub mod Accepted
mod Tests
use intellibiz.Shared.{
  ℕ, String, Bool, true, false, not, ◌&&◌, ◌||◌, Option, none, some, List, [], ◌∷◌, ◌++◌,
  if◌then◌else◌,
}
use intellibiz.Shared.Text.{Text}
use intellibiz.Identity.Jwt.{truthy}

pub data AuthProvider : Type 0 where
  internal external : AuthProvider

pub data LedgerMode : Type 0 where
  atomic background : LedgerMode

pub record Auth : Type 0 where
  pub provider : AuthProvider
  pub jwt_secret : Option Text

pub record Governance : Type 0 where
  pub audit_all : Bool
  pub allow_sudo : Bool

-- `has_tenancy` and `has_commerce` say whether the part is there; `base_currency` is `finance`'s.
pub record IntellibizConfig : Type 0 where
  pub auth : Option Auth
  pub ledger_mode : Option LedgerMode
  pub has_tenancy : Bool
  pub governance : Option Governance
  pub dry_run : Option Bool
  pub has_commerce : Bool
  pub base_currency : Option Text

abbrev pub missing : Option Text → Bool
missing o = elim (truthy o) [ none ↦ true | some t ↦ false ]

abbrev pub lacks_secret : Option Auth → Bool
lacks_secret none = false
lacks_secret (some auth) = elim auth.provider [
  | internal ↦ missing auth.jwt_secret
  | external ↦ false
]

abbrev pub is_atomic : Option LedgerMode → Bool
is_atomic (some atomic) = true
is_atomic _ = false

abbrev pub is_unaudited : Option Governance → Bool
is_unaudited none = false
is_unaudited (some g) = g.allow_sudo && not g.audit_all

abbrev pub is_true : Option Bool → Bool
is_true (some true) = true
is_true _ = false

pub record DependencyRule : Type 0 where
  pub flag : String
  pub requires : String
  pub is_violated : IntellibizConfig → Bool

-- `production` is `process.env['NODE_ENV'] === 'production'`.
abbrev pub dependency_rules : Bool → List DependencyRule
dependency_rules production =
    record {
      flag = "auth.jwtSecret";
      requires = "auth.provider = \"internal\"";
      is_violated = λ c. lacks_secret c.auth;
    }
    ∷ record {
      flag = "tenancy";
      requires = "ledger.mode = \"atomic\"";
      is_violated = λ c. is_atomic c.ledger_mode && not c.has_tenancy;
    }
    ∷ record {
      flag = "governance.auditAll";
      requires = "governance.allowSudo = true";
      is_violated = λ c. is_unaudited c.governance;
    }
    ∷ record {
      flag = "environment.dryRun = false";
      requires = "production";
      is_violated = λ c. is_true c.dry_run && production;
    }
    ∷ record {
      flag = "finance.baseCurrency";
      requires = "commerce";
      is_violated = λ c. c.has_commerce && missing c.base_currency;
    }
    ∷ []

pub data Warning : Type 0 where
  sudo_allowed dry_run_set no_tenancy : Warning

abbrev pub allows_sudo : Option Governance → Bool
allows_sudo none = false
allows_sudo (some g) = g.allow_sudo

abbrev pub warn_if : Bool → Warning → List Warning
warn_if b w = if b then w ∷ [] else []

-- `emitStartupWarnings`: what is written, in order
unfoldable pub startup_warnings : Bool → IntellibizConfig → List Warning
startup_warnings production c =
    warn_if (allows_sudo c.governance) sudo_allowed
    ++ (warn_if (is_true c.dry_run) dry_run_set
        ++ warn_if (not c.has_tenancy && production) no_tenancy)

pub record Issue : Type 0 where
  pub path : Text
  pub message : Text

pub data ConfigError : Type 0 where
  config_validation_error : List Issue → ConfigError
  config_dependency_error : String → String → ConfigError

pub data SchemaResult : Type 0 where
  success : IntellibizConfig → SchemaResult
  failure : List Issue → SchemaResult

pub data Defined : Type 0 where
  defined : IntellibizConfig → List Warning → Defined
  refused : ConfigError → Defined

-- the loop of the second pass, and what follows it
unfoldable pub check_rules : Bool → List DependencyRule → IntellibizConfig → Defined
unfolding startup_warnings
check_rules production [] c = defined c (startup_warnings production c)
check_rules production (rule ∷ rules) c =
    let rest = check_rules production rules c in
    if rule.is_violated c then refused (config_dependency_error rule.flag rule.requires) else rest

abbrev pub second_pass : Bool → SchemaResult → Defined
second_pass production (failure issues) = refused (config_validation_error issues)
second_pass production (success c) = check_rules production (dependency_rules production) c

unfoldable pub define_config : {I : Type 0} → (I → SchemaResult) → Bool → I → Defined
unfolding check_rules
define_config safe_parse production config = second_pass production (safe_parse config)
