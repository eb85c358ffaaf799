-- ===== src/Core/Config/Tests.antt =====
-- packages/core/src/config/validate.ts at concrete inputs.
use intellibiz.Shared.{Bool, true, false, none, some, [], ◌∷◌, ◌≡◌, refl}
use intellibiz.Core.Config.{
  Defined, startup_warnings, sudo_allowed, no_tenancy, config_validation_error,
  config_dependency_error, defined, refused, check_rules, define_config,
}
use intellibiz.Shared.Text.{codes, same_text, to_upper, show}
use intellibiz.Core.Schema.{
  ConfigInput, Messages, is_schema_module, completed, module_issues, currency_issues, issues_of,
  safe_parse,
}

config_bundle : Unit {0}
unfolding define_config check_rules startup_warnings safe_parse issues_of module_issues
    currency_issues completed is_schema_module same_text to_upper show
config_bundle = tt

abbrev messages : Messages
messages = record { invalid_enum = codes "enum"; wrong_length = codes "length" }

abbrev plain_config : ConfigInput
plain_config = record {
  modules = none;
  auth = none;
  ledger = none;
  has_tenancy = false;
  governance = some (record { audit_all = none; allow_sudo = some true });
  environment = none;
  has_commerce = false;
  base_currency = some (codes "usd");
}

abbrev commerce_config : ConfigInput
commerce_config = record plain_config {
  modules = some (codes "commerce" ∷ codes "shop" ∷ []);
  base_currency = some (codes "us");
}

abbrev define : Bool → ConfigInput → Defined
define = define_config (safe_parse messages)

-- The mode of a ledger is atomic unless it is given.
config_tests :
    (define true plain_config ≡ defined (completed plain_config) (sudo_allowed ∷ no_tenancy ∷ []))
    × ((completed plain_config).base_currency ≡ some (codes "USD"))
    × (define true commerce_config
        ≡ refused (
            config_validation_error (
              record { path = codes "modules.1"; message = codes "enum" }
              ∷ record { path = codes "finance.baseCurrency"; message = codes "length" }
              ∷ [])))
    × (define false (record plain_config { ledger = some none })
        ≡ refused (config_dependency_error "tenancy" "ledger.mode = \"atomic\""))
    × (define true (record plain_config { environment = some (some true) })
        ≡ refused (config_dependency_error "environment.dryRun = false" "production"))
unfolding config_bundle
config_tests = (refl, refl, refl, refl, refl)
