-- ===== src/Cli/Project/Boots.antt =====
-- packages/cli/src/scaffold.ts and packages/core/src/config/validate.ts: which projects boot.
use intellibiz.Shared.{Bool, true, false, not, Option, none, some, if◌then◌else◌, or_else}
use intellibiz.Shared.Text.{Text, codes}
use intellibiz.Core.Config.{IntellibizConfig, internal, Defined, defined, refused}
use intellibiz.Cli.Names.{is_empty}

abbrev pub boots : Defined → Bool
boots (defined c warnings) = true
boots (refused e) = false

-- Whether the secret from the environment is usable: it is, unless it is set to an empty text.
abbrev pub is_usable : Option Text → Bool
is_usable none = true
is_usable (some secret) = not (is_empty secret)

-- The verdict, from the secret and the modules alone
abbrev config_of : Option Text → Bool → Bool → Bool → IntellibizConfig
config_of jwt_secret has_identity has_commerce has_finance = record {
  auth =
      if has_identity
      then some (record {
        provider = internal;
        jwt_secret = some (or_else jwt_secret (codes "dev-only-secret-change-me"));
      })
      else none;
  ledger_mode = none;
  has_tenancy = true;
  governance = none;
  dry_run = some false;
  has_commerce = has_commerce;
  base_currency = if has_finance then some (codes "USD") else none;
}
