-- ===== src/Cli/Project/Tests.antt =====
-- packages/cli/src/scaffold.ts: projects at concrete inputs.
use intellibiz.Shared.{true, false, Option, none, some, List, [], ◌∷◌, length, ◌≡◌, refl}
use intellibiz.Shared.Text.{Text, codes, same_text, to_upper}
use intellibiz.Shared.Trim.{trim, trim_start}
use intellibiz.Core.Config.{check_rules, define_config, startup_warnings}
use intellibiz.Core.Schema.{
  Messages, safe_parse, issues_of, module_issues, currency_issues, completed, is_schema_module,
}
use intellibiz.Cli.{listed, store, api, ResolvedScaffoldOptions, resolve_scaffold_options}
use intellibiz.Cli.Names.{split_humps, dash_runs, drop_first_dash, drop_last_dash, to_kebab_case}
use intellibiz.Cli.Project.{
  uses_of, build_config, build_env_example, readme_routes, feature_lines, describe_scaffold_options,
  ScaffoldedProject, scaffold_project,
}
use intellibiz.Cli.Project.Entry.{build_entry_source}
use intellibiz.Cli.Project.Boots.{boots}

projects : Unit {0}
unfolding trim trim_start split_humps dash_runs drop_first_dash drop_last_dash to_kebab_case
    same_text listed resolve_scaffold_options uses_of build_config build_env_example readme_routes
    feature_lines describe_scaffold_options scaffold_project build_entry_source define_config
    check_rules startup_warnings safe_parse issues_of module_issues currency_issues completed
    is_schema_module to_upper
projects = tt

abbrev chosen : List Text → ResolvedScaffoldOptions
chosen modules = resolve_scaffold_options (record {
  template = some api;
  modules = some modules;
  tests = none;
  docker = none;
  ci = some false;
})

abbrev messages : Messages
messages = record { invalid_enum = codes "enum"; wrong_length = codes "length" }

abbrev shop : ResolvedScaffoldOptions
shop = chosen (codes "commerce" ∷ [])

abbrev files_of : Option ScaffoldedProject → List Text
files_of none = []
files_of (some p) = p.files

project_tests :
    (scaffold_project
        (codes "--")
        (record { template = none; modules = none; tests = none; docker = none; ci = none })
      ≡ none)
    × (length (
          files_of (
            scaffold_project (codes "My Shop") (record {
              template = some store;
              modules = none;
              tests = none;
              docker = none;
              ci = none;
            })))
        ≡ 18)
    × (describe_scaffold_options shop
        ≡ codes "template: api · modules: commerce · features: tests, docker")
    × (length (build_env_example shop) ≡ 6)
    × (length (feature_lines shop) ≡ 4)
unfolding projects
project_tests = (refl, refl, refl, refl, refl)

boot_tests :
    (boots (define_config (safe_parse messages) true (build_config none shop)) ≡ false)
    × (boots
          (define_config (safe_parse messages) true (build_config none (chosen (codes "db" ∷ []))))
        ≡ true)
unfolding projects
boot_tests = (refl, refl)
