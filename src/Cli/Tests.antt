-- ===== src/Cli/Tests.antt =====
-- packages/cli/src/scaffold.ts at concrete inputs.
use intellibiz.Shared.{true, false, none, some, [], ◌∷◌, ◌≡◌, refl}
use intellibiz.Shared.Text.{codes, same_text, split}
use intellibiz.Shared.Trim.{trim, trim_start}
use intellibiz.Cli.{
  listed, is_module_name, api, store, template_of, ScaffoldOptions, resolve_scaffold_options, parts,
  options_from_flags,
}

scaffolding : Unit {0}
unfolding same_text trim trim_start split listed is_module_name template_of resolve_scaffold_options
    parts options_from_flags
scaffolding = tt

abbrev options : ScaffoldOptions
options = options_from_flags (record {
  template = some (codes " api ");
  modules = some (codes "db, commerce,shop,db");
  features = some (codes "ci,");
})

flag_tests :
    ((resolve_scaffold_options options).template ≡ api)
    × ((resolve_scaffold_options options).modules ≡ codes "commerce" ∷ codes "db" ∷ [])
    × ((resolve_scaffold_options options).ci ≡ true)
    × ((resolve_scaffold_options options).tests ≡ false)
    × ((resolve_scaffold_options (
          options_from_flags
            (record { template = some (codes "shop"); modules = none; features = none }))).template
        ≡ store)
unfolding scaffolding
flag_tests = (refl, refl, refl, refl, refl)
