-- ===== src/Cli.antt =====
-- packages/cli/src/scaffold.ts: the options of a new project, from the flags of the command line and the
-- presets of the templates.
pub mod Resolved
pub mod Names
pub mod Project
mod Tests
use intellibiz.Shared.{
  keep_if, ℕ, Bool, true, false, Option, none, some, List, [], ◌∷◌, ◌++◌, map, any, if◌then◌else◌,
  or_else,
}
use intellibiz.Shared.Text.{Text, codes, same_text, split}
use intellibiz.Shared.Trim.{trim}

abbrev pub module_names : List Text
module_names =
    codes "commerce"
    ∷ codes "finance"
    ∷ codes "identity"
    ∷ codes "db"
    ∷ codes "legal"
    ∷ codes "logistics"
    ∷ []

-- `xs.includes(x)`
unfoldable pub listed : List Text → Text → Bool
unfolding same_text
listed xs x = any (same_text x) xs

unfoldable pub is_module_name : Text → Bool
unfolding listed
is_module_name value = listed module_names value

pub data TemplateName : Type 0 where
  minimal api store : TemplateName

pub record ScaffoldTemplate : Type 0 where
  pub modules : List Text
  pub tests : Bool
  pub docker : Bool
  pub ci : Bool

abbrev pub scaffold_templates : TemplateName → ScaffoldTemplate
scaffold_templates minimal = record { modules = []; tests = false; docker = false; ci = false }
scaffold_templates api = record {
  modules = codes "db" ∷ codes "identity" ∷ [];
  tests = true;
  docker = true;
  ci = true;
}
scaffold_templates store = record {
  modules = codes "commerce" ∷ codes "finance" ∷ codes "db" ∷ codes "identity" ∷ [];
  tests = true;
  docker = true;
  ci = true;
}

-- `isTemplateName`, and the template of the name
unfoldable pub template_of : Text → Option TemplateName
unfolding same_text
template_of value =
    if same_text value (codes "minimal")
    then some minimal
    else (if same_text value (codes "api")
        then some api
        else (if same_text value (codes "store") then some store else none))

pub record ScaffoldOptions : Type 0 where
  pub template : Option TemplateName
  pub modules : Option (List Text)
  pub tests : Option Bool
  pub docker : Option Bool
  pub ci : Option Bool

pub record ResolvedScaffoldOptions : Type 0 where
  pub template : TemplateName
  pub modules : List Text
  pub tests : Bool
  pub docker : Bool
  pub ci : Bool

unfoldable pub resolve_scaffold_options : ScaffoldOptions → ResolvedScaffoldOptions
unfolding listed
resolve_scaffold_options options =
    let template = or_else options.template store in
    let preset = scaffold_templates template in
    let requested = or_else options.modules preset.modules in
    record {
      template = template;
      modules = keep_if (listed requested) module_names;
      tests = or_else options.tests preset.tests;
      docker = or_else options.docker preset.docker;
      ci = or_else options.ci preset.ci;
    }

-- `template`, `modules` and `features`, where they are given
pub record Flags : Type 0 where
  pub template : Option Text
  pub modules : Option Text
  pub features : Option Text

-- the parts between commas, without the white space round them
unfoldable pub parts : Text → List Text
unfolding split trim
parts s = map trim (split b',' s)

abbrev pub is_filled : Text → Bool
is_filled [] = false
is_filled (c ∷ s) = true

-- `features.has(name)`, if there are features
abbrev pub has_feature : Text → Option Text → Option Bool
has_feature name none = none
has_feature name (some features) = some (listed (keep_if is_filled (parts features)) name)

abbrev pub flag_template : Option Text → Option TemplateName
flag_template none = none
flag_template (some template) = template_of (trim template)

abbrev pub flag_modules : Option Text → Option (List Text)
flag_modules none = none
flag_modules (some modules) = some (keep_if is_module_name (parts modules))

unfoldable pub options_from_flags : Flags → ScaffoldOptions
unfolding listed parts is_module_name template_of trim
options_from_flags input = record {
  template = flag_template input.template;
  modules = flag_modules input.modules;
  tests = has_feature (codes "tests") input.features;
  docker = has_feature (codes "docker") input.features;
  ci = has_feature (codes "ci") input.features;
}
