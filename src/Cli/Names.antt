-- ===== src/Cli/Names.antt =====
-- packages/cli/src/scaffold.ts: the case of names, and what is generated for an action, an override, a
-- plugin and a migration. White space beyond ASCII is not white space here.
pub mod Slugs
pub mod Identifiers
mod Tests
use intellibiz.Shared.{
  ℕ, ◌-◌, ◌+◌, Bool, true, false, not, ◌&&◌, ◌||◌, Option, none, some, List, [], ◌∷◌, ◌++◌, map,
  eqb, leb, keep_if, if◌then◌else◌,
}
use intellibiz.Shared.Text.{Text, codes, is_digit, to_upper, show}
use intellibiz.Shared.Trim.{is_space, trim}

abbrev pub is_lower : ℕ → Bool
is_lower c = leb b'a' c && leb c b'z'

abbrev pub is_upper : ℕ → Bool
is_upper c = leb b'A' c && leb c b'Z'

-- `[a-zA-Z0-9]`
abbrev pub is_alnum : ℕ → Bool
is_alnum c = is_lower c || is_upper c || is_digit c

-- `replace(/([a-z0-9])([A-Z])/g, '$1-$2')`
unfoldable pub split_humps : Text → Text
split_humps (c ∷ d ∷ s) =
    let hit = split_humps s in
    let miss = split_humps (d ∷ s) in
    if (is_lower c || is_digit c) && is_upper d then c ∷ b'-' ∷ d ∷ hit else c ∷ miss
split_humps s = s

-- A run of characters that pass the test becomes one dash; `within` says that a run goes on.
unfoldable pub dash_runs : (ℕ → Bool) → Bool → Text → Text
dash_runs p within [] = []
dash_runs p within (c ∷ s) =
    let inner = dash_runs p true s in
    let outer = dash_runs p false s in
    if p c then (if within then inner else b'-' ∷ inner) else c ∷ outer

-- `[\s_]` and `-`
abbrev pub is_blank : ℕ → Bool
is_blank c = is_space c || eqb c b'_'

abbrev pub is_dash : ℕ → Bool
is_dash c = eqb c b'-'

-- what `replace(/[^a-zA-Z0-9-]+/g, '')` leaves
abbrev pub is_allowed : ℕ → Bool
is_allowed c = is_alnum c || is_dash c

-- `replace(/^-|-$/g, '')`, in front and behind
unfoldable pub drop_first_dash : Text → Text
drop_first_dash [] = []
drop_first_dash (c ∷ s) = if is_dash c then s else c ∷ s

unfoldable pub drop_last_dash : Text → Text
drop_last_dash [] = []
drop_last_dash (c ∷ []) = if is_dash c then [] else c ∷ []
drop_last_dash (c ∷ d ∷ s) = c ∷ drop_last_dash (d ∷ s)

-- `toLowerCase()` of a letter
abbrev pub lower_letter : ℕ → ℕ
lower_letter c = if is_upper c then c + 32 else c

unfoldable pub to_kebab_case : Text → Text
unfolding trim split_humps dash_runs drop_first_dash drop_last_dash
to_kebab_case name =
    let humps = split_humps (trim name) in
    let allowed = keep_if is_allowed (dash_runs is_blank false humps) in
    map lower_letter (drop_last_dash (drop_first_dash (dash_runs is_dash false allowed)))

-- `[-_\s]`
abbrev pub is_separator : ℕ → Bool
is_separator c = is_dash c || is_blank c

abbrev pub is_empty : Text → Bool
is_empty [] = true
is_empty (c ∷ s) = false

abbrev pub upper_letter : ℕ → ℕ
upper_letter c = if is_lower c then c - 32 else c

-- `replace(/[-_\s]+([a-zA-Z0-9])/g, …)`: a run of separators, which `run` holds, goes if a letter or a
-- digit is behind it.
unfoldable pub join_words : Text → Text → Text
join_words run [] = run
join_words run (c ∷ s) =
    let further = join_words (run ++ c ∷ []) s in
    let rest = join_words [] s in
    if is_separator c
    then further
    else (if not (is_empty run) && is_alnum c then upper_letter c ∷ rest else run ++ c ∷ rest)

-- `[a-zA-Z_$]`
abbrev pub starts_identifier : ℕ → Bool
starts_identifier c = is_lower c || is_upper c || eqb c b'_' || eqb c b'$'

-- `replace(/^[^a-zA-Z_$]+/, '')`
unfoldable pub from_letter : Text → Text
from_letter [] = []
from_letter (c ∷ s) = let rest = from_letter s in if starts_identifier c then c ∷ s else rest

unfoldable pub to_camel_case : Text → Text
unfolding trim join_words from_letter
to_camel_case name = from_letter (join_words [] (trim name))

abbrev pub capitalized : Text → Text
capitalized [] = []
capitalized (c ∷ s) = upper_letter c ∷ s

unfoldable pub to_pascal_case : Text → Text
unfolding to_camel_case
to_pascal_case name = capitalized (to_camel_case name)

pub record ScaffoldedAction : Type 0 where
  pub file : Text
  pub export_name : Text
  pub schema_name : Text
  -- the lines of the source
  pub source : List Text

abbrev pub action_source : Text → Text → List Text
action_source export_name schema_name =
    codes "import { defineAction } from 'intellibiz';"
    ∷ codes "import { z } from 'zod';"
    ∷ []
    ∷ (codes "const " ++ (schema_name ++ codes " = z.object({"))
    ∷ codes "\t// define your input schema"
    ∷ codes "});"
    ∷ []
    ∷ (codes "export const " ++ (export_name ++ codes " = defineAction({"))
    ∷ (codes "\tinput: " ++ (schema_name ++ codes ","))
    ∷ codes "\tasync handler(action) {"
    ∷ (codes "\t\t// action.data is fully typed from " ++ schema_name)
    ∷ codes "\t\t// action.db / action.log / action.emit are available"
    ∷ codes "\t\treturn {};"
    ∷ codes "\t}"
    ∷ codes "});"
    ∷ []
    ∷ []

-- none where the code throws
unfoldable pub scaffold_action : Text → Option ScaffoldedAction
unfolding to_kebab_case to_camel_case to_pascal_case
scaffold_action raw_name =
    let file = to_kebab_case raw_name in
    let export_name = to_camel_case raw_name in
    let schema_name = to_pascal_case raw_name ++ codes "Input" in
    if is_empty file || is_empty export_name
    then none
    else some (record {
      file = file;
      export_name = export_name;
      schema_name = schema_name;
      source = action_source export_name schema_name;
    })

pub record ScaffoldedOverride : Type 0 where
  pub file : Text
  pub flag : Text
  -- the key in the source
  pub key : Text

unfoldable pub scaffold_override : Text → Option ScaffoldedOverride
unfolding to_kebab_case to_camel_case
scaffold_override raw_flag =
    let flag = to_kebab_case raw_flag in
    if is_empty flag
    then none
    else some (record { file = flag; flag = flag; key = to_camel_case flag })

-- the directory and the name of the package
unfoldable pub scaffold_plugin : Text → Option (Text × Text)
unfolding to_kebab_case
scaffold_plugin raw_name =
    let dir = to_kebab_case raw_name in
    if is_empty dir then none else some (dir, codes "@intellibiz/" ++ dir)

abbrev pub or_migration : Text → Text
or_migration [] = codes "migration"
or_migration (c ∷ s) = c ∷ s

unfoldable pub scaffold_migration : Text → ℕ → Text
unfolding to_kebab_case show
scaffold_migration name now = show now ++ (b'_' ∷ or_migration (to_kebab_case name))
