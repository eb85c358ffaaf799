-- ===== src/Cli/Names/Tests.antt =====
-- packages/cli/src/scaffold.ts: names at concrete inputs.
use intellibiz.Shared.{Option, none, some, [], ◌≡◌, refl, true}
use intellibiz.Shared.Text.{Text, codes, show}
use intellibiz.Shared.Trim.{trim, trim_start}
use intellibiz.Cli.Names.{
  split_humps, dash_runs, drop_first_dash, drop_last_dash, to_kebab_case, join_words, from_letter,
  to_camel_case, to_pascal_case, ScaffoldedAction, scaffold_action, ScaffoldedOverride,
  scaffold_override, scaffold_plugin, scaffold_migration,
}
use intellibiz.Cli.Names.Slugs.{is_slug, is_slug-to_kebab_case}

names : Unit {0}
unfolding trim trim_start split_humps dash_runs drop_first_dash drop_last_dash to_kebab_case
    join_words from_letter to_camel_case to_pascal_case scaffold_action scaffold_override
    scaffold_plugin scaffold_migration show
names = tt

case_tests :
    (to_kebab_case (codes "  Order  Items__v2 ") ≡ codes "order-items-v2")
    × (to_kebab_case (codes "../etc/passWord") ≡ codes "etcpass-word")
    × (to_camel_case (codes "order-items") ≡ codes "orderItems")
    × (to_camel_case (codes "2nd_order") ≡ codes "ndOrder")
    × (to_pascal_case (codes "order-items") ≡ codes "OrderItems")
    × (scaffold_migration (codes "add users") 17 ≡ codes "17_add-users")
    × (scaffold_migration (codes "!") 17 ≡ codes "17_migration")
    × (scaffold_plugin (codes "My Plugin")
        ≡ some (codes "my-plugin", codes "@intellibiz/my-plugin"))
    × (scaffold_plugin (codes "--") ≡ none)
unfolding names
case_tests = (refl, refl, refl, refl, refl, refl, refl, refl, refl)

abbrev export_of : Option ScaffoldedAction → Text
export_of none = []
export_of (some a) = a.export_name

-- An action of digits is refused, a trailing dash stays in the name of the constant, and so does a dot.
action_tests :
    (scaffold_action (codes "42") ≡ none)
    × (export_of (scaffold_action (codes "create-order")) ≡ codes "createOrder")
    × (export_of (scaffold_action (codes "order-")) ≡ codes "order-")
    × (export_of (scaffold_action (codes "order.items")) ≡ codes "order.items")
unfolding names
action_tests = (refl, refl, refl, refl)

-- The file of an override of digits sets a key without a name.
abbrev digits_only : ScaffoldedOverride
digits_only = record { file = codes "42"; flag = codes "42"; key = [] }

override_tests :
    (scaffold_override (codes "42") ≡ some digits_only)
    × (scaffold_override (codes "taxRules!")
        ≡ some
            (record { file = codes "tax-rules"; flag = codes "tax-rules"; key = codes "taxRules" }))
unfolding names
override_tests = (refl, refl)

is_slug-to_kebab_case_example : is_slug (to_kebab_case (codes "../My Order")) ≡ true
is_slug-to_kebab_case_example = is_slug-to_kebab_case (codes "../My Order")
