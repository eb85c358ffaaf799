-- ===== src/Cli/Project/Consistent.antt =====
-- packages/cli/src/scaffold.ts: the parts of a generated project fit together.
use intellibiz.Shared.{Bool, true, false, ◌||◌, ◌∷◌, map, all, ◌≡◌, refl}
use intellibiz.Shared.Text.{Text, codes, same_text}
use intellibiz.Cli.{listed, ResolvedScaffoldOptions}
use intellibiz.Cli.Project.{Uses, uses_of, file_names, readme_from, readme_routes}
use intellibiz.Cli.Project.Entry.{
  banner_routes, build_entry_source, up_to, behind_char, imported_file, collect, registered_route,
}

-- The uses of a project with these modules
abbrev uses_from : Bool → Bool → Bool → Uses
uses_from c f i = record { commerce = c; finance = f || c; identity = i }

imports_exist :
    (c f i : Bool) (options : ResolvedScaffoldOptions) (name : Text)
    → all
        (listed (file_names (uses_from c f i) options))
        (collect imported_file (build_entry_source (uses_from c f i) name))
      ≡ true
unfolding listed same_text build_entry_source
imports_exist true true true options name = refl
imports_exist true true false options name = refl
imports_exist true false true options name = refl
imports_exist true false false options name = refl
imports_exist false true true options name = refl
imports_exist false true false options name = refl
imports_exist false false true options name = refl
imports_exist false false false options name = refl

-- Every file that the entry point of a generated project imports from the project is generated too,
-- whatever the options and the name.
pub build_entry_source-file_names :
    (options : ResolvedScaffoldOptions) (name : Text)
    → all
        (listed (file_names (uses_of options) options))
        (collect imported_file (build_entry_source (uses_of options) name))
      ≡ true
unfolding uses_of
build_entry_source-file_names options name =
    imports_exist (listed options.modules (codes "commerce"))
      (listed options.modules (codes "finance")) (listed options.modules (codes "identity")) options
      name

-- The routes of a README, and those of the banner
abbrev pub readme_path : Text → Text
readme_path line = up_to b'`' (behind_char b'`' line)

abbrev pub banner_path : Text → Text
banner_path route = up_to b'\'' (behind_char b'\'' route)

same_routes :
    (c f i : Bool) (name : Text)
    → (map readme_path (readme_from c f i)
        ≡ collect (registered_route (codes "GET ")) (build_entry_source (uses_from c f i) name))
      × ((codes "GET  /" ∷ map banner_path (banner_routes (uses_from c f i)))
          ≡ collect (registered_route (codes "GET  ")) (build_entry_source (uses_from c f i) name))
unfolding build_entry_source
same_routes true true true name = (refl, refl)
same_routes true true false name = (refl, refl)
same_routes true false true name = (refl, refl)
same_routes true false false name = (refl, refl)
same_routes false true true name = (refl, refl)
same_routes false true false name = (refl, refl)
same_routes false false true name = (refl, refl)
same_routes false false false name = (refl, refl)

-- The README and the banner of a generated project list exactly the routes that its entry point
-- registers, in their order; the banner leaves itself out, and pads `GET` with a space.
pub readme_routes-build_entry_source :
    (options : ResolvedScaffoldOptions) (name : Text)
    → (map readme_path (readme_routes options)
        ≡ collect (registered_route (codes "GET ")) (build_entry_source (uses_of options) name))
      × ((codes "GET  /" ∷ map banner_path (banner_routes (uses_of options)))
          ≡ collect (registered_route (codes "GET  ")) (build_entry_source (uses_of options) name))
unfolding uses_of readme_routes
readme_routes-build_entry_source options name =
    same_routes (listed options.modules (codes "commerce"))
      (listed options.modules (codes "finance")) (listed options.modules (codes "identity")) name
