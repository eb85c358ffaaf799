-- ===== src/Cli/Project/Entry.antt =====
-- packages/cli/src/scaffold.ts: the lines of the entry point, and what can be read from them.
use intellibiz.Shared.{ℕ, Bool, Option, none, some, List, [], ◌∷◌, ◌++◌, map, eqb, if◌then◌else◌}
use intellibiz.Shared.Text.{Text, codes}
use intellibiz.Cli.Project.{Uses, when}

-- `routes`
abbrev pub banner_routes : Uses → List Text
banner_routes uses =
    codes "'GET  /health'"
    ∷ codes "'POST /greet'"
    ∷ (when uses.finance (codes "'POST /quote'" ∷ [])
        ++ (when uses.identity (codes "'GET  /me'" ∷ [])
            ++ when uses.commerce (codes "'POST /orders'" ∷ codes "'POST /webhooks/payment'" ∷ [])))

abbrev pub core_imports : Bool → Text
core_imports uses_commerce = if uses_commerce then codes "commerce, http" else codes "http"

abbrev head_lines : Uses → Text → List Text
head_lines uses name =
    codes "/**"
    ∷ (codes " * " ++ (name ++ codes " — HTTP entry point."))
    ∷ codes " *"
    ∷ codes " * Run it:  pnpm dev"
    ∷ codes " *   curl localhost:3000/health"
    ∷ codes " *   curl -X POST localhost:3000/greet -H 'content-type: application/json' "
    ∷ codes " *        -d '{\"name\":\"Ada\",\"enthusiasm\":3}'"
    ∷ (when uses.finance (
          codes " *   curl -X POST localhost:3000/quote -H 'content-type: application/json' "
          ∷ codes " *        -d '{\"subtotal\":\"100.00\",\"taxRate\":0.15}'"
          ∷ [])
        ++ codes " */" ∷ [])

abbrev import_lines : Uses → List Text
import_lines uses =
    (codes "import { " ++ (core_imports uses.commerce ++ codes " } from 'intellibiz';"))
    ∷ codes "import { greet } from './actions/greet.js';"
    ∷ (when uses.finance (codes "import { quote } from './actions/quote.js';" ∷ [])
        ++ (when uses.commerce (
              codes "import { createOrder } from './actions/create-order.js';"
              ∷ codes "import './payments/register.js';"
              ∷ codes "import { paymentWebhook } from './webhooks/payment.js';"
              ∷ [])
            ++ (when uses.identity (codes "import { whoami } from './actions/whoami.js';" ∷ [])
                ++ [] ∷ [])))

abbrev route_lines : Uses → Text → List Text
route_lines uses name =
    codes "http.get('/', () => ({"
    ∷ (codes "\tservice: '" ++ (name ++ codes "',"))
    ∷ codes "\troutes: ["
    ∷ (map (λ route. codes "\t\t" ++ (route ++ codes ",")) (banner_routes uses)
        ++ (codes "\t]"
            ∷ codes "}));"
            ∷ []
            ∷ codes "http.get('/health', (req) => ({"
            ∷ codes "\tstatus: 'ok',"
            ∷ codes "\ttenantId: req.tenantId,"
            ∷ codes "\ttraceId: req.traceId"
            ∷ codes "}));"
            ∷ []
            ∷ codes
                "// Actions mount directly — the router validates the body and builds the context."
            ∷ codes "http.post('/greet', greet);"
            ∷ (when uses.finance (codes "http.post('/quote', quote);" ∷ [])
                ++ (when uses.identity (codes "http.get('/me', whoami);" ∷ [])
                    ++ when uses.commerce (
                        codes "http.post('/orders', createOrder);"
                        ∷ codes "http.post('/webhooks/payment', paymentWebhook);"
                        ∷ [])))))

abbrev tail_lines : Text → List Text
tail_lines name =
    []
    ∷ codes "const port = Number(process.env['PORT'] ?? 3000);"
    ∷ codes "http.listen(port, () => {"
    ∷ (codes "\tconsole.log(`" ++ (name ++ codes " listening on http://localhost:${port}`);"))
    ∷ codes "});"
    ∷ []
    ∷ []

unfoldable pub build_entry_source : Uses → Text → List Text
build_entry_source uses name =
    head_lines uses name ++ (import_lines uses ++ (route_lines uses name ++ tail_lines name))

-- What is behind a prefix, if it is there
abbrev pub behind_prefix : Text → Text → Option Text
behind_prefix [] s = some s
behind_prefix (c ∷ p) [] = none
behind_prefix (c ∷ p) (d ∷ s) = let rest = behind_prefix p s in if eqb c d then rest else none

-- Up to a character
abbrev pub up_to : ℕ → Text → Text
up_to c [] = []
up_to c (d ∷ s) = let rest = up_to c s in if eqb d c then [] else d ∷ rest

-- Behind the first occurrence of a character
abbrev pub behind_char : ℕ → Text → Text
behind_char c [] = []
behind_char c (d ∷ s) = let rest = behind_char c s in if eqb d c then s else rest

-- The file that an import of the line names: `./a.js` in `src` is `src/a.ts`.
abbrev source_file : Option Text → Option Text
source_file none = none
source_file (some path) = some (codes "src/" ++ (up_to b'.' path ++ codes ".ts"))

abbrev local_path : Option Text → Option Text
local_path none = none
local_path (some s) = behind_prefix (codes "./") (up_to b'\'' (behind_char b'\'' s))

abbrev pub imported_file : Text → Option Text
imported_file line = source_file (local_path (behind_prefix (codes "import ") line))

abbrev onto : Option Text → List Text → List Text
onto none xs = xs
onto (some x) xs = x ∷ xs

abbrev pub collect : (Text → Option Text) → List Text → List Text
collect f [] = []
collect f (line ∷ lines) = onto (f line) (collect f lines)

-- The route that a line registers: `GET /me` for `http.get('/me', whoami);`, with the first argument
-- for the method of `get`
abbrev routed : Text → Option Text → Option Text → Option Text
routed method (some path) other = some (method ++ up_to b'\'' path)
routed method none (some path) = some (codes "POST " ++ up_to b'\'' path)
routed method none none = none

abbrev pub registered_route : Text → Text → Option Text
registered_route method line =
    routed method (behind_prefix (codes "http.get('") line)
      (behind_prefix (codes "http.post('") line)
