-- ===== src/Lib.antt =====
-- Intellibiz, a framework for business backends in TypeScript: a core with events, plugins and a
-- native bridge, and packages for commerce, databases, finance, HTTP and identity. This library models
-- the logic of these packages and states what makes it correct. The kernel middleware of HTTP decides
-- the tenant, the user and the role that actions, transactions and SQL statements run with; webhooks
-- and bank answers come back to commerce; events and plugins connect the packages.
--
-- The parts, and the files that model them:
--
--   Shared        what the other modules share: tests, lists, results, JavaScript's Map (Shared.Table),
--                 texts of code points with decimal numbers (Shared.Text), white space (Shared.Trim)
--                 and whole numbers with a sign (Shared.Integers).
--   Cli           packages/cli/src/scaffold.ts. The options of a new project (`options_from_flags`,
--                 `resolve_scaffold_options`), the case of names (Cli.Names), and the files, the entry
--                 point and the configuration of the project (Cli.Project), which Core.Config judges.
--   Commerce.Transaction
--                 packages/commerce/src/transaction/index.ts. `transaction` runs a callback, which is
--                 a tree of calls to its handle; `interpret` follows it, `charge_step` and
--                 `issue_step` are the operations of the handle, `run_all` and `finish` unwind the
--                 stack. Licenses and their expiry are in Commerce.Transaction.Licenses.
--   Commerce.BankRetry
--                 packages/commerce/src/state-machine/bank-retry.ts. A charge that the bank left open
--                 is polled: `start_bank_retry`, `schedule_entry`, `fire_entry`, `answer_entry`,
--                 `force_resolve` and `cancel_all_retries`, in any order of timers and answers.
--   Commerce.Dedup
--                 packages/commerce/src/webhooks/dedup.ts. The cache of processed event ids, and
--                 `process_webhook` in the two halves before and after the handler's promise.
--   Commerce.Signature, Commerce.Stripe, Commerce.PayFast
--                 packages/commerce/src/webhooks/signature.ts, providers/stripe.ts and
--                 providers/payfast.ts. The comparison of digests, the parser of Stripe's header, and
--                 the verification of webhooks by each provider. Commerce.PayFast.Events parses
--                 the notifications that Commerce.Dedup then processes.
--   Commerce.Providers
--                 packages/commerce/src/providers. Charges and refunds of Stripe, PayFast and Ozow, which
--                 are providers of Commerce.Transaction and convert amounts with Finance.Money.
--   Core.Config, Core.Schema
--                 packages/core/src/config/validate.ts and schema.ts. `define_config`, with the
--                 dependency rules and the warnings, and the fields of the schema that they look at.
--   Core.Context  packages/core/src/context/store.ts, context/service-registry.ts and
--                 define-action.ts. The store of a context, the registered services, and actions
--                 (`invoke`).
--   Core.Native   packages/core/src/native/bridge.ts. The TypeScript fallback: allocation, licenses,
--                 passwords and the filter, and the loader.
--   Core.Sockets  packages/core/src/context/builders.ts. The contexts of jobs, tasks and sockets, and the
--                 room of a socket.
--   Core.Logger   packages/core/src/logger.ts. Levels, lines and children of the logger.
--   Core.Trace    packages/core/src/trace.ts. Trace ids, their order and the test for them.
--   Core.Events   packages/core/src/events/bus.ts. The registry of listeners (Core.Events.Listeners),
--                 the retry loop of one listener (Core.Events.Loop), and `emit` with its loops under
--                 any interleaving of their signals (`step`, `run`).
--   Core.Plugins  packages/core/src/plugin/registry.ts. The container (Core.Plugins.Container), the
--                 detection of cycles (Core.Plugins.Circular) and the loading of plugins.
--   Db.Sql        packages/db/src/sql/template.ts. Templates, fragments and the renumbering of their
--                 placeholders (Db.Sql), and the injection of the tenant filters (Db.Sql.Filters).
--   Db.Governance packages/db/src/tenancy/index.ts. `sudo` and `raw`, which bypass the filters, and the
--                 log of their calls.
--   Finance.Money packages/finance/src/money/index.ts and precision.ts. Money over decimal.js, and its
--                 allocation over ratios (`allocate`).
--   Finance.Tax   packages/finance/src/tax/calculator.ts. The tax rate of a destination, and
--                 the totals of a cart (Finance.Tax.Totals).
--   Http.Middleware, Identity.Jwt
--                 packages/http/src/middleware.ts and packages/identity/src/jwt/index.ts. The kernel
--                 middleware: tokens, and the tenant, the user and the role of a request.
--   Http.Router   packages/http/src/router.ts. The context of a handler (Http.Router), `wrap_handler`, the
--                 routes and `serve`, which runs the kernel middleware first (Http.Router.Wrapped).
--   Identity.Resolver
--                 packages/identity/src/resolver.ts. `resolve_identity`, the configurable resolver.
--   Identity.Sessions
--                 packages/identity/src/index.ts. The active user and tenant.
--   Identity.Rbac packages/identity/src/rbac/index.ts, and permissionCheck of
--                 packages/core/src/native/bridge.ts.
--   Testing.Ledger, Testing.Clock, Testing.Gateway
--                 packages/testing/src/ledger-assert.ts, time-travel.ts and mock-gateway.ts. The
--                 assertions on a ledger, the virtual clock, and the mock gateway, which is a provider
--                 of Commerce.Transaction.
--   Testing.State packages/testing/src/index.ts and tenant-context.ts. The contexts of tests, the
--                 switches of `mockPayments`, and `reset_test_state`, which resets the clock here, the
--                 webhook cache of Commerce.Dedup, the listeners of Core.Events and the log of
--                 Db.Governance.
--
-- Numbers are natural numbers; times are milliseconds. Code outside is a parameter: payment
-- providers, webhook handlers, route handlers, listeners, service factories, the schemas of actions,
-- decimal.js, digests, the verification of tokens, Hono's choice of a route and the clock, whose
-- readings are arguments or a sequence. Promises are modelled by splitting an operation at its
-- awaits; the order in which they settle is the order of the events of a run.
--
-- Fuel: `dfs` of the detection of cycles runs on two more units than there are plugins, which is
-- enough since a path has no name twice. The printing of numbers has as many units as the number is
-- large. Everything else is structural recursion.
--
-- Not modelled: the retry budget of a listener that is not an integer, listeners that are registered
-- while an event is emitted, service factories with effects on the registry, texts beyond ASCII in SQL
-- statements, signatures and hosts, ratios that are negative or not whole, times beyond what a double
-- holds, the format of money in a locale, quantities of a cart that are not whole, white space beyond
-- ASCII, calls of a transaction's handle that a callback makes at the same time, the other fields of
-- the configuration's schema, the texts of the generated files but for the entry point, the elapsed
-- time of a context (a quotient in floating point), setPaymentProvider in the middle of a transaction,
-- the server that listen starts, and the files and prompts of the command line.
pub mod Cli
pub mod Shared
pub mod Testing
pub mod Commerce
pub mod Core
pub mod Db
pub mod Finance
pub mod Http
pub mod Identity
