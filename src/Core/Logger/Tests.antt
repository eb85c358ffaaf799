-- ===== src/Core/Logger/Tests.antt =====
-- packages/core/src/logger.ts at concrete inputs.
use intellibiz.Shared.{String, none, some, [], ◌∷◌, ◌≡◌, refl, length}
use intellibiz.Shared.Table.{get, put}
use intellibiz.Core.Logger.{
  debug, info, warn, error, silent, at_level, at_inherited, resolve_default_level, is_muted,
  console_error, spread, ContextLogger, line_of, write_line, child,
}

logger : Unit {0}
unfolding resolve_default_level is_muted spread line_of write_line child get put
logger = tt

abbrev request : ContextLogger String
request = record { bindings = ("traceId", "t1") ∷ ("tenantId", "acme") ∷ []; level = at_level info }

level_tests :
    (resolve_default_level (some "warn") none ≡ at_level warn)
    × (resolve_default_level (some "loud") (some "test") ≡ at_level silent)
    × (resolve_default_level none none ≡ at_level info)
    × (resolve_default_level (some "toString") (some "test") ≡ at_inherited "toString")
    × (write_line (λ s. s) request debug "now" "hidden" [] [] ≡ [])
    × (length (
          write_line
            (λ s. s)
            (record request { level = at_level silent })
            error
            "now"
            "hidden"
            []
            [])
        ≡ 0)
unfolding logger
level_tests = (refl, refl, refl, refl, refl, refl)

line_tests :
    write_line
      (λ s. s)
      (child (("orderId", "o1") ∷ []) request)
      error
      "now"
      "failed"
      (("traceId", "forged") ∷ [])
      []
    ≡ (
      console_error,
      ("level", "error")
          ∷ ("time", "now")
          ∷ ("traceId", "forged")
          ∷ ("tenantId", "acme")
          ∷ ("orderId", "o1")
          ∷ ("msg", "failed")
          ∷ [],
    )
      ∷ []
unfolding logger
line_tests = refl
