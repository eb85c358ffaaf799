-- ===== src/Core/Logger.antt =====
-- packages/core/src/logger.ts: the structured logger. The lines that are written are kept, each with the
-- stream that it goes to; `V` is the type of the values of fields, and `of_text` makes one of a text.
-- `LOG_LEVEL` and `NODE_ENV` are arguments.
pub mod Fields
mod Tests
use intellibiz.Shared.{
  ℕ, String, Bool, true, false, Option, none, some, List, [], ◌∷◌, ◌++◌, ◌==◌, any, ltb,
  if◌then◌else◌, or_else,
}
use intellibiz.Shared.Table.{Table, get, put}
use intellibiz.Identity.Rbac.{inherited}

pub data LogLevel : Type 0 where
  debug info warn error silent : LogLevel

-- The weight of a level; none is infinity.
abbrev pub level_weight : LogLevel → Option ℕ
level_weight debug = some 10
level_weight info = some 20
level_weight warn = some 30
level_weight error = some 40
level_weight silent = none

abbrev pub level_names : Table LogLevel
level_names =
    ("debug", debug) ∷ ("info", info) ∷ ("warn", warn) ∷ ("error", error) ∷ ("silent", silent) ∷ []

-- A level of a logger: one of the five, or the name of a property that every object inherits, which
-- `in` accepts too.
pub data Setting : Type 0 where
  at_level : LogLevel → Setting
  at_inherited : String → Setting

abbrev quiet_in_tests : Option String → Setting
quiet_in_tests none = at_level info
quiet_in_tests (some env) = if env == "test" then at_level silent else at_level info

abbrev known_level : String → Option LogLevel → Option String → Setting
known_level name (some level) node_env = at_level level
known_level name none node_env =
    if any (λ s. s == name) inherited then at_inherited name else quiet_in_tests node_env

unfoldable pub resolve_default_level : Option String → Option String → Setting
unfolding get
resolve_default_level none node_env = quiet_in_tests node_env
resolve_default_level (some name) node_env = known_level name (get name level_names) node_env

abbrev below : Option ℕ → Option ℕ → Bool
below none o = false
below (some m) none = true
below (some m) (some n) = ltb m n

-- `LEVEL_WEIGHT[entryLevel] < LEVEL_WEIGHT[level]`; the weight of an inherited name is no number.
unfoldable pub is_muted : LogLevel → Setting → Bool
is_muted entry (at_level level) = below (level_weight entry) (level_weight level)
is_muted entry (at_inherited name) = false

pub data Stream : Type 0 where
  console_log console_warn console_error : Stream

abbrev pub stream_of : LogLevel → Stream
stream_of error = console_error
stream_of warn = console_warn
stream_of _ = console_log

abbrev pub level_name : LogLevel → String
level_name debug = "debug"
level_name info = "info"
level_name warn = "warn"
level_name error = "error"
level_name silent = "silent"

pub record ContextLogger (V : Type 0) : Type 0 where
  pub bindings : Table V
  pub level : Setting

module _ {V : Type 0} where
  -- `{ ...object, ...fields }`
  unfoldable pub spread : Table V → Table V → Table V
  unfolding put
  spread object [] = object
  spread object ((k, v) ∷ fields) = spread (put k v object) fields

module _ {V : Type 0} (of_text : String → V) where
  unfoldable pub line_of : ContextLogger V → LogLevel → String → String → Table V → Table V
  unfolding spread
  line_of logger entry time message meta =
      let head =
        spread (("level", of_text (level_name entry)) ∷ ("time", of_text time) ∷ [])
          logger.bindings in
      spread (put "msg" (of_text message) head) meta

  -- `write`, onto the lines so far
  unfoldable pub write_line :
      ContextLogger V
      → LogLevel
      → String
      → String
      → Table V
      → List (Stream × Table V)
      → List (Stream × Table V)
  unfolding is_muted line_of
  write_line logger entry time message meta lines =
      if is_muted entry logger.level
      then lines
      else lines ++ (stream_of entry, line_of logger entry time message meta) ∷ []

unfoldable pub child : {V : Type 0} → Table V → ContextLogger V → ContextLogger V
unfolding spread
child extra logger = record { bindings = spread logger.bindings extra; level = logger.level }
