-- ===== src/Logging/Fields.antt =====
-- What a configuration file holds for an appender, and how its fields are taken out
-- (src/utils/logging/async_log.rs).
use safe_client_libs.Shared.{
  Bool, true, false, String, ◌<>◌, Option, none, some, List, [], ◌∷◌, same_text,
}
use safe_client_libs.External.Protocol.{Result}
use safe_client_libs.External.Logs.{LogTypes, LogApi}

-- `serde_value::Value`, as the value of a field and as a whole, by the variants that the code names.
pub data Value : Type 0 where
  string : String → Value
  boolean : Bool → Value
  other : Value

pub data Config : Type 0 where
  table : List (String × Value) → Config
  no_table : Config

-- What a creator fails with: `ConfigError`, or an error of what it calls.
pub data CreatorError (T : LogTypes) : Type 0 where
  config_error : String → CreatorError T
  outside : T.Fault → CreatorError T

-- `map.remove`
abbrev removed :
    Bool
    → Value
    → String × Value
    → Option Value × List (String × Value)
    → Option Value × List (String × Value)
removed true value field (_, rest) = (some value, rest)
removed false value field (found, rest) = (found, field ∷ rest)

unfoldable pub remove : String → List (String × Value) → Option Value × List (String × Value)
remove key [] = (none, [])
remove key ((name, value) ∷ rest) =
    removed (same_text name key) value (name, value) (remove key rest)

-- A step that may fail, over what lies outside.
abbrev pub Setup : LogTypes → Type 0 → Type 0
Setup T A = T.Net → Result (CreatorError T) A × T.Net

module _ {T : LogTypes} {A B : Type 0} where
  abbrev pub follow :
      Result (CreatorError T) A × T.Net
      → (A → T.Net → Result (CreatorError T) B × T.Net)
      → Result (CreatorError T) B × T.Net
  follow (Result.ok a, net) f = f a net
  follow (Result.err e, net) f = (Result.err e, net)

  infixl 5 ◌>>=◌
  abbrev pub ◌>>=◌ :
      (T.Net → Result (CreatorError T) A × T.Net)
      → (A → T.Net → Result (CreatorError T) B × T.Net)
      → T.Net
      → Result (CreatorError T) B × T.Net
  ◌>>=◌ m f net = follow (m net) f

module _ {T : LogTypes} {A : Type 0} where
  abbrev pub checked : Result (CreatorError T) A → T.Net → Result (CreatorError T) A × T.Net
  checked r net = (r, net)

  abbrev pub done : A → T.Net → Result (CreatorError T) A × T.Net
  done a net = (Result.ok a, net)

  -- `?` on a result of the system.
  abbrev pub from_outside : Result T.Fault A → Result (CreatorError T) A
  from_outside (Result.ok a) = Result.ok a
  from_outside (Result.err e) = Result.err (outside e)

  abbrev pub from_system :
      (T.Net → Result T.Fault A × T.Net) → T.Net → Result (CreatorError T) A × T.Net
  from_system m net = (from_outside (m net).0, (m net).1)

-- The fields of a table: what is required, and what has a default.
module _ {T : LogTypes} where
  abbrev pub required : String → Option Value → Result (CreatorError T) String
  required name (some (Value.string s)) = Result.ok s
  required name (some (Value.boolean _)) =
      Result.err (config_error ("`" <> (name <> "` must be a string")))
  required name (some Value.other) =
      Result.err (config_error ("`" <> (name <> "` must be a string")))
  required name none = Result.err (config_error ("`" <> (name <> "` is required")))

  abbrev pub optional : String → Option Value → Result (CreatorError T) (Option String)
  optional name (some (Value.string s)) = Result.ok (some s)
  optional name (some (Value.boolean _)) =
      Result.err (config_error ("`" <> (name <> "` must be a string")))
  optional name (some Value.other) =
      Result.err (config_error ("`" <> (name <> "` must be a string")))
  optional name none = Result.ok none

  abbrev pub flag : String → Bool → Option Value → Result (CreatorError T) Bool
  flag message otherwise (some (Value.boolean b)) = Result.ok b
  flag message otherwise (some (Value.string _)) = Result.err (config_error message)
  flag message otherwise (some Value.other) = Result.err (config_error message)
  flag message otherwise none = Result.ok otherwise

  abbrev pub as_table : Config → Result (CreatorError T) (List (String × Value))
  as_table (Config.table map) = Result.ok map
  as_table Config.no_table = Result.err (config_error "config must be a map")

module _ {T : LogTypes} (X : LogApi T) where
  abbrev pub pattern_of : Bool → Option Value → Result (CreatorError T) T.Encoder
  pattern_of is_websocket (some (Value.string pattern)) = Result.ok (X.pattern pattern)
  pattern_of is_websocket (some (Value.boolean _)) =
      Result.err (config_error "`pattern` must be a string")
  pattern_of is_websocket (some Value.other) =
      Result.err (config_error "`pattern` must be a string")
  pattern_of true none = Result.ok X.json
  pattern_of false none = Result.ok X.default_pattern

  unfoldable pub parse_pattern : List (String × Value) → Bool → Result (CreatorError T) T.Encoder
  unfolding remove
  parse_pattern map is_websocket = pattern_of is_websocket (remove "pattern" map).0
