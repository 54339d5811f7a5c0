-- ===== src/Logger/Setup.antt =====
-- logger/config.go and logger/level.go: the set-up of the loggers, and the other texts of a level. The
-- output, which is a library's, and the JSON texts are given.
use suite_connector.Prelude.{
  ℕ, zero, suc, ◌+◌, ◌-◌, ◌≤◌, ◌≡◌, refl, ◌&&◌, Option, none, some, [], ◌∷◌, ◌++◌, length,
  length-append, leb, ◌==◌, arith, if◌then◌else◌,
}
use suite_connector.Prelude.Text.{Text, codes, is_empty}
use suite_connector.Logger.{
  error_level, warn_level, info_level, debug_level, trace_level, level_string, parse_log_level,
  parse-level_string, LogSettings,
}

-- LogLevel.StringAligned
unfoldable pub level_string_aligned : ℕ → Text
level_string_aligned level =
    if level == warn_level
    then codes "WARN  "
    else if level == info_level
    then codes "INFO  "
    else if level == debug_level
    then codes "DEBUG "
    else if level == trace_level
    then codes "TRACE "
    else codes "ERROR "

-- What a JSON text holds: a text, another value, or it is no JSON.
pub data JsonValue : Type 0 where
  json_text : Text → JsonValue
  json_other not_json : JsonValue

module _ (encode : Text → Text) (decode : Text → JsonValue) where
  unfoldable pub marshal_level : ℕ → Text
  marshal_level level = encode (level_string level)

  unfoldable pub unmarshal_level : Text → Option ℕ
  unmarshal_level b = elim (decode b) [
    | json_text value ↦ some (parse_log_level value)
    | json_other ↦ none
    | not_json ↦ none
  ]

  -- With a JSON library that reads back the texts that it writes, a level is read back from its JSON
  -- text; a number that is no level reads as the lowest.
  pub unmarshal-marshal_level :
      ((t : Text) → decode (encode t) ≡ json_text t)
      → (level : ℕ)
      → unmarshal_level (marshal_level level)
        ≡ some (if leb error_level level && leb level trace_level then level else error_level)
  unfolding marshal_level unmarshal_level
  unmarshal-marshal_level back level =
      rw (unmarshal_level, back (level_string level), parse-level_string level) refl

-- The loggers of the MQTT client, by their levels; none where the client's own stays.
pub record MqttLoggers : Type 0 where
  pub error : ℕ
  pub critical : ℕ
  pub warn : Option ℕ
  pub debug : Option ℕ

unfoldable pub config_mqtt : ℕ → MqttLoggers
config_mqtt level = record {
  error = error_level;
  critical = error_level;
  warn = if leb warn_level level then some warn_level else none;
  debug = if leb debug_level level then some debug_level else none;
}

-- Where the log goes: to the standard error output, or to a file with its size in megabytes, its number
-- of rotations and their age.
pub data LogOut : Type 0 where
  stderr : LogOut
  rotated : Text → LogSettings → LogOut

unfoldable pub new_logger_out : Text → LogSettings → LogOut
new_logger_out log_file settings = if is_empty log_file then stderr else rotated log_file settings

abbrev pub blanks : ℕ → Text
blanks zero = []
blanks (suc n) = b' ' ∷ blanks n

-- The prefix of a logger: a blank and the name in brackets, filled up to four more than the width.
unfoldable pub create : Text → ℕ → Text
create prefix width =
    let name = codes "[" ++ (prefix ++ codes "]") in
    codes " " ++ (name ++ blanks (width + 4 - length name))

pub record LoggerSetup : Type 0 where
  pub out : LogOut
  pub paho : Option (Text × MqttLoggers)
  pub prefix : Text
  pub level : ℕ

-- Setup, over MQTT_LOG_LEVEL
unfoldable pub setup : Text → Text → Text → ℕ → LogSettings → LoggerSetup
unfolding new_logger_out create config_mqtt
setup mqtt_log_level name log_file level settings = record {
  out = new_logger_out log_file settings;
  paho =
      if is_empty mqtt_log_level
      then none
      else some (create (codes "paho") (length name), config_mqtt (parse_log_level mqtt_log_level));
  prefix = create name (length name);
  level = level;
}

length-blanks : (n : ℕ) → length (blanks n) ≡ n
length-blanks zero = refl
length-blanks (suc n) = omega (arith, length-blanks n)

-- A prefix that fits is as long as the width, and five more.
pub length-create :
    (prefix : Text) (width : ℕ)
    → length prefix ≤ width + 2
    → length (create prefix width) ≡ width + 5
unfolding create
length-create prefix width fits =
    let name = codes "[" ++ (prefix ++ codes "]") in
    omega (
      arith,
      fits,
      length-append prefix (codes "]"),
      length-append name (blanks (width + 4 - length name)),
      length-blanks (width + 4 - length name),
    )
