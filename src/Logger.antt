-- ===== src/Logger.antt =====
-- logger/level.go and logger/config.go: the log levels, their texts, and the check of the settings.
pub mod Output
pub mod Setup
use suite_connector.Prelude.{
  ℕ, ◌-◌, ◌≡◌, Bool, ◌&&◌, Option, none, some, map, arith, leb, ◌==◌, if◌then◌else◌,
}
use suite_connector.Prelude.Int.{ℤ, pos, leb_ℤ, ltb_ℤ}
use suite_connector.Prelude.Text.{Text, codes, text_eq}

-- A LogLevel is an int; ERROR is 1 and TRACE is 5.
abbrev pub error_level : ℕ
error_level = 1

abbrev pub warn_level : ℕ
warn_level = 2

abbrev pub info_level : ℕ
info_level = 3

abbrev pub debug_level : ℕ
debug_level = 4

abbrev pub trace_level : ℕ
trace_level = 5

-- strings.ToUpper on ASCII
unfoldable pub upper : ℕ → ℕ
upper c = if leb b'a' c && leb c b'z' then c - 32 else c

abbrev pub to_upper : Text → Text
to_upper = map upper

unfoldable pub enabled : ℕ → ℕ → Bool
enabled l level = leb level l

-- LogLevel.String, `level` being the number.
unfoldable pub level_string : ℕ → Text
level_string level =
    if level == warn_level
    then codes "WARN"
    else if level == info_level
    then codes "INFO"
    else if level == debug_level
    then codes "DEBUG"
    else if level == trace_level
    then codes "TRACE"
    else codes "ERROR"

unfoldable pub parse_log_level : Text → ℕ
unfolding upper text_eq
parse_log_level text =
    let t = to_upper text in
    if text_eq t (codes "WARN")
    then warn_level
    else if text_eq t (codes "INFO")
    then info_level
    else if text_eq t (codes "DEBUG")
    then debug_level
    else if text_eq t (codes "TRACE")
    then trace_level
    else error_level

pub record LogSettings : Type 0 where
  pub log_file_size : ℤ
  pub log_file_count : ℤ
  pub log_file_max_age : ℤ

pub data LogFault : Type 0 where
  file_size file_count file_max_age : LogFault

-- LogSettings.Validate
unfoldable pub validate : LogSettings → Option LogFault
validate c =
    if leb_ℤ c.log_file_size (pos 0)
    then some file_size
    else if leb_ℤ c.log_file_count (pos 0)
    then some file_count
    else if ltb_ℤ c.log_file_max_age (pos 0)
    then some file_max_age
    else none

-- The text of a level is read back as that level; a number that is no level reads as the lowest.
pub parse-level_string :
    (level : ℕ)
    → parse_log_level (level_string level)
      ≡ (if leb error_level level && leb level trace_level then level else error_level)
unfolding parse_log_level level_string
parse-level_string level = ground arith
