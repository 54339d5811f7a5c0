-- ===== src/App/Main.antt =====
-- cmd/connector/main.go: run and main. What the command line holds is given, as package flag parses it;
-- the file system, the parsers of JSON and of addresses, the merge, which is a library's, and app.Run are
-- arguments.
pub mod Fields
pub mod Settled
mod Tests
use suite_connector.Prelude.{
  ℕ, ◌⊎◌, inl, inr, Bool, true, false, Option, none, some, List, [], ◌∷◌, if◌then◌else◌,
}
use suite_connector.Prelude.Text.{Text, codes}
use suite_connector.Prelude.Dict.{lookup}
use suite_connector.Flags.{Value, text, copy}
use suite_connector.Config.Files.{
  Settings, default_settings, FileFault, StaticFault, read_config, validate_static_settings,
}

-- What Parse gives: help was asked for, the line is refused, the version was printed, which ends the
-- process, or the flags that are set.
pub data Parsed : Type 0 where
  helped refused versioned : Parsed
  parsed : List (Text × Value) → Parsed

pub data MainFault : Type 0 where
  help parse_failed merge_failed app_failed : MainFault
  config_failed : FileFault → MainFault
  invalid : StaticFault → MainFault

-- The settings that app.Run is called with, whether the output of the log is opened and closed, and how
-- run ends.
pub record Ran : Type 0 where
  pub started : Option Settings
  pub log_opened : Bool
  pub log_closed : Bool
  pub fault : Option MainFault

abbrev pub fails : MainFault → Ran
fails f = record { started = none; log_opened = false; log_closed = false; fault = some f }

-- The value of -configFile, which is empty by default.
unfoldable pub config_file : List (Text × Value) → Text
config_file visited = elim (lookup (codes "configFile") visited) [
  | some (text path) ↦ path
  | _ ↦ []
]

module _ (file_exists : Text → Bool) (read_file : Text → Option Text)
    (decode : Text → Settings → Option Settings) where
  -- The defaults, with what the file says.
  unfoldable pub settings_of_file : List (Text × Value) → FileFault ⊎ Settings
  settings_of_file visited =
      read_config file_exists read_file decode true (config_file visited) default_settings

module _ (file_exists : Text → Bool) (read_file : Text → Option Text)
    (decode : Text → Settings → Option Settings) (scheme : Text → Option Text)
    (merge : List (Text × Value) → Settings → Option Settings)
    (app : Settings → List (Text × Value) → Bool) where
  -- app.Run, between the set-up of the log and its end.
  unfoldable pub start : List (Text × Value) → Settings → Ran
  start cli s = record {
    started = some s;
    log_opened = true;
    log_closed = true;
    fault = if app s cli then none else some app_failed;
  }

  -- run, behind Parse; `none` where the process has ended.
  unfoldable pub main_run : Parsed → Option Ran
  unfolding start
  main_run helped = some (fails help)
  main_run refused = some (fails parse_failed)
  main_run versioned = none
  main_run (parsed visited) = some (elim (settings_of_file file_exists read_file decode visited) [
    | inl fault ↦ fails (config_failed fault)
    | inr s ↦ elim (merge (copy visited) s) [
      | none ↦ fails merge_failed
      | some s' ↦ elim (validate_static_settings file_exists scheme s') [
        | some fault ↦ fails (invalid fault)
        | none ↦ start (copy visited) s'
      ]
    ]
  ])

-- main: the exit code of the process.
unfoldable pub exit_code : Option Ran → ℕ
exit_code none = 0
exit_code (some r) = elim r.fault [ none ↦ 0 | some help ↦ 0 | some parse_failed ↦ 2 | some _ ↦ 1 ]
