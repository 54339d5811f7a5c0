-- ===== src/Logger/Output.antt =====
-- logger/logger.go: what is exported for a call of the logger. A value is the text that it prints as;
-- a Go map is the list of its entries, `none` for nil, and LogFields.Add is a library's and an argument.
pub mod Order
mod Tests
use suite_connector.Prelude.{
  ℕ, Bool, true, false, Option, none, some, List, [], ◌∷◌, ◌++◌, ltb, ◌==◌, if◌then◌else◌,
}
use suite_connector.Prelude.Text.{Text, codes, is_empty}
use suite_connector.Logger.{enabled, error_level, warn_level, info_level, debug_level, trace_level}

abbrev pub Fields : Type 0
Fields = List (Text × Text)

-- `s <= t`, byte by byte.
unfoldable pub text_le : Text → Text → Bool
text_le [] t = true
text_le (a ∷ s) [] = false
text_le (a ∷ s) (b ∷ t) = if ltb a b then true else if a == b then text_le s t else false

-- sort.Strings on the keys, each with its value.
unfoldable pub insert_field : Text × Text → Fields → Fields
insert_field f [] = f ∷ []
insert_field f (g ∷ gs) = if text_le f.0 g.0 then f ∷ g ∷ gs else g ∷ insert_field f gs

unfoldable pub sort_fields : Fields → Fields
unfolding insert_field
sort_fields [] = []
sort_fields (f ∷ fs) = insert_field f (sort_fields fs)

-- strings.ContainsRune for the space
unfoldable pub has_space : Text → Bool
has_space [] = false
has_space (c ∷ s) = if c == b' ' then true else has_space s

unfoldable pub write_pair : Text × Text → Text
unfolding has_space
write_pair (key, value) =
    let quoted = if has_space value then codes "\"" ++ (value ++ codes "\"") else value in
    key ++ (codes "=" ++ quoted)

unfoldable pub write_pairs : Fields → Text
unfolding write_pair
write_pairs [] = []
write_pairs (f ∷ fs) = write_pair f ++ (codes " " ++ write_pairs fs)

pub record Logger : Type 0 where
  pub level : ℕ
  pub fields : Option Fields

-- NewLoggerWithExporter
unfoldable pub new_logger_with_exporter : ℕ → Logger
new_logger_with_exporter level = record { level = level; fields = none }

unfoldable pub is_debug_enabled : Logger → Bool
is_debug_enabled l = enabled l.level debug_level

unfoldable pub is_trace_enabled : Logger → Bool
is_trace_enabled l = enabled l.level trace_level

pub record Exported : Type 0 where
  pub level : ℕ
  pub text : Text

module _ (add : Fields → Fields → Fields) where
  -- The logger's own fields with those of the call.
  unfoldable pub all_fields : Option Fields → Option Fields → Fields
  all_fields none none = []
  all_fields none (some fs) = fs
  all_fields (some own) none = own
  all_fields (some own) (some fs) = add own fs

  unfoldable pub log : Logger → ℕ → Text → Option Fields → Exported
  unfolding all_fields sort_fields write_pairs
  log l level message fields =
      let all = all_fields l.fields fields in
      let text =
        if is_empty all then message else message ++ (codes " " ++ write_pairs (sort_fields all)) in
      record { level = level; text = text }

  -- Info, Debug and Trace, and with no fields Errorf to Tracef.
  unfoldable pub log_at : ℕ → Logger → Text → Option Fields → Option Exported
  unfolding log
  log_at level l message fields =
      if enabled l.level level then some (log l level message fields) else none

  -- Error and Warn, with an error or nil.
  unfoldable pub log_error : ℕ → Logger → Text → Option Text → Option Fields → Option Exported
  unfolding log_at
  log_error level l message none fields = log_at level l message fields
  log_error level l message (some e) fields =
      let given : Fields = elim fields [ none ↦ [] | some fs ↦ fs ] in
      log_at level l message (some (add given ((codes "err", e) ∷ [])))

  -- With
  unfoldable pub with_fields : Fields → Logger → Logger
  with_fields fs l =
      let own : Fields = elim l.fields [ none ↦ [] | some gs ↦ gs ] in
      record { level = l.level; fields = some (add own fs) }
