-- ===== src/App/Main/Tests.antt =====
-- A merge that takes one field, and that as mergo.Map merges it, and the properties of the process with it.
use suite_connector.Prelude.{
  subst, ◌≡◌, ◌≢◌, ◌↔◌, ◌⊎◌, refl, sym, ap, ◌∙◌, All, false, inl, inr, Bool, true, Option,
  Bool-cases, none, some, List, [], ◌∷◌, arith,
}
use suite_connector.Prelude.Text.{replace_from, Text, codes, text_eq, text_eq_iff}
use suite_connector.Prelude.Dict.{lookup, insert}
use suite_connector.Logger.{upper}
use suite_connector.Logger as Logger
use suite_connector.Config.Settings.{validate_static, is_connection_secure}
use suite_connector.Flags.{
  Value, text, copy_from, copy_name, add, add_log, add_hub, add_tls, add_local_broker,
}
use suite_connector.Flags.Names.{upper_first, known}
use suite_connector.App.Main.Fields.{fields_of, field}
use suite_connector.Flags.Precedence.{Merges}
use suite_connector.Config.Files.{
  Settings, default_settings, read_config, validate_static_settings, validate_local,
}
use suite_connector.App.Main.{
  parsed, Ran, settings_of_file, config_file, start, main_run, exit_code,
}
use suite_connector.App.Main.Settled.{IsSettled, runs_well, main_run_settles, main_run_exits}

abbrev tenant_field : Text
tenant_field = codes "TenantID"

abbrev with_tenant : Text → Settings → Settings
with_tenant t s = record s { hub = record (s.hub) { tenant_id = t } }

abbrev as_text : Value → Option Text
as_text (text t) = some t
as_text _ = none

-- Only a tenant is merged; whatever else is refused.
abbrev merge_tenant : Bool → Option Text → Settings → Option Settings
merge_tenant true (some t) s = some (with_tenant t s)
merge_tenant _ _ s = none

abbrev merge : List (Text × Value) → Settings → Option Settings
merge [] s = some s
merge ((k, v) ∷ []) s = merge_tenant (text_eq (upper_first k) tenant_field) (as_text v) s
merge (_ ∷ _ ∷ _) s = none

-- What a merge of one entry does.
merged_one :
    (is_tenant : Bool) (v : Value) (s s' : Settings)
    → merge_tenant is_tenant (as_text v) s ≡ some s'
    → (is_tenant ≡ true) × (t : Text) × (v ≡ text t) × (with_tenant t s ≡ s')
merged_one true (text t) s s' merged = (refl, t, refl, ground (arith, merged))
merged_one false v s s' merged = absurd (ground (arith, merged))
merged_one true v s s' merged = absurd (ground (arith, merged))

field_tenant : (t : Text) (s : Settings) → field (with_tenant t s) tenant_field ≡ some (text t)
unfolding fields_of lookup text_eq
field_tenant t s = refl

field_other :
    (t name : Text) (s : Settings)
    → text_eq tenant_field name ≡ false
    → field (with_tenant t s) name ≡ field s name
unfolding fields_of lookup
field_other t name s other = rw other refl

sets_one :
    (m : List (Text × Value)) (s s' : Settings) (k : Text) (v : Value)
    → merge m s ≡ some s'
    → lookup k m ≡ some v
    → field s' (upper_first k) ≡ some v
unfolding lookup
sets_one [] s s' k v merged found = absurd (ground (arith, found))
sets_one (e ∷ e' ∷ m) s s' k v merged found = absurd (ground (arith, merged))
sets_one ((j, w) ∷ []) s s' k v merged found =
    let (is_tenant, t, w_t, same) =
      merged_one (text_eq (upper_first j) tenant_field) w s s' merged in
    let j_k : j ≡ k = (text_eq_iff j k).0 (ground (arith, found)) in
    let w_v : w ≡ v = ground (arith, found) in
    let named = (text_eq_iff (upper_first j) tenant_field).0 is_tenant in
    let k_tenant : tenant_field ≡ upper_first k = sym named ∙ ap upper_first j_k in
    let set : field s' tenant_field ≡ some (text t) =
      subst (λ x. field x tenant_field ≡ some (text t)) same (field_tenant t s) in
    subst (λ x. field s' x ≡ some v) k_tenant (set ∙ ap (λ x. some x) (sym w_t ∙ w_v))

keeps_one :
    (m : List (Text × Value)) (s s' : Settings) (name : Text)
    → merge m s ≡ some s'
    → ((j : Text) (w : Value) → lookup j m ≡ some w → upper_first j ≢ name)
    → field s' name ≡ field s name
unfolding lookup
keeps_one [] s s' name merged other =
    let same : s ≡ s' = ground (arith, merged) in subst (λ x. field x name ≡ field s name) same refl
keeps_one (e ∷ e' ∷ m) s s' name merged other = absurd (ground (arith, merged))
keeps_one ((j, w) ∷ []) s s' name merged other =
    let (is_tenant, t, w_t, same) =
      merged_one (text_eq (upper_first j) tenant_field) w s s' merged in
    let named = (text_eq_iff (upper_first j) tenant_field).0 is_tenant in
    let set : lookup j ((j, w) ∷ []) ≡ some w = ground (arith, text_eq_iff j j) in
    let different : text_eq tenant_field name ≡ false =
      elim (Bool-cases (text_eq tenant_field name)) [
        | inl equal ↦ absurd (other j w set (named ∙ (text_eq_iff tenant_field name).0 equal))
        | inr unequal ↦ unequal
      ] in
    subst (λ x. field x name ≡ field s name) same (field_other t name s different)

merge-Merges : Merges field merge
merge-Merges = record {
  sets = λ m s s' k v merged found own is_field. sets_one m s s' k v merged found;
  keeps = keeps_one;
}

abbrev visited : List (Text × Value)
visited = (codes "tenantId", text (codes "t")) ∷ []

abbrev settled : Settings
settled = record default_settings { hub = record (default_settings.hub) { tenant_id = codes "t" } }

abbrev ran : Ran
ran = record { started = some settled; log_opened = true; log_closed = true; fault = none }

-- The configuration file is empty, and the CA of the defaults exists.
abbrev file_exists : Text → Bool
file_exists path = true

abbrev read_file : Text → Option Text
read_file path = some []

abbrev decode : Text → Settings → Option Settings
decode content s = none

abbrev scheme : Text → Option Text
scheme address = some (codes "mqtts")

abbrev app : Settings → List (Text × Value) → Bool
app s cli = true

made : main_run file_exists read_file decode scheme merge app (parsed visited) ≡ some ran
unfolding main_run start settings_of_file config_file read_config lookup copy_from copy_name insert
    replace_from validate_static_settings validate_local validate_static is_connection_secure
    Logger.validate text_eq upper
made = refl

main_run_settles_example :
    (validate_static_settings file_exists scheme settled ≡ none)
    × All (IsSettled visited default_settings settled) add
unfolding lookup known add add_log add_hub add_tls add_local_broker text_eq settings_of_file
    config_file read_config
main_run_settles_example =
    main_run_settles file_exists read_file decode scheme merge app merge-Merges visited ran
      default_settings settled (refl, tt) (refl, tt) made refl refl

main_run_exits_run :
    ((exit_code (some ran) ≡ 0)
      ↔ (runs_well file_exists read_file decode scheme merge app visited ran.started ≡ true))
    × ((exit_code (some ran) ≡ 0) ⊎ (exit_code (some ran) ≡ 1))
    × ((ran.log_opened ≡ true) ↔ (ran.started ≢ none))
    × (ran.log_opened ≡ ran.log_closed)
main_run_exits_run = main_run_exits file_exists read_file decode scheme merge app visited ran made
