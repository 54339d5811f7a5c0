-- ===== src/App/Main/Settled.antt =====
-- The settings that the application starts with.
use suite_connector.Prelude.{
  ◌≡◌, ◌≢◌, ◌⊎◌, ◌↔◌, inl, inr, Bool, true, false, Option, Sum-cases, subst, sym, none, some, List,
  [], ◌∷◌, All, arith,
}
use suite_connector.Prelude.Text.{Text}
use suite_connector.Prelude.Dict.{lookup, IsMap}
use suite_connector.Flags.{Value, Flag, add, copy}
use suite_connector.Flags.Names.{key}
use suite_connector.Flags.Precedence.{AllKnown, or_else, Merges, merge-copy}
use suite_connector.Config.Files.{Settings, validate_static_settings}
use suite_connector.App.Main.Fields.{field, IsReady, add-IsReady}
use suite_connector.App.Main.{
  Parsed, refused, parsed, Ran, settings_of_file, start, main_run, exit_code,
}

All-map {ℓ κ μ} :
    {A : Type ℓ} {P : A → Type κ} {Q : A → Type μ}
    → ((x : A) → P x → Q x)
    → (xs : List A) → All P xs
    → All Q xs
All-map f [] h = tt
All-map f (x ∷ xs) h = (f x h.0, All-map f xs h.1)

-- The field that a flag is for has the flag's value if the flag is set, and else that of before.
abbrev pub IsSettled : List (Text × Value) → Settings → Settings → Flag → Type 0
IsSettled visited s s' f = field s' f.field ≡ or_else (lookup f.name visited) (field s f.field)

module _ (file_exists : Text → Bool) (read_file : Text → Option Text)
    (decode : Text → Settings → Option Settings) (scheme : Text → Option Text)
    (merge : List (Text × Value) → Settings → Option Settings)
    (app : Settings → List (Text × Value) → Bool) where
  abbrev ran : Parsed → Option Ran
  ran = main_run file_exists read_file decode scheme merge app

  -- A run that starts has read the file, merged the flags and found the settings valid.
  started_lem :
      (visited : List (Text × Value)) (r : Ran) (s' : Settings)
      → ran (parsed visited) ≡ some r
      → r.started ≡ some s'
      → (s : Settings) × (settings_of_file file_exists read_file decode visited ≡ inr s)
        × (merge (copy visited) s ≡ some s')
        × (validate_static_settings file_exists scheme s' ≡ none)
  unfolding main_run start
  started_lem visited r s' made given =
      elim (Sum-cases (settings_of_file file_exists read_file decode visited)) [
        | inl (fault, unread) ↦ absurd (ground (arith, made, given, unread))
        | inr (s, filled) ↦
            (s, filled, ground (arith, made, given, filled), ground (arith, made, given, filled))
      ]

  module _ (merges : Merges field merge) (visited : List (Text × Value)) (r : Ran)
      (s s' : Settings) where
    IsSettled-flag :
        IsMap visited
        → AllKnown visited
        → merge (copy visited) s ≡ some s'
        → (f : Flag) → IsReady s f
        → IsSettled visited s s' f
    IsSettled-flag once all_known merged f (is_flag, named, has) =
        let is_field : field s (key f.name) ≢ none =
          subst (λ x. field s x ≢ none) (sym named) has in
        let settled =
          merge-copy field merge merges visited f.name once all_known is_flag s s' merged
            is_field in
        subst (λ x. field s' x ≡ or_else (lookup f.name visited) (field s x)) named settled

    -- For known flags, each set once, and over a merge as mergo.Map's: if run starts the application,
    -- then with valid settings, in which the field of each flag that Add registers has the flag's value
    -- if the flag is set, and else that of the file or of the defaults.
    pub main_run_settles :
        IsMap visited
        → AllKnown visited
        → ran (parsed visited) ≡ some r
        → r.started ≡ some s'
        → settings_of_file file_exists read_file decode visited ≡ inr s
        → (validate_static_settings file_exists scheme s' ≡ none) × All (IsSettled visited s s') add
    main_run_settles once all_known made given filled =
        let (t, filled_t, merged, valid) = started_lem visited r s' made given in
        let same : t ≡ s = ground (arith, filled, filled_t) in
        let merged_s : merge (copy visited) s ≡ some s' =
          subst (λ x. merge (copy visited) x ≡ some s') same merged in
        (valid, All-map (IsSettled-flag once all_known merged_s) add (add-IsReady s))

  -- The application is started with the settings, and does not fail.
  abbrev pub runs_well : List (Text × Value) → Option Settings → Bool
  runs_well visited none = false
  runs_well visited (some s) = app s (copy visited)

  -- The process ends with the code 2 exactly if the command line is refused.
  pub main_run_refused : (p : Parsed) → (exit_code (ran p) ≡ 2) ↔ (p ≡ refused)
  unfolding main_run start exit_code
  main_run_refused p = ground arith

  -- A process whose command line is accepted ends with the code 0 exactly if the application is started
  -- and does not fail, and else with 1; the output of the log is opened exactly if the application is
  -- started, and is closed if it is opened.
  pub main_run_exits :
      (visited : List (Text × Value)) (r : Ran)
      → ran (parsed visited) ≡ some r
      → ((exit_code (some r) ≡ 0) ↔ (runs_well visited r.started ≡ true))
        × ((exit_code (some r) ≡ 0) ⊎ (exit_code (some r) ≡ 1))
        × ((r.log_opened ≡ true) ↔ (r.started ≢ none))
        × (r.log_opened ≡ r.log_closed)
  unfolding main_run start exit_code
  main_run_exits visited r made = ground (arith, made)
