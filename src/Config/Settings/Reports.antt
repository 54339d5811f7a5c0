-- ===== src/Config/Settings/Reports.antt =====
-- ApplySettings gives only valid settings, and reports once what went wrong.
use suite_connector.Prelude.{
  ◌≡◌, ◌⊎◌, refl, Bool, true, false, Option, none, [], ◌∷◌, inl, inr, Option-cases, if◌then◌else◌,
}
use suite_connector.Prelude.Text.{Text}
use suite_connector.Routing.Status.{
  Cause, provisioning_error, provisioning_missing, provisioning_update,
}
use suite_connector.Config.Settings.{
  HubConnectionSettings, validate, ApplyFault, invalid, unreadable, unmerged, Applied,
  check_dynamic, apply_settings,
}

-- One report for a failure, of the cause given; on success valid settings, and a report exactly if a
-- clean session was asked for.
abbrev pub IsReported : (Text → Bool) → Cause → Bool → Applied → Type 0
IsReported is_namespaced cause clean_session a =
    ((fault : ApplyFault) × (a.result ≡ inl fault) × (a.causes ≡ cause ∷ []))
    ⊎ ((c : HubConnectionSettings) × (a.result ≡ inr c)
        × (validate is_namespaced c ≡ none)
        × (a.causes ≡ (if clean_session then provisioning_update ∷ [] else [])))

check_dynamic-IsReported :
    (is_namespaced : Text → Bool) (cause : Cause) (clean_session : Bool) (c : HubConnectionSettings)
    → IsReported is_namespaced cause clean_session
        (check_dynamic is_namespaced cause clean_session c)
check_dynamic-IsReported is_namespaced cause clean_session c =
    elim (Option-cases (validate is_namespaced c)) [
      | inl fine ↦ rw (fine, check_dynamic) (inr (c, refl, fine, refl))
      | inr (fault, e) ↦ rw (e, check_dynamic) (inl (invalid fault, refl, refl))
    ]

-- A failure to apply the settings is reported once, as missing provisioning if there is no file and
-- as a provisioning error if there is one; settings that are applied are valid, and are reported as an
-- update exactly if a clean session was asked for.
pub apply_settings-IsReported :
    (is_namespaced : Text → Bool)
    (read merge : HubConnectionSettings → Option HubConnectionSettings)
    (file_exists clean_session : Bool) (c : HubConnectionSettings)
    → IsReported is_namespaced
        (if file_exists then provisioning_error else provisioning_missing)
        clean_session
        (apply_settings is_namespaced read merge file_exists clean_session c)
unfolding apply_settings
apply_settings-IsReported is_namespaced read merge false clean_session c =
    check_dynamic-IsReported is_namespaced provisioning_missing clean_session c
apply_settings-IsReported is_namespaced read merge true clean_session c =
    elim (Option-cases (read c)) [
      | inl failed ↦ rw (failed, apply_settings) (inl (unreadable, refl, refl))
      | inr (c', e) ↦ elim (Option-cases (merge c')) [
        | inl failed ↦ rw (e, apply_settings, failed) (inl (unmerged, refl, refl))
        | inr (c'', f) ↦
            rw (e, apply_settings, f)
              (check_dynamic-IsReported is_namespaced provisioning_error clean_session c'')
      ]
    ]
