-- ===== src/Config/Provisioning/Panics.antt =====
-- When the parser of the provisioning file panics: at a password that it reads and that is no text.
use suite_connector.Prelude.{
  ◌≡◌, ◌↔◌, ◌⊎◌, refl, ap, sym, subst, ◌∙◌, true, Bool-cases, inl, inr, Option, Option-cases, none,
  some, List, [], ◌∷◌, ◌++◌, All, arith,
}
use suite_connector.Prelude.Text.{Text, codes, text_eq}
use suite_connector.Prelude.Outcome.{Outcome, ok, panic, ◌>>=◌}
use suite_connector.Config.Settings.{HubConnectionSettings}
use suite_connector.Config.Provisioning.{
  Json, or_else, read_secret, read_password, parse_provisioning_json,
}
use suite_connector.Config.Provisioning.Fills.{offered, not_both}

head_eq : {A : Type 0} {x y : A} {xs ys : List A} → Path (List A) (x ∷ xs) (y ∷ ys) → y ≡ x
head_eq e = cc e

module _ (json : Json) where
  open json use {Container, parse_json, search, children, children_map, text_of, decode_base64}

  -- The entries of the secrets, in the order of the file.
  abbrev pub entries : List Container → List (Text × Container)
  entries [] = []
  entries (c ∷ cs) = children_map c ++ entries cs

  -- An entry under `passwordBase64` that is no text.
  abbrev pub IsMistyped : Text × Container → Type 0
  IsMistyped (key, value) = (text_eq key (codes "passwordBase64") ≡ true) × (text_of value ≡ none)

  -- An entry that is read without a panic and offers no password.
  abbrev pub IsPassed : Text × Container → Type 0
  IsPassed e = (¬ IsMistyped e) × (offered json e ≡ none)

  -- A mistyped entry, with none before it that offers a password.
  abbrev pub MeetsMistyped : List (Text × Container) → Type 0
  MeetsMistyped es =
      (before after : List (Text × Container)) × (e : Text × Container) × (es ≡ before ++ e ∷ after)
      × All IsPassed before
      × IsMistyped e

  read_secret-passed :
      (e : Text × Container) (es : List (Text × Container))
      → IsPassed e
      → read_secret json (e ∷ es) ≡ read_secret json es
  unfolding read_secret
  read_secret-passed (key, value) es h = ground (arith, h.0, h.1, not_both json key)

  read_secret-mistyped :
      (e : Text × Container) (es : List (Text × Container))
      → IsMistyped e
      → read_secret json (e ∷ es) ≡ panic
  unfolding read_secret
  read_secret-mistyped (key, value) es h = ground (arith, h)

  read_secret-offered :
      (e : Text × Container) (es : List (Text × Container)) (t : Text)
      → offered json e ≡ some t
      → read_secret json (e ∷ es) ≡ ok (some t)
  unfolding read_secret
  read_secret-offered (key, value) es t h = ground (arith, h, not_both json key)

  offered_typed : (e : Text × Container) (t : Text) → offered json e ≡ some t → ¬ IsMistyped e
  offered_typed (key, value) t given m = ground (arith, given, m)

  entry_cases :
      (e : Text × Container)
      → IsMistyped e ⊎ (IsPassed e ⊎ ((t : Text) × (offered json e ≡ some t)))
  entry_cases (key, value) = elim (Option-cases (offered json (key, value))) [
    | inr given ↦ inr (inr given)
    | inl nothing ↦ elim (Bool-cases (text_eq key (codes "passwordBase64"))) [
      | inr other ↦ inr (inl ((λ m. ground (arith, other, m)), nothing))
      | inl coded ↦ elim (Option-cases (text_of value)) [
        | inl untyped ↦ inl (coded, untyped)
        | inr (t, typed) ↦ inr (inl ((λ m. ground (arith, typed, m)), nothing))
      ]
    ]
  ]

  tail_meets :
      (e : Text × Container) (es : List (Text × Container))
      → IsPassed e
      → MeetsMistyped (e ∷ es)
      → MeetsMistyped es
  tail_meets e es passed ([], after, x, split, all, bad) =
      absurd (passed.0 (subst IsMistyped (head_eq split) bad))
  tail_meets e es passed (b ∷ bs, after, x, split, all, bad) = (bs, after, x, cc split, all.1, bad)

  head_meets :
      (e : Text × Container) (es : List (Text × Container))
      → MeetsMistyped (e ∷ es)
      → IsMistyped e ⊎ (offered json e ≡ none)
  head_meets e es ([], after, x, split, all, bad) = inl (subst IsMistyped (head_eq split) bad)
  head_meets e es (b ∷ bs, after, x, split, all, bad) =
      inr (ap (offered json) (sym (head_eq split)) ∙ all.0.1)

  no_meeting : ¬ MeetsMistyped []
  no_meeting ([], after, x, split, all, bad) = cc split
  no_meeting (b ∷ bs, after, x, split, all, bad) = cc split

  secret_panics : (es : List (Text × Container)) → (read_secret json es ≡ panic) ↔ MeetsMistyped es
  secret_panics [] =
      ((λ h. absurd (unfold read_secret in ground (arith, h))), (λ m. absurd (no_meeting m)))
  secret_panics (e ∷ es) = elim (entry_cases e) [
    | inl bad ↦ ((λ h. ([], es, e, refl, tt, bad)), (λ m. read_secret-mistyped e es bad))
    | inr (inl passed) ↦
        let same = read_secret-passed e es passed in
        (
          (λ h.
              let (before, after, x, split, all, bad) = (secret_panics es).0 (sym same ∙ h) in
              (e ∷ before, after, x, ap (λ xs. e ∷ xs) split, (passed, all), bad)),
          (λ m. same ∙ (secret_panics es).1 (tail_meets e es passed m)),
        )
    | inr (inr (t, given)) ↦ (
      (λ h. absurd (ground (arith, h, read_secret-offered e es t given))),
      (λ m. elim (head_meets e es m) [
        | inl bad ↦ absurd (offered_typed e t given bad)
        | inr nothing ↦ absurd (ground (arith, given, nothing))
      ]),
    )
  ]

  abbrev or_read : List (Text × Container) → Option Text → Outcome (Option Text)
  or_read fs none = read_secret json fs
  or_read fs (some p) = ok (some p)

  -- The entries of one secret, and then those of the next.
  read_secret-append :
      (es fs : List (Text × Container))
      → read_secret json (es ++ fs) ≡ (read_secret json es >>= or_read fs)
  read_secret-append [] fs = unfold read_secret in refl
  read_secret-append (e ∷ es) fs =
      let after : Outcome (Option Text) → Outcome (Option Text) = λ o. o >>= or_read fs in
      elim (entry_cases e) [
        | inl bad ↦
            read_secret-mistyped e (es ++ fs) bad ∙ sym (ap after (read_secret-mistyped e es bad))
        | inr (inl passed) ↦
            read_secret-passed e (es ++ fs) passed
            ∙ (read_secret-append es fs ∙ sym (ap after (read_secret-passed e es passed)))
        | inr (inr (t, given)) ↦
            read_secret-offered e (es ++ fs) t given
            ∙ sym (ap after (read_secret-offered e es t given))
      ]

  abbrev kept_password : Text → Option Text → Outcome Text
  kept_password field o = ok (or_else o field)

  -- The secrets are read as one list of entries.
  read_password-entries :
      (cs : List Container) (field : Text)
      → read_password json cs field ≡ (read_secret json (entries cs) >>= kept_password field)
  unfolding read_password
  read_password-entries [] field = unfold read_secret in refl
  read_password-entries (c ∷ cs) field =
      ground
        (arith, read_secret-append (children_map c) (entries cs), read_password-entries cs field)

  parsed_panics :
      (text : Text) (c : HubConnectionSettings) (j : Container)
      → parse_json text ≡ some j
      → (parse_provisioning_json json text c ≡ panic) ↔ (
          read_secret json (entries (children (search j (codes "hub.credentials.secrets"))))
          ≡ panic)
  unfolding parse_provisioning_json
  parsed_panics text c j parsed =
      let secrets = children (search j (codes "hub.credentials.secrets")) in
      let reading = read_password-entries secrets c.password in ground (arith, parsed, reading)

  -- The parser panics on a readable file exactly if a secret has an entry under `passwordBase64` whose
  -- value is no text, and no entry of a secret before it offers a password.
  pub parse_provisioning-panic :
      (text : Text) (c : HubConnectionSettings) (j : Container)
      → parse_json text ≡ some j
      → (parse_provisioning_json json text c ≡ panic)
        ↔ MeetsMistyped (entries (children (search j (codes "hub.credentials.secrets"))))
  parse_provisioning-panic text c j parsed =
      let secrets = children (search j (codes "hub.credentials.secrets")) in
      let fails = parsed_panics text c j parsed in
      let panics = secret_panics (entries secrets) in
      ((λ h. panics.0 (fails.0 h)), (λ m. fails.1 (panics.1 m)))
