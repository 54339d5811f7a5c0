-- ===== src/Config/Provisioning/Tests.antt =====
-- A small file, and the properties at concrete inputs.
use suite_connector.Prelude.{
  ℕ, ◌≡◌, ◌↔◌, refl, true, false, Option, none, some, inr, [], ◌∷◌, ◌==◌, if◌then◌else◌,
}
use suite_connector.Prelude.Text.{Text, codes, text_eq}
use suite_connector.Prelude.Outcome.{ok, panic}
use suite_connector.Config.Settings.{HubConnectionSettings}
use suite_connector.Config.Provisioning.{
  Json, parse_provisioning_json, read_value, read_address, read_secret, read_password, has_element,
  get_string,
}
use suite_connector.Config.Provisioning.Fills.{IsFilled, parse_provisioning_fills}
use suite_connector.Config.Provisioning.Panics.{MeetsMistyped, entries, parse_provisioning-panic}

-- Containers by number: the file, its secrets, the one secret, and the value in it, which is a text
-- or not.
abbrev file_with : Option Text → Json
file_with secret = record {
  Container = ℕ;
  parse_json = λ t. some 0;
  search = λ c path. if text_eq path (codes "hub.credentials.secrets") then 1 else 9;
  children = λ c. if c == 1 then 2 ∷ [] else [];
  children_map = λ c. if c == 2 then (codes "passwordBase64", 3) ∷ [] else [];
  text_of = λ c. if c == 3 then secret else none;
  number_of = λ c. none;
  decode_base64 = λ t. some (codes "pass");
}

abbrev before : HubConnectionSettings
before = record {
  device_id = codes "ns:gw";
  device_id_pattern = [];
  tenant_id = codes "tenant";
  policy_id = [];
  address = codes "mqtts://hub:8883";
  password = [];
  username = [];
  client_id = [];
  auth_id = [];
  generic = false;
  use_certificate = true;
  auto_provisioning_enabled = true;
  ca_cert = codes "ca";
  cert = [];
  key = [];
  alpn = [];
  tpm_key = [];
  tpm_key_pub = [];
  tpm_handle = 0;
  tpm_device = [];
}

parse_provisioning_json_run :
    parse_provisioning_json (file_with (some (codes "cGFzcw=="))) [] before
    ≡ ok (record before {
      password = codes "pass";
      use_certificate = false;
      auto_provisioning_enabled = false;
    })
unfolding parse_provisioning_json read_value read_address read_secret read_password has_element
    get_string text_eq
parse_provisioning_json_run = refl

parse_provisioning_fills_example :
    (c' : HubConnectionSettings) × (parse_provisioning_json
        (file_with (some (codes "cGFzcw==")))
        []
        before
      ≡ ok c')
    × IsFilled (file_with (some (codes "cGFzcw=="))) 0 before c'
unfolding text_eq
parse_provisioning_fills_example =
    parse_provisioning_fills (file_with (some (codes "cGFzcw=="))) [] before 0 refl
      ((inr (codes "cGFzcw==", refl), tt), tt)

-- The value is no text, and nothing is read before it.
parse_provisioning-panic_example :
    (parse_provisioning_json (file_with none) [] before ≡ panic)
    ↔ MeetsMistyped (file_with none) (entries (file_with none) (2 ∷ []))
unfolding text_eq
parse_provisioning-panic_example = parse_provisioning-panic (file_with none) [] before 0 refl

panic_run : parse_provisioning_json (file_with none) [] before ≡ panic
unfolding text_eq
panic_run =
    parse_provisioning-panic_example.1 ([], [], (codes "passwordBase64", 3), refl, tt, (refl, refl))
