-- ===== src/Flags/Tests.antt =====
-- The keys of some flags, and a property of the flags at a concrete input.
use suite_connector.Prelude.{◌≡◌, refl, some, [], ◌∷◌, arith}
use suite_connector.Prelude.Text.{replace_from, codes, text_eq}
use suite_connector.Flags.{copy_name}
use suite_connector.Flags.Values.{
  space_width, fields_from, fields, set_slice, slice_string, set_slice-string,
}

copy_name_run :
    (copy_name (codes "tpmKeyPub") ≡ codes "TPMKeyPub")
    × (copy_name (codes "deviceIdPattern") ≡ codes "deviceIDPattern")
    × (copy_name (codes "caCert") ≡ codes "CACert")
unfolding copy_name replace_from text_eq
copy_name_run = (refl, refl, refl)

set_slice-string_example :
    set_slice (slice_string (codes "x-amzn-mqtt-ca" ∷ codes "mqtt" ∷ [])) []
    ≡ some (codes "x-amzn-mqtt-ca" ∷ codes "mqtt" ∷ [])
unfolding space_width
set_slice-string_example =
    set_slice-string (codes "x-amzn-mqtt-ca" ∷ codes "mqtt" ∷ []) [] (ground arith)

-- A no-break space, in UTF-8, splits words.
fields_run :
    fields (97 ∷ 0xc2 ∷ 0xa0 ∷ 98 ∷ 0xe2 ∷ 0x80 ∷ 0xaf ∷ 0xc2 ∷ [])
    ≡ (97 ∷ []) ∷ (98 ∷ []) ∷ (0xc2 ∷ []) ∷ []
unfolding fields_from space_width
fields_run = refl
