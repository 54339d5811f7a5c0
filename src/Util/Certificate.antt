-- ===== src/Util/Certificate.antt =====
-- util/certificate.go: the pattern of a device name, over the subject of a certificate, which a library
-- reads.
use suite_connector.Prelude.{◌≡◌, refl, false, Option, none, some, [], ◌∷◌, arith, if◌then◌else◌}
use suite_connector.Prelude.Text.{Text, codes, contains, replace_from}

abbrev pub cn : Text
cn = codes "{{subject-cn}}"

abbrev pub dn : Text
dn = codes "{{subject-dn}}"

pub record Subject : Type 0 where
  pub name : Text
  pub common_name : Text

-- `strings.Index(s, old) >= 0` before strings.ReplaceAll
unfoldable pub replace_if : Text → Text → Text → Text
replace_if s old new = if contains s old then replace_from old new 0 s else s

-- `parsed` is the subject of the first certificate, if there is one and it can be parsed.
unfoldable pub replace_pattern : Text → Option Subject → Option Text
unfolding replace_if
replace_pattern pattern none = none
replace_pattern pattern (some subject) =
    some (replace_if (replace_if pattern dn subject.name) cn subject.common_name)

replace_from-absent : (old new s : Text) → contains s old ≡ false → replace_from old new 0 s ≡ s
unfolding contains replace_from
replace_from-absent old new [] h = refl
replace_from-absent old new (c ∷ s) h = ground (arith, h, replace_from-absent old new s)

-- The test before each replacement changes nothing.
pub replace_if-lem : (s old new : Text) → replace_if s old new ≡ replace_from old new 0 s
unfolding replace_if
replace_if-lem s old new = ground (arith, replace_from-absent old new s)
