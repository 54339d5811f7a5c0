-- ===== src/Util/File.antt =====
-- util/utils.go: ValidPath, FileExists and NewHonoUserName. What os.Stat answers is given.
use suite_connector.Prelude.{◌≡◌, Bool, true, false, ◌++◌, arith, if◌then◌else◌}
use suite_connector.Prelude.Text.{Text, codes, is_empty}

-- A path that does not exist, one for which os.Stat fails otherwise, and one that it describes.
pub data Stat : Type 0 where
  missing failed directory file : Stat

-- The path is valid, where no error is answered.
unfoldable pub valid_path : (Text → Stat) → Text → Bool
valid_path stat name =
    if is_empty name then false else elim (stat name) [ failed ↦ false | _ ↦ true ]

unfoldable pub file_exists : (Text → Stat) → Text → Bool
file_exists stat name =
    if is_empty name then false else elim (stat name) [ file ↦ true | _ ↦ false ]

unfoldable pub new_hono_user_name : Text → Text → Text
new_hono_user_name device_auth_id hub_tenant_id = device_auth_id ++ (codes "@" ++ hub_tenant_id)

-- A file that exists has a valid path.
pub file_exists-valid :
    (stat : Text → Stat) (name : Text) → file_exists stat name ≡ true → valid_path stat name ≡ true
unfolding file_exists valid_path
file_exists-valid stat name h = ground (arith, h)
