-- ===== src/Util/Topic.antt =====
-- util/utils.go: NormalizeTopic, ParseCmdTopic and ResponseStatusTopic.
-- A slice expression out of range panics, and IndexRune answers -1 for a missing byte.
pub mod Parse
pub mod Normalize
use suite_connector.Prelude.{
  ℕ, ◌+◌, ◌-◌, Bool, ◌&&◌, Option, none, some, List, [], ◌++◌, leb, if◌then◌else◌, length, take,
  drop,
}
use suite_connector.Prelude.Text.{Text, codes, has_prefix, has_suffix, replace_first, index_rune}
use suite_connector.Prelude.Outcome.{Outcome, ok, panic, ◌>>=◌}

-- `s[lo:hi]`
unfoldable pub slice : Text → ℕ → ℕ → Outcome Text
slice s lo hi = if leb lo hi && leb hi (length s) then ok (take (hi - lo) (drop lo s)) else panic

-- `s[lo:]`
unfoldable pub slice_from : Text → ℕ → Outcome Text
slice_from s lo = if leb lo (length s) then ok (drop lo s) else panic

-- `base + i`, where `none` stands for -1 (and the base is positive)
unfoldable pub offset : ℕ → Option ℕ → ℕ
offset base none = base - 1
offset base (some i) = base + i

unfoldable pub normalize_topic : Text → Text
normalize_topic topic =
    let long =
      if has_prefix topic (codes "c//")
      then replace_first topic (codes "c") (codes "command")
      else topic in
    if has_suffix long (codes "/q/#")
    then replace_first long (codes "/q/#") (codes "/req/#")
    else long

-- The three results of ParseCmdTopic.
pub record CmdTopic : Type 0 where
  pub cmd_type : Text
  pub prefix : Text
  pub suffix : Text

-- The body of a branch of ParseCmdTopic: `base` bytes of prefix, a type of `width` bytes.
unfoldable pub parse_cmd_at : ℕ → ℕ → Text → Outcome CmdTopic
unfolding offset
parse_cmd_at base width topic = do
  tail ← slice_from topic base
  let end = offset base (index_rune tail b'/')
  cmd_type ← slice topic (end + 1) (end + 1 + width)
  prefix ← slice topic base end
  suffix ← slice_from topic (end + 2 + width)
  ok (record { cmd_type = cmd_type; prefix = prefix; suffix = suffix })

unfoldable pub parse_cmd_topic : Text → Outcome CmdTopic
parse_cmd_topic topic =
    if has_prefix topic (codes "c//")
    then parse_cmd_at 3 1 topic
    else if has_prefix topic (codes "command//")
    then parse_cmd_at 9 3 topic
    else ok (record { cmd_type = []; prefix = []; suffix = [] })

-- `suffix[:end]` panics when the suffix has no slash; the status is given as its decimal text.
unfoldable pub response_status_topic : Text → Text → Outcome Text
response_status_topic inbox status = do
  parsed ← parse_cmd_topic inbox
  request_id ← elim (index_rune parsed.suffix b'/') [
    | none ↦ panic
    | some end ↦ slice parsed.suffix 0 end
  ]
  ok (
      codes "command//"
      ++ (parsed.prefix ++ (codes "/res/" ++ (request_id ++ (codes "/" ++ status)))))
