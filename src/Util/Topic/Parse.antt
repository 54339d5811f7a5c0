-- ===== src/Util/Topic/Parse.antt =====
-- ParseCmdTopic reads back the parts of a well-formed command topic, and what it does on others.
use suite_connector.Prelude.{
  ℕ, ◌+◌, ◌-◌, ◌≤◌, ◌≡◌, refl, sym, false, [], ◌∷◌, ◌++◌, arith, append-nil, leb, length, take,
  drop, length-append, drop-append, take-append, append_assoc,
}
use suite_connector.Prelude.Text.{Text, codes, has_prefix, index_rune, Lacks, index_rune-append}
use suite_connector.Prelude.Outcome.{ok, panic}
use suite_connector.Util.Topic.{
  slice, slice_from, offset, parse_cmd_at, parse_cmd_topic, response_status_topic,
}

pub slice-append :
    (s a b c : Text) (lo hi : ℕ)
    → s ≡ a ++ (b ++ c)
    → lo ≡ length a
    → hi ≡ length a + length b
    → slice s lo hi ≡ ok b
unfolding slice
slice-append s a b c lo hi e l h =
    let inside : hi ≤ length s =
      rw e (omega (arith, length-append a (b ++ c), length-append b c)) in
    let width : hi - lo ≡ length b = omega arith in
    let cut : take (hi - lo) (drop lo s) ≡ b =
      rw (width, l, e, drop-append a (b ++ c), take-append b c) in
    ground (arith, cut, inside)

pub slice_from-append :
    (s a b : Text) (lo : ℕ) → s ≡ a ++ b → lo ≡ length a → slice_from s lo ≡ ok b
unfolding slice_from
slice_from-append s a b lo e l =
    let inside : lo ≤ length s = rw e (omega (arith, length-append a b)) in
    let cut : drop lo s ≡ b = rw (l, e, drop-append a b) in ground (arith, cut, inside)

-- One branch: a prefix of the right length, a device with no slash, a type of the right width.
parse_cmd_at-append :
    (p dev ty suffix : Text) (base width : ℕ)
    → Lacks b'/' dev
    → base ≡ length p
    → width ≡ length ty
    → parse_cmd_at base width (p ++ (dev ++ (b'/' ∷ (ty ++ (b'/' ∷ suffix)))))
      ≡ ok (record { cmd_type = ty; prefix = dev; suffix = suffix })
unfolding parse_cmd_at
parse_cmd_at-append p dev ty suffix base width h b w =
    let slash = b'/' ∷ [] in
    let tail = dev ++ (b'/' ∷ (ty ++ (b'/' ∷ suffix))) in
    let s = p ++ tail in
    let n = length p + length dev in
    let found : offset base (index_rune tail b'/') ≡ base + length dev =
      rw (index_rune-append dev (ty ++ (b'/' ∷ suffix)) b'/' h) in
    let before : length (p ++ (dev ++ slash)) ≡ n + 1 =
      omega (arith, length-append p (dev ++ slash), length-append dev slash) in
    let all : length ((p ++ (dev ++ slash)) ++ (ty ++ slash)) ≡ n + 2 + length ty =
      omega (
        arith,
        before,
        length-append (p ++ (dev ++ slash)) (ty ++ slash),
        length-append ty slash,
      ) in
    rw (
      slice_from-append s p tail base refl b,
      found,
      slice-append s (p ++ (dev ++ slash)) ty (b'/' ∷ suffix) (base + length dev + 1)
          (base + length dev + 1 + width) (simp append_assoc) (omega (arith, before))
          (omega (arith, before)),
      slice-append s p dev (b'/' ∷ (ty ++ (b'/' ∷ suffix))) base (base + length dev) refl b
          (omega arith),
      slice_from-append s ((p ++ (dev ++ slash)) ++ (ty ++ slash)) suffix
          (base + length dev + 2 + width) (simp append_assoc) (omega (arith, all)),
    )

-- A short topic of a device without a slash and a request type of one byte gives its request type,
-- its device and its suffix.
pub parse_cmd_topic-short :
    (dev ty suffix : Text)
    → Lacks b'/' dev
    → length ty ≡ 1
    → parse_cmd_topic (codes "c//" ++ (dev ++ (b'/' ∷ (ty ++ (b'/' ∷ suffix)))))
      ≡ ok (record { cmd_type = ty; prefix = dev; suffix = suffix })
unfolding parse_cmd_topic has_prefix
parse_cmd_topic-short dev ty suffix h w =
    parse_cmd_at-append (codes "c//") dev ty suffix 3 1 h refl (sym w)

-- A long topic of a device without a slash and a request type of three bytes gives its request
-- type, its device and its suffix.
pub parse_cmd_topic-long :
    (dev ty suffix : Text)
    → Lacks b'/' dev
    → length ty ≡ 3
    → parse_cmd_topic (codes "command//" ++ (dev ++ (b'/' ∷ (ty ++ (b'/' ∷ suffix)))))
      ≡ ok (record { cmd_type = ty; prefix = dev; suffix = suffix })
unfolding parse_cmd_topic has_prefix
parse_cmd_topic-long dev ty suffix h w =
    parse_cmd_at-append (codes "command//") dev ty suffix 9 3 h refl (sym w)

-- The status topic of a long request topic keeps its device and its request id, if both have no
-- slash.
pub response_status_topic-long :
    (dev request_id rest status : Text)
    → Lacks b'/' dev
    → Lacks b'/' request_id
    → response_status_topic
        (codes "command//"
          ++ (dev ++ (b'/' ∷ (codes "req" ++ (b'/' ∷ (request_id ++ (b'/' ∷ rest)))))))
        status
      ≡ ok (codes "command//" ++ (dev ++ (codes "/res/" ++ (request_id ++ (codes "/" ++ status)))))
unfolding response_status_topic
response_status_topic-long dev request_id rest status h k =
    let suffix = request_id ++ (b'/' ∷ rest) in
    rw (
      parse_cmd_topic-long dev (codes "req") suffix h refl,
      index_rune-append request_id rest b'/' k,
      slice-append suffix [] request_id (b'/' ∷ rest) 0 (length request_id) refl refl (omega arith),
    )

parse_cmd_at_bare :
    (p dev ty : Text) (base width : ℕ)
    → Lacks b'/' dev
    → base ≡ length p
    → width ≡ length ty
    → parse_cmd_at base width (p ++ (dev ++ (b'/' ∷ ty))) ≡ panic
unfolding parse_cmd_at slice_from
parse_cmd_at_bare p dev ty base width h b w =
    let tail = dev ++ (b'/' ∷ ty) in
    let s = p ++ tail in
    let head = p ++ (dev ++ (b'/' ∷ [])) in
    let found : offset base (index_rune tail b'/') ≡ base + length dev =
      rw (index_rune-append dev ty b'/' h) in
    let before : length head ≡ length p + length dev + 1 =
      omega (arith, length-append p (dev ++ (b'/' ∷ [])), length-append dev (b'/' ∷ [])) in
    let all : length s ≡ length p + length dev + 1 + length ty =
      omega (arith, length-append p tail, length-append dev (b'/' ∷ ty)) in
    let short : leb (base + length dev + 2 + width) (length s) ≡ false =
      ground (arith, all, b, w) in
    unfold slice_from in
    rw (
      slice_from-append s p tail base refl b,
      found,
      slice-append s head ty [] (base + length dev + 1) (base + length dev + 1 + width)
          (simp (append_assoc, append-nil)) (omega (arith, before)) (omega (arith, before)),
      slice-append s p dev (b'/' ∷ ty) base (base + length dev) refl b (omega arith),
      short,
    )

-- A long topic of a device without a slash that ends with a request type of three bytes, with no
-- slash behind, is sliced out of range.
pub parse_cmd_topic_bare :
    (dev ty : Text)
    → Lacks b'/' dev
    → length ty ≡ 3
    → parse_cmd_topic (codes "command//" ++ (dev ++ (b'/' ∷ ty))) ≡ panic
unfolding parse_cmd_topic has_prefix
parse_cmd_topic_bare dev ty h w = parse_cmd_at_bare (codes "command//") dev ty 9 3 h refl (sym w)
