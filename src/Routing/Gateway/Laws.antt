-- ===== src/Routing/Gateway/Laws.antt =====
-- A device name that fixCommand puts behind the gateway's is given back by stripGatewayID.
use suite_connector.Prelude.{
  ℕ, ◌+◌, ◌≡◌, ◌≢◌, ◌↔◌, refl, false, some, List, [], ◌∷◌, ◌++◌, arith, length, leb, length-append,
  eq_nil_of_length, append_assoc, Bool-cases, inl, inr,
}
use suite_connector.Prelude.Text.{
  Text, codes, has_prefix, has_prefix-append, split, split-append, Lacks, cons_head,
}
use suite_connector.Prelude.Outcome.{ok, err, panic, invalid_device}
use suite_connector.Util.Topic.{slice_from}
use suite_connector.Util.Topic.Parse.{slice_from-append}
use suite_connector.Routing.Gateway.{join_tail, fix_segments, fix_command, strip_gateway_id}

join_tail-cons_head :
    (c : ℕ) (ws : List Text) (s : Text)
    → join_tail ws ≡ b'/' ∷ s
    → join_tail (cons_head c ws) ≡ b'/' ∷ (c ∷ s)
unfolding join_tail
join_tail-cons_head c [] s h = cc
join_tail-cons_head c (w ∷ ws) s h = cc

-- Joining the segments of a text, each behind a slash, gives the text behind a slash.
pub join_tail-split : (s : Text) → join_tail (split s b'/') ≡ b'/' ∷ s
unfolding join_tail split
join_tail-split [] = refl
join_tail-split (c ∷ s) = ground (arith, join_tail-split s, join_tail-cons_head c (split s b'/') s)

fix_segments_five :
    (kind tenant gateway dev : Text) (ws : List Text) (rest : Text)
    → dev ≢ []
    → join_tail ws ≡ b'/' ∷ rest
    → fix_segments (kind ∷ tenant ∷ gateway ∷ dev ∷ ws)
      ≡ some (codes "command//" ++ ((gateway ++ (codes ":" ++ dev)) ++ (b'/' ∷ rest)))
unfolding fix_segments
fix_segments_five kind tenant gateway [] ws rest ne h = absurd (ne refl)
fix_segments_five kind tenant gateway (c ∷ dev) [] rest ne h = cc
fix_segments_five kind tenant gateway (c ∷ dev) (w ∷ ws) rest ne h = rw h

-- For parts without a slash and a non-empty device, fixCommand drops the tenant and joins the
-- gateway and the device by a colon; what is behind is kept.
pub fix_command_qualifies :
    (kind tenant gateway dev rest : Text)
    → Lacks b'/' kind
    → Lacks b'/' tenant
    → Lacks b'/' gateway
    → Lacks b'/' dev
    → dev ≢ []
    → fix_command
        (kind ++ (b'/' ∷ (tenant ++ (b'/' ∷ (gateway ++ (b'/' ∷ (dev ++ (b'/' ∷ rest))))))))
      ≡ ok (codes "command//" ++ ((gateway ++ (codes ":" ++ dev)) ++ (b'/' ∷ rest)))
unfolding fix_command
fix_command_qualifies kind tenant gateway dev rest hk ht hg hd ne =
    let ws = split rest b'/' in
    rw (
      fix_command,
      split-append kind (tenant ++ (b'/' ∷ (gateway ++ (b'/' ∷ (dev ++ (b'/' ∷ rest)))))) b'/' hk,
      split-append tenant (gateway ++ (b'/' ∷ (dev ++ (b'/' ∷ rest)))) b'/' ht,
      split-append gateway (dev ++ (b'/' ∷ rest)) b'/' hg,
      split-append dev rest b'/' hd,
      fix_segments_five kind tenant gateway dev ws rest ne (join_tail-split rest),
    )

-- stripGatewayID undoes the qualification of a device, the empty one included.
pub strip_gateway_id_qualified :
    (gateway dev : Text) → strip_gateway_id gateway (gateway ++ (codes ":" ++ dev)) ≡ ok dev
unfolding strip_gateway_id
strip_gateway_id_qualified gateway dev =
    let size : length (gateway ++ (codes ":" ++ dev)) ≡ length gateway + 1 + length dev =
      omega (arith, length-append gateway (codes ":" ++ dev)) in
    let colon : length (gateway ++ codes ":") ≡ length gateway + 1 =
      omega (arith, length-append gateway (codes ":")) in
    let cut : slice_from (gateway ++ (codes ":" ++ dev)) (length gateway + 1) ≡ ok dev =
      slice_from-append (gateway ++ (codes ":" ++ dev)) (gateway ++ codes ":") dev
        (length gateway + 1) (simp append_assoc) (omega (arith, colon)) in
    rw (has_prefix-append gateway (codes ":" ++ dev), cut)
      (elim (Bool-cases (leb (length (gateway ++ (codes ":" ++ dev))) (length gateway + 1))) [
        | inl short ↦
            let e : dev ≡ [] = eq_nil_of_length dev (ground (arith, size)) in rw (short, e)
        | inr longer ↦ rw longer
      ])

-- stripGatewayID never panics: it fails exactly on a device without the gateway's name in front.
pub strip_gateway_id-err :
    (gateway dev : Text)
    → (strip_gateway_id gateway dev ≢ panic)
      × ((strip_gateway_id gateway dev ≡ err (invalid_device dev gateway))
          ↔ (has_prefix dev gateway ≡ false))
unfolding strip_gateway_id slice_from
strip_gateway_id-err gateway dev = (ground arith, (ground arith, ground arith))
