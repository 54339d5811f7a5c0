-- ===== src/Routing/Commands/Lifetime.antt =====
-- How long a request is pending: the handlers, the cache and its cleaner together.
use suite_connector.Prelude.{
  ℕ, ◌+◌, ◌*◌, ◌≤◌, ◌≡◌, ◌≢◌, ◌∙◌, Bool, true, false, Option, some, [], inl, inr, arith,
}
use suite_connector.Prelude.Int.{ℤ, pos, negsuc, pos_part, ◌≤ℤ◌, ◌+ℤ◌, +ℤ_parts}
use suite_connector.Prelude.Text.{Text, text_eq_refl}
use suite_connector.Prelude.Outcome.{ok}
use suite_connector.Util.Timeout.{second, parse_timeout}
use suite_connector.Util.Timeout.Bounds.{parse_timeout_bounds}
use suite_connector.Connector.Context.{Message, topic_from_ctx}
use suite_connector.Cache.Table.{Cache, clear_expired}
use suite_connector.Cache.Table.Valid.{Entry, view}
use suite_connector.Cache.Table.Refines.{put_refines}
use suite_connector.Cache.Table.Cleaning.{IsOver, Cleared, clear_expired_spares}
use suite_connector.Routing.Commands.Defs.{
  RequestHandler, ResponseHandler, Headers, is_zero, answer, handle_request, handle_response,
}
use suite_connector.Routing.Commands.Request.{register-pending}
use suite_connector.Routing.Commands.Response.{handle_response_once}
use suite_connector.Routing.Commands.Pending.{ttl_cache, put_request, is_pending, IsReady}

-- How long a request is kept.
abbrev pub lifetime : ℤ → ℤ
lifetime t = t +ℤ pos (5 * second)

abbrev pub pending_entry : ℕ → ℤ → Entry Bool
pending_entry now t = record {
  value = true;
  ttl = lifetime t;
  exp_time = now + pos_part (lifetime t);
}

entry_ahead :
    (now later : ℕ) (t : ℤ)
    → pos 0 ≤ℤ t
    → later ≤ now + pos_part t + 5 * second
    → (IsOver later (pending_entry now t) → ⊥)
unfolding ◌+ℤ◌
entry_ahead now later (pos n) nonneg soon (inl none_left) = ground arith
entry_ahead now later (pos n) nonneg soon (inr past) = ground arith
entry_ahead now later (negsuc n) nonneg soon over = omega arith

-- What is not over stays.
kept_entry :
    (k : Text) (c c' : Cache Bool) (e : Entry Bool) (now : ℕ)
    → Cleared now c c'
    → view c k ≡ some e
    → (IsOver now e → ⊥)
    → view c' k ≡ some e
kept_entry k c c' e now cleared here ahead = elim (cleared.spared k) [
  | inl kept ↦ kept ∙ here
  | inr (gone, (d, found, over)) ↦ let same : d ≡ e = cc in absurd (ahead (rw same at over))
]

module _ (decode : Text → Option Headers) where
  request_stored :
      (h : RequestHandler) (now : ℕ) (msg : Message) (c : Cache Bool) (topic : Text)
      (headers : Headers) (t : ℤ)
      → IsReady c
      → topic_from_ctx msg.ctx ≡ some topic
      → decode msg.payload ≡ some headers
      → headers.correlation_id ≢ []
      → parse_timeout headers.timeout ≡ ok t
      → is_zero t ≡ false
      → let c' = (handle_request ttl_cache decode h now msg c).0 in
        IsReady c' × (view c' headers.correlation_id ≡ some (pending_entry now t))
  unfolding handle_request
  request_stored h now msg c topic headers t (v, is_open) et ed ne ep z =
      let k = headers.correlation_id in
      let nonneg : pos 0 ≤ℤ lifetime t =
        omega
          (arith, (parse_timeout_bounds headers.timeout t ep).0, +ℤ_parts t (pos (5 * second))) in
      let (c', done, held) = put_refines now k true (lifetime t) c v is_open nonneg in
      let stored : put_request now k (lifetime t) c ≡ ok c' = rw done in
      let registered = register-pending ttl_cache decode now headers c t ne ep z ∙ stored in
      let entry : view c' k ≡ some (pending_entry now t) = rw (held.viewed k, text_eq_refl k) in
      rw (handle_request, et, ed, registered) ((held.valid, held.as_open ∙ is_open), entry)

  -- After a request with a topic, a readable envelope, a correlation id and a time-out other than zero,
  -- on a valid, open cache, the cleaner may run at any time up to the time-out and five seconds later:
  -- it does not panic, and a response that comes then with the same correlation id is answered as one
  -- whose request is pending.
  pub request_outlives_cleaner :
      (h : RequestHandler) (r : ResponseHandler) (now later : ℕ) (msg reply : Message)
      (c : Cache Bool) (topic reply_topic : Text) (headers reply_headers : Headers) (t : ℤ)
      → IsReady c
      → topic_from_ctx msg.ctx ≡ some topic
      → decode msg.payload ≡ some headers
      → headers.correlation_id ≢ []
      → parse_timeout headers.timeout ≡ ok t
      → is_zero t ≡ false
      → later ≤ now + pos_part t + 5 * second
      → topic_from_ctx reply.ctx ≡ some reply_topic
      → decode reply.payload ≡ some reply_headers
      → reply_headers.correlation_id ≡ headers.correlation_id
      → (c' : Cache Bool) × (clear_expired later (handle_request ttl_cache decode h now msg c).0
          ≡ ok c')
        × ((handle_response ttl_cache decode r reply c').1 ≡ answer r reply reply_topic true)
  request_outlives_cleaner h r now later msg reply c topic reply_topic headers reply_headers t ready
        et ed ne ep z soon rt rd same =
      let k = headers.correlation_id in
      let stored = (handle_request ttl_cache decode h now msg c).0 in
      let ((v, is_open), entry) = request_stored h now msg c topic headers t ready et ed ne ep z in
      let (c', cleared, spared) = clear_expired_spares later stored v in
      let ahead = entry_ahead now later t (parse_timeout_bounds headers.timeout t ep).0 soon in
      let kept : view c' k ≡ some (pending_entry now t) =
        kept_entry k stored c' (pending_entry now t) later spared entry ahead in
      let pending : is_pending reply_headers.correlation_id c' ≡ true = rw (same, kept) in
      let (answered, _, _, _) =
        handle_response_once ttl_cache decode r reply c' reply_topic reply_headers
          (spared.valid, spared.as_open ∙ is_open) rt rd in
      (c', cleared, rw pending at answered)
