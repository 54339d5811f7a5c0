-- ===== src/Connector/Publisher/Order.antt =====
-- A publisher publishes the messages in order, and all of them if it reports no error.
use suite_connector.Prelude.{
  ℕ, ◌+◌, ◌≡◌, ◌≢◌, ◌⊎◌, refl, false, Option, none, some, List, [], ◌∷◌, ◌++◌, Option-cases,
  Bool-cases, inl, inr,
}
use suite_connector.Prelude.Text.{Text}
use suite_connector.Connector.Context.{Message}
use suite_connector.Connector.Publisher.{
  Publisher, Published, Token, packet, awaits_ack, token_error, publish_from, publish,
}

-- The payload of a message, empty where it cannot be marshalled.
abbrev pub payload_or : Option Text → Text
payload_or none = []
payload_or (some t) = t

module _ (marshal : Message → Option Text) where
  -- The packets of all the messages, in order.
  unfoldable pub all_packets : Publisher → Text → List Message → List Published
  all_packets p topic [] = []
  all_packets p topic (m ∷ ms) = packet p topic m (payload_or (marshal m)) ∷ all_packets p topic ms

  -- The packet of a message before those of the rest, with the three ways on.
  extend :
      (p : Publisher) (topic : Text) (token : ℕ → Token) (i : ℕ) (m : Message) (ms : List Message)
      (payload : Text)
      → marshal m ≡ some payload
      → (rest : List Published)
      → all_packets p topic ms ≡ (publish_from marshal p topic token (i + 1) ms).0 ++ rest
      → ((publish_from marshal p topic token (i + 1) ms).1 ≢ none) ⊎ (rest ≡ [])
      → (rest' : List Published) × (all_packets p topic (m ∷ ms)
          ≡ (publish_from marshal p topic token i (m ∷ ms)).0 ++ rest')
        × (((publish_from marshal p topic token i (m ∷ ms)).1 ≢ none) ⊎ (rest' ≡ []))
  unfolding publish_from all_packets
  extend p topic token i m ms payload readable rest split full =
      elim (Bool-cases (awaits_ack p (packet p topic m payload))) [
        | inl waits ↦ elim (Option-cases (token_error (token i))) [
          | inl fine ↦ (
            rest,
            rw (readable, publish_from, waits, fine, split),
            rw (readable, publish_from, waits, fine) full,
          )
          | inr (e, failed) ↦ (
            all_packets p topic ms,
            rw (readable, publish_from, waits, failed),
            inl (rw (readable, publish_from, waits, failed) (λ h. cc)),
          )
        ]
        | inr goes_on ↦ (
          rest,
          rw (readable, publish_from, goes_on, split),
          rw (readable, publish_from, goes_on) full,
        )
      ]

  -- What is published is a beginning of the packets of all the messages, in their order, and the whole
  -- of it if no error is reported.
  publish_from_prefix :
      (p : Publisher) (topic : Text) (token : ℕ → Token) (i : ℕ) (msgs : List Message)
      → (rest : List Published) × (all_packets p topic msgs
          ≡ (publish_from marshal p topic token i msgs).0 ++ rest)
        × (((publish_from marshal p topic token i msgs).1 ≢ none) ⊎ (rest ≡ []))
  unfolding publish_from all_packets
  publish_from_prefix p topic token i [] = ([], refl, inr refl)
  publish_from_prefix p topic token i (m ∷ ms) =
      let (rest, split, full) = publish_from_prefix p topic token (i + 1) ms in
      elim (Option-cases (marshal m)) [
        | inl unreadable ↦ (
          all_packets p topic (m ∷ ms),
          rw (unreadable, publish_from),
          inl (rw (unreadable, publish_from) (λ h. cc)),
        )
        | inr (payload, readable) ↦ extend p topic token i m ms payload readable rest split full
      ]

  -- What an open publisher publishes is a beginning of the packets of all the messages, in their order,
  -- and it is the whole of it unless an error is reported.
  pub publish_prefix :
      (p : Publisher) (topic : Text) (token : ℕ → Token) (msgs : List Message)
      → p.closed ≡ false
      → (rest : List Published) × (all_packets p topic msgs
          ≡ (publish marshal p topic token msgs).0 ++ rest)
        × (((publish marshal p topic token msgs).1 ≢ none) ⊎ (rest ≡ []))
  unfolding publish
  publish_prefix p topic token msgs h = simp h (publish_from_prefix p topic token 0 msgs)
