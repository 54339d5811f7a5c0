-- ===== src/Connector/Context/Laws.antt =====
-- What is set in a context is read back, and the other keys keep their values.
use suite_connector.Prelude.{ℕ, ◌≡◌, refl, Bool, some, arith, Option}
use suite_connector.Prelude.Text.{Text}
use suite_connector.Connector.Context.{
  Context, topic_from_ctx, qos_from_ctx, retain_value, retain_from_ctx, set_topic_to_ctx,
  set_qos_to_ctx, set_retain_to_ctx,
}

-- The three values that a reader of the context sees.
pub record View : Type 0 where
  pub topic : Option Text
  pub qos : Option ℕ
  pub retain : Bool

abbrev pub view : Context → View
view ctx = record {
  topic = topic_from_ctx ctx;
  qos = qos_from_ctx ctx;
  retain = retain_from_ctx ctx;
}

-- Each setter changes what is read under its own key, to the value set, and nothing else; a
-- SetRetainToCtx that adds no entry included.
pub set-view :
    (ctx : Context) (t : Text) (q : ℕ) (r : Bool)
    → (view (set_topic_to_ctx ctx t) ≡ record (view ctx) { topic = some t })
      × (view (set_qos_to_ctx ctx q) ≡ record (view ctx) { qos = some q })
      × (view (set_retain_to_ctx ctx r) ≡ record (view ctx) { retain = r })
unfolding topic_from_ctx qos_from_ctx retain_value retain_from_ctx set_topic_to_ctx set_qos_to_ctx
    set_retain_to_ctx
set-view ctx t q r = (refl, ground arith, ground arith)
