-- ===== src/Orders/Dialogue/Replies.antt =====
-- app/modules/orders/service.py: `_reply`, `_reply_interactive`, `_reply_list`, `_reply_image` and
-- `_reply_with_cancel`, and the writes to Redis, as changes of the chat. The key of a sent image,
-- under which the next message would show, is not kept.
use chat_to_sales.Orders.Sessions.{clear_order_session, set_order_session}
use chat_to_sales.Notifications.Service.{
  send_interactive, send_list, send_image, send_message, Notice,
}
use chat_to_sales.Models.{Env, Content}
use chat_to_sales.World.{begin, attempt, Attachment, Button, Sending, World}
use chat_to_sales.Base.{
  [], str_eq, if◌then◌else◌, ◌∷◌, append_text, some, none, List, Option, String,
}
use chat_to_sales.Orders.Dialogue.{OrderSession, Chat, Incoming, Setting}
use text.Mathlib.Text.{get?}

infixl 5 ◌▹◌
-- One statement after another.
abbrev pub ◌▹◌ : {A : Type 0} → A → (A → A) → A
c ▹ f = f c

-- `order.id[:8]`, for a key of ASCII characters
abbrev pub reference : String → String
reference id = kept id (get? id 0 8)
  where
    kept : String → Option String → String
    kept whole none = whole
    kept whole (some start) = start

abbrev pub notice : String → String → String → Content → Option String → Notice
notice phone tenant_id event_id content channel_tenant_id = record {
  tenant_id = tenant_id;
  event_id = event_id;
  recipient = phone;
  message_text = content;
  channel = "whatsapp";
  order_id = none;
  channel_tenant_id = channel_tenant_id;
  attachment = Attachment.plain;
}

module _ (i : Incoming) where
  -- A message to the customer or to the trader, about the event of a name and a key.
  abbrev pub customer_notice : String → String → Content → Notice
  customer_notice name key content =
      notice i.customer_phone i.tenant_id (append_text name key) content i.channel_tenant_id

  abbrev pub trader_notice : String → String → Content → Notice
  trader_notice name key content =
      notice i.trader.phone_number i.tenant_id (append_text name key) content i.channel_tenant_id

module _ (S : Setting) where
  abbrev pub sending_env : Notice → Env
  sending_env n = record { fresh_id = S.keys n.event_id; now = S.env.now }

  -- The common frame: no phone, no message; and no failure goes further.
  unfoldable pub guarded : Notice → Sending (Unit {0}) → World → World
  guarded n m w = if str_eq n.recipient "" then w else attempt (begin m) w

  abbrev pub in_world : (World → World) → Chat S → Chat S
  in_world f c = record c { world = f c.world }

  unfoldable pub reply : Notice → Chat S → Chat S
  unfolding guarded
  reply n = in_world (guarded n (send_message S.provider (sending_env n) n))

  unfoldable pub reply_interactive : Notice → List Button → Chat S → Chat S
  unfolding guarded
  reply_interactive n buttons =
      in_world (guarded n (send_interactive S.provider (sending_env n) n buttons))

  unfoldable pub reply_list : Notice → String → List (String × List Button) → Chat S → Chat S
  unfolding guarded
  reply_list n button_label sections =
      in_world (guarded n (send_list S.provider (sending_env n) n button_label sections))

  unfoldable pub reply_image : Notice → String → Option String → Chat S → Chat S
  unfolding guarded
  reply_image n media_id caption =
      in_world (guarded n (send_image S.provider (sending_env n) n media_id caption))

  abbrev pub cancel_button : List Button
  cancel_button = record { id = "TRADER_CANCEL_SESSION"; title = "Cancel" } ∷ []

  unfoldable pub reply_with_cancel : Notice → Chat S → Chat S
  unfolding reply_interactive
  reply_with_cancel n = reply_interactive n cancel_button

  abbrev pub in_store : (S.redis.Store → S.redis.Store) → Chat S → Chat S
  in_store f c = record c { store = f c.store }

  abbrev pub save_session : String → String → OrderSession → Chat S → Chat S
  save_session tenant_id phone s =
      in_store (set_order_session S.redis S.session_json S.env.now tenant_id phone s)

  abbrev pub drop_session : String → String → Chat S → Chat S
  drop_session tenant_id phone = in_store (clear_order_session S.redis tenant_id phone)
