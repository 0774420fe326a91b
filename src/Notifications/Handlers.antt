-- ===== src/Notifications/Handlers.antt =====
-- app/modules/notifications/handlers.py: the customer hears of the events of an order. An event's own
-- key is not part of its payload and is an argument.
pub mod Recipients
use chat_to_sales.Session.{ok}
use chat_to_sales.Notifications.Service.{send_message, Notice}
use chat_to_sales.Conversations.Repository.{get_conversation_by_id}
use chat_to_sales.Orders.Repository.{get_by_id}
use chat_to_sales.Models.{Event, Db, Content, Env, OrderState}
use chat_to_sales.World.{begin, Attachment, Sending, Provider}
use chat_to_sales.Base.{◌&&◌, str_eq, if◌then◌else◌, not, none, some, Bool, Option, String}

unfoldable pub phone_from_conversation : String → String → Db → Option String
unfolding get_conversation_by_id
phone_from_conversation conversation_id tenant_id db =
    elim (get_conversation_by_id conversation_id (some tenant_id) db) [
      | none ↦ none
      | some conv ↦ some conv.customer_identifier
    ]

unfoldable pub phone_from_order : String → String → Db → Option String
unfolding phone_from_conversation get_by_id
phone_from_order order tenant_id db = elim (get_by_id order (some tenant_id) db) [
  | none ↦ none
  | some o ↦ phone_from_conversation o.conversation_id tenant_id db
]

-- The texts for the states; INQUIRY and FAILED have none.
abbrev pub state_text : OrderState → String → Option Content
state_text OrderState.confirmed order = some (Content.order_confirmed_text order)
state_text OrderState.paid order = some (Content.order_paid_text order)
state_text OrderState.inquiry order = none
state_text OrderState.failed order = none

unfoldable pub order_event_notice : String → String → String → Content → String → Notice
order_event_notice tenant_id event_id order content phone = record {
  tenant_id = tenant_id;
  event_id = event_id;
  recipient = phone;
  message_text = content;
  channel = "whatsapp";
  order_id = some order;
  channel_tenant_id = none;
  attachment = Attachment.plain;
}

-- A payload's field, which counts as missing where it is empty.
abbrev pub present : String → Bool
present s = not (str_eq s "")

module _ (provider : Provider) where
  -- `if phone is None: return`
  unfoldable pub send_to_phone :
      Env → String → String → String → Content → Option String → Sending (Unit {0})
  unfolding order_event_notice
  send_to_phone e tenant_id event_id order content none w = (ok tt, w)
  send_to_phone e tenant_id event_id order content (some phone) w =
      send_message provider e (order_event_notice tenant_id event_id order content phone) w

  unfoldable pub tell_conversation :
      Env → String → String → String → String → Content → Sending (Unit {0})
  unfolding send_to_phone phone_from_conversation
  tell_conversation e event_id tenant_id order conversation content = begin (λ w.
      send_to_phone e tenant_id event_id order content
        (phone_from_conversation conversation tenant_id w.db) w)

  unfoldable pub handle_order_created_notification :
      Env → String → String → String → String → Sending (Unit {0})
  unfolding tell_conversation
  handle_order_created_notification e event_id tenant_id order conversation w =
      if present tenant_id && (present order && present conversation)
      then tell_conversation e event_id tenant_id order conversation
          (Content.order_created_text order) w
      else (ok tt, w)

  -- `if template is None: return`
  unfoldable pub tell_state :
      Env → String → String → String → String → Option Content → Sending (Unit {0})
  unfolding tell_conversation
  tell_state e event_id tenant_id order conversation none w = (ok tt, w)
  tell_state e event_id tenant_id order conversation (some content) w =
      tell_conversation e event_id tenant_id order conversation content w

  unfoldable pub handle_order_state_changed_notification :
      Env → String → String → String → String → OrderState → Sending (Unit {0})
  unfolding tell_state
  handle_order_state_changed_notification e event_id tenant_id order conversation new_state w =
      if present tenant_id && (present order && present conversation)
      then tell_state e event_id tenant_id order conversation (state_text new_state order) w
      else (ok tt, w)

  unfoldable pub handle_payment_confirmed_notification :
      Env → String → String → String → Sending (Unit {0})
  unfolding send_to_phone phone_from_order
  handle_payment_confirmed_notification e event_id tenant_id order w =
      if present tenant_id && present order
      then begin
          (λ v.
            send_to_phone e tenant_id event_id order (Content.payment_confirmed_text order)
              (phone_from_order order tenant_id v.db) v)
          w
      else (ok tt, w)

  -- The handler that is registered for the name of an event; the other names have none.
  unfoldable pub notify : Env → String → Event → Sending (Unit {0})
  unfolding handle_order_created_notification handle_order_state_changed_notification
      handle_payment_confirmed_notification
  notify e event_id (Event.order_created t order conv) =
      handle_order_created_notification e event_id t order conv
  notify e event_id (Event.order_created_with_items t order conv amount currency) =
      handle_order_created_notification e event_id t order conv
  notify e event_id (Event.order_state_changed t order conv previous new) =
      handle_order_state_changed_notification e event_id t order conv new
  notify e event_id (Event.payment_confirmed t payment order reference amount currency) =
      handle_payment_confirmed_notification e event_id t order
  notify e event_id _ = λ w. (ok tt, w)
