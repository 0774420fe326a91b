-- ===== src/Conversations/Service.antt =====
-- app/modules/conversation/service.py: the inbound messages and the replies from the dashboard. The
-- caller of `handle_inbound` owns the transaction.
-- The arguments of `handle_inbound`.
use chat_to_sales.Notifications.Service.{send_in_transaction, Notice}
use chat_to_sales.Session.{pure, not_found, gets, ◌>>◌, ◌>>=◌, ok, or_raise, modify, Action}
use chat_to_sales.World.{Attachment, ◌>>>=◌, on_db, attempt, Sending, World, Provider}
use chat_to_sales.Models.{Message, Content, Env, Conversation, MessageSender}
use chat_to_sales.Base.{
  text_or, ◌||◌, not, str_eq, append_text, ◌&&◌, false, some, true, truthy, if◌then◌else◌, none,
  Bool, Option, String,
}
use chat_to_sales.Conversations.Repository.{
  save_message, NewMessage, get_message_by_external_id, get_conversation_by_id,
  get_or_create_conversation, NewConversation, update_conversation,
}

pub record Inbound : Type 0 where
  pub tenant_id : String
  pub channel : String
  pub sender_id : String
  pub content : Content
  pub external_id : Option String
  pub customer_id : Option String
  pub sender_name : Option String

abbrev pub inbound_conversation : Inbound → NewConversation
inbound_conversation m = record {
  tenant_id = m.tenant_id;
  channel = m.channel;
  customer_identifier = m.sender_id;
  customer_name = none;
  customer_id = m.customer_id;
}

-- `sender_name and (not conv.customer_name or conv.customer_name != sender_name)`
unfoldable pub wants_name : Option String → Option String → Bool
wants_name sender_name old =
    truthy sender_name
    && (not (truthy old) || not (str_eq (text_or old "") (text_or sender_name "")))

abbrev pub with_customer_name : Option String → Conversation → Conversation
with_customer_name name c = record c { customer_name = name }

unfoldable pub refresh_name : Option String → Conversation → Action (Unit {0})
unfolding update_conversation wants_name
refresh_name sender_name c = modify (λ db.
    if wants_name sender_name c.customer_name
    then update_conversation c.id (with_customer_name sender_name) db
    else db)

abbrev pub inbound_message : Inbound → Conversation → NewMessage
inbound_message m c = record {
  conversation_id = c.id;
  tenant_id = m.tenant_id;
  sender_role = MessageSender.user;
  content = m.content;
  external_id = m.external_id;
  sender_identifier = some m.sender_id;
}

-- The keys of the two rows that may be made are drawn apart.
unfoldable pub handle_inbound : Env → String → Inbound → Action (String × Option Message)
unfolding get_or_create_conversation refresh_name save_message
handle_inbound e message_key m = do
  (conv, created) ← get_or_create_conversation e (inbound_conversation m)
  refresh_name m.sender_name conv
  msg ← save_message (record e { fresh_id = message_key }) (inbound_message m conv)
  pure (conv.id, msg)

-- `ConversationService.get_by_id`
unfoldable pub get_conversation : String → Option String → Action Conversation
unfolding get_conversation_by_id
get_conversation conversation_id tenant_id = do
  or_raise (← gets (get_conversation_by_id conversation_id tenant_id))
      (not_found "Conversation" conversation_id)

-- `MessageCreate`
pub record MessageCreate : Type 0 where
  pub sender_role : MessageSender
  pub content : Content
  pub external_id : Option String

abbrev pub is_role : MessageSender → MessageSender → Bool
is_role MessageSender.user MessageSender.user = true
is_role MessageSender.assistant MessageSender.assistant = true
is_role MessageSender.system MessageSender.system = true
is_role _ _ = false

abbrev pub added_message : MessageCreate → Conversation → NewMessage
added_message d c = record {
  conversation_id = c.id;
  tenant_id = c.tenant_id;
  sender_role = d.sender_role;
  content = d.content;
  external_id = d.external_id;
  sender_identifier =
      if is_role d.sender_role MessageSender.user then some c.customer_identifier else none;
}

unfoldable pub reply_notice : String → Conversation → Content → Notice
reply_notice message_id c content = record {
  tenant_id = c.tenant_id;
  event_id = append_text "reply." message_id;
  recipient = c.customer_identifier;
  message_text = content;
  channel = "whatsapp";
  order_id = none;
  channel_tenant_id = none;
  attachment = Attachment.plain;
}

module _ (provider : Provider) where
  -- `_dispatch_reply`: a session of its own, and any error is logged.
  unfoldable pub dispatch_reply : Env → String → Conversation → Content → World → World
  unfolding reply_notice
  dispatch_reply e message_id c content =
      attempt (send_in_transaction provider e (reply_notice message_id c content))

  -- After the commit: the message that was there already, or the new one, which a reply sends on.
  unfoldable pub after_save :
      Env → Conversation → MessageCreate → Option Message → Sending (Option Message)
  unfolding dispatch_reply get_message_by_external_id
  after_save e c d none w =
      (ok (elim d.external_id [ none ↦ none | some x ↦ get_message_by_external_id c.id x w.db ]), w)
  after_save e c d (some msg) w = (
    ok (some msg),
    if is_role d.sender_role MessageSender.assistant && str_eq c.channel "whatsapp"
        then dispatch_reply e msg.id c d.content w
        else w,
  )

  -- The keys of the message and of the notification are drawn apart.
  unfoldable pub add_message : Env → String → String → MessageCreate → Sending (Option Message)
  unfolding after_save save_message get_conversation
  add_message e notification_key conversation_id d =
      on_db (get_conversation conversation_id none) >>>= λ conv.
      on_db (save_message e (added_message d conv)) >>>= λ msg.
      after_save (record e { fresh_id = notification_key }) conv d msg
