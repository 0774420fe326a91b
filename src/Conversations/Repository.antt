-- ===== src/Conversations/Repository.antt =====
-- app/modules/conversation/repository.py: the queries and the writes on conversations, messages,
-- reactions and scheduled messages. The listings, which page, are left out.
use chat_to_sales.Session.{gets, modify, pure, ◌>>◌, ◌>>=◌, Action}
use chat_to_sales.Models.{
  Content, Message, MessageSender, ConversationStatus, Conversation, Db, Env,
}
use chat_to_sales.Base.{
  text_or, [], ◌∷◌, truthy, if◌then◌else◌, ◌++◌, ◌&&◌, false, str_eq, some, true, has_key, none,
  Bool, latest, update_where, find?, String, Option,
}

unfoldable pub is_active_conversation : ConversationStatus → Bool
is_active_conversation ConversationStatus.active = true
is_active_conversation _ = false

abbrev pub conversation_id_of : Conversation → String
conversation_id_of c = c.id

-- A conversation with a sender on a channel that is still active.
abbrev pub talks_with : String → String → String → Conversation → Bool
talks_with tenant_id customer_identifier channel c =
    str_eq c.tenant_id tenant_id
    && (str_eq c.customer_identifier customer_identifier
        && (str_eq c.channel channel && is_active_conversation c.status))

-- The arguments of `create_conversation`.
pub record NewConversation : Type 0 where
  pub tenant_id : String
  pub channel : String
  pub customer_identifier : String
  pub customer_name : Option String
  pub customer_id : Option String

abbrev pub new_conversation : Env → NewConversation → Conversation
new_conversation e n = record {
  id = e.fresh_id;
  tenant_id = n.tenant_id;
  channel = n.channel;
  customer_id = n.customer_id;
  customer_identifier = n.customer_identifier;
  customer_name = n.customer_name;
  status = ConversationStatus.active;
  assigned_to_user_id = none;
  created_at = e.now;
}

unfoldable pub create_conversation : Env → NewConversation → Action Conversation
create_conversation e n = do
  modify (λ db. record db { conversations = db.conversations ++ new_conversation e n ∷ [] })
  pure (new_conversation e n)

unfoldable pub get_conversation_by_sender : String → String → String → Db → Option Conversation
get_conversation_by_sender tenant_id customer_identifier channel db =
    latest (talks_with tenant_id customer_identifier channel) (λ c. c.created_at) db.conversations

-- The branch on the conversation that was found; the flag tells whether it is new.
unfoldable pub create_conversation_unless :
    Env → NewConversation → Option Conversation → Action (Conversation × Bool)
unfolding create_conversation
create_conversation_unless e n (some c) = pure (c, false)
create_conversation_unless e n none = do c ← create_conversation e n; pure (c, true)

unfoldable pub get_or_create_conversation : Env → NewConversation → Action (Conversation × Bool)
unfolding create_conversation_unless
get_or_create_conversation e n = do
  c ← gets (get_conversation_by_sender n.tenant_id n.customer_identifier n.channel)
  create_conversation_unless e n c

unfoldable pub get_conversation_by_id : String → Option String → Db → Option Conversation
get_conversation_by_id id tenant_id db =
    find?
      (λ c.
        has_key conversation_id_of id c
        && (if truthy tenant_id then str_eq c.tenant_id (text_or tenant_id "") else true))
      db.conversations

-- A message of a conversation with the channel's own key.
abbrev pub has_external : String → String → Message → Bool
has_external conversation_id external_id m =
    str_eq m.conversation_id conversation_id
    && elim m.external_id [ none ↦ false | some x ↦ str_eq x external_id ]

unfoldable pub get_message_by_external_id : String → String → Db → Option Message
get_message_by_external_id conversation_id external_id db =
    find? (has_external conversation_id external_id) db.messages

-- The arguments of `save_message`.
pub record NewMessage : Type 0 where
  pub conversation_id : String
  pub tenant_id : String
  pub sender_role : MessageSender
  pub content : Content
  pub external_id : Option String
  pub sender_identifier : Option String

abbrev pub new_message : Env → NewMessage → Message
new_message e n = record {
  id = e.fresh_id;
  conversation_id = n.conversation_id;
  tenant_id = n.tenant_id;
  sender_role = n.sender_role;
  sender_identifier = n.sender_identifier;
  content = n.content;
  external_id = n.external_id;
}

-- The message that the channel's key finds, where the message has one.
unfoldable pub duplicate_of : NewMessage → Db → Option Message
unfolding get_message_by_external_id
duplicate_of n db = elim n.external_id [
  | none ↦ none
  | some x ↦ get_message_by_external_id n.conversation_id x db
]

unfoldable pub save_unless : Env → NewMessage → Option Message → Action (Option Message)
save_unless e n (some existing) = pure none
save_unless e n none = do
  modify (λ db. record db { messages = db.messages ++ new_message e n ∷ [] })
  pure (some (new_message e n))

unfoldable pub save_message : Env → NewMessage → Action (Option Message)
unfolding save_unless
save_message e n = do existing ← gets (duplicate_of n); save_unless e n existing

-- `conv.assigned_to_user_id = user_id` and the like, on the row.
unfoldable pub update_conversation : String → (Conversation → Conversation) → Db → Db
update_conversation id f db = record db {
  conversations = update_where (has_key conversation_id_of id) f db.conversations;
}

abbrev pub with_assignee : Option String → Conversation → Conversation
with_assignee user_id c = record c { assigned_to_user_id = user_id }

unfoldable pub assign_if_found : Option String → Option Conversation → Action (Option Conversation)
unfolding update_conversation
assign_if_found user_id none = pure none
assign_if_found user_id (some c) = do
  modify (update_conversation c.id (with_assignee user_id))
  pure (some (with_assignee user_id c))

unfoldable pub assign_conversation : String → String → Option String → Action (Option Conversation)
unfolding assign_if_found
assign_conversation id tenant_id user_id = do
  c ← gets (get_conversation_by_id id (some tenant_id))
  assign_if_found user_id c
