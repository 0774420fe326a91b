-- ===== src/Conversations/Reactions.antt =====
-- app/modules/conversation/repository.py and service.py: the reactions to a message, one of a user.
use chat_to_sales.Models.{Message, Db, MessageReaction}
use chat_to_sales.Conversations.Repository.{get_conversation_by_id}
use chat_to_sales.Base.{
  none, [], ◌∷◌, ◌&&◌, ◌++◌, update_where, if◌then◌else◌, not, str_eq, find?, select, some, Bool,
  Option, List, String,
}
use chat_to_sales.Session.{pure, modify, ◌>>◌, gets, or_raise, ◌>>=◌, Action, not_found}

unfoldable pub get_message_by_id : String → String → Db → Option Message
get_message_by_id message_id conversation_id db =
    find? (λ m. str_eq m.id message_id && str_eq m.conversation_id conversation_id) db.messages

-- The reaction of a user to a message; the table has at most one.
abbrev pub reacts : String → String → MessageReaction → Bool
reacts message_id user_id r = str_eq r.message_id message_id && str_eq r.user_id user_id

unfoldable pub get_reaction : String → String → List MessageReaction → Option MessageReaction
get_reaction message_id user_id rows = find? (reacts message_id user_id) rows

abbrev pub with_emoji : String → MessageReaction → MessageReaction
with_emoji emoji r = record r { emoji = emoji }

abbrev pub new_reaction : String → String → String → String → MessageReaction
new_reaction message_id tenant_id user_id emoji = record {
  message_id = message_id;
  tenant_id = tenant_id;
  user_id = user_id;
  emoji = emoji;
}

-- The branch on the reaction that the user has: it changes, or a new row is added.
unfoldable pub upsert_found :
    String
    → String
    → String
    → String
    → Option MessageReaction
    → List MessageReaction
    → List MessageReaction
upsert_found message_id tenant_id user_id emoji (some existing) rows =
    update_where (reacts message_id user_id) (with_emoji emoji) rows
upsert_found message_id tenant_id user_id emoji none rows =
    rows ++ new_reaction message_id tenant_id user_id emoji ∷ []

unfoldable pub upsert_reaction :
    String → String → String → String → List MessageReaction → List MessageReaction
unfolding get_reaction upsert_found
upsert_reaction message_id tenant_id user_id emoji rows =
    upsert_found message_id tenant_id user_id emoji (get_reaction message_id user_id rows) rows

unfoldable pub delete_reaction : String → String → List MessageReaction → List MessageReaction
delete_reaction message_id user_id rows = select (λ r. not (reacts message_id user_id r)) rows

-- The branch of `react_to_message` on the reaction that was found.
unfoldable pub toggle_found :
    String
    → String
    → String
    → String
    → Option MessageReaction
    → List MessageReaction
    → List MessageReaction
unfolding upsert_reaction delete_reaction
toggle_found message_id tenant_id user_id emoji (some existing) rows =
    if str_eq existing.emoji emoji
    then delete_reaction message_id user_id rows
    else upsert_reaction message_id tenant_id user_id emoji rows
toggle_found message_id tenant_id user_id emoji none rows =
    upsert_reaction message_id tenant_id user_id emoji rows

unfoldable pub toggle_reaction :
    String → String → String → String → List MessageReaction → List MessageReaction
unfolding toggle_found
toggle_reaction message_id tenant_id user_id emoji rows =
    toggle_found message_id tenant_id user_id emoji (get_reaction message_id user_id rows) rows

-- `react_to_message`; the event for the dashboard's sockets is not kept.
unfoldable pub react_to_message : String → String → String → String → Action Message
unfolding get_conversation_by_id
react_to_message conversation_id message_id user_id emoji = do
  conv ←
      or_raise (← gets (get_conversation_by_id conversation_id none))
        (not_found "Conversation" conversation_id)
  msg ←
      or_raise (← gets (get_message_by_id message_id conversation_id))
        (not_found "Message" message_id)
  modify (λ db. record db {
    reactions = toggle_reaction message_id conv.tenant_id user_id emoji db.reactions;
  })
  pure msg
