-- ===== src/Conversations/Scheduled.antt =====
-- app/modules/conversation/repository.py and service.py: messages that are to be sent later.
use chat_to_sales.Conversations.Service.{get_conversation}
use chat_to_sales.Base.{
  [], ◌∷◌, none, leb, ◌++◌, if◌then◌else◌, str_eq, some, false, not, ◌&&◌, has_key, select, find?,
  true, List, Bool, Option, String, ℕ,
}
use chat_to_sales.Models.{Db, ScheduledStatus, ScheduledMessage, Env}
use chat_to_sales.Session.{raise_if, gets, ◌>>=◌, modify, ◌>>◌, pure, Action, not_found}

abbrev pub is_pending_message : ScheduledStatus → Bool
is_pending_message ScheduledStatus.pending = true
is_pending_message _ = false

abbrev pub scheduled_id : ScheduledMessage → String
scheduled_id s = s.id

abbrev pub new_scheduled : Env → String → String → String → ℕ → ScheduledMessage
new_scheduled e tenant_id conversation_id content scheduled_for = record {
  id = e.fresh_id;
  tenant_id = tenant_id;
  conversation_id = conversation_id;
  content = content;
  scheduled_for = scheduled_for;
  status = ScheduledStatus.pending;
}

unfoldable pub insert_scheduled : ScheduledMessage → Action ScheduledMessage
insert_scheduled s = do modify (λ db. record db { scheduled = db.scheduled ++ s ∷ [] }); pure s

unfoldable pub get_scheduled_message_by_id : String → String → String → Db → Option ScheduledMessage
get_scheduled_message_by_id id conversation_id tenant_id db =
    find?
      (λ s.
        has_key scheduled_id id s
        && (str_eq s.conversation_id conversation_id && str_eq s.tenant_id tenant_id))
      db.scheduled

unfoldable pub get_pending_scheduled_messages : ℕ → Db → List ScheduledMessage
get_pending_scheduled_messages now db =
    select (λ s. is_pending_message s.status && leb s.scheduled_for now) db.scheduled

-- `session.delete`, of the row with its key.
unfoldable pub delete_scheduled : String → Db → Db
delete_scheduled id db = record db {
  scheduled = select (λ s. not (has_key scheduled_id id s)) db.scheduled;
}

-- The repository's `cancel_scheduled_message`: whether a row was deleted.
unfoldable pub cancel_found : Option ScheduledMessage → Action Bool
unfolding delete_scheduled
cancel_found none = pure false
cancel_found (some s) =
    if is_pending_message s.status
    then (do modify (delete_scheduled s.id); pure true)
    else pure false

unfoldable pub create_scheduled_message :
    Env → String → String → String → ℕ → Action ScheduledMessage
unfolding insert_scheduled get_conversation
create_scheduled_message e conversation_id tenant_id content scheduled_for = do
  get_conversation conversation_id (some tenant_id)
  insert_scheduled (new_scheduled e tenant_id conversation_id content scheduled_for)

unfoldable pub cancel_scheduled_message : String → String → String → Action (Unit {0})
unfolding cancel_found get_conversation get_scheduled_message_by_id
cancel_scheduled_message conversation_id id tenant_id = do
  get_conversation conversation_id (some tenant_id)
  deleted ← cancel_found (← gets (get_scheduled_message_by_id id conversation_id tenant_id))
  raise_if (not deleted) (not_found "ScheduledMessage" id)
