-- ===== src/Conversations/Inbound.antt =====
-- What `handle_inbound` does to the conversations, and a message that the channel delivers again.
-- The rest of the method, once there is a conversation.
use chat_to_sales.Session.{Result, ok, pure, ◌>>=◌, ◌>>◌, Action}
use chat_to_sales.Base.{
  ◌⊎◌, find?-append_none, ◌∙◌, find?, has_key, none, latest-update_where, arith, Bool-cases, false,
  if◌then◌else◌, ap, latest-append_none, [], ◌∷◌, ◌++◌, inl, inr, refl, latest, str_eq_self,
  Option-cases, some, true, ◌≡◌, Option, String,
}
use chat_to_sales.Conversations.Service.{
  with_customer_name, wants_name, inbound_message, refresh_name, inbound_conversation, Inbound,
  handle_inbound,
}
use chat_to_sales.Models.{Message, Conversation, Db, Env}
use chat_to_sales.Conversations.Repository.{
  save_unless, new_message, has_external, conversation_id_of, NewMessage,
  get_message_by_external_id, update_conversation, duplicate_of, create_conversation_unless,
  save_message, new_conversation, get_conversation_by_sender, talks_with, is_active_conversation,
}

abbrev pub finish_inbound : Env → String → Inbound → Conversation → Action (String × Option Message)
finish_inbound e message_key m conv = do
  refresh_name m.sender_name conv
  msg ← save_message (record e { fresh_id = message_key }) (inbound_message m conv)
  pure (conv.id, msg)

abbrev pub found_for : Inbound → Db → Option Conversation
found_for m db = get_conversation_by_sender m.tenant_id m.sender_id m.channel db

-- The first step finds the conversation or makes it, and then the query finds it.
pub record Opened (e : Env) (k : String) (m : Inbound) (db : Db) : Type 0 where
  pub conv : Conversation
  pub opened : Db
  pub rest : handle_inbound e k m db ≡ finish_inbound e k m conv opened
  pub found : found_for m opened ≡ some conv
  pub origin :
      (opened ≡ db)
      ⊎ ((found_for m db ≡ none)
          × (opened.conversations
              ≡ db.conversations ++ new_conversation e (inbound_conversation m) ∷ []))

new_conversation-talks :
    (e : Env) (m : Inbound)
    → talks_with m.tenant_id m.sender_id m.channel (new_conversation e (inbound_conversation m))
      ≡ true
unfolding is_active_conversation
new_conversation-talks e m =
    rw (str_eq_self m.tenant_id, str_eq_self m.sender_id, str_eq_self m.channel) refl

pub handle_inbound-Opened : (e : Env) (k : String) (m : Inbound) (db : Db) → Opened e k m db
unfolding handle_inbound get_conversation_by_sender
handle_inbound-Opened e k m db =
    let p = talks_with m.tenant_id m.sender_id m.channel in
    let new = new_conversation e (inbound_conversation m) in
    elim (Option-cases (latest p (λ c. c.created_at) db.conversations)) [
      | inr (c, hit) ↦ record {
        conv = c;
        opened = db;
        rest = by_found hit;
        found = hit;
        origin = inl refl;
      }
      | inl absent ↦ record {
        conv = new;
        opened = record db { conversations = db.conversations ++ new ∷ [] };
        rest = by_found absent;
        found =
            latest-append_none p (λ c. c.created_at) db.conversations new absent
              (new_conversation-talks e m);
        origin = inr (absent, refl);
      }
    ]
  where
    by_found :
        {o : Option Conversation}
        → found_for m db ≡ o
        → handle_inbound e k m db
          ≡ (create_conversation_unless e (inbound_conversation m) o >>= λ (conv, created).
                finish_inbound e k m conv)
              db
    by_found h =
        ap
          (λ o.
            (create_conversation_unless e (inbound_conversation m) o >>= λ (conv, created).
            finish_inbound e k m conv)
              db)
          h

-- The row of the conversation after the name of the sender has been taken over.
abbrev pub named : Option String → Conversation → Conversation
named name c = if wants_name name c.customer_name then with_customer_name name c else c

name_settles :
    (name : Option String) (c : Conversation) → wants_name name (named name c).customer_name ≡ false
unfolding wants_name
name_settles none c = refl
name_settles (some s) c = ground (arith, str_eq_self s)

pub refresh_again :
    (name : Option String) (c : Conversation) (db : Db)
    → refresh_name name (named name c) db ≡ (ok tt, db)
unfolding refresh_name
refresh_again name c db = rw (name_settles name c) refl

pub found_refreshed :
    (m : Inbound) (c : Conversation) (db : Db)
    → found_for m db ≡ some c
    → found_for m (refresh_name m.sender_name c db).1 ≡ some (named m.sender_name c)
unfolding get_conversation_by_sender refresh_name update_conversation
found_refreshed m c db found = elim (Bool-cases (wants_name m.sender_name c.customer_name)) [
  | inr settled ↦ rw settled found
  | inl wanted ↦ rw wanted (
      latest-update_where (talks_with m.tenant_id m.sender_id m.channel)
        (has_key conversation_id_of c.id) (with_customer_name m.sender_name) (λ x. x.created_at)
        db.conversations (λ x. refl) (λ x. refl)
      ∙ rw (found, str_eq_self c.id) refl)
]

-- A message with the channel's key is there once it has been saved.
pub save_message-again :
    (e e' : Env) (n : NewMessage) (x : String) (db : Db)
    → n.external_id ≡ some x
    → save_message e' n (save_message e n db).1 ≡ (ok none, (save_message e n db).1)
unfolding save_message duplicate_of get_message_by_external_id
save_message-again e e' n x db keyed =
    let p = has_external n.conversation_id x in
    elim (Option-cases (find? p db.messages)) [
      | inr (old, found) ↦ ground (arith, keyed)
      | inl absent ↦ ground (
        arith,
        keyed,
        find?-append_none p db.messages (new_message e n ∷ []) absent,
        str_eq_self n.conversation_id,
        str_eq_self x,
      )
    ]

pub save_message-ok :
    (e : Env) (n : NewMessage) (db : Db)
    → (r : Option Message) × (save_message e n db ≡ (ok r, (save_message e n db).1))
unfolding save_message
save_message-ok e n db = by_duplicate (duplicate_of n db)
  where
    by_duplicate :
        (o : Option Message)
        → (r : Option Message) × (save_unless e n o db ≡ (ok r, (save_unless e n o db).1))
    by_duplicate none = (some (new_message e n), refl)
    by_duplicate (some old) = (none, refl)

pub save_message-conversations :
    (e : Env) (n : NewMessage) (db : Db) → (save_message e n db).1.conversations ≡ db.conversations
unfolding save_message
save_message-conversations e n db = by_duplicate (duplicate_of n db)
  where
    by_duplicate : (o : Option Message) → (save_unless e n o db).1.conversations ≡ db.conversations
    by_duplicate none = refl
    by_duplicate (some old) = refl

pub refresh_name-ok :
    (name : Option String) (c : Conversation) (db : Db)
    → refresh_name name c db ≡ (ok tt, (refresh_name name c db).1)
unfolding refresh_name
refresh_name-ok name c db = refl

-- What the rest of the method leaves, by its two steps.
pub finish_inbound_lem :
    (e : Env) (k : String) (m : Inbound) (c : Conversation) (db : Db) (r : Option Message)
    → let db₂ = (refresh_name m.sender_name c db).1 in
      let saved = save_message (record e { fresh_id = k }) (inbound_message m c) db₂ in
      saved ≡ (ok r, saved.1) → finish_inbound e k m c db ≡ (ok (c.id, r), saved.1)
unfolding refresh_name
finish_inbound_lem e k m c db r saved =
    ap (λ (s : Result (Option Message) × Db). ((λ d. s) >>= λ msg. pure (c.id, msg)) db) saved

pub handle_found :
    (e : Env) (k : String) (m : Inbound) (c : Conversation) (db : Db)
    → found_for m db ≡ some c
    → handle_inbound e k m db ≡ finish_inbound e k m c db
unfolding handle_inbound get_conversation_by_sender
handle_found e k m c db found =
    ap
      (λ o.
        (create_conversation_unless e (inbound_conversation m) o >>= λ (conv, created).
        finish_inbound e k m conv)
          db)
      found

pub named-message :
    (m : Inbound) (c : Conversation)
    → inbound_message m (named m.sender_name c) ≡ inbound_message m c
named-message m c = elim (Bool-cases (wants_name m.sender_name c.customer_name)) [
  | inl wanted ↦ rw wanted refl
  | inr settled ↦ rw settled refl
]
