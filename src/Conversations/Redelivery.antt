-- ===== src/Conversations/Redelivery.antt =====
-- A message that the channel delivers again, and the one active conversation with a sender.
use chat_to_sales.Conversations.Inbound.{
  named-message, found_refreshed, save_message-conversations, save_message-again, handle_found,
  finish_inbound_lem, refresh_again, save_message-ok, finish_inbound, named, found_for,
  handle_inbound-Opened,
}
use chat_to_sales.Session.{Result, ok}
use chat_to_sales.Conversations.Service.{
  with_customer_name, inbound_conversation, wants_name, refresh_name, inbound_message,
  handle_inbound, Inbound,
}
use chat_to_sales.Conversations.Repository.{
  conversation_id_of, new_conversation, update_conversation, save_message, talks_with,
  get_conversation_by_sender,
}
use chat_to_sales.Base.{
  latest-none, eq_of_str_eq, arith, sym, count-append, [], subst, has_key, refl, count-update_where,
  ◌∷◌, inr, inl, ◌∙◌, latest, Bool-cases, ap, ◌++◌, none, ◌≤◌, some, ◌≡◌, count, String, List,
  Option,
}
use chat_to_sales.Models.{Message, Db, Conversation, Env}

named-id : (name : Option String) (c : Conversation) → (named name c).id ≡ c.id
named-id name c = elim (Bool-cases (wants_name name c.customer_name)) [
  | inl wanted ↦ rw wanted refl
  | inr settled ↦ rw settled refl
]

-- The rest of the method on a conversation whose name is settled and a message that is there.
finish_again :
    (e e' : Env) (k k' : String) (m : Inbound) (c : Conversation) (db : Db) (x : String)
    → m.external_id ≡ some x
    → let db₃ = (save_message (record e { fresh_id = k }) (inbound_message m c) db).1 in
      finish_inbound e' k' m (named m.sender_name c) db₃ ≡ (ok (c.id, none), db₃)
finish_again e e' k k' m c db x keyed =
    let saved = save_message (record e { fresh_id = k }) (inbound_message m c) db in
    let c' = named m.sender_name c in
    let still = ap (λ (r : Result (Unit {0}) × Db). r.1) (refresh_again m.sender_name c saved.1) in
    let again =
      save_message-again (record e { fresh_id = k }) (record e' { fresh_id = k' })
        (inbound_message m c) x db keyed in
    let again' =
      ap (λ n. save_message (record e' { fresh_id = k' }) n saved.1) (named-message m c) ∙ again in
    let at_refreshed =
      ap (save_message (record e' { fresh_id = k' }) (inbound_message m c')) still ∙ again' in
    finish_inbound_lem e' k' m c' saved.1 none (
      at_refreshed
      ∙ ap (λ (d : Db). (ok none, d))
          (sym (ap (λ (r : Result (Option Message) × Db). r.1) at_refreshed)))
    ∙ ap (λ (d : Db). (ok (c'.id, none), d))
        (ap (λ (r : Result (Option Message) × Db). r.1) at_refreshed)
    ∙ ap (λ i. (ok (i, none), saved.1)) (named-id m.sender_name c)

found_by :
    (m : Inbound) (db db' : Db)
    → db.conversations ≡ db'.conversations
    → found_for m db ≡ found_for m db'
unfolding get_conversation_by_sender
found_by m db db' same =
    ap (latest (talks_with m.tenant_id m.sender_id m.channel) (λ c. c.created_at)) same

-- A message with the channel's own key that is handled twice, at any later time: the first call
-- gives its conversation, and the second one gives the same conversation, no new message, and
-- changes nothing in the database.
pub handle_inbound_again :
    (e e' : Env) (k k' x : String) (m : Inbound) (db : Db)
    → m.external_id ≡ some x
    → let db' = (handle_inbound e k m db).1 in
      (id : String) × (r : Option Message) × (handle_inbound e k m db ≡ (ok (id, r), db'))
      × (handle_inbound e' k' m db' ≡ (ok (id, none), db'))
handle_inbound_again e e' k k' x m db keyed =
    let o = handle_inbound-Opened e k m db in
    let db₂ = (refresh_name m.sender_name o.conv o.opened).1 in
    let n = inbound_message m o.conv in
    let e₁ = record e { fresh_id = k } in
    let db₃ = (save_message e₁ n db₂).1 in
    let (r, saved) = save_message-ok e₁ n db₂ in
    let first = o.rest ∙ finish_inbound_lem e k m o.conv o.opened r saved in
    let after_first = ap (λ (s : Result (String × Option Message) × Db). s.1) first in
    let second =
      handle_found e' k' m (named m.sender_name o.conv) db₃ (
        found_by m db₃ db₂ (save_message-conversations e₁ n db₂)
        ∙ found_refreshed m o.conv o.opened o.found)
      ∙ finish_again e e' k k' m o.conv db₂ x keyed in
    (
      o.conv.id,
      r,
      first ∙ ap (λ (d : Db). (ok (o.conv.id, r), d)) (sym after_first),
      subst (λ d. handle_inbound e' k' m d ≡ (ok (o.conv.id, none), d)) (sym after_first) second,
    )

-- There is at most one active conversation with each sender on each channel of a tenant.
unfoldable pub IsSingle : List Conversation → Type 0
IsSingle cs = (t s ch : String) → count (talks_with t s ch) cs ≤ 1

opened-IsSingle :
    (e : Env) (m : Inbound) (db : Db)
    → found_for m db ≡ none
    → IsSingle db.conversations
    → IsSingle (db.conversations ++ new_conversation e (inbound_conversation m) ∷ [])
unfolding IsSingle get_conversation_by_sender
opened-IsSingle e m db absent single t s ch =
    let new = new_conversation e (inbound_conversation m) in
    rw (count-append (talks_with t s ch) db.conversations (new ∷ []))
      (elim (Bool-cases (talks_with t s ch new)) [
        | inr other ↦ rw other (omega (arith, single t s ch))
        | inl same ↦
            rw
              (
                same,
                ← eq_of_str_eq m.tenant_id t (ground arith),
                ← eq_of_str_eq m.sender_id s (ground arith),
                ← eq_of_str_eq m.channel ch (ground arith),
                latest-none (talks_with m.tenant_id m.sender_id m.channel) (λ c. c.created_at)
                    db.conversations absent,
              )
              (omega arith)
      ])

refresh-IsSingle :
    (name : Option String) (c : Conversation) (db : Db)
    → IsSingle db.conversations
    → IsSingle (refresh_name name c db).1.conversations
unfolding refresh_name update_conversation IsSingle
refresh-IsSingle name c db single t s ch = elim (Bool-cases (wants_name name c.customer_name)) [
  | inr settled ↦ rw settled (single t s ch)
  | inl wanted ↦
      rw
        (
          wanted,
          count-update_where (talks_with t s ch) (has_key conversation_id_of c.id)
              (with_customer_name name) db.conversations (λ x. refl),
        )
        (single t s ch)
]

-- An inbound message keeps it so that there is at most one active conversation with each sender on
-- each channel of a tenant.
pub handle_inbound-IsSingle :
    (e : Env) (k : String) (m : Inbound) (db : Db)
    → IsSingle db.conversations
    → IsSingle (handle_inbound e k m db).1.conversations
handle_inbound-IsSingle e k m db single =
    let o = handle_inbound-Opened e k m db in
    let e₁ = record e { fresh_id = k } in
    let n = inbound_message m o.conv in
    let db₂ = (refresh_name m.sender_name o.conv o.opened).1 in
    let (r, saved) = save_message-ok e₁ n db₂ in
    let rows =
      ap (λ (s : Result (String × Option Message) × Db). s.1.conversations)
        (o.rest ∙ finish_inbound_lem e k m o.conv o.opened r saved)
      ∙ save_message-conversations e₁ n db₂ in
    let opened : IsSingle o.opened.conversations = elim o.origin [
      | inl same ↦ subst (λ (d : Db). IsSingle d.conversations) (sym same) single
      | inr (absent, added) ↦ subst IsSingle (sym added) (opened-IsSingle e m db absent single)
    ] in
    subst IsSingle (sym rows) (refresh-IsSingle m.sender_name o.conv o.opened opened)
