-- ===== src/Notifications/Handlers/Recipients.antt =====
-- Who hears of an event.
use chat_to_sales.Notifications.Once.{Once}
use mathlib.Core.Option.{some-injective}
use chat_to_sales.Orders.Repository.{get_by_id}
use chat_to_sales.Notifications.Outcomes.{send-Sends}
use mathlib.Core.List.{Memᴰ}
use chat_to_sales.Notifications.Service.{send_message, send_in_transaction, Notice}
use chat_to_sales.Notifications.Steps.{Steps-delivered, Steps-Once, Steps}
use chat_to_sales.Notifications.Handlers.{
  state_text, handle_order_state_changed_notification, handle_payment_confirmed_notification,
  tell_state, notify, handle_order_created_notification, present, order_event_notice, send_to_phone,
  tell_conversation, phone_from_order, phone_from_conversation,
}
use chat_to_sales.Conversations.Repository.{conversation_id_of, get_conversation_by_id}
use chat_to_sales.World.{Delivery, begin, World, Provider}
use chat_to_sales.Models.{OrderState, Order, Content, Conversation, Env, Db, Event}
use chat_to_sales.Base.{
  ◌∙◌, sym, inl, ◌⊎◌, inr, Bool-cases, find?-holds, arith, eq_of_str_eq, find?-mem, text_or, str_eq,
  truthy, if◌then◌else◌, subst, ◌&&◌, refl, ◌≢◌, none, has_key, some, true, Option, ◌≡◌, String,
}

abbrev pub tenant_of : Event → String
tenant_of (Event.order_created t order conv) = t
tenant_of (Event.order_created_with_items t order conv amount currency) = t
tenant_of (Event.order_state_changed t order conv previous new) = t
tenant_of (Event.order_paid t order conv amount currency) = t
tenant_of (Event.payment_created t payment order reference amount currency link) = t
tenant_of (Event.payment_confirmed t payment order reference amount currency) = t
tenant_of (Event.credit_sale_status_changed t sale order status) = t

-- A customer with a conversation of the tenant.
pub record Customer (t : String) (db : Db) (phone : String) : Type 0 where
  pub conversation : Conversation
  pub there : Memᴰ conversation db.conversations
  pub same_phone : conversation.customer_identifier ≡ phone
  pub same_tenant : conversation.tenant_id ≡ t

-- The notices of an event of a tenant.
abbrev ToCustomer : String → String → Db → Notice → Type 0
ToCustomer t id db n = Customer t db n.recipient × (n.event_id ≡ id)

conversation-Customer :
    (id t : String) (db : Db) (c : Conversation)
    → present t ≡ true
    → get_conversation_by_id id (some t) db ≡ some c
    → Customer t db c.customer_identifier
unfolding get_conversation_by_id
conversation-Customer id t db c named found =
    let fits = λ (x : Conversation).
      has_key conversation_id_of id x
      && (if truthy (some t) then str_eq x.tenant_id (text_or (some t) "") else true) in
    record {
      conversation = c;
      there = find?-mem fits db.conversations c found;
      same_phone = refl;
      same_tenant =
          eq_of_str_eq c.tenant_id t
            (ground (arith, find?-holds fits db.conversations c found, named));
    }

phone-Customer :
    (id t phone : String) (db : Db)
    → present t ≡ true
    → phone_from_conversation id t db ≡ some phone
    → Customer t db phone
unfolding phone_from_conversation
phone-Customer id t phone db named found = by_row (get_conversation_by_id id (some t) db) refl found
  where
    by_row :
        (o : Option Conversation)
        → get_conversation_by_id id (some t) db ≡ o
        → elim o [ none ↦ none | some conv ↦ some conv.customer_identifier ] ≡ some phone
        → Customer t db phone
    by_row none h e = absurd (none_clash e)
      where
        none_clash : {p : String} → none ≢ some p
        none_clash q = cc
    by_row (some c) h e =
        subst (Customer t db) (some-injective c.customer_identifier phone e)
          (conversation-Customer id t db c named h)

order_phone-Customer :
    (order t phone : String) (db : Db)
    → present t ≡ true
    → phone_from_order order t db ≡ some phone
    → Customer t db phone
unfolding phone_from_order
order_phone-Customer order t phone db named found = by_row (get_by_id order (some t) db) found
  where
    by_row :
        (o : Option Order)
        → elim o [ none ↦ none | some x ↦ phone_from_conversation x.conversation_id t db ]
          ≡ some phone
        → Customer t db phone
    by_row none e = absurd (none_clash e)
      where
        none_clash : {p : String} → none ≢ some p
        none_clash q = cc
    by_row (some x) e = phone-Customer x.conversation_id t phone db named e

module _ (provider : Provider) where
  abbrev Told : String → String → World → World → Type 0
  Told t id w w' = Steps (ToCustomer t id w.db) w w'

  send_to_phone-Told :
      (e : Env) (t id order : String) (content : Content) (o : Option String) (w : World)
      → ((phone : String) → o ≡ some phone → Customer t w.db phone)
      → Told t id w (begin (send_to_phone provider e t id order content o) w).1
  unfolding send_to_phone order_event_notice send_in_transaction send_message
  send_to_phone-Told e t id order content none w known = Steps.still _ refl refl
  send_to_phone-Told e t id order content (some phone) w known =
      let n = order_event_notice t id order content phone in
      Steps.then_send w _ e n (Steps.still w refl refl) (known phone refl, refl)
        (send-Sends provider e n w)

  tell_conversation-Told :
      (e : Env) (id t order conv : String) (content : Content) (w : World)
      → present t ≡ true
      → Told t id w (tell_conversation provider e id t order conv content w).1
  unfolding tell_conversation
  tell_conversation-Told e id t order conv content w named =
      send_to_phone-Told e t id order content (phone_from_conversation conv t w.db) w
        (λ phone found. phone-Customer conv t phone w.db named found)

  quiet : (t id : String) (w : World) → Told t id w w
  quiet t id w = Steps.still w refl refl

  created-Told :
      (e : Env) (id t order conv : String) (w : World)
      → Told t id w (handle_order_created_notification provider e id t order conv w).1
  unfolding handle_order_created_notification
  created-Told e id t order conv w =
      elim (Bool-cases (present t && (present order && present conv))) [
        | inr missing ↦ rw missing (quiet t id w)
        | inl complete ↦ rw complete (
            tell_conversation-Told e id t order conv (Content.order_created_text order) w
              (ground arith))
      ]

  tell_state-Told :
      (e : Env) (id t order conv : String) (c : Option Content) (w : World)
      → present t ≡ true
      → Told t id w (tell_state provider e id t order conv c w).1
  unfolding tell_state
  tell_state-Told e id t order conv none w named = quiet t id w
  tell_state-Told e id t order conv (some content) w named =
      tell_conversation-Told e id t order conv content w named

  changed-Told :
      (e : Env) (id t order conv : String) (new : OrderState) (w : World)
      → Told t id w (handle_order_state_changed_notification provider e id t order conv new w).1
  unfolding handle_order_state_changed_notification
  changed-Told e id t order conv new w =
      elim (Bool-cases (present t && (present order && present conv))) [
        | inr missing ↦ rw missing (quiet t id w)
        | inl complete ↦
            rw complete (tell_state-Told e id t order conv (state_text new order) w (ground arith))
      ]

  paid-Told :
      (e : Env) (id t order : String) (w : World)
      → Told t id w (handle_payment_confirmed_notification provider e id t order w).1
  unfolding handle_payment_confirmed_notification
  paid-Told e id t order w = elim (Bool-cases (present t && present order)) [
    | inr missing ↦ rw missing (quiet t id w)
    | inl complete ↦ rw complete (
        send_to_phone-Told e t id order (Content.payment_confirmed_text order)
          (phone_from_order order t w.db) w
          (λ phone found. order_phone-Customer order t phone w.db (ground arith) found))
  ]

  notify-Told :
      (e : Env) (id : String) (ev : Event) (w : World)
      → Told (tenant_of ev) id w (notify provider e id ev w).1
  unfolding notify
  notify-Told e id (Event.order_created t order conv) w = created-Told e id t order conv w
  notify-Told e id (Event.order_created_with_items t order conv amount currency) w =
      created-Told e id t order conv w
  notify-Told e id (Event.order_state_changed t order conv previous new) w =
      changed-Told e id t order conv new w
  notify-Told e id (Event.order_paid t order conv amount currency) w = quiet t id w
  notify-Told e id (Event.payment_created t payment order reference amount currency link) w =
      quiet t id w
  notify-Told e id (Event.payment_confirmed t payment order reference amount currency) w =
      paid-Told e id t order w
  notify-Told e id (Event.credit_sale_status_changed t sale order status) w = quiet t id w

  -- A message that goes out on an event carries the key of the event and goes to a customer who has
  -- a conversation with the tenant of the event; and if no event had been sent twice before, none
  -- has been afterwards. The provider may answer anything.
  pub notify_lem :
      (e : Env) (id : String) (ev : Event) (w : World)
      → Once w
      → let w' = (notify provider e id ev w).1 in
        Once w'
        × ((d : Delivery)
            → Memᴰ d w'.delivered
            → Memᴰ d w.delivered ⊎ (Customer (tenant_of ev) w.db d.to × (d.event_id ≡ id)))
  notify_lem e id ev w once =
      let steps = notify-Told e id ev w in
      (
        Steps-Once w _ steps once,
        λ d m. elim (Steps-delivered w _ d steps m) [
          | inl old ↦ inl old
          | inr (n, sent) ↦ inr (
            subst (Customer (tenant_of ev) w.db) (sym sent.same_recipient) sent.allowed.0,
            sent.same_event ∙ sent.allowed.1,
          )
        ],
      )
