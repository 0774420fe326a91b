-- ===== src/Orders/Dialogue/Walks.antt =====
-- Each part of the handler of a customer's message is such a run: it talks to the customer and to the
-- trader only, and of the orders it changes one that is an inquiry or adds one.
use chat_to_sales.Notifications.Outcomes.{send-Sends}
use chat_to_sales.Orders.StateMachine.{value, validate_transition}
use mathlib.Core.List.{Memᴰ}
use chat_to_sales.Orders.Dialogue.Talks.{Talks, Turn, Negotiated}
use chat_to_sales.World.{begin, attempt, Attachment, Button, World}
use chat_to_sales.Notifications.Service.{
  send_message, captioned, send_in_transaction, send_interactive, send_list, send_image, Notice,
}
use chat_to_sales.Orders.Repository.{get_by_id, with_state, update_order, add_item, update_state}
use chat_to_sales.Orders.Dialogue.Placing.{add_lines}
use chat_to_sales.Orders.Dialogue.{Chat, Setting}
use chat_to_sales.Orders.Service.{with_amount, transition}
use chat_to_sales.Orders.Dialogue.Quantity.{
  quoted, hundredths, if_inquiry, requote, is_inquiry, session_order,
}
use mathlib.Core.Option.{some-injective}
use chat_to_sales.Base.{
  str_eq, if◌then◌else◌, subst, Bool-cases, Bool, [], none, Option-cases, inl, inr, ℕ, ◌∷◌, some,
  ◌⊎◌, List, refl, ◌≡◌, Option, ℤ, String, true, false,
}
use chat_to_sales.Models.{Line, OrderItem, Env, Db, Order, inquiry, failed, OrderState}
use chat_to_sales.Orders.Service.Changes.{get_by_id-mem}
use chat_to_sales.Orders.Dialogue.Replies.{sending_env, guarded}

-- The recipients of a call.
abbrev pub Addressed : String → String → Notice → Type 0
Addressed customer trader n = (n.recipient ≡ customer) ⊎ (n.recipient ≡ trader)

module _ (S : Setting) (P : Notice → Type 0) (w : World) where
  abbrev pub Walk : Chat S → Type 0
  Walk c = Talks P S.env w c.world

  guarded-Talks :
      (n n' : Notice) (v : World)
      → P n'
      → Talks P S.env w v
      → Talks P S.env w (guarded S n (send_message S.provider (sending_env S n) n') v)
  unfolding guarded send_in_transaction
  guarded-Talks n n' v allowed before = by_phone (str_eq n.recipient "")
    where
      by_phone :
          (nobody : Bool)
          → Talks P S.env w (
              if nobody
              then v
              else attempt (begin (send_message S.provider (sending_env S n) n')) v)
      by_phone true = before
      by_phone false =
          Talks.said v _ (sending_env S n) n' before allowed
            (send-Sends S.provider (sending_env S n) n' v)

  -- A reply of each kind; the guard is what the four functions share.
  pub reply-Walk :
      (n : Notice) (v : World)
      → P n
      → Talks P S.env w v
      → Talks P S.env w (guarded S n (send_message S.provider (sending_env S n) n) v)
  reply-Walk n v allowed before = guarded-Talks n n v allowed before

  pub reply_interactive-Walk :
      (n : Notice) (buttons : List Button) (v : World)
      → P (record n { attachment = Attachment.interactive buttons })
      → Talks P S.env w v
      → Talks P S.env w (guarded S n (send_interactive S.provider (sending_env S n) n buttons) v)
  unfolding send_interactive
  reply_interactive-Walk n buttons v allowed before = guarded-Talks n _ v allowed before

  pub reply_list-Walk :
      (n : Notice) (label : String) (sections : List (String × List Button)) (v : World)
      → P (record n { attachment = Attachment.list_picker label sections })
      → Talks P S.env w v
      → Talks P S.env w (guarded S n (send_list S.provider (sending_env S n) n label sections) v)
  unfolding send_list
  reply_list-Walk n label sections v allowed before = guarded-Talks n _ v allowed before

  pub reply_image-Walk :
      (n : Notice) (media_id : String) (caption : Option String) (v : World)
      → P (record n {
        message_text = captioned caption "[image]";
        attachment = Attachment.image media_id caption;
      })
      → Talks P S.env w v
      → Talks P S.env w (guarded S n (send_image S.provider (sending_env S n) n media_id caption) v)
  unfolding send_image
  reply_image-Walk n media_id caption v allowed before = guarded-Talks n _ v allowed before

-- The parts that change orders.
abbrev amount_Negotiated : (o : Order) (a : ℤ) → o.state ≡ inquiry → Negotiated o (with_amount a o)
amount_Negotiated o a was = record {
  was_inquiry = was;
  open_or_failed = inl was;
  same_id = refl;
  same_tenant = refl;
  same_conversation = refl;
  same_customer = refl;
}

abbrev failed_Negotiated : (o : Order) → o.state ≡ inquiry → Negotiated o (with_state failed o)
failed_Negotiated o was = record {
  was_inquiry = was;
  open_or_failed = inr refl;
  same_id = refl;
  same_tenant = refl;
  same_conversation = refl;
  same_customer = refl;
}

is_inquiry-state : (s : OrderState) → is_inquiry s ≡ true → s ≡ inquiry
is_inquiry-state OrderState.inquiry h = refl
is_inquiry-state OrderState.confirmed h = cc
is_inquiry-state OrderState.paid h = cc
is_inquiry-state OrderState.failed h = cc

-- The order of a session that still is an inquiry is a row of the table in that state.
pub session_order-mem :
    (id : Option String) (t : String) (db : Db) (o : Order)
    → if_inquiry (session_order id t db) ≡ some o
    → Memᴰ o db.orders × (o.state ≡ inquiry)
unfolding session_order
session_order-mem none t db o h = cc
session_order-mem (some id) t db o h = elim (Option-cases (get_by_id id (some t) db)) [
  | inl gone ↦ absurd (clash (rw gone at h))
  | inr (r, found) ↦ elim (Bool-cases (is_inquiry r.state)) [
    | inr other ↦ absurd (clash (rw other at rw found at h))
    | inl waits ↦
        let same_row : r ≡ o = some-injective r o (rw waits at rw found at h) in
        subst (λ x. Memᴰ x db.orders × (x.state ≡ inquiry)) same_row
          (get_by_id-mem id (some t) db r found, is_inquiry-state r.state waits)
  ]
]
  where
    clash : none ≡ some o → ⊥
    clash p = cc

pub requote-Turn :
    (e : Env) (o : Order) (item : OrderItem) (qty : ℕ) (db : Db)
    → Memᴰ o db.orders
    → o.state ≡ inquiry
    → Turn e db.orders (requote o item qty db).orders
unfolding requote update_order
requote-Turn e o item qty db m was =
    Turn.revised o (with_amount (hundredths (quoted item qty))) m (λ x. refl)
      (amount_Negotiated o _ was) refl

pub drop-Turn :
    (e : Env) (o : Order) (db : Db)
    → Memᴰ o db.orders
    → o.state ≡ inquiry
    → Turn e db.orders (transition o failed db).1.orders
unfolding transition update_state update_order
drop-Turn e o db m was =
    elim (Option-cases (validate_transition o.id (value o.state) (value failed))) [
      | inl good ↦
          Turn.revised o (with_state failed) m (λ x. refl) (failed_Negotiated o was) (rw good)
      | inr (x, refused) ↦ Turn.same (rw refused)
    ]

pub add_lines-orders :
    (id : String) (lines : List Line) (db : Db)
    → ((add_lines id lines db).1.orders ≡ db.orders)
      × ((add_lines id lines db).1.notifications ≡ db.notifications)
unfolding add_lines add_item
add_lines-orders id [] db = (refl, refl)
add_lines-orders id (l ∷ ls) db = add_lines-orders id ls _
