-- ===== src/Orders/Dialogue/Confirmation.antt =====
-- app/modules/orders/service.py, `handle_inbound_customer_message`: an answer to the summary of an
-- order (AWAITING_CUSTOMER_CONFIRMATION), which confirms it, cancels it, makes another offer, or is
-- none of these.
use chat_to_sales.Orders.Service.{transition}
use chat_to_sales.Orders.Dialogue.Replies.{
  reply, save_session, in_store, reference, trader_notice, drop_session, in_world, ◌▹◌,
  customer_notice, reply_image, reply_interactive,
}
use chat_to_sales.Marketing.Followups.{log_interest}
use chat_to_sales.Orders.Sessions.{set_quiet_mode, set_pending_negotiation, get_last_clarification}
use chat_to_sales.World.{on_db, begin, Button}
use chat_to_sales.Orders.Dialogue.{
  Intent, ParsedItem, OrderSession, Numbered, Negotiation, Chat, ParseResult, Clarification,
  Summary, Incoming, Setting,
}
use chat_to_sales.Base.{
  ◌||◌, str_eq, ◌==◌, is_zero_ℤ, if◌then◌else◌, some, ℤ, [], none, ℕ, Option, append_text, ◌∷◌,
  List, String,
}
use chat_to_sales.Models.{failed, Reply, Order, Line, Content}

-- Whether a call ended by itself or with an exception of the parser.
pub data Ending : Type 0 where
  finished raised : Ending

abbrev pub confirm_buttons : String → List Button
confirm_buttons order_ref =
    record { id = append_text "CONFIRM " order_ref; title = "✅ Confirm" }
    ∷ record { id = append_text "CANCEL " order_ref; title = "❌ Decline" }
    ∷ []

abbrev pub offer_buttons : String → List Button
offer_buttons phone =
    record { id = append_text "NEGACCEPT_" phone; title = "✅ Accept" }
    ∷ record { id = append_text "NEGCOUNTER_" phone; title = "💰 Counter-offer" }
    ∷ record { id = append_text "NEGDECLINE_" phone; title = "❌ Decline" }
    ∷ []

-- `items[0].get("name", ...) if items else ...`
abbrev pub first_name : String → List Line → String
first_name default [] = default
first_name default (l ∷ ls) = l.name

-- `result.items[0]["unit_price"] if result.items else None`, unless that is `None` or 0
abbrev pub offer_in : List ParsedItem → Option ℕ
offer_in [] = none
offer_in (x ∷ xs) = nonzero x.unit_price
  where
    nonzero : Option ℕ → Option ℕ
    nonzero none = none
    nonzero (some n) = if n == 0 then none else some n

module _ (S : Setting) (i : Incoming) where
  -- The customer's photo, if the order came from one.
  unfoldable pub forward_photo : Order → Option String → Chat S → Chat S
  unfolding reply_image
  forward_photo o none c = c
  forward_photo o (some media_id) c =
      if str_eq media_id ""
      then c
      else reply_image S (trader_notice i "order.image_notify_trader." o.id (Content.text ""))
          media_id
          (some
            (append_text "Customer +" (append_text i.customer_phone " wants to buy this item:")))
          c

  -- Intent CONFIRM, with the order if it still is an inquiry.
  unfoldable pub on_confirm : Summary → Option Order → Chat S → Chat S
  unfolding reply forward_photo reply_interactive
  on_confirm s none c =
      c
      ▹ drop_session S i.tenant_id i.customer_phone
      ▹ reply S (
          customer_notice i "order.customer_confirm_missing." i.message_id
            (Content.from_template Reply.order_gone))
  on_confirm s (some o) c =
      c
      ▹ forward_photo o s.media_id
      ▹ reply_interactive S
          (trader_notice i "order.trader_notify." o.id (
            Content.from_template (
              Reply.order_received s.items s.total i.customer_phone (reference o.id)
                i.customer_name)))
          (confirm_buttons (reference o.id))
      ▹ drop_session S i.tenant_id i.customer_phone
      ▹ reply S (
          customer_notice i "order.customer_pending." o.id
            (Content.from_template (Reply.order_pending_to_customer i.trader.business_name)))
      ▹ in_store S (set_quiet_mode S.redis S.env.now i.tenant_id i.customer_phone)

  -- `try: await self._transition(order, FAILED) except ConflictError: pass`
  unfoldable pub drop_order : Option Order → Chat S → Chat S
  unfolding transition
  drop_order none c = c
  drop_order (some o) c = in_world S (λ w. (on_db (transition o failed) w).1) c

  -- The list of the last question, if it had one, is what the customer picks from again.
  unfoldable pub repick : Option Clarification → Chat S → Chat S
  unfolding reply
  repick last c = restore last c
    where
      cancelled : Chat S → Chat S
      cancelled c =
          c
          ▹ drop_session S i.tenant_id i.customer_phone
          ▹ reply S (
              customer_notice i "order.customer_cancel." i.message_id
                (Content.from_template (Reply.order_cancelled_to_customer i.trader.business_name)))

      picked_from : Clarification → List Numbered → Chat S → Chat S
      picked_from q [] c = cancelled c
      picked_from q (n ∷ ns) c =
          c
          ▹ save_session S i.tenant_id i.customer_phone (OrderSession.awaiting_clarification q)
          ▹ reply S (
              customer_notice i "order.cancel_repick." i.message_id
                (Content.from_template Reply.cancelled_repick))

      restore : Option Clarification → Chat S → Chat S
      restore none c = cancelled c
      restore (some q) c = picked_from q q.numbered_items c

  -- `_log_interest`, in a transaction of its own
  unfoldable pub log_first : List Line → Chat S → Chat S
  unfolding log_interest
  log_first [] c = c
  log_first (l ∷ ls) c =
      in_world S
        (λ w.
          (begin
            (on_db (
              log_interest (record { fresh_id = S.keys i.message_id; now = S.env.now })
                record {
                  tenant_id = i.tenant_id;
                  trader_phone = i.trader.phone_number;
                  customer_phone = i.customer_phone;
                  customer_name = i.customer_name;
                  product_name = l.name;
                  price = some l.unit_price;
                  event_type = "order_cancelled";
                }))
            w).1)
        c

  -- Intent CANCEL.
  unfoldable pub on_cancel : Summary → Option Order → Chat S → Chat S
  unfolding drop_order repick log_first get_last_clarification
  on_cancel s found c =
      let dropped = drop_order found c in
      dropped
      ▹ repick (
          get_last_clarification S.redis S.clarification_json S.env.now i.tenant_id i.customer_phone
            dropped.store)
      ▹ log_first s.items

  -- The offer goes to the trader with three buttons, and waits for the answer.
  unfoldable pub escalate : String → String → Negotiation → Chat S → Chat S
  unfolding reply_interactive set_pending_negotiation
  escalate event key n c =
      c
      ▹ reply_interactive S
          (trader_notice i event key (
            Content.from_template (
              Reply.negotiation_to_trader_with_price i.customer_phone i.customer_name n.product_name
                n.original_price n.offered_price)))
          (offer_buttons i.customer_phone)
      ▹ in_store S (
          set_pending_negotiation S.redis S.negotiation_json S.env.now i.trader.phone_number
            i.customer_phone n)

  abbrev pub negotiation_of : ℕ → ℤ → String → List Line → Option String → Negotiation
  negotiation_of offered original product items order_id = record {
    offered_price = offered;
    original_price = original;
    product_name = product;
    items = items;
    order_id = order_id;
    tenant_id = i.tenant_id;
    channel_tenant_id = i.channel_tenant_id;
  }

  -- `if offered_price and original_price and trader_phone_str`
  unfoldable pub new_round : Summary → Option ℕ → Chat S → Chat S
  unfolding escalate
  new_round s none c = c
  new_round s (some offered) c =
      if is_zero_ℤ s.total || str_eq i.trader.phone_number ""
      then c
      else escalate "order.neg_round." i.message_id
          (negotiation_of offered s.total (first_name "the item" s.items) s.items s.order_id) c

  unfoldable pub counter_offer : Summary → Option ℕ → Chat S → Chat S
  unfolding new_round reply
  counter_offer s offer c =
      c
      ▹ drop_session S i.tenant_id i.customer_phone
      ▹ reply S (
          customer_notice i "order.neg_hold." i.message_id
            (Content.from_template Reply.negotiation_hold_customer))
      ▹ new_round s offer

  unfoldable pub show_again : Summary → Chat S → Chat S
  unfolding reply
  show_again s = reply S (
      customer_notice i "order.re_summary." i.message_id
        (Content.from_template (Reply.order_summary s.items s.total i.trader.business_name)))

  -- Neither YES nor NO: the second parse decides, and may raise.
  unfoldable pub otherwise : Summary → Option ParseResult → Chat S → Ending × Chat S
  unfolding counter_offer show_again
  otherwise s none c = (raised, c)
  otherwise s (some result) c = elim result.intent [
    | Intent.negotiation ↦ (finished, counter_offer s (offer_in result.items) c)
    | _ ↦ (finished, show_again s c)
  ]
