-- ===== src/Orders/Dialogue/Customer.antt =====
-- app/modules/orders/service.py, `handle_inbound_customer_message`: a message that answers no summary,
-- by the intent that was parsed, `_handle_payment_sent`, and the whole handler.
use chat_to_sales.Orders.StateMachine.{same_state}
use chat_to_sales.Scheduler.OrderReminders.{whole_naira}
use chat_to_sales.Orders.Dialogue.Placing.{fill_prices, place_priced}
use chat_to_sales.Orders.Sessions.{save_last_clarification}
use chat_to_sales.Orders.Dialogue.Confirmation.{negotiation_of, offer_in, first_name, escalate}
use chat_to_sales.Orders.Repository.{get_open_order_by_customer_phone}
use chat_to_sales.World.{Button}
use chat_to_sales.Base.{
  ◌==◌, truthy, pos, str_eq, text_or, if◌then◌else◌, [], none, ◌∷◌, ℕ, Bool, append_text, some,
  String, List, Option, true, false,
}
use chat_to_sales.Models.{confirmed, Reply, Line, Order, Content}
use chat_to_sales.Orders.Dialogue.{
  Negotiation, ParsedItem, Chat, ParseResult, Clarification, OrderSession, Incoming, Setting,
  Intent,
}
use chat_to_sales.Orders.Dialogue.Replies.{
  reference, in_store, trader_notice, save_session, ◌▹◌, customer_notice, drop_session,
  reply_interactive, reply,
}

abbrev pub payment_buttons : String → List Button
payment_buttons order_ref =
    record { id = append_text "PAYRCVD " order_ref; title = "✅ Payment Received" }
    ∷ record { id = append_text "PAYNOTRCVD " order_ref; title = "❌ Not Received" }
    ∷ []

abbrev pub if_confirmed : Option Order → Option Order
if_confirmed none = none
if_confirmed (some o) = if same_state o.state confirmed then some o else none

-- The items and the order of a session; a question has neither.
abbrev pub session_items : Option OrderSession → List Line
session_items (some (OrderSession.awaiting_confirmation s)) = s.items
session_items _ = []

abbrev pub first_price : List Line → ℕ
first_price [] = 0
first_price (l ∷ ls) = l.unit_price

abbrev pub order_of_session : Option OrderSession → Option String
order_of_session (some (OrderSession.awaiting_confirmation s)) = s.order_id
order_of_session _ = none

module _ (S : Setting) (i : Incoming) where
  -- `_handle_payment_sent`, with the order if it is confirmed
  unfoldable pub payment_for : Bool → Option Order → Chat S → Chat S
  unfolding reply reply_interactive whole_naira
  payment_for has_screenshot none c =
      reply S
        (customer_notice i "order.payment_no_order." i.message_id
          (Content.from_template (Reply.no_confirmed_order_for_payment i.trader.business_name)))
        c
  payment_for has_screenshot (some o) c =
      c
      ▹ reply_interactive S
          (trader_notice i "order.payment_notify_trader." o.id (
            Content.from_template (
              Reply.payment_receipt_to_trader i.customer_phone
                (if truthy i.customer_name then i.customer_name else o.customer_name)
                (whole_naira o.amount) (reference o.id) has_screenshot)))
          (payment_buttons (reference o.id))
      ▹ reply S (
          customer_notice i "order.payment_ack." o.id
            (Content.from_template (Reply.payment_receipt_ack_to_customer i.trader.business_name)))

  unfoldable pub handle_payment_sent : Bool → Chat S → Chat S
  unfolding payment_for get_open_order_by_customer_phone
  handle_payment_sent has_screenshot c =
      payment_for has_screenshot
        (if_confirmed (get_open_order_by_customer_phone i.customer_phone i.tenant_id c.world.db)) c

  unfoldable pub no_session_reply : String → Chat S → Chat S
  unfolding reply
  no_session_reply event =
      reply S (customer_notice i event i.message_id (Content.from_template Reply.no_active_session))

  unfoldable pub chat_back : Option String → Chat S → Chat S
  unfolding reply
  chat_back question = reply S (
      customer_notice i "order.chitchat." i.message_id
        (Content.text (text_or question "Hi! What would you like to order?")))

  -- `if session: await clear_order_session(...)`
  abbrev pub drop_any : Option OrderSession → Chat S → Chat S
  drop_any none c = c
  drop_any (some s) c = drop_session S i.tenant_id i.customer_phone c

  unfoldable pub ask_generally : Option OrderSession → Chat S → Chat S
  unfolding reply
  ask_generally session = reply S (
      trader_notice i "order.neg_general." i.message_id (
        Content.from_template (
          Reply.negotiation_to_trader_general i.customer_phone i.customer_name
            (first_name "the item" (session_items session))
            (pos (first_price (session_items session))))))

  abbrev pub offer_of : Option OrderSession → ℕ → Negotiation
  offer_of session offered =
      negotiation_of S i offered (pos (first_price (session_items session)))
        (first_name "the item" (session_items session)) (session_items session)
        (order_of_session session)

  -- An offer with both prices has buttons; another one is only told.
  unfoldable pub by_offer : Option OrderSession → Option ℕ → Chat S → Chat S
  unfolding escalate ask_generally
  by_offer session none c = ask_generally session c
  by_offer session (some offered) c =
      if first_price (session_items session) == 0
      then ask_generally session c
      else escalate S i "order.neg_escalate." i.message_id (offer_of session offered) c

  unfoldable pub pass_offer : Option OrderSession → Option ℕ → Chat S → Chat S
  unfolding by_offer
  pass_offer session offer c =
      if str_eq i.trader.phone_number "" then c else by_offer session offer c

  unfoldable pub negotiate : Option OrderSession → Option ℕ → Chat S → Chat S
  unfolding reply pass_offer
  negotiate session offer c =
      c
      ▹ reply S (
          customer_notice i "order.neg_hold." i.message_id
            (Content.from_template Reply.negotiation_hold_customer))
      ▹ pass_offer session offer
      ▹ drop_any session

  abbrev pub question_for : String → Clarification
  question_for question = record {
    original_message = i.message;
    bot_reply = question;
    numbered_items = S.numbered_in question;
  }

  -- The question is asked, and kept twice: as the session, and to come back to after a cancel.
  unfoldable pub ask : String → Chat S → Chat S
  unfolding reply save_last_clarification
  ask question c =
      c
      ▹ save_session S i.tenant_id i.customer_phone
          (OrderSession.awaiting_clarification (question_for question))
      ▹ in_store S (
          save_last_clarification S.redis S.clarification_json S.env.now i.tenant_id
            i.customer_phone (question_for question))
      ▹ reply S (
          customer_notice i "order.clarify." i.message_id
            (Content.from_template (Reply.ask_clarification question)))

  unfoldable pub not_understood : Chat S → Chat S
  unfolding reply
  not_understood = reply S (
      customer_notice i "order.unknown." i.message_id
        (Content.from_template Reply.unknown_order_prompt))

  -- `result.clarification_needed and result.clarification_question`
  unfoldable pub ask_or_prompt : Bool → Option String → Chat S → Chat S
  unfolding ask not_understood
  ask_or_prompt true (some question) c =
      if str_eq question "" then not_understood c else ask question c
  ask_or_prompt _ _ c = not_understood c

  -- Every other intent, with items or without, is taken as an order.
  unfoldable pub order_items : List ParsedItem → Chat S → Chat S
  unfolding place_priced fill_prices
  order_items items c =
      let (missing, lines) = fill_prices S i items in
      place_priced S i "order.price_missing." "order.summary." missing lines c

  unfoldable pub order_or_ask : ParseResult → List ParsedItem → Chat S → Chat S
  unfolding order_items ask_or_prompt
  order_or_ask r [] c = ask_or_prompt r.clarification_needed r.clarification_question c
  order_or_ask r (x ∷ xs) c = order_items (x ∷ xs) c

  unfoldable pub by_intent : Option OrderSession → ParseResult → Intent → Chat S → Chat S
  unfolding no_session_reply chat_back handle_payment_sent negotiate ask_or_prompt order_or_ask
  by_intent none r Intent.confirm c = no_session_reply "order.stale_confirm." c
  by_intent none r Intent.cancel c = no_session_reply "order.stale_cancel." c
  by_intent session r Intent.ignore c = c
  by_intent session r Intent.chitchat c = chat_back r.clarification_question c
  by_intent session r Intent.payment_sent c = handle_payment_sent false c
  by_intent session r Intent.negotiation c = negotiate session (offer_in r.items) c
  by_intent session r Intent.unknown c =
      ask_or_prompt r.clarification_needed r.clarification_question c
  by_intent session r Intent.order c = order_or_ask r r.items c
  by_intent session r _ c = order_items r.items c
