-- ===== src/Orders/Dialogue/Handler.antt =====
-- app/modules/orders/service.py, `handle_inbound_customer_message`: a STOP, the quiet time after an
-- order, and then the message by the session that it finds. The log lines are left out, and so are
-- the `commit` calls: what one call reads is what it and the calls before it wrote.
use chat_to_sales.Orders.Dialogue.Customer.{by_intent}
use chat_to_sales.Orders.Dialogue.Question.{smart_parse, answered}
use chat_to_sales.Session.{err, ok, Result}
use chat_to_sales.Marketing.CustomerList.{opt_out}
use chat_to_sales.Orders.Sessions.{get_order_session, is_quiet_mode}
use chat_to_sales.Orders.Dialogue.Quantity.{if_inquiry, session_order, set_quantity, read_quantity}
use chat_to_sales.Base.{str_eq, [], none, some, ◌&&◌, if◌then◌else◌, ℕ, Option, Bool, String, false}
use chat_to_sales.Orders.Dialogue.{
  OrderSession, Chat, Summary, Incoming, ParseResult, Setting, Intent,
}
use chat_to_sales.Models.{Reply, Content}
use chat_to_sales.Orders.Dialogue.Replies.{customer_notice, in_world, reply}
use chat_to_sales.Orders.Dialogue.Confirmation.{finished, Ending, otherwise, on_confirm, on_cancel}

module _ (S : Setting) where
  abbrev pub with_message : String → Incoming → Incoming
  with_message t i = record i { message = t }

  abbrev pub second_parse : Incoming → Option ParseResult
  second_parse i =
      S.smart_parse_customer_message i.message i.trader.business_category i.trader.catalogue []

  -- After the parse of an answer to a summary.
  unfoldable pub on_answer : Incoming → Summary → Intent → Chat S → Ending × Chat S
  unfolding on_confirm on_cancel otherwise session_order
  on_answer i s Intent.confirm c =
      (finished, on_confirm S i s (if_inquiry (session_order s.order_id i.tenant_id c.world.db)) c)
  on_answer i s Intent.cancel c =
      (finished, on_cancel S i s (if_inquiry (session_order s.order_id i.tenant_id c.world.db)) c)
  on_answer i s _ c = otherwise S i s (second_parse i) c

  abbrev pub parsed_answer : Incoming → ParseResult
  parsed_answer i = S.parse_message i.message i.trader.business_category i.trader.catalogue

  -- A quantity changes the order, and the message then counts as YES.
  unfoldable pub with_quantity_or_not : Incoming → Summary → Option ℕ → Chat S → Ending × Chat S
  unfolding on_answer set_quantity
  with_quantity_or_not i s none c = on_answer i s (parsed_answer i).intent c
  with_quantity_or_not i s (some qty) c =
      let (s', c') = set_quantity S i qty s c in
      let yes = with_message "YES" i in on_answer yes s' (parsed_answer yes).intent c'

  unfoldable pub by_session : Incoming → Option OrderSession → Chat S → Ending × Chat S
  unfolding with_quantity_or_not read_quantity answered by_intent smart_parse
  by_session i (some (OrderSession.awaiting_confirmation s)) c =
      with_quantity_or_not i s (read_quantity S i) c
  by_session i (some (OrderSession.awaiting_clarification q)) c =
      let (r, c') = answered S i q c in
      (finished, by_intent S i (some (OrderSession.awaiting_clarification q)) r r.intent c')
  by_session i none c = let r = smart_parse S i [] c in (finished, by_intent S i none r r.intent c)

  -- `quick.intent == UNKNOWN and quick.confidence == 0.0`
  unfoldable pub is_noise : ParseResult → Bool
  is_noise r = elim r.intent [ Intent.unknown ↦ r.no_confidence | _ ↦ false ]

  unfoldable pub after_stop : Incoming → Chat S → Ending × Chat S
  unfolding by_session is_noise is_quiet_mode get_order_session
  after_stop i c =
      let answered =
        by_session i
          (get_order_session S.redis S.session_json S.env.now i.tenant_id i.customer_phone c.store)
          c in
      if is_quiet_mode S.redis S.env.now i.tenant_id i.customer_phone c.store
        && is_noise (S.layer1 i.message)
      then (finished, c)
      else answered

  abbrev pub said_yes : Result Bool → Bool
  said_yes (ok b) = b
  said_yes (err x) = false

  -- A STOP of a customer who is on the trader's list ends the call.
  unfoldable pub handle_inbound_customer_message : Incoming → Chat S → Ending × Chat S
  unfolding after_stop opt_out reply
  handle_inbound_customer_message i c =
      let (r, db) = opt_out S.env i.trader.phone_number i.customer_phone c.world.db in
      let stopped = in_world S (λ w. record w { db = db }) c in
      let rest = after_stop i c in
      let unsubscribed =
        reply S
          (customer_notice i "customer.opted_out." i.message_id
            (Content.from_template Reply.unsubscribed))
          stopped in
      if str_eq (S.strip_upper i.message) "STOP" && said_yes r
      then (finished, unsubscribed)
      else rest
