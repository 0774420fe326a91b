-- ===== src/Orders/Trader/Parts.antt =====
-- app/modules/orders/service.py, `_handle_trader_session` in the states
-- TRADER_AWAITING_CREDIT_PARTIAL and TRADER_AWAITING_COUNTER_PRICE, and the tap NEGCOUNTER. The first
-- number of the trader's message, if there is one, is an argument.
use chat_to_sales.CreditSales.Debts.{with_balance}
use chat_to_sales.Orders.Dialogue.Customer.{if_confirmed}
use chat_to_sales.Orders.Dialogue.Haggling.{channel_of}
use chat_to_sales.CreditSales.Repository.{update_sale}
use chat_to_sales.Orders.Repository.{get_by_id}
use chat_to_sales.Redis.{Json}
use chat_to_sales.Orders.Sessions.{
  set_trader_session, clear_trader_session, clear_pending_negotiation, get_pending_negotiation,
}
use chat_to_sales.Orders.Trader.Taps.{PartialCredit, is_open_debt}
use chat_to_sales.Orders.Trader.{with_db, back, TraderCommand}
use chat_to_sales.Orders.Service.{do_paid_transition}
use chat_to_sales.Base.{
  ◌-◌, append_text, select, str_eq, ◌/◌, ◌==◌, leb, none, [], ◌∷◌, if◌then◌else◌, some, pos, String,
  ℤ, List, Option, ℕ,
}
use chat_to_sales.Models.{Line, Db, Reply, Order, Env, CreditSale, Content, CreditSaleStatus}
use chat_to_sales.Orders.Dialogue.{Chat, Negotiation, Setting, OrderSession}
use chat_to_sales.Orders.Dialogue.Replies.{
  notice, save_session, in_store, ◌▹◌, reply_with_cancel, reply,
}
use chat_to_sales.Orders.Dialogue.Confirmation.{finished, raised, Ending}

-- `credit_sale.status = SETTLED; credit_sale.amount = D("0")`
abbrev pub paid_off : CreditSale → CreditSale
paid_off x = record x { status = CreditSaleStatus.settled; amount = 0 }

-- The order of the session, paid if it is confirmed; a conflict is passed over.
unfoldable pub pay_confirmed : Env → Option Order → Db → Db
unfolding do_paid_transition
pay_confirmed e none db = db
pay_confirmed e (some o) db = (do_paid_transition e o db).1

-- What is kept for TRADER_AWAITING_COUNTER_PRICE is the customer's phone.
abbrev pub counter_items : ℕ → Option Negotiation → List Line
counter_items price none = []
counter_items price (some n) = with_price n.items
  where
    with_price : List Line → List Line
    with_price [] = []
    with_price (l ∷ ls) = record l { unit_price = price } ∷ ls

abbrev pub counter_order : Option Negotiation → Option String
counter_order none = none
counter_order (some n) = n.order_id

abbrev pub counter_prices : Option Negotiation → ℤ × ℕ
counter_prices none = (pos 0, 0)
counter_prices (some n) = (n.original_price, n.offered_price)

module _ (S : Setting) (k : TraderCommand) where
  abbrev pub tell : String → Reply → Chat S → Chat S
  tell event r = reply S (back S k event k.message_id r)

  -- The one open debt: the balance in whole naira is paid off or reduced.
  unfoldable pub pay_part : PartialCredit → CreditSale → ℕ → Chat S → Chat S
  unfolding pay_confirmed get_by_id update_sale reply
  pay_part p x paid_amount c =
      if leb (x.amount / 100) paid_amount
      then tell "order.creditpart_full."
          (Reply.credit_paid_in_full p.order_ref (pos (x.amount / 100)) (some p.customer_name))
          (with_db S k
            (pay_confirmed S.env (if_confirmed (get_by_id p.order_id none c.world.db))
              (update_sale x.id paid_off c.world.db))
            c)
      else tell "order.creditpart_partial."
          (Reply.credit_partial_received p.order_ref paid_amount (x.amount / 100 - paid_amount)
            (some p.customer_name))
          (with_db S k (update_sale x.id (with_balance (x.amount / 100 - paid_amount)) c.world.db)
            c)

  -- `scalar_one_or_none()` raises on several.
  unfoldable pub part_of_debts : PartialCredit → ℕ → List CreditSale → Chat S → Ending × Chat S
  unfolding pay_part reply
  part_of_debts p paid_amount [] c =
      (finished, tell "order.creditpart_notfound." (Reply.no_active_credit p.order_ref) c)
  part_of_debts p paid_amount (x ∷ []) c = (finished, pay_part p x paid_amount c)
  part_of_debts p paid_amount (x ∷ y ∷ rest) c = (raised, c)

  -- The session is gone before the number is looked at.
  unfoldable pub answer_part : PartialCredit → Option ℕ → Chat S → Ending × Chat S
  unfolding part_of_debts is_open_debt reply clear_trader_session
  answer_part p number c =
      by_number number (in_store S (clear_trader_session S.redis k.trader_phone) c)
    where
      by_number : Option ℕ → Chat S → Ending × Chat S
      by_number none d = (finished, tell "trader.creditpart_invalid." Reply.amount_not_understood d)
      by_number (some n) d =
          if n == 0
          then (finished, tell "trader.creditpart_zero." Reply.amount_zero d)
          else part_of_debts p n (select (is_open_debt p.order_id) d.world.db.credit_sales) d

  -- The tap NEGCOUNTER.
  module _ (J : Json String) where
    unfoldable pub ask_counter : String → Chat S → Chat S
    unfolding reply_with_cancel set_trader_session get_pending_negotiation
    ask_counter customer_phone c =
        let prices = counter_prices (
          get_pending_negotiation S.redis S.negotiation_json S.env.now k.trader_phone customer_phone
            c.store) in
        c
        ▹ in_store S (set_trader_session S.redis J S.env.now k.trader_phone customer_phone)
        ▹ reply_with_cancel S (
            back S k "trader.neg_counter_prompt." k.message_id
              (Reply.negotiation_counter_prompt prices.0 prices.1))

  abbrev pub counter_tenant : Option Negotiation → String
  counter_tenant none = k.tenant_id
  counter_tenant (some n) = n.tenant_id

  abbrev pub counter_channel : Option Negotiation → Option String
  counter_channel none = k.channel_tenant_id
  counter_channel (some n) = channel_of n.channel_tenant_id k.channel_tenant_id

  -- The customer is asked to confirm the trader's price.
  unfoldable pub counter_with : String → ℕ → Option Negotiation → Chat S → Chat S
  unfolding reply clear_pending_negotiation
  counter_with customer_phone price kept c =
      c
      ▹ in_store S (clear_pending_negotiation S.redis k.trader_phone customer_phone)
      ▹ save_session S (counter_tenant kept) customer_phone (
          OrderSession.awaiting_confirmation record {
            order_id = counter_order kept;
            items = counter_items price kept;
            total = pos price;
            media_id = none;
          })
      ▹ reply S (
          notice customer_phone (counter_tenant kept)
            (append_text "order.neg_counter." k.message_id)
            (Content.from_template (Reply.negotiation_counter_to_customer k.trader_name price))
            (counter_channel kept))
      ▹ tell "order.neg_counter_sent." (Reply.negotiation_counter_sent price)

  unfoldable pub answer_counter : String → Option ℕ → Chat S → Chat S
  unfolding counter_with get_pending_negotiation clear_trader_session reply
  answer_counter customer_phone number c =
      by_number number (in_store S (clear_trader_session S.redis k.trader_phone) c)
    where
      by_number : Option ℕ → Chat S → Chat S
      by_number none d = tell "trader.neg_counter_invalid." Reply.price_not_understood d
      by_number (some n) d =
          if n == 0
          then tell "trader.neg_counter_invalid." Reply.price_zero d
          else if str_eq customer_phone ""
          then d
          else counter_with customer_phone n
              (get_pending_negotiation S.redis S.negotiation_json S.env.now k.trader_phone
                customer_phone d.store)
              d
