-- ===== src/Orders/Trader/Taps.antt =====
-- app/modules/orders/service.py, `handle_trader_command`: the taps of a trader on the buttons of a
-- payment (PAYRCVD and PAYNOTRCVD) and of an order on credit (CREDITPAID and CREDITPART). The
-- session that asks for the amount of a part is kept as JSON.
use chat_to_sales.Orders.Sessions.{set_trader_session}
use chat_to_sales.Orders.Repository.{column_is}
use chat_to_sales.Orders.Dialogue.Customer.{if_confirmed}
use chat_to_sales.Orders.Service.{do_paid_transition}
use chat_to_sales.Orders.Trader.{TraderCommand, to_buyer, back, after_change}
use chat_to_sales.Orders.Repository.{get_by_ref_prefix}
use chat_to_sales.Redis.{Json}
use chat_to_sales.Orders.Dialogue.{Chat, Setting}
use chat_to_sales.Scheduler.OrderReminders.{whole_naira}
use chat_to_sales.CreditSales.Repository.{with_sale_status, is_active_sale}
use chat_to_sales.Base.{
  ◌/◌, text_or, pos, none, ◌&&◌, str_eq, ◌==◌, select, [], ◌∷◌, if◌then◌else◌, ℤ, List, Bool,
  update_where, some, String, Option, true, false,
}
use chat_to_sales.Models.{Reply, Order, Db, CreditSale, CreditSaleStatus}
use chat_to_sales.Orders.Dialogue.Replies.{
  reference, in_store, in_world, reply_with_cancel, ◌▹◌, reply,
}
use chat_to_sales.Orders.Dialogue.Confirmation.{finished, raised, Ending}

-- `order_id == order.id, status == ACTIVE`
unfoldable pub is_open_debt : String → CreditSale → Bool
unfolding is_active_sale
is_open_debt order_id x = column_is x.order_id order_id && is_active_sale x.status

-- `update(CreditSale).where(...).values(status=SETTLED)`
unfoldable pub settle_order_debts : String → Db → Db
unfolding is_open_debt
settle_order_debts order_id db = record db {
  credit_sales =
      update_where (is_open_debt order_id) (with_sale_status CreditSaleStatus.settled)
        db.credit_sales;
}

-- The session TRADER_AWAITING_CREDIT_PARTIAL.
pub record PartialCredit : Type 0 where
  pub order_id : String
  pub order_ref : String
  pub customer_name : String

-- `order and order.state == CONFIRMED and order.is_credit`
abbrev pub if_on_credit : Option Order → Option Order
if_on_credit none = none
if_on_credit (some o) = if o.is_credit then some o else none

-- `int(_cs_row) if _cs_row else int(order.amount or 0)`
unfoldable pub outstanding : Order → List CreditSale → ℤ
unfolding whole_naira
outstanding o [] = whole_naira o.amount
outstanding o (x ∷ xs) = if x.amount == 0 then whole_naira o.amount else pos (x.amount / 100)

module _ (S : Setting) (k : TraderCommand) where
  unfoldable pub tell_received : Order → Chat S → Chat S
  unfolding reply
  tell_received o c =
      c
      ▹ reply S (
          back S k "order.payrcvd_trader." o.id
            (Reply.order_paid_to_trader (reference o.id) o.customer_name))
      ▹ reply S (
          to_buyer S k o "order.payrcvd_customer."
            (Reply.payment_confirmed_to_customer k.trader_name (reference o.id)))

  unfoldable pub payment_tap : Bool → Option Order → Chat S → Chat S
  unfolding tell_received after_change do_paid_transition reply
  payment_tap is_received none c =
      reply S
        (back S k "order.payrcvd_notfound." k.message_id (Reply.order_not_found_to_trader k.ref)) c
  payment_tap true (some o) c =
      after_change S k (do_paid_transition S.env o c.world.db) (tell_received o)
        (back S k "order.payrcvd_err." k.message_id (Reply.cannot_pay (reference o.id))) c
  payment_tap false (some o) c =
      c
      ▹ reply S (
          to_buyer S k o "order.paynotrcvd_customer."
            (Reply.payment_not_received_to_customer k.trader_name (reference o.id)))
      ▹ reply S (
          back S k "order.paynotrcvd_trader." o.id
            (Reply.payment_not_received_noted (reference o.id)))

  -- `if ref: ...`, with the order that is confirmed.
  unfoldable pub handle_payment_tap : Bool → Chat S → Chat S
  unfolding payment_tap get_by_ref_prefix
  handle_payment_tap is_received c =
      if str_eq k.ref ""
      then c
      else payment_tap is_received (if_confirmed (get_by_ref_prefix k.ref none c.world.db)) c

  unfoldable pub tell_settled : Order → ℤ → Chat S → Chat S
  unfolding reply settle_order_debts
  tell_settled o total c =
      in_world S (λ w. record w { db = settle_order_debts o.id w.db }) c
      ▹ reply S (
          back S k "order.creditpaid_trader." o.id
            (Reply.credit_paid_in_full (reference o.id) total o.customer_name))
      ▹ reply S (
          to_buyer S k o "order.creditpaid_customer."
            (Reply.payment_confirmed_to_customer k.trader_name (reference o.id)))

  unfoldable pub pay_in_full : Order → ℤ → Chat S → Chat S
  unfolding tell_settled after_change do_paid_transition
  pay_in_full o total c =
      after_change S k (do_paid_transition S.env o c.world.db) (tell_settled o total)
        (back S k "order.creditpaid_err." k.message_id (Reply.cannot_pay (reference o.id))) c

  module _ (J : Json PartialCredit) where
    unfoldable pub ask_part : Order → ℤ → Chat S → Chat S
    unfolding reply_with_cancel set_trader_session
    ask_part o total c =
        c
        ▹ in_store S (
            set_trader_session S.redis J S.env.now k.trader_phone record {
              order_id = o.id;
              order_ref = reference o.id;
              customer_name = text_or o.customer_name "";
            })
        ▹ reply_with_cancel S (
            back S k "order.creditpart_prompt." k.message_id
              (Reply.credit_partial_prompt (reference o.id) total o.customer_name))

    -- `scalar_one_or_none()` raises on several open debts.
    unfoldable pub credit_tap : Bool → Option Order → List CreditSale → Chat S → Ending × Chat S
    unfolding pay_in_full ask_part outstanding reply
    credit_tap is_full none debts c = (
      finished,
      reply S
          (back S k "order.creditpaid_notfound." k.message_id
            (Reply.order_not_found_to_trader k.ref))
          c,
    )
    credit_tap is_full (some o) (x ∷ y ∷ rest) c = (raised, c)
    credit_tap true (some o) debts c = (finished, pay_in_full o (outstanding o debts) c)
    credit_tap false (some o) debts c = (finished, ask_part o (outstanding o debts) c)

    abbrev pub debts_of : Option Order → Db → List CreditSale
    debts_of none db = []
    debts_of (some o) db = select (is_open_debt o.id) db.credit_sales

    unfoldable pub handle_credit_tap : Bool → Chat S → Ending × Chat S
    unfolding credit_tap get_by_ref_prefix is_open_debt
    handle_credit_tap is_full c =
        let found = if_on_credit (if_confirmed (get_by_ref_prefix k.ref none c.world.db)) in
        if str_eq k.ref ""
        then (finished, c)
        else credit_tap is_full found (debts_of found c.world.db) c
