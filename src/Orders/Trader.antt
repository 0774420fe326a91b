-- ===== src/Orders/Trader.antt =====
-- app/modules/orders/service.py, `handle_trader_command`: the commands of a trader on an order, by the
-- start of its key: CONFIRM, CANCEL, PAID and CREDIT. A command is an argument, as it was parsed.
pub mod Taps
pub mod Commands
pub mod Effects
pub mod Parts
pub mod Balance
pub mod Final
mod Tests
use chat_to_sales.Notifications.Service.{Notice}
use chat_to_sales.World.{Button}
use chat_to_sales.Scheduler.OrderReminders.{whole_naira}
use chat_to_sales.Orders.Sessions.{clear_order_session}
use chat_to_sales.CreditSales.Repository.{of_order}
use chat_to_sales.Session.{integrity_error, err, ok, Result}
use chat_to_sales.Orders.Service.{do_paid_transition, transition}
use chat_to_sales.Orders.Repository.{get_by_ref_prefix, update_order}
use chat_to_sales.Base.{
  [], ◌*◌, append_text, ◌∷◌, ◌||◌, text_or, pos_part, ◌++◌, is_some, find?, Bool, str_eq, some,
  none, Option, true, List, if◌then◌else◌, String,
}
use chat_to_sales.Orders.Dialogue.{Chat, Setting}
use chat_to_sales.Models.{
  CreditSale, Reply, Db, Env, Order, Content, confirmed, failed, CreditSaleStatus,
}
use chat_to_sales.Orders.Dialogue.Replies.{
  drop_session, notice, in_world, ◌▹◌, reply_interactive, reply,
}

-- The arguments of `handle_trader_command` that these commands read, with the reference.
pub record TraderCommand : Type 0 where
  pub tenant_id : String
  pub trader_phone : String
  pub trader_name : String
  pub message_id : String
  pub ref : String
  pub bank_name : String
  pub bank_account_number : String
  pub bank_account_name : String
  pub channel_tenant_id : Option String

pub data OrderCommand : Type 0 where
  confirm_it cancel_it paid_it credit_it : OrderCommand

-- `order_confirmed_to_trader`
abbrev pub paid_buttons : String → List Button
paid_buttons ref =
    record { id = append_text "PAID " ref; title = "💰 Paid" }
    ∷ record { id = append_text "CREDIT " ref; title = "📝 Credit" }
    ∷ []

-- `order.customer_name or (f"+{cust_phone}" if cust_phone != "unknown" else "Unknown")`
unfoldable pub debtor_name : Order → String
debtor_name o = text_or o.customer_name (shown_phone (text_or o.customer_phone "unknown"))
  where
    shown_phone : String → String
    shown_phone phone = if str_eq phone "unknown" then "Unknown" else append_text "+" phone

-- `CreditSale(...)`, with the defaults of the columns; an amount is not below zero.
abbrev pub order_debt : Env → Order → CreditSale
order_debt e o = record {
  id = e.fresh_id;
  tenant_id = o.tenant_id;
  order_id = some o.id;
  conversation_id = some o.conversation_id;
  customer_name = debtor_name o;
  amount = pos_part (whole_naira o.amount) * 100;
  currency = if str_eq o.currency "" then "NGN" else o.currency;
  due_date = none;
  status = CreditSaleStatus.active;
  notes = none;
  reminder_interval_days = 3;
  max_reminders = 5;
  reminders_sent = 0;
  last_reminded_at = none;
  created_at = e.now;
}

abbrev pub on_credit : Order → Order
on_credit o = record o { is_credit = true }

-- A debt over the order, of any tenant and in any status: what `uq_credit_sales_order_id` looks at.
unfoldable pub has_debt : String → Db → Bool
has_debt order db = is_some (find? (λ (x : CreditSale). of_order order x.order_id) db.credit_sales)

-- The new debt, in a transaction of its own that the unique constraint may refuse, and the mark on the
-- order.
unfoldable pub put_on_credit : Env → Order → Db → Result Order × Db
unfolding update_order has_debt
put_on_credit e o db =
    if has_debt o.id db then (err (integrity_error "uq_credit_sales_order_id"), db) else (
      ok (on_credit o),
      update_order o.id on_credit
          (record db { credit_sales = db.credit_sales ++ order_debt e o ∷ [] }),
    )

module _ (S : Setting) (k : TraderCommand) where
  abbrev pub back : String → String → Reply → Notice
  back event key r =
      notice k.trader_phone k.tenant_id (append_text event key) (Content.from_template r)
        k.channel_tenant_id

  -- `if customer_phone: ...` is left to the guard of the reply.
  abbrev pub to_buyer : Order → String → Reply → Notice
  to_buyer o event r =
      notice (text_or o.customer_phone "") k.tenant_id (append_text event o.id)
        (Content.from_template r) k.channel_tenant_id

  abbrev pub with_db : Db → Chat S → Chat S
  with_db db = in_world S (λ w. record w { db = db })

  -- `try: await self._transition(...) except ConflictError: ... return`, and what follows.
  unfoldable pub after_change : Result Order × Db → (Chat S → Chat S) → Notice → Chat S → Chat S
  unfolding reply
  after_change (ok o, db) next refusal c = next (with_db db c)
  after_change (err x, db) next refusal c = reply S refusal (with_db db c)

  -- The customer is told how to pay, or that the order is confirmed.
  abbrev pub confirmed_reply : Order → Reply
  confirmed_reply o =
      if str_eq k.bank_name "" || str_eq k.bank_account_number ""
      then Reply.order_confirmed_to_customer k.trader_name (whole_naira o.amount)
      else Reply.payment_details_to_customer k.trader_name (whole_naira o.amount) k.bank_name
          k.bank_account_number k.bank_account_name k.ref

  unfoldable pub tell_confirmed : Order → Chat S → Chat S
  unfolding reply reply_interactive
  tell_confirmed o c =
      c
      ▹ reply_interactive S
          (back "order.confirmed_trader." o.id
            (Reply.order_confirmed_to_trader k.ref o.customer_name (text_or o.customer_phone "")))
          (paid_buttons k.ref)
      ▹ reply S (to_buyer o "order.confirmed_customer." (confirmed_reply o))

  unfoldable pub confirm_command : Order → Chat S → Chat S
  unfolding transition after_change tell_confirmed
  confirm_command o c =
      after_change (transition o confirmed c.world.db) (tell_confirmed o)
        (back "order.confirm_err." k.message_id (Reply.cannot_confirm k.ref)) c

  unfoldable pub tell_cancelled : Order → Chat S → Chat S
  unfolding reply clear_order_session
  tell_cancelled o c =
      c
      ▹ drop_session S k.tenant_id (text_or o.customer_phone "")
      ▹ reply S (
          back "order.cancelled_trader." o.id
            (Reply.order_cancelled_to_trader k.ref o.customer_name))
      ▹ reply S
          (to_buyer o "order.cancelled_customer." (Reply.order_cancelled_to_customer k.trader_name))

  unfoldable pub cancel_command : Order → Chat S → Chat S
  unfolding transition after_change tell_cancelled
  cancel_command o c =
      after_change (transition o failed c.world.db) (tell_cancelled o)
        (back "order.cancel_err." k.message_id (Reply.cannot_cancel k.ref)) c

  unfoldable pub paid_command : Order → Chat S → Chat S
  unfolding do_paid_transition after_change reply
  paid_command o c =
      after_change (do_paid_transition S.env o c.world.db)
        (reply S
          (back "order.paid_trader." o.id (Reply.order_paid_to_trader k.ref o.customer_name)))
        (back "order.paid_err." k.message_id (Reply.cannot_pay k.ref)) c

  -- No state is asked for: only an order that already is on credit is turned away.
  unfoldable pub credit_command : Order → Chat S → Chat S
  unfolding put_on_credit after_change reply
  credit_command o c =
      if o.is_credit
      then reply S
          (back "order.credit_dup." k.message_id
            (Reply.order_already_on_credit k.ref o.customer_name))
          c
      else after_change (put_on_credit S.env o c.world.db)
          (reply S (
            back "order.credit_trader." o.id
              (Reply.order_credit_to_trader k.ref (debtor_name o) (whole_naira o.amount))))
          (back "order.credit_err." k.message_id (Reply.cannot_create_credit k.ref)) c

  unfoldable pub run_command : OrderCommand → Option Order → Chat S → Chat S
  unfolding confirm_command cancel_command paid_command credit_command reply
  run_command what none c =
      reply S (back "order.not_found." k.message_id (Reply.order_not_found_to_trader k.ref)) c
  run_command confirm_it (some o) c = confirm_command o c
  run_command cancel_it (some o) c = cancel_command o c
  run_command paid_it (some o) c = paid_command o c
  run_command credit_it (some o) c = credit_command o c

  -- The order is looked up by the reference alone, in every tenant.
  unfoldable pub order_command : OrderCommand → Chat S → Chat S
  unfolding run_command get_by_ref_prefix
  order_command what c = run_command what (get_by_ref_prefix k.ref none c.world.db) c
