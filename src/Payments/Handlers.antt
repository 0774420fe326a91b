-- ===== src/Payments/Handlers.antt =====
-- app/modules/payments/handlers.py: the listener that pays the order after payment.confirmed, and
-- app/modules/orders/handlers.py `handle_credit_sale_status_changed`, its twin for credit sales.
-- A payload has every key, since only the services publish these events; `begin()` takes the
-- changes back if the method raises.
pub mod Delivery
use chat_to_sales.Orders.Service.{handle_payment_confirmed, handle_credit_sale_resolved}
use chat_to_sales.Base.{text_or, ◌&&◌, str_eq, truthy, not, if◌then◌else◌, false, true, Bool}
use chat_to_sales.Models.{
  written_off, settled, payment_confirmed, credit_sale_status_changed, Event, Db, CreditSaleStatus,
  Env,
}
use chat_to_sales.Session.{err, ok, Action}

-- `async with async_session_factory.begin()`: commit, or roll back to where the session began.
abbrev pub in_transaction : {A : Type 0} → Action A → Db → Db
in_transaction m db = let (r, db') = m db in elim r [ ok a ↦ db' | err e ↦ db ]

-- `payload.get("tenant_id", "") or event.tenant_id`; the publisher writes one tenant in both.
unfoldable pub handle_payment_confirmed_event : Env → Event → Db → Db
handle_payment_confirmed_event e (payment_confirmed tenant_id p order_id ref amount currency) db =
    if not (str_eq order_id "") && not (str_eq tenant_id "")
    then in_transaction (handle_payment_confirmed e order_id tenant_id) db
    else db
handle_payment_confirmed_event e _ db = db

-- `_RESOLVING_STATUSES`
unfoldable pub is_resolving : CreditSaleStatus → Bool
is_resolving settled = true
is_resolving written_off = true
is_resolving _ = false

unfoldable pub handle_credit_sale_status_changed : Env → Event → Db → Db
unfolding is_resolving
handle_credit_sale_status_changed e (credit_sale_status_changed tenant_id cs order_id status) db =
    if truthy order_id && not (str_eq tenant_id "")
    then if is_resolving status
      then in_transaction (handle_credit_sale_resolved e (text_or order_id "") tenant_id) db
      else db
    else db
handle_credit_sale_status_changed e _ db = db
