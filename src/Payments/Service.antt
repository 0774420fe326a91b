-- ===== src/Payments/Service.antt =====
-- app/modules/payments/service.py, `PaymentService`: the checkout and the provider's webhook.
-- `make_reference` draws from `uuid4`, so the reference is an argument.
pub mod Webhook
pub mod Checkout
use chat_to_sales.Orders.StateMachine.{same_state}
use chat_to_sales.Orders.Repository.{get_by_id}
use chat_to_sales.Session.{
  no_amount, not_confirmed, raise_if, not_found, gets, ◌>>◌, ◌>>=◌, active_payment, conflict, raise,
  publish, pure, or_raise, Action,
}
use chat_to_sales.Payments.Repository.{
  create_payment, get_active_for_order, get_by_reference, get_payment, NewPayment, update_status,
}
use chat_to_sales.Models.{
  payment_created, confirmed, payment_confirmed, Payment, success, Env, PaymentStatus, Order,
}
use chat_to_sales.Base.{
  not, append_text, none, if◌then◌else◌, some, false, ℤ, true, String, Bool, Option,
}

-- `_generate_payment_link`
unfoldable pub generate_payment_link : String → String
generate_payment_link reference =
    append_text "https://paystack.mock/pay" (append_text "/" reference)

unfoldable pub get_payment_or_404 : String → Option String → Action Payment
get_payment_or_404 id tenant_id = do
  or_raise (← gets (get_payment id tenant_id)) (not_found "Payment" id)

-- `if existing is not None: raise ConflictError(...)`
abbrev pub raise_if_active : Option Payment → Action (Unit {0})
raise_if_active none = pure tt
raise_if_active (some p) = raise (conflict (active_payment p.reference p.status))

abbrev pub checkout_for : Order → String → String → ℤ → String → NewPayment
checkout_for order tenant_id order_id amount reference = record {
  tenant_id = tenant_id;
  order_id = order_id;
  reference = reference;
  amount = amount;
  currency = order.currency;
  payment_link = some (generate_payment_link reference);
}

unfoldable pub create_payment_for_order : Env → String → String → String → Action Payment
create_payment_for_order e reference order_id tenant_id = do
  order ← or_raise (← gets (get_by_id order_id (some tenant_id))) (not_found "Order" order_id)
  raise_if (not (same_state order.state confirmed)) (conflict (not_confirmed order.state))
  amount ← or_raise order.amount (conflict no_amount)
  raise_if_active (← gets (get_active_for_order order_id tenant_id))
  payment ← create_payment e (checkout_for order tenant_id order_id amount reference)
  publish (
      payment_created tenant_id payment.id order_id reference amount order.currency
        (generate_payment_link reference))
  pure payment

unfoldable pub is_success : PaymentStatus → Bool
is_success success = true
is_success _ = false

abbrev pub webhook_status : Bool → PaymentStatus
webhook_status true = success
webhook_status false = PaymentStatus.failed

-- The event goes out only on success.
abbrev pub publish_confirmed : Bool → Payment → Action (Unit {0})
publish_confirmed false p = pure tt
publish_confirmed true p =
    publish (payment_confirmed p.tenant_id p.id p.order_id p.reference p.amount p.currency)

-- The branches of `handle_webhook` on the payment that was found.
unfoldable pub webhook_found : Bool → Option Payment → Action (Option Payment)
unfolding is_success update_status
webhook_found good none = pure none
webhook_found good (some p) = if is_success p.status then pure (some p) else do
  updated ← update_status p (webhook_status good)
  publish_confirmed good updated
  pure (some updated)

unfoldable pub handle_webhook : String → Bool → Action (Option Payment)
unfolding webhook_found
handle_webhook reference good = do
  found ← gets (get_by_reference reference)
  webhook_found good found
