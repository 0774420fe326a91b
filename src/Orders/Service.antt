-- ===== src/Orders/Service.antt =====
-- app/modules/orders/service.py, `OrderService`: creation, the state transitions and the items.
-- `commit` and `refresh` change nothing that one session sees, and are not written. The two
-- `try ... except Exception` blocks of `_do_paid_transition` guard against failures of the
-- database connection, which the model does not have.
pub mod Changes
pub mod Upserts
pub mod Additions
pub mod History
pub mod OneOpen
pub mod Outcomes
use chat_to_sales.Base.{
  ℕ, ℤ, ◌+ℤ◌, ◌*ℕ◌, pos, is_zero_ℤ, String, not, Option, none, some, List, [], ◌∷◌, has_key, find?,
  text_or, if◌then◌else◌,
}
use chat_to_sales.Models.{
  Env, Order, OrderState, confirmed, paid, failed, order_created, order_created_with_items,
  order_state_changed, order_paid,
}
use chat_to_sales.Session.{
  Action, conflict, not_found, no_result, bad_transition, closed_order, pure, raise, gets, or_raise,
  raise_if, modify, publish, none_on_conflict, ◌>>=◌, ◌>>◌,
}
use chat_to_sales.Orders.StateMachine.{value, state_in, validate_transition, InvalidTransitionError}
use chat_to_sales.Orders.Repository.{
  is_open, get_by_id, get_open_order_for_conversation, NewOrder, create_order, update_order,
  update_state, delete_items_for_order, add_item,
}
use chat_to_sales.Marketing.CustomerList.{upsert_customer}
use chat_to_sales.Marketing.Referrals.{advance_referral_to_first_order}

unfoldable pub get_or_404 : String → Option String → Action Order
get_or_404 order_id tenant_id = do
  or_raise (← gets (get_by_id order_id tenant_id)) (not_found "Order" order_id)

-- `except InvalidTransitionError as exc: raise ConflictError(str(exc))`
abbrev pub check_transition : Option InvalidTransitionError → Action (Unit {0})
check_transition none = pure tt
check_transition (some e) = raise (conflict (bad_transition e.order_id e.from_state e.to_state))

unfoldable pub transition : Order → OrderState → Action Order
transition order new_state = do
  check_transition (validate_transition order.id (value order.state) (value new_state))
  moved ← update_state order new_state
  publish (order_state_changed order.tenant_id order.id order.conversation_id order.state new_state)
  pure moved

-- `scalar_one()` raises if the row is gone.
unfoldable pub reload : String → Action Order
reload order_id = do
  or_raise (← gets (λ db. find? (has_key (λ (r : Order). r.id) order_id) db.orders)) no_result

-- `str(order.amount) if order.amount else None`
abbrev pub shown_amount : Option ℤ → Option ℤ
shown_amount none = none
shown_amount (some a) = if is_zero_ℤ a then none else some a

-- `order.amount or Decimal("0")`
abbrev pub amount_or_zero : Option ℤ → ℤ
amount_or_zero none = pos 0
amount_or_zero (some a) = a

-- `_do_paid_transition`
unfoldable pub do_paid_transition : Env → Order → Action Order
do_paid_transition e order = do
  moved ← transition order paid
  upsert_customer e (text_or moved.trader_phone "") moved.tenant_id
      (text_or moved.customer_phone "") moved.customer_name (amount_or_zero moved.amount)
  advance_referral_to_first_order e (text_or moved.trader_phone "")
  publish (
      order_paid moved.tenant_id moved.id moved.conversation_id (shown_amount moved.amount)
        moved.currency)
  pure moved

-- The branch of `create_order_from_conversation` on the open order that was found.
unfoldable pub create_unless : Env → NewOrder → Option Order → Action (Option Order)
create_unless e n (some existing) = pure none
create_unless e n none = do
  order ← create_order e n
  publish (order_created n.tenant_id order.id n.conversation_id)
  pure (some order)

abbrev pub bare_order : String → String → Option String → NewOrder
bare_order tenant_id conversation_id customer_id = record {
  tenant_id = tenant_id;
  conversation_id = conversation_id;
  customer_id = customer_id;
  customer_phone = none;
  customer_name = none;
  trader_phone = none;
  amount = none;
  currency = "NGN";
}

unfoldable pub create_order_from_conversation :
    Env → String → String → Option String → Action (Option Order)
unfolding create_unless
create_order_from_conversation e tenant_id conversation_id customer_id = do
  existing ← gets (get_open_order_for_conversation conversation_id tenant_id)
  create_unless e (bare_order tenant_id conversation_id customer_id) existing

-- `OrderItemCreate`; the validator makes the quantity at least one.
pub record OrderItemCreate : Type 0 where
  pub name : String
  pub quantity : ℕ
  pub unit_price : ℤ

pub record OrderCreate : Type 0 where
  pub tenant_id : String
  pub conversation_id : String
  pub customer_id : Option String
  pub items : List OrderItemCreate
  pub currency : String

-- `sum(item.unit_price * item.quantity for item in items)`, which adds from the left.
unfoldable pub total_from : ℤ → List OrderItemCreate → ℤ
total_from acc [] = acc
total_from acc (i ∷ is) = total_from (acc +ℤ i.unit_price *ℕ i.quantity) is

unfoldable pub items_total : List OrderItemCreate → ℤ
unfolding total_from
items_total is = total_from (pos 0) is

-- `total or None`
abbrev pub or_none : ℤ → Option ℤ
or_none a = if is_zero_ℤ a then none else some a

-- The loop of `add_item` calls.
unfoldable pub add_all : String → List OrderItemCreate → Action (Unit {0})
add_all order_id [] = pure tt
add_all order_id (i ∷ is) = do add_item order_id i.name i.quantity i.unit_price; add_all order_id is

abbrev pub with_total : ℤ → String → Order → Order
with_total a currency o = record o { amount = or_none a; currency = currency }

abbrev pub new_from : OrderCreate → NewOrder
new_from d = record {
  tenant_id = d.tenant_id;
  conversation_id = d.conversation_id;
  customer_id = d.customer_id;
  customer_phone = none;
  customer_name = none;
  trader_phone = none;
  amount = or_none (items_total d.items);
  currency = d.currency;
}

-- The two branches of `create_order`: replace the items of the open order, or make a new one.
unfoldable pub upsert_order : Env → OrderCreate → Option Order → Action Order
unfolding reload add_all
upsert_order e d (some existing) = do
  delete_items_for_order existing.id
  modify (update_order existing.id (with_total (items_total d.items) d.currency))
  add_all existing.id d.items
  reload existing.id
upsert_order e d none = do
  order ← create_order e (new_from d)
  add_all order.id d.items
  publish (
      order_created_with_items order.tenant_id order.id order.conversation_id
        (shown_amount order.amount) order.currency)
  reload order.id

unfoldable pub create_order_with_items : Env → OrderCreate → Action Order
unfolding upsert_order
create_order_with_items e d = do
  existing ← gets (get_open_order_for_conversation d.conversation_id d.tenant_id)
  upsert_order e d existing

unfoldable pub confirm_order : String → Option String → Action Order
unfolding get_or_404 transition reload
confirm_order order_id tenant_id = do
  order ← get_or_404 order_id tenant_id
  moved ← transition order confirmed
  reload moved.id

unfoldable pub fail_order : String → Option String → Action Order
unfolding get_or_404 transition reload
fail_order order_id tenant_id = do
  order ← get_or_404 order_id tenant_id
  moved ← transition order failed
  reload moved.id

unfoldable pub mark_order_paid : Env → String → Option String → Action Order
unfolding get_or_404 do_paid_transition reload
mark_order_paid e order_id tenant_id = do
  order ← get_or_404 order_id tenant_id
  moved ← do_paid_transition e order
  reload moved.id

-- The code of `complete_order` is that of `mark_order_paid`.
unfoldable pub complete_order : Env → String → Option String → Action Order
unfolding get_or_404 do_paid_transition reload
complete_order e order_id tenant_id = do
  order ← get_or_404 order_id tenant_id
  moved ← do_paid_transition e order
  reload moved.id

-- The branches of the two event-driven methods: a missing order, an order in one of the states
-- that end the method early, and any other.
unfoldable pub pay_unless : Env → List OrderState → Option Order → Action (Option Order)
unfolding do_paid_transition state_in
pay_unless e done none = pure none
pay_unless e done (some order) =
    if state_in order.state done
    then pure (some order)
    else none_on_conflict (do_paid_transition e order)

unfoldable pub handle_payment_confirmed : Env → String → String → Action (Option Order)
unfolding pay_unless
handle_payment_confirmed e order_id tenant_id = do
  order ← gets (get_by_id order_id (some tenant_id))
  pay_unless e (paid ∷ paid ∷ []) order

unfoldable pub handle_credit_sale_resolved : Env → String → String → Action (Option Order)
unfolding pay_unless
handle_credit_sale_resolved e order_id tenant_id = do
  order ← gets (get_by_id order_id (some tenant_id))
  pay_unless e (paid ∷ failed ∷ []) order

abbrev pub with_amount : ℤ → Order → Order
with_amount a o = record o { amount = some a }

unfoldable pub add_items : String → List OrderItemCreate → Option String → Action Order
unfolding get_or_404 add_all reload
add_items order_id items tenant_id = do
  order ← get_or_404 order_id tenant_id
  raise_if (not (is_open order.state)) (conflict (closed_order order.state))
  add_all order.id items
  modify (update_order order.id (with_amount (items_total items)))
  reload order.id
