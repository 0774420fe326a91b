-- ===== src/Orders/Repository.antt =====
-- app/modules/orders/repository.py: the queries and the writes on orders and their items.
use text.Mathlib.Text.{starts_with}
use chat_to_sales.Base.{
  ℕ, ℤ, String, Bool, true, false, ◌&&◌, Option, none, some, List, [], ◌∷◌, ◌++◌, not, find?,
  select, update_where, latest, has_key, str_eq, truthy, text_or, if◌then◌else◌,
}
use chat_to_sales.Models.{Db, Env, Order, OrderState, inquiry, confirmed}
use chat_to_sales.Session.{Action, pure, modify, ◌>>◌}
use chat_to_sales.Orders.StateMachine.{state_in}

-- `_OPEN_STATES`
abbrev pub open_states : List OrderState
open_states = inquiry ∷ confirmed ∷ []

-- `state in _OPEN_STATES`
unfoldable pub is_open : OrderState → Bool
unfolding state_in
is_open s = state_in s open_states

-- `if tenant_id: stmt = stmt.where(Order.tenant_id == tenant_id)`
abbrev pub in_tenant : Option String → Order → Bool
in_tenant t o = if truthy t then str_eq o.tenant_id (text_or t "") else true

unfoldable pub get_by_id : String → Option String → Db → Option Order
get_by_id order_id tenant_id db =
    find? (λ o. has_key (λ (r : Order). r.id) order_id o && in_tenant tenant_id o) db.orders

unfoldable pub get_open_order_for_conversation : String → String → Db → Option Order
get_open_order_for_conversation conversation_id tenant_id db =
    latest
      (λ o.
        str_eq o.conversation_id conversation_id
        && (str_eq o.tenant_id tenant_id && is_open o.state))
      (λ o. o.created_at) db.orders

-- `LIKE 'prefix%'`, for the hexadecimal prefixes that the trader commands carry.
unfoldable pub get_by_ref_prefix : String → Option String → Db → Option Order
get_by_ref_prefix ref_prefix tenant_id db =
    find? (λ o. starts_with o.id ref_prefix && in_tenant tenant_id o) db.orders

-- A column that is NULL equals no text.
abbrev pub column_is : Option String → String → Bool
column_is none s = false
column_is (some t) s = str_eq t s

unfoldable pub get_open_order_by_customer_phone : String → String → Db → Option Order
get_open_order_by_customer_phone customer_phone tenant_id db =
    latest
      (λ o.
        column_is o.customer_phone customer_phone
        && (str_eq o.tenant_id tenant_id && is_open o.state))
      (λ o. o.created_at) db.orders

-- The arguments of `create_order` that have a default.
pub record NewOrder : Type 0 where
  pub tenant_id : String
  pub conversation_id : String
  pub customer_id : Option String
  pub customer_phone : Option String
  pub customer_name : Option String
  pub trader_phone : Option String
  pub amount : Option ℤ
  pub currency : String

abbrev pub new_order : Env → NewOrder → Order
new_order e n = record {
  id = e.fresh_id;
  tenant_id = n.tenant_id;
  conversation_id = n.conversation_id;
  customer_id = n.customer_id;
  customer_phone = n.customer_phone;
  customer_name = n.customer_name;
  trader_phone = n.trader_phone;
  state = inquiry;
  amount = n.amount;
  currency = n.currency;
  is_credit = false;
  reminder_sent_at = none;
  created_at = e.now;
}

unfoldable pub create_order : Env → NewOrder → Action Order
create_order e n = do
  modify (λ db. record db { orders = db.orders ++ new_order e n ∷ [] })
  pure (new_order e n)

-- What a flush of a changed `Order` object writes: the row with its key.
unfoldable pub update_order : String → (Order → Order) → Db → Db
update_order id f db = record db {
  orders = update_where (has_key (λ (r : Order). r.id) id) f db.orders;
}

abbrev pub with_state : OrderState → Order → Order
with_state s o = record o { state = s }

unfoldable pub update_state : Order → OrderState → Action Order
unfolding update_order
update_state order new_state = do
  modify (update_order order.id (with_state new_state))
  pure (with_state new_state order)

unfoldable pub delete_items_for_order : String → Action (Unit {0})
delete_items_for_order order_id =
    modify (λ db. record db { items = select (λ i. not (str_eq i.order_id order_id)) db.items })

unfoldable pub add_item : String → String → ℕ → ℤ → Action (Unit {0})
add_item order_id product_name quantity unit_price = modify (λ db. record db {
  items =
      db.items
      ++ record {
        order_id = order_id;
        product_name = product_name;
        quantity = quantity;
        unit_price = unit_price;
      }
        ∷ [];
})
