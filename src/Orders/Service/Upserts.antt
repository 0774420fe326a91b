-- ===== src/Orders/Service/Upserts.antt =====
-- What the methods that write items do to the table of orders.
use chat_to_sales.Orders.StateMachine.Lifecycle.{here, ◌⟶*◌}
use chat_to_sales.Session.{ok}
use mathlib.Core.List.{Memᴰ}
use chat_to_sales.Base.{
  Bool-cases, sym, latest-holds, refl, inr, arith, [], inl, has_key, ◌∷◌, subst, latest-mem,
  update_where, ◌++◌, Option, Option-cases, some, true, none, ◌≡◌, List, String,
}
use chat_to_sales.Models.{Db, Env, Order}
use chat_to_sales.Orders.Repository.{
  new_order, get_by_id, add_item, create_order, update_order, is_open, delete_items_for_order,
  get_open_order_for_conversation,
}
use chat_to_sales.Orders.Service.{
  with_amount, items_total, with_total, new_from, OrderItemCreate, OrderCreate,
  create_order_with_items, upsert_order, add_all, add_items,
}
use chat_to_sales.Orders.Service.Changes.{
  get_by_id-mem, order_id, Advances, Change, same, inserted, updated,
}

-- Adding items touches the items only.
pub add_all-orders :
    (id : String) (is : List OrderItemCreate) (db : Db)
    → ((add_all id is db).0 ≡ ok tt) × ((add_all id is db).1.orders ≡ db.orders)
unfolding add_all add_item
add_all-orders id [] db = (refl, refl)
add_all-orders id (i ∷ is) db =
    add_all-orders id is (add_item id i.name i.quantity i.unit_price db).1

open_row_mem :
    (conv t : String) (db : Db) (r : Order)
    → get_open_order_for_conversation conv t db ≡ some r
    → Memᴰ r db.orders × (is_open r.state ≡ true)
unfolding get_open_order_for_conversation
open_row_mem conv t db r h =
    (latest-mem _ _ db.orders r h, ground (arith, latest-holds _ _ db.orders r h))

staying-Advances :
    (r r' : Order)
    → is_open r.state ≡ true
    → r'.state ≡ r.state
    → r'.id ≡ r.id
    → r'.tenant_id ≡ r.tenant_id
    → r'.conversation_id ≡ r.conversation_id
    → Advances r r'
staying-Advances r r' h s i t c = record {
  was_open = h;
  steps = subst (λ x. r.state ⟶* x) (sym s) here;
  same_id = i;
  same_tenant = t;
  same_conversation = c;
}

upsert_order-orders_new :
    (e : Env) (d : OrderCreate) (db : Db)
    → (upsert_order e d none db).1.orders ≡ db.orders ++ new_order e (new_from d) ∷ []
unfolding upsert_order create_order
upsert_order-orders_new e d db = ground (
  arith,
  add_all-orders e.fresh_id d.items
      (record db { orders = db.orders ++ new_order e (new_from d) ∷ [] }),
)

upsert_order-orders_open :
    (e : Env) (d : OrderCreate) (r : Order) (db : Db)
    → (upsert_order e d (some r) db).1.orders
      ≡ update_where (has_key order_id r.id) (with_total (items_total d.items) d.currency) db.orders
unfolding upsert_order delete_items_for_order update_order
upsert_order-orders_open e d r db = ground (
  arith,
  add_all-orders r.id d.items (
      update_order r.id (with_total (items_total d.items) d.currency)
        (delete_items_for_order r.id db).1),
)

pub create_order_with_items-Change :
    (e : Env) (d : OrderCreate) (db : Db) → Change e db (create_order_with_items e d db).1.orders
unfolding create_order_with_items
create_order_with_items-Change e d db =
    elim (Option-cases (get_open_order_for_conversation d.conversation_id d.tenant_id db)) [
      | inl fresh ↦ inserted (new_from d) fresh (rw fresh (upsert_order-orders_new e d db))
      | inr (r, found) ↦
          let (m, opened) = open_row_mem d.conversation_id d.tenant_id db r found in
          updated r (with_total (items_total d.items) d.currency) m (λ x. refl)
            (staying-Advances r (with_total (items_total d.items) d.currency r) opened refl refl
              refl refl)
            (rw found (upsert_order-orders_open e d r db))
    ]

pub add_items-Change :
    (e : Env) (id : String) (is : List OrderItemCreate) (t : Option String) (db : Db)
    → Change e db (add_items id is t db).1.orders
unfolding add_items update_order
add_items-Change e id is t db = elim (Option-cases (get_by_id id t db)) [
  | inl gone ↦ same (ground arith)
  | inr (r, found) ↦ elim (Bool-cases (is_open r.state)) [
    | inr closed ↦ same (ground arith)
    | inl opened ↦
        updated r (with_amount (items_total is)) (get_by_id-mem id t db r found) (λ x. refl)
          (staying-Advances r (with_amount (items_total is) r) opened refl refl refl refl)
          (ground (arith, add_all-orders r.id is db))
  ]
]
