-- ===== src/Orders/Service/Additions.antt =====
-- What `add_items` returns and writes.
use mathlib.Core.List.{append-nil, append_assoc}
use chat_to_sales.Orders.Service.Changes.{get_by_id-mem, order_id}
use chat_to_sales.Session.{closed_order, conflict, err, ok}
use chat_to_sales.Models.{Order, Db, OrderItem}
use chat_to_sales.Orders.Repository.{is_open, get_by_id, update_order, add_item}
use chat_to_sales.Base.{
  [], ◌∷◌, refl, str_eq_self, find?-key, find?-update_where_key, inl, inr, Bool-cases, has_key,
  update_where, if◌then◌else◌, arith, some, map, ◌++◌, IsKeyed, ◌≡◌, Option, List, String,
}
use chat_to_sales.Orders.Service.{items_total, with_amount, OrderItemCreate, add_all, add_items}

-- The row that an added item becomes.
abbrev pub item_row : String → OrderItemCreate → OrderItem
item_row id i = record {
  order_id = id;
  product_name = i.name;
  quantity = i.quantity;
  unit_price = i.unit_price;
}

add_all_lem :
    (id : String) (is : List OrderItemCreate) (db : Db)
    → add_all id is db ≡ (ok tt, record db { items = db.items ++ map (item_row id) is })
unfolding add_all add_item
add_all_lem id [] db = ground (arith, append-nil db.items)
add_all_lem id (i ∷ is) db =
    rw (add_all_lem id is (record db { items = db.items ++ item_row id i ∷ [] }))
      (rw (append_assoc db.items (item_row id i ∷ []) (map (item_row id) is)) refl)

-- On a table with unique keys, `add_items` on an open order that it finds returns it with the total of the items
-- that this call adds as its amount, whatever its amount was, and the items are added to those
-- that are stored; on a closed order it raises and changes nothing.
pub add_items_lem :
    (id : String) (is : List OrderItemCreate) (t : Option String) (o : Order) (db : Db)
    → IsKeyed order_id db.orders
    → get_by_id id t db ≡ some o
    → add_items id is t db ≡ (
        if is_open o.state
        then (
          ok (with_amount (items_total is) o),
          record db {
            orders = update_where (has_key order_id o.id) (with_amount (items_total is)) db.orders;
            items = db.items ++ map (item_row o.id) is;
          },
        )
        else (err (conflict (closed_order o.state)), db))
unfolding add_items update_order
add_items_lem id is t o db keyed found = elim (Bool-cases (is_open o.state)) [
  | inr closed ↦ ground arith
  | inl opened ↦ ground (
    arith,
    add_all_lem o.id is db,
    find?-update_where_key order_id o.id (has_key order_id o.id) (with_amount (items_total is))
        db.orders (λ x. refl),
    find?-key order_id db.orders o keyed (get_by_id-mem id t db o found),
    str_eq_self o.id,
  )
]
