-- ===== src/Orders/Service/OneOpen.antt =====
-- At most one open order for each conversation: the guarantee that a customer who repeats an
-- intent does not get a second order.
use chat_to_sales.Orders.Service.History.{
  call-Change, Change-IsKeyed, call, FreshRun, LifecycleCall, run,
}
use chat_to_sales.Orders.Service.Changes.{updated, inserted, same, Change, order_id, Advances}
use chat_to_sales.Orders.Repository.{new_order, is_open, NewOrder, get_open_order_for_conversation}
use chat_to_sales.Models.{Env, Order, Db}
use mathlib.Core.List.{Memᴰ}
use native.Mathlib.Nat.{le_trans}
use chat_to_sales.Base.{
  sym, subst, find?-key, row_unique, has_key, eq_of_str_eq, latest-none, IsKeyed, refl,
}
use chat_to_sales.Base.{
  inl, inr, Bool-cases, count-append, [], ◌++◌, ◌∷◌, ◌&&◌, ◌≤◌, ap, update_where, none, arith, List,
  true, str_eq, count, Bool, String, ◌≡◌,
}

-- The rows that `get_open_order_for_conversation` selects.
abbrev pub open_for : String → String → Order → Bool
open_for conv t o = str_eq o.conversation_id conv && (str_eq o.tenant_id t && is_open o.state)

abbrev pub OneOpen : Db → Type 0
OneOpen db = (conv t : String) → count (open_for conv t) db.orders ≤ 1

open_for-Advances :
    (conv t : String) (o o' : Order)
    → Advances o o'
    → open_for conv t o' ≡ true
    → open_for conv t o ≡ true
open_for-Advances conv t o o' a h = ground (
  arith,
  a.was_open,
  ap (λ x. str_eq x conv) a.same_conversation,
  ap (λ x. str_eq x t) a.same_tenant,
)

count-update_where-le :
    (p hit : Order → Bool) (f : Order → Order) (xs : List Order)
    → ((x : Order) → Memᴰ x xs → hit x ≡ true → p (f x) ≡ true → p x ≡ true)
    → count p (update_where hit f xs) ≤ count p xs
count-update_where-le p hit f [] h = omega arith
count-update_where-le p hit f (x ∷ xs) h =
    ground
      (arith, h x (Memᴰ.head refl), count-update_where-le p hit f xs (λ y m. h y (Memᴰ.tail m)))

open_for_names :
    (conv t : String) (o : Order)
    → open_for conv t o ≡ true
    → (o.conversation_id ≡ conv) × (o.tenant_id ≡ t)
open_for_names conv t o h = elim (Bool-cases (str_eq o.conversation_id conv)) [
  | inr other ↦ cc (rw other at h)
  | inl c ↦ elim (Bool-cases (str_eq o.tenant_id t)) [
    | inr other ↦ cc (rw (c, other) at h)
    | inl u ↦ (eq_of_str_eq o.conversation_id conv c, eq_of_str_eq o.tenant_id t u)
  ]
]

-- No order was open for the conversation, so the new one is the only one.
none_was_open :
    (n : NewOrder) (db : Db) (conv t : String)
    → get_open_order_for_conversation n.conversation_id n.tenant_id db ≡ none
    → n.conversation_id ≡ conv
    → n.tenant_id ≡ t
    → count (open_for conv t) db.orders ≡ 0
unfolding get_open_order_for_conversation
none_was_open n db conv t h c u =
    rw (← c, ← u)
      (latest-none (open_for n.conversation_id n.tenant_id) (λ o. o.created_at) db.orders h)

count-inserted :
    (e : Env) (n : NewOrder) (db : Db) (conv t : String)
    → get_open_order_for_conversation n.conversation_id n.tenant_id db ≡ none
    → count (open_for conv t) db.orders ≤ 1
    → count (open_for conv t) (db.orders ++ new_order e n ∷ []) ≤ 1
count-inserted e n db conv t h one =
    rw (count-append (open_for conv t) db.orders (new_order e n ∷ []))
      (elim (Bool-cases (open_for conv t (new_order e n))) [
        | inr other ↦ rw other (omega arith)
        | inl mine ↦
            let (c, u) = open_for_names conv t (new_order e n) mine in
            rw mine (omega (arith, none_was_open n db conv t h c u))
      ])

Change-OneOpen :
    (e : Env) (db db' : Db)
    → IsKeyed order_id db.orders
    → OneOpen db
    → Change e db db'.orders
    → OneOpen db'
Change-OneOpen e db db' keyed one (same p) conv t = rw p (one conv t)
Change-OneOpen e db db' keyed one (inserted n z p) conv t =
    rw p (count-inserted e n db conv t z (one conv t))
Change-OneOpen e db db' keyed one (updated r f m keep a p) conv t = rw p (
    le_trans
      (count-update_where-le (open_for conv t) (has_key order_id r.id) f db.orders
        (λ x mx hit. row_back x mx hit))
      (one conv t))
  where
    row_back :
        (x : Order)
        → Memᴰ x db.orders
        → has_key order_id r.id x ≡ true
        → open_for conv t (f x) ≡ true
        → open_for conv t x ≡ true
    row_back x mx hit opened =
        let row : x ≡ r =
          row_unique order_id x.id db.orders x r keyed m (find?-key order_id db.orders x keyed mx)
            hit in
        open_for-Advances conv t x (f x) (subst (λ y. Advances y (f y)) (sym row) a) opened

-- Whatever calls of the nine methods of the order service that a `LifecycleCall` names, the dialogues with customers and
-- traders apart, are made with fresh keys on a table with unique keys where
-- no conversation has two open orders, no conversation of a tenant comes to have two open orders.
pub run-OneOpen :
    (calls : List (Env × LifecycleCall)) (db : Db)
    → IsKeyed order_id db.orders
    → FreshRun calls db
    → OneOpen db
    → OneOpen (run calls db)
unfolding run
run-OneOpen [] db keyed fresh one = one
run-OneOpen ((e, c) ∷ rest) db keyed fresh one =
    run-OneOpen rest (call e c db)
      (Change-IsKeyed e db (call e c db).orders fresh.0 keyed (call-Change e c db)) fresh.1
      (Change-OneOpen e db (call e c db) keyed one (call-Change e c db))
