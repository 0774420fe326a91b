-- ===== src/Orders/Trader/Final.antt =====
-- What a command of any trader can still do to an order that is paid or failed.
use chat_to_sales.Orders.Repository.{get_by_ref_prefix, is_open, update_order}
use chat_to_sales.Orders.Service.Changes.{order_id}
use chat_to_sales.Orders.Service.History.{
  order_of, LifecycleCall, call, call-Change, Change-Becomes, Becomes-closed,
}
use chat_to_sales.CreditSales.Service.{CreditSaleCreate, create_credit_sale, create_unless_found}
use chat_to_sales.CreditSales.Repository.{create, get_by_order_id}
use chat_to_sales.Orders.Trader.{
  order_command, run_command, OrderCommand, TraderCommand, confirm_it, cancel_it, paid_it, back,
  credit_it, on_credit, has_debt,
}
use chat_to_sales.Orders.Trader.Commands.{credit_body, order_command_refines, by_api, reply-Reads}
use chat_to_sales.Orders.Dialogue.{Chat, Setting}
use chat_to_sales.Orders.Dialogue.Replies.{reply}
use chat_to_sales.Models.{Reply, Order, Db, Env}
use chat_to_sales.Base.{
  IsKeyed, ◌≡◌, ◌∙◌, ap, refl, some, none, Option-cases, Bool-cases, inl, inr, Bool, true, false,
  String, has_key, find?-update_where_key, ◌||◌,
}

-- The order as it was, marked as on credit or not.
abbrev pub marked : Bool → Order → Order
marked b o = record o { is_credit = b }

kept_by_call :
    (e : Env) (c : LifecycleCall) (j : String) (o : Order) (db : Db)
    → IsKeyed order_id db.orders
    → order_of j db.orders ≡ some o
    → is_open o.state ≡ false
    → order_of j (call e c db).orders ≡ some o
kept_by_call e c j o db keyed found closed =
    let (o', h, b) =
      Change-Becomes e j o db (call e c db).orders keyed found (call-Change e c db) in
    h ∙ ap some (Becomes-closed o o' closed b)

kept_by_mark :
    (id j : String) (o : Order) (db : Db)
    → order_of j db.orders ≡ some o
    → (b : Bool) × (order_of j (update_order id on_credit db).orders ≡ some (marked b o))
unfolding update_order
kept_by_mark id j o db found = elim (Bool-cases (has_key order_id id o)) [
  | inl hit ↦ (
    true,
    rw
        (
          find?-update_where_key order_id j (has_key order_id id) on_credit db.orders (λ x. refl),
          found,
        )
        (rw hit refl),
  )
  | inr miss ↦ (
    o.is_credit,
    rw
        (
          find?-update_where_key order_id j (has_key order_id id) on_credit db.orders (λ x. refl),
          found,
        )
        (rw miss refl),
  )
]

create_credit_sale-orders :
    (e : Env) (t : String) (b : CreditSaleCreate) (db : Db)
    → (create_credit_sale e t b db).1.orders ≡ db.orders
unfolding create_credit_sale create_unless_found create
create_credit_sale-orders e t b db = elim (Option-cases (get_by_order_id b.order_id t db)) [
  | inl free ↦ rw free refl
  | inr (x, there) ↦ rw there refl
]

module _ (S : Setting) (k : TraderCommand) where
  kept_by_api :
      (what : OrderCommand) (x : Order) (j : String) (o : Order) (db : Db)
      → IsKeyed order_id db.orders
      → order_of j db.orders ≡ some o
      → is_open o.state ≡ false
      → (b : Bool) × (order_of j (by_api S k what x db).orders ≡ some (marked b o))
  unfolding call
  kept_by_api confirm_it x j o db keyed found closed =
      (o.is_credit, kept_by_call S.env (LifecycleCall.confirm x.id none) j o db keyed found closed)
  kept_by_api cancel_it x j o db keyed found closed =
      (o.is_credit, kept_by_call S.env (LifecycleCall.fail x.id none) j o db keyed found closed)
  kept_by_api paid_it x j o db keyed found closed = (
    o.is_credit,
    kept_by_call S.env (LifecycleCall.mark_paid x.id none) j o db keyed found closed,
  )
  kept_by_api credit_it x j o db keyed found closed =
      elim (Bool-cases (x.is_credit || has_debt x.id db)) [
        | inl nothing_done ↦ (o.is_credit, rw nothing_done found)
        | inr done ↦
            let db' = (create_credit_sale S.env x.tenant_id (credit_body S k x) db).1 in
            let kept = create_credit_sale-orders S.env x.tenant_id (credit_body S k x) db in
            let (b, h) = kept_by_mark x.id j o db' (ap (order_of j) kept ∙ found) in (b, rw done h)
      ]

  -- In a table of orders with distinct keys, whatever command on an order any trader sends, with any reference: a paid or failed order
  -- stays as it was, but for the mark that it is on credit.
  pub closed_but_for_credit :
      (what : OrderCommand) (j : String) (o : Order) (c : Chat S)
      → IsKeyed order_id c.world.db.orders
      → order_of j c.world.db.orders ≡ some o
      → is_open o.state ≡ false
      → (b : Bool) × (order_of j (order_command S k what c).world.db.orders ≡ some (marked b o))
  unfolding order_command run_command reply get_by_ref_prefix
  closed_but_for_credit what j o c keyed found closed =
      elim (Option-cases (get_by_ref_prefix k.ref none c.world.db)) [
        | inr (x, there) ↦
            let tables = (order_command_refines S k what x c keyed there).tables in
            let (b, h) = kept_by_api what x j o c.world.db keyed found closed in
            (b, ap (λ (d : Db). order_of j d.orders) tables ∙ h)
        | inl gone ↦
            let n =
              back S k "order.not_found." k.message_id (Reply.order_not_found_to_trader k.ref) in
            (
              o.is_credit,
              ap (λ f. order_of j (run_command S k what f c).world.db.orders) gone
                  ∙ ap (λ (d : Db). order_of j d.orders)
                      (reply-Reads S c.world.db n n c.world (record { tables = refl })).tables
                  ∙ found,
            )
      ]
