-- ===== src/CreditSales/Settlement.antt =====
-- What the two ways of settling a debt do: the button and the HTTP API, which announce it so that
-- the linked order is paid, and the trader's PAID command.
use chat_to_sales.CreditSales.History.{owes-active}
use chat_to_sales.CreditSales.Fates.{sale_of}
use chat_to_sales.Orders.Service.Outcomes.{do_paid_transition_ok, paid_db}
use chat_to_sales.Session.{ok}
use chat_to_sales.Orders.Repository.{with_state, get_by_id}
use chat_to_sales.CreditSales.Repository.{
  is_active_sale, with_sale_status, sale_id, update_sale, get_sale,
}
use chat_to_sales.Orders.StateMachine.{same_state, state_in}
use chat_to_sales.CreditSales.Debts.{
  with_balance, whole, owes, pay_debt, settle_found, do_settle_debt,
}
use chat_to_sales.CreditSales.Service.{change_status}
use chat_to_sales.Base.{
  ◌-◌, leb, ◌==◌, find?-key, str_eq_self, select-first, find?-update_where_key, ◌≤◌, ◌%◌, refl, ◌*◌,
  inr, ◌+◌, inl, ◌<◌, Bool-cases, if◌then◌else◌, [], ◌∷◌, ◌++◌, false, select, arith, true, str_eq,
  ◌≡◌, some, has_key, update_where, IsKeyed, ℕ, String,
}
use chat_to_sales.Models.{
  settled, paid, confirmed, credit_sale_status_changed, Order, Event, Db, CreditSaleStatus,
  CreditSale, Env,
}
use chat_to_sales.Orders.Service.{handle_credit_sale_resolved}
use chat_to_sales.Payments.Handlers.{is_resolving, handle_credit_sale_status_changed}

-- The listener's method when the order is confirmed: the order is paid.
handle_credit_sale_resolved_ok :
    (e : Env) (id t : String) (o : Order) (db : Db)
    → get_by_id id (some t) db ≡ some o
    → o.state ≡ confirmed
    → handle_credit_sale_resolved e id t db ≡ (ok (some (with_state paid o)), paid_db e o db)
unfolding handle_credit_sale_resolved state_in same_state
handle_credit_sale_resolved_ok e id t o db h sure =
    ground (arith, do_paid_transition_ok e o db sure)

-- The event of a change of status.
abbrev pub announcement : String → CreditSale → CreditSaleStatus → Event
announcement t c s = credit_sale_status_changed t c.id c.order_id s

-- The database after a change of status by the service.
abbrev pub changed_db : String → CreditSale → CreditSaleStatus → Db → Db
changed_db t c s db = record db {
  credit_sales = update_where (has_key sale_id c.id) (with_sale_status s) db.credit_sales;
  events = db.events ++ announcement t c s ∷ [];
}

pub change_status_ok :
    (s : CreditSaleStatus) (id t : String) (c : CreditSale) (db : Db)
    → get_sale id t db ≡ some c
    → change_status s id t db ≡ (ok (with_sale_status s c), changed_db t c s db)
unfolding change_status
change_status_ok s id t c db h = ground arith

resolved_event :
    (e : Env) (t oid : String) (c : CreditSale) (s : CreditSaleStatus) (o : Order) (db : Db)
    → is_resolving s ≡ true
    → c.order_id ≡ some oid
    → str_eq oid "" ≡ false
    → str_eq t "" ≡ false
    → get_by_id oid (some t) db ≡ some o
    → o.state ≡ confirmed
    → handle_credit_sale_status_changed e (announcement t c s) db ≡ paid_db e o db
unfolding handle_credit_sale_status_changed
resolved_event e t oid c s o db ends linked has_order has_tenant ho sure =
    ground (arith, handle_credit_sale_resolved_ok e oid t o db ho sure)

-- When a sale is settled or written off and its order is confirmed, the change is announced and, once
-- the listener has taken the announcement, the order is paid, with the customer list and the
-- referral of its trader as a payment changes them; a disputed sale leaves the order alone.
pub change_status_pays_order :
    (e : Env) (id t oid : String) (c : CreditSale) (s : CreditSaleStatus) (o : Order) (db : Db)
    → get_sale id t db ≡ some c
    → c.order_id ≡ some oid
    → str_eq oid "" ≡ false
    → str_eq t "" ≡ false
    → get_by_id oid (some t) db ≡ some o
    → o.state ≡ confirmed
    → let db₁ = (change_status s id t db).1 in
      (db₁.events ≡ db.events ++ announcement t c s ∷ [])
      × (handle_credit_sale_status_changed e (announcement t c s) db₁
          ≡ (if is_resolving s then paid_db e o db₁ else db₁))
change_status_pays_order e id t oid c s o db h linked has_order has_tenant ho sure =
    rw (change_status_ok s id t c db h) (
      refl,
      elim (Bool-cases (is_resolving s)) [
        | inl ends ↦ rw ends (
            resolved_event e t oid c s o (changed_db t c s db) ends linked has_order has_tenant
              found₁ sure)
        | inr other ↦ unfold handle_credit_sale_status_changed in ground arith
      ],
    )
  where
    found₁ : get_by_id oid (some t) (changed_db t c s db) ≡ some o
    found₁ = unfold get_by_id in unfold get_by_id in ho

row_updated :
    (c : CreditSale) (f : CreditSale → CreditSale) (db : Db)
    → sale_of c.id db.credit_sales ≡ some c
    → ((x : CreditSale) → (f x).id ≡ x.id)
    → sale_of c.id (update_where (has_key sale_id c.id) f db.credit_sales) ≡ some (f c)
row_updated c f db h keep =
    rw (find?-update_where_key sale_id c.id (has_key sale_id c.id) f db.credit_sales keep, h)
      (rw (str_eq_self c.id))

module _ (sql_lower lower : String → String) where
  -- Whatever is paid with the PAID command, and whichever debts the name finds, no event is
  -- published and no order, payment or customer changes.
  pub do_settle_debt_silent :
      (t name : String) (n : ℕ) (db : Db)
      → let db₁ = (do_settle_debt sql_lower lower t name n db).1 in
        (db₁.events ≡ db.events)
        × (db₁.orders ≡ db.orders)
        × (db₁.payments ≡ db.payments)
        × (db₁.customers ≡ db.customers)
  unfolding do_settle_debt settle_found pay_debt update_sale
  do_settle_debt_silent t name n db = ground arith

  -- A payment on the one active debt that the name finds, in a table with unique keys. An amount
  -- below the balance in whole naira leaves the debt active, and its new balance, the amount
  -- and the hundredths of the old balance add up to the old balance; one that is not below it settles
  -- the debt, with its balance kept; of nothing, it changes nothing.
  pub do_settle_debt_pays :
      (t name : String) (n : ℕ) (c : CreditSale) (db : Db)
      → IsKeyed sale_id db.credit_sales
      → select (owes sql_lower lower t name) db.credit_sales ≡ c ∷ []
      → (c' : CreditSale) × (sale_of c.id
            (do_settle_debt sql_lower lower t name n db).1.credit_sales
          ≡ some c')
        × (n ≡ 0 → c' ≡ c)
        × (0 < n
            → n < whole c.amount
            → (c'.amount + n * 100 + c.amount % 100 ≡ c.amount) × (is_active_sale c'.status ≡ true))
        × (0 < n → whole c.amount ≤ n → (c'.amount ≡ c.amount) × (c'.status ≡ settled))
  unfolding do_settle_debt settle_found pay_debt update_sale
  do_settle_debt_pays t name n c db keyed h =
      let (m, fits) = select-first (owes sql_lower lower t name) db.credit_sales c h in
      let active_yet = owes-active sql_lower lower t name c fits in
      let row = find?-key sale_id db.credit_sales c keyed m in
      rw h (elim (Bool-cases (n == 0)) [
        | inl nothing ↦ (c, ground (arith, row), λ _. refl, ground arith, ground arith)
        | inr some_money ↦ elim (Bool-cases (leb (whole c.amount) n)) [
          | inl all ↦ (
            with_sale_status settled c,
            rw (some_money, all) (row_updated c (with_sale_status settled) db row (λ x. refl)),
            ground arith,
            ground arith,
            ground arith,
          )
          | inr part ↦ (
            with_balance (whole c.amount - n) c,
            rw (some_money, part)
                (row_updated c (with_balance (whole c.amount - n)) db row (λ x. refl)),
            ground arith,
            ground arith,
            ground arith,
          )
        ]
      ])
