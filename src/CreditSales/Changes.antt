-- ===== src/CreditSales/Changes.antt =====
-- What each operation on credit sales does to their table: nothing, one new active sale, or a
-- change of one row.
use native.Mathlib.Nat.{le_refl}
use chat_to_sales.CreditSales.Debts.{with_balance}
use mathlib.Core.List.{Memᴰ}
use chat_to_sales.Base.{
  refl, has_key, Bool-cases, update_where, [], inr, arith, find?-mem, ◌∷◌, ◌*◌, leb, ◌++◌, inl,
  true, some, List, Option-cases, ◌≤◌, false, String, ◌≡◌, ℕ,
}
use chat_to_sales.CreditSales.Service.{
  new_sale, CreditSaleCreate, change_status, send_reminder, create_credit_sale,
}
use chat_to_sales.CreditSales.Repository.{
  sale_id, reminded, with_sale_status, get_by_order_id, is_active_sale, get_sale,
}
use chat_to_sales.Models.{CreditSaleStatus, Db, CreditSale, Env}

-- How a sale goes on: the same sale of the same tenant and order, with a balance that does not
-- grow and a count of reminders that does not fall and stays within the limit; once it is not
-- active it stays so, with its balance and its reminders.
pub record Progress (c c' : CreditSale) : Type 0 where
  pub same_id : c'.id ≡ c.id
  pub same_tenant : c'.tenant_id ≡ c.tenant_id
  pub same_order : c'.order_id ≡ c.order_id
  pub same_limit : c'.max_reminders ≡ c.max_reminders
  pub balance : c'.amount ≤ c.amount
  pub counted : c.reminders_sent ≤ c'.reminders_sent
  pub limited : c.reminders_sent ≤ c.max_reminders → c'.reminders_sent ≤ c'.max_reminders
  pub stays_closed : is_active_sale c.status ≡ false → is_active_sale c'.status ≡ false
  pub closed_balance : is_active_sale c.status ≡ false → c'.amount ≡ c.amount
  pub closed_count : is_active_sale c.status ≡ false → c'.reminders_sent ≡ c.reminders_sent

pub data SaleChange (e : Env) (db : Db) (xs : List CreditSale) : Type 0 where
  same : xs ≡ db.credit_sales → SaleChange e db xs
  inserted :
      (c : CreditSale) → c.id ≡ e.fresh_id → xs ≡ db.credit_sales ++ c ∷ [] → SaleChange e db xs
  updated :
      (r : CreditSale) (f : CreditSale → CreditSale)
      → Memᴰ r db.credit_sales
      → ((x : CreditSale) → (f x).id ≡ x.id)
      → Progress r (f r)
      → xs ≡ update_where (has_key sale_id r.id) f db.credit_sales
      → SaleChange e db xs

pub get_sale-mem :
    (id t : String) (db : Db) (c : CreditSale) → get_sale id t db ≡ some c → Memᴰ c db.credit_sales
unfolding get_sale
get_sale-mem id t db c h = find?-mem _ db.credit_sales c h

pub status-Progress :
    (c : CreditSale) (s : CreditSaleStatus)
    → is_active_sale s ≡ false
    → Progress c (with_sale_status s c)
status-Progress c s h = ground (arith, le_refl c.amount, le_refl c.reminders_sent)

reminded-Progress :
    (now : ℕ) (c : CreditSale)
    → is_active_sale c.status ≡ true
    → leb c.max_reminders c.reminders_sent ≡ false
    → Progress c (reminded now c)
reminded-Progress now c h room = ground arith

pub balance-Progress :
    (n : ℕ) (c : CreditSale)
    → is_active_sale c.status ≡ true
    → n * 100 ≤ c.amount
    → Progress c (with_balance n c)
balance-Progress n c h less = ground arith

pub create_credit_sale-Change :
    (e : Env) (t : String) (b : CreditSaleCreate) (db : Db)
    → SaleChange e db (create_credit_sale e t b db).1.credit_sales
unfolding create_credit_sale
create_credit_sale-Change e t b db = elim (Option-cases (get_by_order_id b.order_id t db)) [
  | inl fresh ↦ inserted (new_sale e t b) refl (ground arith)
  | inr (c, found) ↦ same (ground arith)
]

pub change_status-Change :
    (e : Env) (s : CreditSaleStatus) (id t : String) (db : Db)
    → is_active_sale s ≡ false
    → SaleChange e db (change_status s id t db).1.credit_sales
unfolding change_status
change_status-Change e s id t db h = elim (Option-cases (get_sale id t db)) [
  | inl gone ↦ same (ground arith)
  | inr (c, found) ↦
      updated c (with_sale_status s) (get_sale-mem id t db c found) (λ x. refl)
        (status-Progress c s h) (ground arith)
]

pub send_reminder-Change :
    (e : Env) (id t : String) (db : Db) → SaleChange e db (send_reminder e id t db).1.credit_sales
unfolding send_reminder
send_reminder-Change e id t db = elim (Option-cases (get_sale id t db)) [
  | inl gone ↦ same (ground arith)
  | inr (c, found) ↦ elim (Bool-cases (is_active_sale c.status)) [
    | inr closed ↦ same (ground arith)
    | inl opened ↦ elim (Option-cases c.conversation_id) [
      | inl alone ↦ same (ground arith)
      | inr (conv, linked) ↦ elim (Bool-cases (leb c.max_reminders c.reminders_sent)) [
        | inl full ↦ same (ground arith)
        | inr room ↦
            updated c (reminded e.now) (get_sale-mem id t db c found) (λ x. refl)
              (reminded-Progress e.now c opened room) (ground arith)
      ]
    ]
  ]
]
