-- ===== src/CreditSales/History.antt =====
-- Any sequence of the operations on credit sales, by the HTTP API, the trader's commands and
-- buttons: what may become of one sale.
use chat_to_sales.CreditSales.Service.{
  send_reminder, write_off, dispute, settle, create_credit_sale, CreditSaleCreate,
}
use chat_to_sales.CreditSales.Repository.{get_sale, with_sale_status, is_active_sale}
use chat_to_sales.CreditSales.Changes.{
  send_reminder-Change, change_status-Change, create_credit_sale-Change, get_sale-mem,
  balance-Progress, status-Progress, updated, same, inserted, SaleChange,
}
use mathlib.Core.List.{Memᴰ}
use chat_to_sales.Base.{
  Option-cases, select-first, leb, [], inr, inl, ◌==◌, ◌∷◌, Bool-cases, refl, true, arith, ◌≡◌, ◌≤◌,
  ◌*◌, select, ◌-◌, List, String, ℕ, Bool,
}
use chat_to_sales.Models.{written_off, disputed, settled, Db, Env, CreditSale}
use chat_to_sales.CreditSales.Debts.{
  do_settle_debt, settle_found, owes, handle_debt_settle, with_balance, plain_debt, whole, pay_debt,
  do_create_debt,
}

pub do_create_debt-Change :
    (e : Env) (t name : String) (n : ℕ) (db : Db)
    → SaleChange e db (do_create_debt e t name n db).1.credit_sales
unfolding do_create_debt
do_create_debt-Change e t name n db = inserted (plain_debt e t name n) refl refl

partial_balance : (c : CreditSale) (n : ℕ) → (whole c.amount - n) * 100 ≤ c.amount
partial_balance c n = omega arith

pay_debt-Change :
    (e : Env) (c : CreditSale) (n : ℕ) (db : Db)
    → Memᴰ c db.credit_sales
    → is_active_sale c.status ≡ true
    → SaleChange e db (pay_debt c n db).1.credit_sales
unfolding pay_debt
pay_debt-Change e c n db m opened = elim (Bool-cases (n == 0)) [
  | inl nothing ↦ same (ground arith)
  | inr some_money ↦ elim (Bool-cases (leb (whole c.amount) n)) [
    | inl all ↦
        updated c (with_sale_status settled) m (λ x. refl)
          (status-Progress c settled (unfold is_active_sale in refl)) (ground arith)
    | inr part ↦
        updated c (with_balance (whole c.amount - n)) m (λ x. refl)
          (balance-Progress (whole c.amount - n) c opened (partial_balance c n)) (ground arith)
  ]
]

settle_found-Change :
    (e : Env) (name : String) (n : ℕ) (p : CreditSale → Bool) (db : Db) (ds : List CreditSale)
    → ((c : CreditSale) → p c ≡ true → is_active_sale c.status ≡ true)
    → select p db.credit_sales ≡ ds
    → SaleChange e db (settle_found name n ds db).1.credit_sales
unfolding settle_found
settle_found-Change e name n p db [] act h = same refl
settle_found-Change e name n p db (d ∷ []) act h =
    let (m, fits) = select-first p db.credit_sales d h in pay_debt-Change e d n db m (act d fits)
settle_found-Change e name n p db (d ∷ d' ∷ ds) act h = same refl

pub handle_debt_settle-Change :
    (e : Env) (id t : String) (db : Db)
    → SaleChange e db (handle_debt_settle id t db).1.credit_sales
unfolding handle_debt_settle
handle_debt_settle-Change e id t db = elim (Option-cases (get_sale id t db)) [
  | inl gone ↦ same (ground arith)
  | inr (c, found) ↦ elim (Bool-cases (is_active_sale c.status)) [
    | inr closed ↦ same (ground arith)
    | inl opened ↦
        updated c (with_sale_status settled) (get_sale-mem id t db c found) (λ x. refl)
          (status-Progress c settled (unfold is_active_sale in refl)) (ground arith)
  ]
]

-- An operation with its arguments.
pub data SaleCall : Type 0 where
  create_sale : String → CreditSaleCreate → SaleCall
  settle_sale dispute_sale write_off_sale remind : String → String → SaleCall
  debt : String → String → ℕ → SaleCall
  paid_debt : String → String → ℕ → SaleCall
  settle_tap : String → String → SaleCall

module _ (sql_lower lower : String → String) where
  -- The database after the operation, whether it returned or raised.
  unfoldable pub call_sale : Env → SaleCall → Db → Db
  call_sale e (create_sale t b) db = (create_credit_sale e t b db).1
  call_sale e (settle_sale id t) db = (settle id t db).1
  call_sale e (dispute_sale id t) db = (dispute id t db).1
  call_sale e (write_off_sale id t) db = (write_off id t db).1
  call_sale e (remind id t) db = (send_reminder e id t db).1
  call_sale e (debt t name n) db = (do_create_debt e t name n db).1
  call_sale e (paid_debt t name n) db = (do_settle_debt sql_lower lower t name n db).1
  call_sale e (settle_tap id t) db = (handle_debt_settle id t db).1

  pub owes-active :
      (t name : String) (c : CreditSale)
      → owes sql_lower lower t name c ≡ true
      → is_active_sale c.status ≡ true
  owes-active t name c h = ground arith

  pub call_sale-Change :
      (e : Env) (c : SaleCall) (db : Db) → SaleChange e db (call_sale e c db).credit_sales
  unfolding call_sale settle dispute write_off do_settle_debt is_active_sale
  call_sale-Change e (create_sale t b) db = create_credit_sale-Change e t b db
  call_sale-Change e (settle_sale id t) db = change_status-Change e settled id t db refl
  call_sale-Change e (dispute_sale id t) db = change_status-Change e disputed id t db refl
  call_sale-Change e (write_off_sale id t) db = change_status-Change e written_off id t db refl
  call_sale-Change e (remind id t) db = send_reminder-Change e id t db
  call_sale-Change e (debt t name n) db = do_create_debt-Change e t name n db
  call_sale-Change e (paid_debt t name n) db =
      settle_found-Change e name n (owes sql_lower lower t name) db _ (owes-active t name) refl
  call_sale-Change e (settle_tap id t) db = handle_debt_settle-Change e id t db

  unfoldable pub run_sales : List (Env × SaleCall) → Db → Db
  run_sales [] db = db
  run_sales ((e, c) ∷ rest) db = run_sales rest (call_sale e c db)
