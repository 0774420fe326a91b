-- ===== src/CreditSales/Debts.antt =====
-- The debt commands of app/modules/orders/service.py: DEBT, PAID and the settle button. Amounts in
-- the commands are whole naira; a reply is kept as the template's name and its values.
use chat_to_sales.CreditSales.Repository.{with_sale_status, get_sale, is_active_sale, update_sale}
use chat_to_sales.Models.{credit_sale_status_changed, settled, active, CreditSale, Db, Env}
use chat_to_sales.Base.{
  ◌-◌, leb, ◌&&◌, ◌==◌, length, str_eq, [], some, ◌∷◌, select, Option, ◌*◌, none, Bool,
  if◌then◌else◌, ◌++◌, List, ◌/◌, ℕ, String,
}

pub data Reply : Type 0 where
  debt_created : String → ℕ → Reply
  debt_not_found : String → Reply
  debt_ambiguous : ℕ → String → Reply
  debt_partial_payment : String → ℕ → ℕ → Reply
  debt_settled : String → ℕ → Reply
  already_settled silent : Reply

-- The columns that the command leaves to their defaults.
abbrev pub plain_debt : Env → String → String → ℕ → CreditSale
plain_debt e tenant_id customer_name amount = record {
  id = e.fresh_id;
  tenant_id = tenant_id;
  order_id = none;
  conversation_id = none;
  customer_name = customer_name;
  amount = amount * 100;
  currency = "NGN";
  due_date = none;
  status = active;
  notes = none;
  reminder_interval_days = 3;
  max_reminders = 5;
  reminders_sent = 0;
  last_reminded_at = none;
  created_at = e.now;
}

-- `_do_create_debt`
unfoldable pub do_create_debt : Env → String → String → ℕ → Db → Reply × Db
do_create_debt e tenant_id customer_name amount db = (
  debt_created customer_name amount,
  record db { credit_sales = db.credit_sales ++ plain_debt e tenant_id customer_name amount ∷ [] },
)

-- `int(amount)` of a number of hundredths.
abbrev pub whole : ℕ → ℕ
whole hundredths = hundredths / 100

-- `debt.amount = Decimal(str(remaining))`
abbrev pub with_balance : ℕ → CreditSale → CreditSale
with_balance naira c = record c { amount = naira * 100 }

-- What a payment does to the one debt that the name finds.
unfoldable pub pay_debt : CreditSale → ℕ → Db → Reply × Db
unfolding update_sale
pay_debt debt amount db =
    if amount == 0
    then (silent, db)
    else if leb (whole debt.amount) amount
    then (
      debt_settled debt.customer_name (whole debt.amount),
      update_sale debt.id (with_sale_status settled) db,
    )
    else (
      debt_partial_payment debt.customer_name amount (whole debt.amount - amount),
      update_sale debt.id (with_balance (whole debt.amount - amount)) db,
    )

-- The branches on the debts that were found: none, one, or several.
unfoldable pub settle_found : String → ℕ → List CreditSale → Db → Reply × Db
unfolding pay_debt
settle_found name amount [] db = (debt_not_found name, db)
settle_found name amount (debt ∷ []) db = pay_debt debt amount db
settle_found name amount (d ∷ d' ∷ ds) db = (debt_ambiguous (length (d ∷ d' ∷ ds)) name, db)

-- The settle button's branch on the sale that was found.
unfoldable pub settle_tapped : String → Option CreditSale → Db → Reply × Db
unfolding update_sale is_active_sale
settle_tapped tenant_id none db = (already_settled, db)
settle_tapped tenant_id (some c) db =
    if is_active_sale c.status
    then (
      debt_settled c.customer_name (whole c.amount),
      record (update_sale c.id (with_sale_status settled) db) {
        events = db.events ++ credit_sale_status_changed tenant_id c.id c.order_id settled ∷ [];
      },
    )
    else (already_settled, db)

-- `_handle_debt_settle`
unfoldable pub handle_debt_settle : String → String → Db → Reply × Db
unfolding settle_tapped
handle_debt_settle id tenant_id db = settle_tapped tenant_id (get_sale id tenant_id db) db

-- Lower case as SQL and as Python have it.
module _ (sql_lower lower : String → String) where
  abbrev pub owes : String → String → CreditSale → Bool
  owes tenant_id name c =
      str_eq c.tenant_id tenant_id
      && (is_active_sale c.status && str_eq (sql_lower c.customer_name) (lower name))

  -- `_do_settle_debt`
  unfoldable pub do_settle_debt : String → String → ℕ → Db → Reply × Db
  unfolding settle_found
  do_settle_debt tenant_id name amount db =
      settle_found name amount (select (owes tenant_id name) db.credit_sales) db
