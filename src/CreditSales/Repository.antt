-- ===== src/CreditSales/Repository.antt =====
-- app/modules/credit_sales/repository.py: the queries and the writes on credit sales.
use chat_to_sales.Session.{pure, ◌>>◌, modify, Action}
use chat_to_sales.Models.{active, Db, CreditSale, Env, CreditSaleStatus}
use chat_to_sales.Base.{
  [], ◌∷◌, none, ◌++◌, str_eq, has_key, ◌&&◌, false, true, some, update_where, find?, ◌+◌, Option,
  Bool, ℕ, String,
}

abbrev pub sale_id : CreditSale → String
sale_id c = c.id

unfoldable pub is_active_sale : CreditSaleStatus → Bool
is_active_sale active = true
is_active_sale _ = false

unfoldable pub get_sale : String → String → Db → Option CreditSale
get_sale id tenant_id db =
    find? (λ c. has_key sale_id id c && str_eq c.tenant_id tenant_id) db.credit_sales

abbrev pub of_order : String → Option String → Bool
of_order order none = false
of_order order (some o) = str_eq o order

-- The column `order_id` is unique, so at most one row fits.
unfoldable pub get_by_order_id : String → String → Db → Option CreditSale
get_by_order_id order tenant_id db =
    find? (λ c. of_order order c.order_id && str_eq c.tenant_id tenant_id) db.credit_sales

unfoldable pub create : CreditSale → Action (Unit {0})
create c = modify (λ db. record db { credit_sales = db.credit_sales ++ c ∷ [] })

-- What a flush of a changed `CreditSale` object writes: the row with its key.
unfoldable pub update_sale : String → (CreditSale → CreditSale) → Db → Db
update_sale id f db = record db {
  credit_sales = update_where (has_key sale_id id) f db.credit_sales;
}

abbrev pub with_sale_status : CreditSaleStatus → CreditSale → CreditSale
with_sale_status s c = record c { status = s }

unfoldable pub update_sale_status : CreditSale → CreditSaleStatus → Action CreditSale
unfolding update_sale
update_sale_status c s = do
  modify (update_sale c.id (with_sale_status s))
  pure (with_sale_status s c)

abbrev pub reminded : ℕ → CreditSale → CreditSale
reminded now c = record c { reminders_sent = c.reminders_sent + 1; last_reminded_at = some now }

unfoldable pub increment_reminder : Env → CreditSale → Action CreditSale
unfolding update_sale
increment_reminder e c = do modify (update_sale c.id (reminded e.now)); pure (reminded e.now c)
