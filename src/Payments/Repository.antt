-- ===== src/Payments/Repository.antt =====
-- app/modules/payments/repository.py: the queries and the writes on payments.
use chat_to_sales.Session.{ok, Action}
use chat_to_sales.Models.{success, Db, pending, Env, PaymentStatus, Payment}
use chat_to_sales.Base.{
  text_or, truthy, [], if◌then◌else◌, ◌∷◌, ◌&&◌, has_key, update_where, ◌++◌, false, str_eq, find?,
  latest, true, ℤ, Option, Bool, String,
}

-- `_ACTIVE_STATUSES`
unfoldable pub is_active : PaymentStatus → Bool
is_active pending = true
is_active success = true
is_active PaymentStatus.failed = false

abbrev pub payment_id : Payment → String
payment_id p = p.id

abbrev pub reference_of : Payment → String
reference_of p = p.reference

-- The column `reference` is unique, so at most one row fits.
unfoldable pub get_by_reference : String → Db → Option Payment
get_by_reference reference db = find? (has_key reference_of reference) db.payments

-- `if tenant_id: stmt = stmt.where(Payment.tenant_id == tenant_id)`
unfoldable pub get_payment : String → Option String → Db → Option Payment
get_payment id tenant_id db =
    find?
      (λ p.
        has_key payment_id id p
        && (if truthy tenant_id then str_eq p.tenant_id (text_or tenant_id "") else true))
      db.payments

-- A payment that keeps a second one from being made for the order.
abbrev pub blocks : String → String → Payment → Bool
blocks order tenant p = str_eq p.order_id order && (str_eq p.tenant_id tenant && is_active p.status)

unfoldable pub get_active_for_order : String → String → Db → Option Payment
get_active_for_order order tenant db = latest (blocks order tenant) (λ p. p.created_at) db.payments

pub record NewPayment : Type 0 where
  pub tenant_id : String
  pub order_id : String
  pub reference : String
  pub amount : ℤ
  pub currency : String
  pub payment_link : Option String

abbrev pub new_payment : Env → NewPayment → Payment
new_payment e n = record {
  id = e.fresh_id;
  tenant_id = n.tenant_id;
  order_id = n.order_id;
  reference = n.reference;
  amount = n.amount;
  currency = n.currency;
  status = pending;
  provider = "paystack";
  payment_link = n.payment_link;
  created_at = e.now;
}

unfoldable pub create_payment : Env → NewPayment → Action Payment
create_payment e n db =
    (ok (new_payment e n), record db { payments = db.payments ++ new_payment e n ∷ [] })

abbrev pub with_status : PaymentStatus → Payment → Payment
with_status s p = record p { status = s }

unfoldable pub update_status : Payment → PaymentStatus → Action Payment
update_status p s db = (
  ok (with_status s p),
  record db { payments = update_where (has_key payment_id p.id) (with_status s) db.payments },
)
