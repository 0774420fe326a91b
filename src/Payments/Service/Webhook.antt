-- ===== src/Payments/Service/Webhook.antt =====
-- The webhook: a payment that has succeeded is final, and it is confirmed on the bus only once.
use chat_to_sales.Session.{ok}
use mathlib.Core.List.{Memᴰ}
use chat_to_sales.Base.{
  [], ◌∷◌, ◌++◌, false, refl, str_eq_self, find?-update_where_key, inr, inl, find?-mem, has_key,
  Bool-cases, update_where, arith, some, true, Bool, String, ◌≡◌,
}
use chat_to_sales.Payments.Repository.{reference_of, payment_id, with_status, get_by_reference}
use chat_to_sales.Payments.Service.{is_success, handle_webhook}
use chat_to_sales.Models.{payment_confirmed, Event, success, Db, Payment, PaymentStatus}

with_status_same : (s : PaymentStatus) (p : Payment) → p.status ≡ s → with_status s p ≡ p
with_status_same s p h = ground arith

is_success-eq : (s : PaymentStatus) → is_success s ≡ true → s ≡ success
unfolding is_success
is_success-eq s h = ground arith

get_by_reference-mem :
    (r : String) (db : Db) (p : Payment) → get_by_reference r db ≡ some p → Memᴰ p db.payments
unfolding get_by_reference
get_by_reference-mem r db p h = find?-mem _ db.payments p h

-- What a reference finds after the status of the row that it found has changed.
pub get_by_reference_updated :
    (r : String) (s : PaymentStatus) (p : Payment) (db db' : Db)
    → get_by_reference r db ≡ some p
    → db'.payments ≡ update_where (has_key payment_id p.id) (with_status s) db.payments
    → get_by_reference r db' ≡ some (with_status s p)
unfolding get_by_reference
get_by_reference_updated r s p db db' h e =
    rw
      (
        e,
        find?-update_where_key reference_of r (has_key payment_id p.id) (with_status s) db.payments
            (λ x. refl),
        h,
      )
      (rw (str_eq_self p.id))

abbrev pub confirmation : Payment → Event
confirmation p = payment_confirmed p.tenant_id p.id p.order_id p.reference p.amount p.currency

-- The database after the first report of success.
abbrev pub succeeded_db : Payment → Db → Db
succeeded_db p db = record db {
  payments = update_where (has_key payment_id p.id) (with_status success) db.payments;
  events = db.events ++ confirmation p ∷ [];
}

pub webhook_first_success :
    (r : String) (p : Payment) (db : Db)
    → get_by_reference r db ≡ some p
    → is_success p.status ≡ false
    → handle_webhook r true db ≡ (ok (some (with_status success p)), succeeded_db p db)
unfolding handle_webhook
webhook_first_success r p db h open_yet = ground arith

pub webhook_on_success :
    (r : String) (good : Bool) (p : Payment) (db : Db)
    → get_by_reference r db ≡ some p
    → p.status ≡ success
    → handle_webhook r good db ≡ (ok (some p), db)
unfolding handle_webhook
webhook_on_success r good p db h done = ground arith

-- After a webhook that reports success for a known reference, any further webhook for it, also one
-- that reports failure, returns the payment as SUCCESS and changes nothing.
pub webhook_success_final :
    (r : String) (again : Bool) (p : Payment) (db : Db)
    → get_by_reference r db ≡ some p
    → let db₁ = (handle_webhook r true db).1 in
      handle_webhook r again db₁ ≡ (ok (some (with_status success p)), db₁)
webhook_success_final r again p db h = elim (Bool-cases (is_success p.status)) [
  | inl done ↦
      let e = is_success-eq p.status done in
      rw (webhook_on_success r true p db h e, with_status_same success p e)
        (webhook_on_success r again p db h e)
  | inr open_yet ↦ rw (webhook_first_success r p db h open_yet) (
      webhook_on_success r again (with_status success p) (succeeded_db p db)
        (get_by_reference_updated r success p db (succeeded_db p db) h refl) refl)
]
