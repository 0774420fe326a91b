-- ===== src/Marketing/CustomerList.antt =====
-- app/modules/marketing/customer_list.py: the customers of a trader and what they have spent.
pub mod Totals
pub mod OptOut
use chat_to_sales.Base.{
  ℕ, ◌+◌, ℤ, ◌+ℤ◌, String, Bool, true, false, ◌&&◌, not, Option, none, some, List, [], ◌∷◌, ◌++◌,
  find?, update_where, str_eq, truthy, if◌then◌else◌,
}
use chat_to_sales.Models.{Env, CustomerListEntry}
use chat_to_sales.Session.{Action, ok, modify}

-- `WHERE trader_phone = ... AND customer_phone = ...`, which the table's unique constraint makes
-- at most one row.
unfoldable pub is_entry : String → String → CustomerListEntry → Bool
is_entry trader_phone customer_phone c =
    str_eq c.trader_phone trader_phone && str_eq c.customer_phone customer_phone

-- `if customer_name and not entry.customer_name`
abbrev pub filled_name : Option String → Option String → Option String
filled_name given old = if truthy given && not (truthy old) then given else old

unfoldable pub bump : ℕ → Option String → ℤ → CustomerListEntry → CustomerListEntry
bump now customer_name order_amount c = record c {
  total_orders = c.total_orders + 1;
  total_spend = c.total_spend +ℤ order_amount;
  last_order_date = some now;
  customer_name = filled_name customer_name c.customer_name;
}

unfoldable pub first_entry : ℕ → String → String → String → Option String → ℤ → CustomerListEntry
first_entry now trader_phone tenant_id customer_phone customer_name order_amount = record {
  tenant_id = tenant_id;
  trader_phone = trader_phone;
  customer_phone = customer_phone;
  customer_name = customer_name;
  total_orders = 1;
  total_spend = order_amount;
  first_order_date = some now;
  last_order_date = some now;
  opted_out = false;
  opted_out_at = none;
  last_broadcast_at = none;
}

unfoldable pub upsert_rows :
    ℕ
    → String
    → String
    → String
    → Option String
    → ℤ
    → List CustomerListEntry
    → List CustomerListEntry
unfolding is_entry bump first_entry
upsert_rows now trader_phone tenant_id customer_phone customer_name order_amount rows =
    elim (find? (is_entry trader_phone customer_phone) rows) [
      | some entry ↦
          update_where (is_entry trader_phone customer_phone) (bump now customer_name order_amount)
            rows
      | none ↦
          rows
          ++ first_entry now trader_phone tenant_id customer_phone customer_name order_amount ∷ []
    ]

-- `CustomerListService.upsert_customer`; its result is not used by the callers.
unfoldable pub upsert_customer :
    Env → String → String → String → Option String → ℤ → Action (Unit {0})
upsert_customer e trader_phone tenant_id customer_phone customer_name order_amount = modify (λ db.
    record db {
      customers =
          upsert_rows e.now trader_phone tenant_id customer_phone customer_name order_amount
            db.customers;
    })

unfoldable pub opt_out_row : ℕ → CustomerListEntry → CustomerListEntry
opt_out_row now c = record c { opted_out = true; opted_out_at = some now }

-- The branch of `opt_out` on the entry that was found.
unfoldable pub opt_out_found : ℕ → String → String → Option CustomerListEntry → Action Bool
unfolding opt_out_row is_entry
opt_out_found now trader_phone customer_phone none db = (ok false, db)
opt_out_found now trader_phone customer_phone (some c) db =
    if c.opted_out then (ok false, db) else (
      ok true,
      record db {
        customers =
            update_where (is_entry trader_phone customer_phone) (opt_out_row now) db.customers;
      },
    )

-- `CustomerListService.opt_out`
unfoldable pub opt_out : Env → String → String → Action Bool
unfolding opt_out_found
opt_out e trader_phone customer_phone db =
    opt_out_found e.now trader_phone customer_phone
      (find? (is_entry trader_phone customer_phone) db.customers) db
