-- ===== src/Marketing/CustomerList/Totals.antt =====
-- What a customer's row in the trader's list adds up to after any sequence of paid orders.
use chat_to_sales.Models.{CustomerListEntry}
use chat_to_sales.Marketing.CustomerList.{bump, first_entry, upsert_rows, is_entry}
use chat_to_sales.Base.{
  +ℤ_assoc, zero_+ℤ, +ℤ_zero, sym, find?-holds, find?-update_where, find?-append_some,
  str_eq_comm_false, str_eq_self, select, find?-append_none, if◌then◌else◌, count, Option-cases,
  ◌+◌, refl, inl, some, eq_of_str_eq, inr, ◌&&◌, Bool-cases, none, arith, ◌+ℤ◌, [], true, ◌∷◌, pos,
  str_eq, find?, false, Bool, Option, ℤ, ◌≡◌, String, List, ℕ,
}

-- The arguments of a call of `upsert_customer`, with its clock.
pub record Sale : Type 0 where
  pub now : ℕ
  pub trader_phone : String
  pub tenant_id : String
  pub customer_phone : String
  pub customer_name : Option String
  pub order_amount : ℤ

abbrev pub record_sale : Sale → List CustomerListEntry → List CustomerListEntry
record_sale s =
    upsert_rows s.now s.trader_phone s.tenant_id s.customer_phone s.customer_name s.order_amount

unfoldable pub record_sales : List Sale → List CustomerListEntry → List CustomerListEntry
record_sales [] rows = rows
record_sales (s ∷ rest) rows = record_sales rest (record_sale s rows)

-- The sales of a trader to a customer.
abbrev pub is_sale : String → String → Sale → Bool
is_sale trader customer s = str_eq trader s.trader_phone && str_eq customer s.customer_phone

-- What a trader's list says of a customer, who has bought nothing where there is no row.
abbrev pub orders_of : String → String → List CustomerListEntry → ℕ
orders_of trader customer rows = elim (find? (is_entry trader customer) rows) [
  | none ↦ 0
  | some c ↦ c.total_orders
]

abbrev pub spend_of : String → String → List CustomerListEntry → ℤ
spend_of trader customer rows = elim (find? (is_entry trader customer) rows) [
  | none ↦ pos 0
  | some c ↦ c.total_spend
]

abbrev pub spent : List Sale → ℤ
spent [] = pos 0
spent (s ∷ rest) = s.order_amount +ℤ spent rest

-- A row is of a trader and a customer where their numbers are equal, so the sale's row and the
-- row of the trader and customer that one asks for are one or never meet.
is_entry-other :
    (trader customer : String) (s : Sale) (c : CustomerListEntry)
    → is_sale trader customer s ≡ false
    → is_entry trader customer c ≡ true
    → is_entry s.trader_phone s.customer_phone c ≡ false
unfolding is_entry
is_entry-other trader customer s c h hit =
    ground (arith, eq_of_str_eq c.trader_phone trader, eq_of_str_eq c.customer_phone customer)

is_sale-names :
    (trader customer : String) (s : Sale)
    → is_sale trader customer s ≡ true
    → (trader ≡ s.trader_phone) × (customer ≡ s.customer_phone)
is_sale-names trader customer s h = elim (Bool-cases (str_eq trader s.trader_phone)) [
  | inr other ↦ cc (rw other at h)
  | inl t ↦ elim (Bool-cases (str_eq customer s.customer_phone)) [
    | inr other ↦ cc (rw (t, other) at h)
    | inl c ↦ (eq_of_str_eq trader s.trader_phone t, eq_of_str_eq customer s.customer_phone c)
  ]
]

bump-is_entry :
    (trader customer : String) (s : Sale) (c : CustomerListEntry)
    → is_entry trader customer (bump s.now s.customer_name s.order_amount c)
      ≡ is_entry trader customer c
unfolding is_entry bump
bump-is_entry trader customer s c = refl

abbrev new_row : Sale → CustomerListEntry
new_row s =
    first_entry s.now s.trader_phone s.tenant_id s.customer_phone s.customer_name s.order_amount

new_row-is_entry :
    (trader customer : String) (s : Sale)
    → is_entry trader customer (new_row s)
      ≡ (str_eq s.trader_phone trader && str_eq s.customer_phone customer)
unfolding is_entry first_entry
new_row-is_entry trader customer s = refl

-- The row of the customer after one sale to the customer.
row_after_own :
    (s : Sale) (rows : List CustomerListEntry)
    → find? (is_entry s.trader_phone s.customer_phone) (record_sale s rows)
      ≡ elim (find? (is_entry s.trader_phone s.customer_phone) rows) [
        | none ↦ some (new_row s)
        | some c ↦ some (bump s.now s.customer_name s.order_amount c)
      ]
unfolding upsert_rows
row_after_own s rows =
    let p = is_entry s.trader_phone s.customer_phone in
    elim (Option-cases (find? p rows)) [
      | inl none_yet ↦ ground (
        arith,
        find?-append_none p rows (new_row s ∷ []) none_yet,
        new_row-is_entry s.trader_phone s.customer_phone s,
        str_eq_self s.trader_phone,
        str_eq_self s.customer_phone,
      )
      | inr (c, found) ↦ ground (
        arith,
        find?-update_where p p (bump s.now s.customer_name s.order_amount) rows
            (bump-is_entry s.trader_phone s.customer_phone s),
        find?-holds p rows c found,
      )
    ]

pub row_after-other :
    (trader customer : String) (s : Sale) (rows : List CustomerListEntry)
    → is_sale trader customer s ≡ false
    → find? (is_entry trader customer) (record_sale s rows) ≡ find? (is_entry trader customer) rows
unfolding upsert_rows
row_after-other trader customer s rows h =
    let q = is_entry trader customer in
    let p = is_entry s.trader_phone s.customer_phone in
    elim (Option-cases (find? p rows)) [
      | inl none_yet ↦ elim (Option-cases (find? q rows)) [
        | inl absent ↦ ground (
          arith,
          find?-append_none q rows (new_row s ∷ []) absent,
          new_row-is_entry trader customer s,
          str_eq_comm_false trader s.trader_phone,
          str_eq_comm_false customer s.customer_phone,
        )
        | inr (d, there) ↦ ground (arith, find?-append_some q rows (new_row s ∷ []) d there)
      ]
      | inr (c, found) ↦ elim (Option-cases (find? q rows)) [
        | inl absent ↦ ground (
          arith,
          find?-update_where q p (bump s.now s.customer_name s.order_amount) rows
              (bump-is_entry trader customer s),
        )
        | inr (d, there) ↦ ground (
          arith,
          find?-update_where q p (bump s.now s.customer_name s.order_amount) rows
              (bump-is_entry trader customer s),
          is_entry-other trader customer s d h (find?-holds q rows d there),
        )
      ]
    ]

pub bumped :
    (trader customer : String) (s : Sale) (rows : List CustomerListEntry) (c : CustomerListEntry)
    → is_sale trader customer s ≡ true
    → find? (is_entry trader customer) rows ≡ some c
    → find? (is_entry trader customer) (record_sale s rows)
      ≡ some (bump s.now s.customer_name s.order_amount c)
bumped trader customer s rows c own found =
    let (t, u) = is_sale-names trader customer s own in
    rw (t, u) (rw (row_after_own s rows, rw (t, u) at found) refl)

own_totals :
    (s : Sale) (rows : List CustomerListEntry)
    → (orders_of s.trader_phone s.customer_phone (record_sale s rows)
        ≡ orders_of s.trader_phone s.customer_phone rows + 1)
      × (spend_of s.trader_phone s.customer_phone (record_sale s rows)
          ≡ spend_of s.trader_phone s.customer_phone rows +ℤ s.order_amount)
unfolding first_entry bump
own_totals s rows = elim (Option-cases (find? (is_entry s.trader_phone s.customer_phone) rows)) [
  | inl none_yet ↦
      rw (orders_of, spend_of, row_after_own s rows, none_yet) (refl, sym (zero_+ℤ s.order_amount))
  | inr (c, found) ↦ rw (orders_of, spend_of, row_after_own s rows, found) (refl, refl)
]

totals_after :
    (trader customer : String) (s : Sale) (rows : List CustomerListEntry)
    → (orders_of trader customer (record_sale s rows)
        ≡ orders_of trader customer rows + (if is_sale trader customer s then 1 else 0))
      × (spend_of trader customer (record_sale s rows)
          ≡ spend_of trader customer rows
            +ℤ (if is_sale trader customer s then s.order_amount else pos 0))
totals_after trader customer s rows = elim (Bool-cases (is_sale trader customer s)) [
  | inr other ↦
      let same_row = row_after-other trader customer s rows other in
      (
        rw (orders_of, same_row, other) (omega arith),
        rw (spend_of, same_row, other) (sym (+ℤ_zero (spend_of trader customer rows))),
      )
  | inl own ↦ let (t, c) = is_sale-names trader customer s own in rw (own, t, c) (own_totals s rows)
]

-- After any sequence of recorded sales, of any traders to any customers, a customer's row in a
-- trader's list counts every sale of the trader to the customer and no other, and its total
-- has grown by their amounts.
pub record_sales-totals :
    (trader customer : String) (sales : List Sale) (rows : List CustomerListEntry)
    → (orders_of trader customer (record_sales sales rows)
        ≡ orders_of trader customer rows + count (is_sale trader customer) sales)
      × (spend_of trader customer (record_sales sales rows)
          ≡ spend_of trader customer rows +ℤ spent (select (is_sale trader customer) sales))
unfolding record_sales
record_sales-totals trader customer [] rows =
    (omega arith, sym (+ℤ_zero (spend_of trader customer rows)))
record_sales-totals trader customer (s ∷ rest) rows =
    let (n, a) = totals_after trader customer s rows in
    let (m, b) = record_sales-totals trader customer rest (record_sale s rows) in
    elim (Bool-cases (is_sale trader customer s)) [
      | inl own ↦ (
        omega (arith, m, n),
        rw (b, a, own)
            (+ℤ_assoc (spend_of trader customer rows) s.order_amount
              (spent (select (is_sale trader customer) rest))),
      )
      | inr other ↦ (
        omega (arith, m, n),
        rw (b, a, other) (rw (+ℤ_zero (spend_of trader customer rows)) refl),
      )
    ]
