-- ===== src/Marketing/CustomerList/OptOut.antt =====
-- A customer's STOP: what it does, and that it lasts.
use chat_to_sales.Session.{ok}
use chat_to_sales.Base.{
  [], ◌∙◌, sym, find?-holds, inr, inl, Bool-cases, find?-update_where, arith, ◌∷◌, Option-cases,
  false, true, update_where, some, refl, ◌≡◌, find?, List, ℕ, String,
}
use chat_to_sales.Marketing.CustomerList.{bump, opt_out_found, opt_out_row, opt_out, is_entry}
use chat_to_sales.Models.{CustomerListEntry, Db, Env}
use chat_to_sales.Marketing.CustomerList.Totals.{
  bumped, row_after-other, record_sale, is_sale, Sale, record_sales,
}

-- The branch for a customer who is in the list and has not opted out.
opt_out_first :
    (e : Env) (trader customer : String) (c : CustomerListEntry) (db : Db)
    → find? (is_entry trader customer) db.customers ≡ some c
    → c.opted_out ≡ false
    → opt_out e trader customer db ≡ (
      ok true,
      record db {
        customers = update_where (is_entry trader customer) (opt_out_row e.now) db.customers;
      },
    )
unfolding opt_out opt_out_found
opt_out_first e trader customer c db found still = ground arith

-- The branch for one who had opted out before, or is not in the list.
opt_out_idle :
    (e : Env) (trader customer : String) (db : Db)
    → ((c : CustomerListEntry)
        → find? (is_entry trader customer) db.customers ≡ some c
        → c.opted_out ≡ true)
    → opt_out e trader customer db ≡ (ok false, db)
unfolding opt_out opt_out_found
opt_out_idle e trader customer db idle =
    elim (Option-cases (find? (is_entry trader customer) db.customers)) [
      | inl absent ↦ ground arith
      | inr (c, found) ↦ ground (arith, idle c found)
    ]

opt_out_row-is_entry :
    (trader customer : String) (now : ℕ) (c : CustomerListEntry)
    → is_entry trader customer (opt_out_row now c) ≡ is_entry trader customer c
unfolding is_entry opt_out_row
opt_out_row-is_entry trader customer now c = refl

-- The row that an opt-out has written.
found_after :
    (e : Env) (trader customer : String) (c : CustomerListEntry) (rows : List CustomerListEntry)
    → find? (is_entry trader customer) rows ≡ some c
    → find?
        (is_entry trader customer)
        (update_where (is_entry trader customer) (opt_out_row e.now) rows)
      ≡ some (opt_out_row e.now c)
found_after e trader customer c rows found =
    let p = is_entry trader customer in
    ground (
      arith,
      find?-update_where p p (opt_out_row e.now) rows (opt_out_row-is_entry trader customer e.now),
      find?-holds p rows c found,
    )

-- After an opt-out of any customer, in the list or not, a second one reports that nothing was done
-- and changes nothing, so that the date of the first one stands.
pub opt_out_twice :
    (e e' : Env) (trader customer : String) (db : Db)
    → let db₁ = (opt_out e trader customer db).1 in opt_out e' trader customer db₁ ≡ (ok false, db₁)
opt_out_twice e e' trader customer db =
    elim (Option-cases (find? (is_entry trader customer) db.customers)) [
      | inl absent ↦
          rw (opt_out_idle e trader customer db (λ c h. cc))
            (opt_out_idle e' trader customer db (λ c h. cc))
      | inr (c, found) ↦ elim (Bool-cases c.opted_out) [
        | inl gone ↦
            rw (opt_out_idle e trader customer db (λ d h. cc (found, gone, h)))
              (opt_out_idle e' trader customer db (λ d h. cc (found, gone, h)))
        | inr still ↦ rw (opt_out_first e trader customer c db found still) (
            opt_out_idle e' trader customer _
              (λ d h. written c d (sym (found_after e trader customer c db.customers found) ∙ h)))
      ]
    ]
  where
    written : (c d : CustomerListEntry) → some (opt_out_row e.now c) ≡ some d → d.opted_out ≡ true
    written c d h = unfold opt_out_row in ground arith

-- A customer who has opted out stays opted out, with the date, whatever sales of whichever traders
-- are recorded afterwards.
pub opted_out_stays :
    (trader customer : String) (sales : List Sale) (rows : List CustomerListEntry)
    (c : CustomerListEntry)
    → find? (is_entry trader customer) rows ≡ some c
    → c.opted_out ≡ true
    → (c' : CustomerListEntry) × (find? (is_entry trader customer) (record_sales sales rows)
        ≡ some c')
      × (c'.opted_out ≡ true)
      × (c'.opted_out_at ≡ c.opted_out_at)
unfolding record_sales
opted_out_stays trader customer [] rows c found gone = (c, found, gone, refl)
opted_out_stays trader customer (s ∷ rest) rows c found gone =
    elim (Bool-cases (is_sale trader customer s)) [
      | inr other ↦
          opted_out_stays trader customer rest (record_sale s rows) c
            (row_after-other trader customer s rows other ∙ found) gone
      | inl own ↦
          let c₁ = bump s.now s.customer_name s.order_amount c in
          let (c', h, g, a) =
            opted_out_stays trader customer rest (record_sale s rows) c₁
              (bumped trader customer s rows c own found) (unfold bump in gone) in
          (c', h, g, a ∙ unfold bump in refl)
    ]
