-- ===== src/Marketing/Followups/Log.antt =====
-- What is in the table of interests after `log_interest`.
use chat_to_sales.Session.{ok}
use chat_to_sales.Models.{InterestEvent, Db, Env}
use chat_to_sales.Base.{
  refl, find?-append_none, count-none, [], ◌∷◌, count-append, inl, count-some, find?-holds, inr,
  find?, Option-cases, arith, str_eq_self, true, ◌≡◌, count, ◌≤◌, ℕ,
}
use chat_to_sales.Marketing.Followups.{
  new_interest, Interest, is_interest, log_interest, is_recent_interest,
}

unfoldable pub recent_count : ℕ → Interest → Db → ℕ
recent_count now i db = count (is_recent_interest now i) db.interests

new_interest-recent :
    (e : Env) (i : Interest) → is_recent_interest e.now i (new_interest e i) ≡ true
unfolding is_recent_interest is_interest new_interest
new_interest-recent e i =
    rw (str_eq_self i.trader_phone, str_eq_self i.customer_phone, str_eq_self i.product_name)
      (ground arith)

-- Interest in one product, logged when there was at most one row of the last 48 hours for it,
-- leaves exactly one such row; the row that is returned is for this interest; and logging it again
-- at the same moment returns this row and changes nothing.
pub log_interest_lem :
    (e e' : Env) (i : Interest) (db : Db)
    → recent_count e.now i db ≤ 1
    → e'.now ≡ e.now
    → (x : InterestEvent) × (log_interest e i db ≡ (ok x, (log_interest e i db).1))
      × (is_recent_interest e.now i x ≡ true)
      × (recent_count e.now i (log_interest e i db).1 ≡ 1)
      × (log_interest e' i (log_interest e i db).1 ≡ (ok x, (log_interest e i db).1))
unfolding log_interest recent_count
log_interest_lem e e' i db one now =
    let p = is_recent_interest e.now i in
    elim (Option-cases (find? p db.interests)) [
      | inr (x, found) ↦ (
        x,
        rw found refl,
        find?-holds p db.interests x found,
        rw found (ground (arith, count-some p db.interests x found)),
        rw (now, found) (rw found refl),
      )
      | inl absent ↦
          let x = new_interest e i in
          let recent = new_interest-recent e i in
          (
            x,
            rw absent refl,
            recent,
            rw
                (
                  absent,
                  count-append p db.interests (x ∷ []),
                  count-none p db.interests absent,
                  recent,
                )
                refl,
            rw (now, absent, find?-append_none p db.interests (x ∷ []) absent, recent) refl,
          )
    ]
