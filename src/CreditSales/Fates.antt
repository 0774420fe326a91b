-- ===== src/CreditSales/Fates.antt =====
-- What may become of one credit sale under any sequence of the operations on credit sales.
use mathlib.Core.List.{Memᴰ}
use chat_to_sales.CreditSales.Repository.{sale_id}
use native.Mathlib.Nat.{le_trans, le_refl}
use chat_to_sales.CreditSales.Changes.{updated, inserted, same, SaleChange, Progress}
use chat_to_sales.CreditSales.History.{call_sale-Change, call_sale, SaleCall, run_sales}
use chat_to_sales.Base.{
  update_where-IsKeyed, inr, find?-update_where_key, [], ◌∷◌, row_unique, append-IsKeyed,
  find?-append_some, sym, inl, Bool-cases, subst, update_where, has_key, some, none, find?, arith,
  ◌≡◌, IsKeyed, ◌∙◌, Option, List, String,
}
use chat_to_sales.Models.{Db, CreditSale, Env}

Progress-refl : (c : CreditSale) → Progress c c
Progress-refl c = ground (arith, le_refl c.amount, le_refl c.reminders_sent)

Progress-trans : (a b c : CreditSale) → Progress a b → Progress b c → Progress a c
Progress-trans a b c p q = record {
  same_id = q.same_id ∙ p.same_id;
  same_tenant = q.same_tenant ∙ p.same_tenant;
  same_order = q.same_order ∙ p.same_order;
  same_limit = q.same_limit ∙ p.same_limit;
  balance = le_trans q.balance p.balance;
  counted = le_trans p.counted q.counted;
  limited = λ h. q.limited (p.limited h);
  stays_closed = λ h. q.stays_closed (p.stays_closed h);
  closed_balance = λ h. q.closed_balance (p.stays_closed h) ∙ p.closed_balance h;
  closed_count = λ h. q.closed_count (p.stays_closed h) ∙ p.closed_count h;
}

-- `SELECT ... WHERE id = j`
abbrev pub sale_of : String → List CreditSale → Option CreditSale
sale_of j xs = find? (has_key sale_id j) xs

SaleChange-IsKeyed :
    (e : Env) (db : Db) (xs : List CreditSale)
    → sale_of e.fresh_id db.credit_sales ≡ none
    → IsKeyed sale_id db.credit_sales
    → SaleChange e db xs
    → IsKeyed sale_id xs
SaleChange-IsKeyed e db xs fresh keyed (same p) = subst (IsKeyed sale_id) (sym p) keyed
SaleChange-IsKeyed e db xs fresh keyed (inserted c k p) =
    subst (IsKeyed sale_id) (sym p) (append-IsKeyed sale_id db.credit_sales c keyed (rw k fresh))
SaleChange-IsKeyed e db xs fresh keyed (updated r f m keep a p) =
    subst (IsKeyed sale_id) (sym p)
      (update_where-IsKeyed sale_id (has_key sale_id r.id) f db.credit_sales keep keyed)

updated_sale :
    (j : String) (r : CreditSale) (f : CreditSale → CreditSale) (c : CreditSale)
    (xs : List CreditSale)
    → IsKeyed sale_id xs
    → Memᴰ r xs
    → ((x : CreditSale) → (f x).id ≡ x.id)
    → Progress r (f r)
    → sale_of j xs ≡ some c
    → (c' : CreditSale) × (sale_of j (update_where (has_key sale_id r.id) f xs) ≡ some c')
      × Progress c c'
updated_sale j r f c xs keyed m keep a h = elim (Bool-cases (has_key sale_id r.id c)) [
  | inl hit ↦
      let same_row : c ≡ r = row_unique sale_id j xs c r keyed m h hit in
      (
        f c,
        rw (find?-update_where_key sale_id j (has_key sale_id r.id) f xs keep, h) (rw hit),
        subst (λ x. Progress x (f x)) (sym same_row) a,
      )
  | inr miss ↦ (
    c,
    rw (find?-update_where_key sale_id j (has_key sale_id r.id) f xs keep, h) (rw miss),
    Progress-refl c,
  )
]

SaleChange-Progress :
    (e : Env) (j : String) (c : CreditSale) (db : Db) (xs : List CreditSale)
    → IsKeyed sale_id db.credit_sales
    → sale_of j db.credit_sales ≡ some c
    → SaleChange e db xs
    → (c' : CreditSale) × (sale_of j xs ≡ some c') × Progress c c'
SaleChange-Progress e j c db xs keyed h (same p) = (c, rw p h, Progress-refl c)
SaleChange-Progress e j c db xs keyed h (inserted n k p) =
    (c, rw p (find?-append_some (has_key sale_id j) db.credit_sales (n ∷ []) c h), Progress-refl c)
SaleChange-Progress e j c db xs keyed h (updated r f m keep a p) =
    rw p (updated_sale j r f c db.credit_sales keyed m keep a h)

module _ (sql_lower lower : String → String) where
  -- Each operation of the sequence is handed a key that is new when it is made.
  abbrev pub FreshSales : List (Env × SaleCall) → Db → Type 0
  FreshSales [] db = Unit
  FreshSales ((e, c) ∷ rest) db =
      (sale_of e.fresh_id db.credit_sales ≡ none)
      × FreshSales rest (call_sale sql_lower lower e c db)

  -- Whatever operations on credit sales are made with fresh keys, in any order and with any outcome,
  -- a sale that is in a table with unique keys stays in it, with its tenant, order and limit of
  -- reminders; its balance never grows, its reminders never pass the limit when they were within
  -- it, and once it is settled, disputed or written off it is never active again and its balance
  -- and its count of reminders stay as they are.
  pub run_sales-Progress :
      (calls : List (Env × SaleCall)) (db : Db) (j : String) (c : CreditSale)
      → IsKeyed sale_id db.credit_sales
      → FreshSales calls db
      → sale_of j db.credit_sales ≡ some c
      → (c' : CreditSale) × (sale_of j (run_sales sql_lower lower calls db).credit_sales ≡ some c')
        × Progress c c'
  unfolding run_sales
  run_sales-Progress [] db j c keyed fresh h = (c, h, Progress-refl c)
  run_sales-Progress ((e, op) ∷ rest) db j c keyed fresh h =
      let change = call_sale-Change sql_lower lower e op db in
      let (c₁, h₁, p₁) = SaleChange-Progress e j c db _ keyed h change in
      let keyed₁ = SaleChange-IsKeyed e db _ fresh.0 keyed change in
      let (c₂, h₂, p₂) =
        run_sales-Progress rest (call_sale sql_lower lower e op db) j c₁ keyed₁ fresh.1 h₁ in
      (c₂, h₂, Progress-trans c c₁ c₂ p₁ p₂)
