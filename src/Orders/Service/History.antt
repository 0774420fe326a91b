-- ===== src/Orders/Service/History.antt =====
-- Any sequence of calls of the methods of `OrderService` that the routes of the HTTP API and the listeners
-- for payments and credit sales use, and of `create_order_from_conversation`, in any order and with any results: what may
-- become of one order. The dialogues with customers and traders, which write orders by themselves
-- (Orders/Dialogue, Orders/Trader), are not among these calls.
use chat_to_sales.Orders.Service.Upserts.{add_items-Change, create_order_with_items-Change}
use mathlib.Core.List.{Memᴰ}
use chat_to_sales.Orders.Service.{
  handle_credit_sale_resolved, handle_payment_confirmed, add_items, complete_order, mark_order_paid,
  fail_order, confirm_order, create_order_with_items, OrderItemCreate,
  create_order_from_conversation, OrderCreate,
}
use chat_to_sales.Orders.Repository.{new_order, is_open}
use chat_to_sales.Base.{
  refl, find?-update_where_key, [], ◌∷◌, row_unique, update_where-IsKeyed, Bool-cases, ap,
  find?-append_some, append-IsKeyed, update_where, some, inr, has_key, sym, false, ◌⊎◌, subst, ◌∙◌,
  find?, none, ◌≡◌, inl, Option, IsKeyed, String, List,
}
use chat_to_sales.Models.{Db, Order, OrderState, Env}
use chat_to_sales.Orders.Service.Changes.{
  handle_credit_sale_resolved-Change, handle_payment_confirmed-Change, complete_order-Change,
  mark_order_paid-Change, fail_order-Change, confirm_order-Change,
  create_order_from_conversation-Change, Change, order_id, Advances, same, inserted, updated,
}
use chat_to_sales.Orders.StateMachine.Lifecycle.{◌⟶*◌, here, then}

-- A call with its arguments, of one of the nine methods `create_order_from_conversation`, `create_order`,
-- `confirm_order`, `fail_order`, `mark_order_paid`, `complete_order`, `add_items`,
-- `handle_payment_confirmed` and `handle_credit_sale_resolved`.
pub data LifecycleCall : Type 0 where
  create_from_conversation : String → String → Option String → LifecycleCall
  create_with_items : OrderCreate → LifecycleCall
  confirm fail mark_paid complete : String → Option String → LifecycleCall
  add : String → List OrderItemCreate → Option String → LifecycleCall
  payment_confirmed credit_sale_resolved : String → String → LifecycleCall

-- The database after the call, whether it returned or raised.
unfoldable pub call : Env → LifecycleCall → Db → Db
call e (create_from_conversation t conv c) db = (create_order_from_conversation e t conv c db).1
call e (create_with_items d) db = (create_order_with_items e d db).1
call e (confirm id t) db = (confirm_order id t db).1
call e (fail id t) db = (fail_order id t db).1
call e (mark_paid id t) db = (mark_order_paid e id t db).1
call e (complete id t) db = (complete_order e id t db).1
call e (add id is t) db = (add_items id is t db).1
call e (payment_confirmed id t) db = (handle_payment_confirmed e id t db).1
call e (credit_sale_resolved id t) db = (handle_credit_sale_resolved e id t db).1

pub call-Change : (e : Env) (c : LifecycleCall) (db : Db) → Change e db (call e c db).orders
unfolding call
call-Change e (create_from_conversation t conv c) db =
    create_order_from_conversation-Change e t conv c db
call-Change e (create_with_items d) db = create_order_with_items-Change e d db
call-Change e (confirm id t) db = confirm_order-Change e id t db
call-Change e (fail id t) db = fail_order-Change e id t db
call-Change e (mark_paid id t) db = mark_order_paid-Change e id t db
call-Change e (complete id t) db = complete_order-Change e id t db
call-Change e (add id is t) db = add_items-Change e id is t db
call-Change e (payment_confirmed id t) db = handle_payment_confirmed-Change e id t db
call-Change e (credit_sale_resolved id t) db = handle_credit_sale_resolved-Change e id t db

-- `SELECT ... WHERE id = j`
abbrev pub order_of : String → List Order → Option Order
order_of j xs = find? (has_key order_id j) xs

-- The key that a call may use is new: `uuid4` does not repeat.
abbrev pub IsFresh : Env → Db → Type 0
IsFresh e db = order_of e.fresh_id db.orders ≡ none

pub Change-IsKeyed :
    (e : Env) (db : Db) (xs : List Order)
    → IsFresh e db
    → IsKeyed order_id db.orders
    → Change e db xs
    → IsKeyed order_id xs
Change-IsKeyed e db xs fresh keyed (same p) = subst (IsKeyed order_id) (sym p) keyed
Change-IsKeyed e db xs fresh keyed (inserted n z p) =
    subst (IsKeyed order_id) (sym p) (append-IsKeyed order_id db.orders (new_order e n) keyed fresh)
Change-IsKeyed e db xs fresh keyed (updated r f m keep a p) =
    subst (IsKeyed order_id) (sym p)
      (update_where-IsKeyed order_id (has_key order_id r.id) f db.orders keep keyed)

-- What an order has become: it is the same record, or it went on along the lifecycle.
abbrev pub Becomes : Order → Order → Type 0
Becomes o o' = (o' ≡ o) ⊎ Advances o o'

updated_row :
    (j : String) (r : Order) (f : Order → Order) (o : Order) (xs : List Order)
    → IsKeyed order_id xs
    → Memᴰ r xs
    → ((x : Order) → (f x).id ≡ x.id)
    → Advances r (f r)
    → order_of j xs ≡ some o
    → (o' : Order) × (order_of j (update_where (has_key order_id r.id) f xs) ≡ some o')
      × Becomes o o'
updated_row j r f o xs keyed m keep a h = elim (Bool-cases (has_key order_id r.id o)) [
  | inl hit ↦
      let same_row : o ≡ r = row_unique order_id j xs o r keyed m h hit in
      (
        f o,
        rw (find?-update_where_key order_id j (has_key order_id r.id) f xs keep, h) (rw hit),
        inr (subst (λ x. Advances x (f x)) (sym same_row) a),
      )
  | inr miss ↦ (
    o,
    rw (find?-update_where_key order_id j (has_key order_id r.id) f xs keep, h) (rw miss),
    inl refl,
  )
]

pub Change-Becomes :
    (e : Env) (j : String) (o : Order) (db : Db) (xs : List Order)
    → IsKeyed order_id db.orders
    → order_of j db.orders ≡ some o
    → Change e db xs
    → (o' : Order) × (order_of j xs ≡ some o') × Becomes o o'
Change-Becomes e j o db xs keyed h (same p) = (o, rw p h, inl refl)
Change-Becomes e j o db xs keyed h (inserted n z p) =
    (o, rw p (find?-append_some (has_key order_id j) db.orders (new_order e n ∷ []) o h), inl refl)
Change-Becomes e j o db xs keyed h (updated r f m keep a p) =
    rw p (updated_row j r f o db.orders keyed m keep a h)

⟶*-trans : {s t u : OrderState} → s ⟶* t → t ⟶* u → s ⟶* u
⟶*-trans here q = q
⟶*-trans (then p ps) q = then p (⟶*-trans ps q)

Advances-trans : (o p q : Order) → Advances o p → Advances p q → Advances o q
Advances-trans o p q a b = record {
  was_open = a.was_open;
  steps = ⟶*-trans a.steps b.steps;
  same_id = b.same_id ∙ a.same_id;
  same_tenant = b.same_tenant ∙ a.same_tenant;
  same_conversation = b.same_conversation ∙ a.same_conversation;
}

Becomes-trans : (o p q : Order) → Becomes o p → Becomes p q → Becomes o q
Becomes-trans o p q (inl same_row) b = subst (λ x. Becomes x q) same_row b
Becomes-trans o p q (inr a) (inl same_row) = inr (subst (Advances o) (sym same_row) a)
Becomes-trans o p q (inr a) (inr b) = inr (Advances-trans o p q a b)

-- A sequence of calls, each with the key and the clock that the environment hands to it.
unfoldable pub run : List (Env × LifecycleCall) → Db → Db
run [] db = db
run ((e, c) ∷ rest) db = run rest (call e c db)

-- Each call of the sequence is handed a key that is new when it is made.
abbrev pub FreshRun : List (Env × LifecycleCall) → Db → Type 0
FreshRun [] db = Unit
FreshRun ((e, c) ∷ rest) db = IsFresh e db × FreshRun rest (call e c db)

-- Whatever calls are made with fresh keys, no two orders come to have one key.
pub run-IsKeyed :
    (calls : List (Env × LifecycleCall)) (db : Db)
    → IsKeyed order_id db.orders
    → FreshRun calls db
    → IsKeyed order_id (run calls db).orders
unfolding run
run-IsKeyed [] db keyed fresh = keyed
run-IsKeyed ((e, c) ∷ rest) db keyed fresh =
    run-IsKeyed rest (call e c db)
      (Change-IsKeyed e db (call e c db).orders fresh.0 keyed (call-Change e c db)) fresh.1

-- Whatever calls of the nine methods of the order service that a `LifecycleCall` names are made with fresh
-- keys, in any order and with any outcome, the dialogues with customers and traders apart, an order that is in a table with unique keys stays in it, and it is either the same record
-- or was open and has gone on along the lifecycle, with its key, tenant and conversation.
pub run-Becomes :
    (calls : List (Env × LifecycleCall)) (db : Db) (j : String) (o : Order)
    → IsKeyed order_id db.orders
    → FreshRun calls db
    → order_of j db.orders ≡ some o
    → (o' : Order) × (order_of j (run calls db).orders ≡ some o') × Becomes o o'
unfolding run
run-Becomes [] db j o keyed fresh h = (o, h, inl refl)
run-Becomes ((e, c) ∷ rest) db j o keyed fresh h =
    let (o₁, h₁, b₁) = Change-Becomes e j o db (call e c db).orders keyed h (call-Change e c db) in
    let keyed₁ = Change-IsKeyed e db (call e c db).orders fresh.0 keyed (call-Change e c db) in
    let (o₂, h₂, b₂) = run-Becomes rest (call e c db) j o₁ keyed₁ fresh.1 h₁ in
    (o₂, h₂, Becomes-trans o o₁ o₂ b₁ b₂)

pub Becomes-closed : (o o' : Order) → is_open o.state ≡ false → Becomes o o' → o' ≡ o
Becomes-closed o o' closed (inl same_row) = same_row
Becomes-closed o o' closed (inr a) = cc (closed, a.was_open)

-- For the nine methods of the order service that a `LifecycleCall` names a paid or failed order is final:
-- whatever calls of them follow with fresh keys, the whole record stays as it is, its amount included.
pub run_closed_frozen :
    (calls : List (Env × LifecycleCall)) (db : Db) (j : String) (o : Order)
    → IsKeyed order_id db.orders
    → FreshRun calls db
    → order_of j db.orders ≡ some o
    → is_open o.state ≡ false
    → order_of j (run calls db).orders ≡ some o
run_closed_frozen calls db j o keyed fresh h closed =
    let (o', h', b) = run-Becomes calls db j o keyed fresh h in
    h' ∙ ap some (Becomes-closed o o' closed b)
