-- ===== src/Orders/Service/Changes.antt =====
-- What each method of `OrderService` does to the table of orders: nothing, one new inquiry, or a
-- change of one row that is still open.
use mathlib.Core.List.{Memᴰ}
use chat_to_sales.Base.{
  none, Bool-cases, ◌≡◌, inl, inr, refl, ◌∙◌, String, true, Option, some, List, [], ◌∷◌, ◌++◌,
  arith, has_key, update_where, Option-cases, find?-mem,
}
use chat_to_sales.Models.{paid, failed, Db, Env, Order, OrderState, confirmed}
use chat_to_sales.Orders.StateMachine.{value, validate_transition, state_in}
use chat_to_sales.Orders.StateMachine.Lifecycle.{◌⟶◌, ◌⟶*◌, here, then, validate_transition-⟶}
use chat_to_sales.Orders.Repository.{
  create_order, get_open_order_for_conversation, is_open, get_by_id, NewOrder, new_order,
  update_state, with_state,
}
use chat_to_sales.Marketing.CustomerList.{upsert_customer}
use chat_to_sales.Marketing.Referrals.{advance_referral_to_first_order}
use chat_to_sales.Orders.Service.{
  bare_order, fail_order, handle_credit_sale_resolved, complete_order, mark_order_paid, pay_unless,
  do_paid_transition, create_order_from_conversation, handle_payment_confirmed, transition,
  confirm_order,
}

abbrev pub order_id : Order → String
order_id o = o.id

-- What may become of an order: it stays as it is, or it was open and takes steps of the lifecycle,
-- and it stays the same order of the same tenant and conversation.
pub record Advances (o o' : Order) : Type 0 where
  pub was_open : is_open o.state ≡ true
  pub steps : o.state ⟶* o'.state
  pub same_id : o'.id ≡ o.id
  pub same_tenant : o'.tenant_id ≡ o.tenant_id
  pub same_conversation : o'.conversation_id ≡ o.conversation_id

pub data Change (e : Env) (db : Db) (xs : List Order) : Type 0 where
  same : xs ≡ db.orders → Change e db xs
  inserted :
      (n : NewOrder)
      → get_open_order_for_conversation n.conversation_id n.tenant_id db ≡ none
      → xs ≡ db.orders ++ new_order e n ∷ []
      → Change e db xs
  updated :
      (r : Order) (f : Order → Order)
      → Memᴰ r db.orders
      → ((x : Order) → (f x).id ≡ x.id)
      → Advances r (f r)
      → xs ≡ update_where (has_key order_id r.id) f db.orders
      → Change e db xs

⟶-is_open : {s t : OrderState} → s ⟶ t → is_open s ≡ true
unfolding is_open
⟶-is_open ◌⟶◌.agree = refl
⟶-is_open ◌⟶◌.drop = refl
⟶-is_open ◌⟶◌.pay = refl
⟶-is_open ◌⟶◌.cancel = refl

with_state-Advances : (r : Order) (s : OrderState) → r.state ⟶ s → Advances r (with_state s r)
with_state-Advances r s step = record {
  was_open = ⟶-is_open step;
  steps = then step here;
  same_id = refl;
  same_tenant = refl;
  same_conversation = refl;
}

pub transition-Change :
    (e : Env) (r : Order) (s : OrderState) (db : Db)
    → Memᴰ r db.orders
    → Change e db (transition r s db).1.orders
unfolding transition update_state
transition-Change e r s db m =
    elim (Option-cases (validate_transition r.id (value r.state) (value s))) [
      | inl ok_step ↦
          updated r (with_state s) m (λ x. refl)
            (with_state-Advances r s ((validate_transition-⟶ r.id r.state s).0 ok_step))
            (rw ok_step)
      | inr (x, refused) ↦ same (rw refused)
    ]

pub get_by_id-mem :
    (id : String) (t : Option String) (db : Db) (r : Order)
    → get_by_id id t db ≡ some r
    → Memᴰ r db.orders
unfolding get_by_id
get_by_id-mem id t db r h = find?-mem _ db.orders r h

Change-eq : {e : Env} {db : Db} {xs ys : List Order} → ys ≡ xs → Change e db xs → Change e db ys
Change-eq p (same q) = same (p ∙ q)
Change-eq p (inserted n z q) = inserted n z (p ∙ q)
Change-eq p (updated r f m k a q) = updated r f m k a (p ∙ q)

pub confirm_order-Change :
    (e : Env) (id : String) (t : Option String) (db : Db)
    → Change e db (confirm_order id t db).1.orders
unfolding confirm_order
confirm_order-Change e id t db = elim (Option-cases (get_by_id id t db)) [
  | inl gone ↦ same (ground arith)
  | inr (r, found) ↦
      Change-eq (ground arith) (transition-Change e r confirmed db (get_by_id-mem id t db r found))
]

pub fail_order-Change :
    (e : Env) (id : String) (t : Option String) (db : Db)
    → Change e db (fail_order id t db).1.orders
unfolding fail_order
fail_order-Change e id t db = elim (Option-cases (get_by_id id t db)) [
  | inl gone ↦ same (ground arith)
  | inr (r, found) ↦
      Change-eq (ground arith) (transition-Change e r failed db (get_by_id-mem id t db r found))
]

pub do_paid_transition-Change :
    (e : Env) (r : Order) (db : Db)
    → Memᴰ r db.orders
    → Change e db (do_paid_transition e r db).1.orders
unfolding do_paid_transition upsert_customer advance_referral_to_first_order
do_paid_transition-Change e r db m = Change-eq (ground arith) (transition-Change e r paid db m)

pub mark_order_paid-Change :
    (e : Env) (id : String) (t : Option String) (db : Db)
    → Change e db (mark_order_paid e id t db).1.orders
unfolding mark_order_paid
mark_order_paid-Change e id t db = elim (Option-cases (get_by_id id t db)) [
  | inl gone ↦ same (ground arith)
  | inr (r, found) ↦
      Change-eq (ground arith) (do_paid_transition-Change e r db (get_by_id-mem id t db r found))
]

pub complete_order-Change :
    (e : Env) (id : String) (t : Option String) (db : Db)
    → Change e db (complete_order e id t db).1.orders
unfolding complete_order
complete_order-Change e id t db = elim (Option-cases (get_by_id id t db)) [
  | inl gone ↦ same (ground arith)
  | inr (r, found) ↦
      Change-eq (ground arith) (do_paid_transition-Change e r db (get_by_id-mem id t db r found))
]

pay_unless-Change :
    (e : Env) (done : List OrderState) (id : String) (t : Option String) (db : Db)
    → Change e db (pay_unless e done (get_by_id id t db) db).1.orders
unfolding pay_unless
pay_unless-Change e done id t db = elim (Option-cases (get_by_id id t db)) [
  | inl gone ↦ same (ground arith)
  | inr (r, found) ↦ elim (Bool-cases (state_in r.state done)) [
    | inl early ↦ same (ground arith)
    | inr late ↦
        Change-eq (ground arith) (do_paid_transition-Change e r db (get_by_id-mem id t db r found))
  ]
]

pub handle_payment_confirmed-Change :
    (e : Env) (id t : String) (db : Db) → Change e db (handle_payment_confirmed e id t db).1.orders
unfolding handle_payment_confirmed
handle_payment_confirmed-Change e id t db = pay_unless-Change e (paid ∷ paid ∷ []) id (some t) db

pub handle_credit_sale_resolved-Change :
    (e : Env) (id t : String) (db : Db)
    → Change e db (handle_credit_sale_resolved e id t db).1.orders
unfolding handle_credit_sale_resolved
handle_credit_sale_resolved-Change e id t db =
    pay_unless-Change e (paid ∷ failed ∷ []) id (some t) db

pub create_order_from_conversation-Change :
    (e : Env) (t conv : String) (c : Option String) (db : Db)
    → Change e db (create_order_from_conversation e t conv c db).1.orders
unfolding create_order_from_conversation create_order
create_order_from_conversation-Change e t conv c db =
    elim (Option-cases (get_open_order_for_conversation conv t db)) [
      | inl fresh ↦ inserted (bare_order t conv c) fresh (ground arith)
      | inr (r, found) ↦ same (ground arith)
    ]
