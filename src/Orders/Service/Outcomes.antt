-- ===== src/Orders/Service/Outcomes.antt =====
-- Each transition method is all or nothing: the exact result and database on every branch.
use chat_to_sales.Orders.Service.Changes.{order_id, get_by_id-mem}
use chat_to_sales.Marketing.Referrals.{to_first_order, advance_referral_to_first_order}
use chat_to_sales.Marketing.CustomerList.{upsert_rows, upsert_customer}
use chat_to_sales.Orders.Repository.{with_state, get_by_id, update_order, update_state}
use chat_to_sales.Orders.StateMachine.Lifecycle.{
  validate_transition-refusal, pay, refusal, validate_transition-⟶, ◌⟶◌,
}
use chat_to_sales.Session.{not_found, bad_transition, ok, err, conflict, Error}
use chat_to_sales.Orders.Service.{
  shown_amount, amount_or_zero, transition, mark_order_paid, do_paid_transition,
}
use chat_to_sales.Orders.StateMachine.{
  value, validate_transition, InvalidTransitionError, same_state,
}
use chat_to_sales.Base.{
  inr, refl, inl, str_eq_self, find?-key, [], Option-cases, find?-update_where_key, if◌then◌else◌,
  ◌∷◌, find?, sym, text_or, some, none, subst, ◌++◌, has_key, arith, IsKeyed, false, ◌⊎◌,
  update_where, ◌≡◌, Option, String,
}
use chat_to_sales.Models.{
  order_paid, order_state_changed, paid, confirmed, Db, Order, Env, OrderState,
}

abbrev refused_step : Order → OrderState → Error
refused_step o s = conflict (bad_transition o.id (value o.state) (value s))

-- The table with one order moved, and the announcement.
abbrev pub moved_db : Order → OrderState → Db → Db
moved_db o s db = record db {
  orders = update_where (has_key order_id o.id) (with_state s) db.orders;
  events = db.events ++ order_state_changed o.tenant_id o.id o.conversation_id o.state s ∷ [];
}

-- What a payment changes: the order, the customer's aggregates, the trader's referral, the bus.
abbrev pub paid_db : Env → Order → Db → Db
paid_db e o db = record db {
  orders = update_where (has_key order_id o.id) (with_state paid) db.orders;
  customers =
      upsert_rows e.now (text_or o.trader_phone "") o.tenant_id (text_or o.customer_phone "")
        o.customer_name (amount_or_zero o.amount) db.customers;
  referrals = to_first_order e.now (text_or o.trader_phone "") db.referrals;
  events =
      (db.events ++ order_state_changed o.tenant_id o.id o.conversation_id o.state paid ∷ [])
      ++ order_paid o.tenant_id o.id o.conversation_id (shown_amount o.amount) o.currency ∷ [];
}

pub transition_ok :
    (o : Order) (s : OrderState) (db : Db)
    → o.state ⟶ s
    → transition o s db ≡ (ok (with_state s o), moved_db o s db)
unfolding transition update_state update_order
transition_ok o s db step = rw ((validate_transition-⟶ o.id o.state s).1 step)

refusal-value :
    (o : Order) (s : OrderState)
    → ¬ (o.state ⟶ s)
    → (x : InvalidTransitionError) × (validate_transition o.id (value o.state) (value s) ≡ some x)
      × (x ≡ refusal o.id (value o.state) (value s))
refusal-value o s h = elim (Option-cases (validate_transition o.id (value o.state) (value s))) [
  | inl e ↦ absurd (h ((validate_transition-⟶ o.id o.state s).0 e))
  | inr (x, e) ↦ (x, e, validate_transition-refusal o.id (value o.state) (value s) x e)
]

pub transition_refused :
    (o : Order) (s : OrderState) (db : Db)
    → ¬ (o.state ⟶ s)
    → transition o s db ≡ (err (refused_step o s), db)
unfolding transition
transition_refused o s db h = let (x, e, p) = refusal-value o s h in rw (e, p)

-- The row that a query found is still found by its key after an update of its state.
reload_moved :
    (id : String) (t : Option String) (o : Order) (s : OrderState) (db : Db)
    → IsKeyed order_id db.orders
    → get_by_id id t db ≡ some o
    → find? (has_key order_id o.id) (update_where (has_key order_id o.id) (with_state s) db.orders)
      ≡ some (with_state s o)
reload_moved id t o s db keyed h =
    rw
      (
        find?-update_where_key order_id o.id (has_key order_id o.id) (with_state s) db.orders
            (λ x. refl),
        find?-key order_id db.orders o keyed (get_by_id-mem id t db o h),
      )
      (rw (str_eq_self o.id))

pay_from : {s t : OrderState} → s ⟶ t → t ≡ paid → s ≡ confirmed
pay_from ◌⟶◌.agree h = cc
pay_from ◌⟶◌.drop h = cc
pay_from pay h = refl
pay_from ◌⟶◌.cancel h = cc

pub confirmed_or_not : (s : OrderState) → (s ≡ confirmed) ⊎ (same_state s confirmed ≡ false)
unfolding same_state
confirmed_or_not s = ground arith

not_confirmed_lem : (s : OrderState) → same_state s confirmed ≡ false → ¬ (s ⟶ paid)
unfolding same_state
not_confirmed_lem s h step = ground (arith, pay_from step refl)

pub do_paid_transition_ok :
    (e : Env) (o : Order) (db : Db)
    → o.state ≡ confirmed
    → do_paid_transition e o db ≡ (ok (with_state paid o), paid_db e o db)
unfolding do_paid_transition upsert_customer advance_referral_to_first_order
do_paid_transition_ok e o db h =
    ground (arith, transition_ok o paid db (subst (λ s. s ⟶ paid) (sym h) pay))

pub do_paid_transition_refused :
    (e : Env) (o : Order) (db : Db)
    → same_state o.state confirmed ≡ false
    → do_paid_transition e o db ≡ (err (refused_step o paid), db)
unfolding do_paid_transition
do_paid_transition_refused e o db h =
    ground (arith, transition_refused o paid db (not_confirmed_lem o.state h))

-- `mark_order_paid` on every branch, on a table with unique keys: a missing order and an order
-- that is not confirmed raise and change nothing; a confirmed order is returned as paid, and
-- the order, the customer list, the referral and the bus change together.
pub mark_order_paid_lem :
    (e : Env) (id : String) (t : Option String) (db : Db)
    → IsKeyed order_id db.orders
    → mark_order_paid e id t db ≡ elim (get_by_id id t db) [
      | none ↦ (err (not_found "Order" id), db)
      | some o ↦
          if same_state o.state confirmed
          then (ok (with_state paid o), paid_db e o db)
          else (err (refused_step o paid), db)
    ]
unfolding mark_order_paid same_state
mark_order_paid_lem e id t db keyed = elim (Option-cases (get_by_id id t db)) [
  | inl gone ↦ ground arith
  | inr (o, found) ↦ elim (confirmed_or_not o.state) [
    | inl sure ↦
        ground (arith, do_paid_transition_ok e o db sure, reload_moved id t o paid db keyed found)
    | inr unsure ↦ ground (arith, do_paid_transition_refused e o db unsure)
  ]
]
