-- ===== src/Payments/Service/Checkout.antt =====
-- The checkout: when a payment is made, for which amount, and that a refusal changes nothing.
use chat_to_sales.Orders.Repository.{get_by_id}
use chat_to_sales.Session.{ok, err, Error}
use mathlib.Core.List.{Memᴰ}
use chat_to_sales.Models.{PaymentStatus, pending, confirmed, Order, Payment, Db, OrderState, Env}
use chat_to_sales.Orders.StateMachine.{same_state}
use chat_to_sales.Payments.Service.{checkout_for, create_payment_for_order}
use chat_to_sales.Base.{
  str_eq, eq_of_str_eq, count-zero_at, latest-none_of, latest, false, none, ◌↔◌, refl, count-append,
  [], ◌∷◌, Bool-cases, inr, ◌++◌, latest-none, inl, List, Option-cases, count, str_eq_self, some,
  arith, true, ℤ, ◌≡◌, String,
}
use chat_to_sales.Payments.Repository.{
  get_active_for_order, new_payment, blocks, create_payment, is_active,
}

-- What a successful checkout found and did.
pub record Checkout (order tenant : String) (db db' : Db) (p : Payment) (o : Order) : Type 0 where
  pub found : get_by_id order (some tenant) db ≡ some o
  pub was_confirmed : o.state ≡ confirmed
  pub whole_amount : o.amount ≡ some p.amount
  pub for_order : p.order_id ≡ order
  pub is_pending : p.status ≡ pending
  pub none_before : count (blocks order tenant) db.payments ≡ 0
  pub one_after : count (blocks order tenant) db'.payments ≡ 1
  pub orders_kept : db'.orders ≡ db.orders

same_state-eq : (s t : OrderState) → same_state s t ≡ true → s ≡ t
unfolding same_state
same_state-eq s t h = ground arith

new_payment-blocks :
    (e : Env) (o : Order) (t id : String) (a : ℤ) (r : String)
    → blocks id t (new_payment e (checkout_for o t id a r)) ≡ true
unfolding is_active
new_payment-blocks e o t id a r = rw (str_eq_self id, str_eq_self t)

no_blocker :
    (id t : String) (db : Db)
    → get_active_for_order id t db ≡ none
    → count (blocks id t) db.payments ≡ 0
unfolding get_active_for_order
no_blocker id t db free = latest-none (blocks id t) (λ p. p.created_at) db.payments free

one_blocker :
    (e : Env) (o : Order) (t id : String) (a : ℤ) (r : String) (db : Db) {ps : List Payment}
    → get_active_for_order id t db ≡ none
    → ps ≡ db.payments ++ new_payment e (checkout_for o t id a r) ∷ []
    → count (blocks id t) ps ≡ 1
one_blocker e o t id a r db free p =
    rw
      (
        p,
        count-append (blocks id t) db.payments (new_payment e (checkout_for o t id a r) ∷ []),
        new_payment-blocks e o t id a r,
      )
      (omega (arith, no_blocker id t db free))

-- A checkout that raises has changed nothing.
pub create_payment_for_order_atomic :
    (e : Env) (r id t : String) (db : Db) (x : Error)
    → (create_payment_for_order e r id t db).0 ≡ err x
    → (create_payment_for_order e r id t db).1 ≡ db
unfolding create_payment_for_order create_payment
create_payment_for_order_atomic e r id t db x h = ground arith

-- A checkout that returns a payment was made for a confirmed order of the tenant, over the whole
-- amount of the order, when no payment of it was pending or successful; then exactly one is.
pub create_payment_for_order_sound :
    (e : Env) (r id t : String) (db : Db) (p : Payment)
    → (create_payment_for_order e r id t db).0 ≡ ok p
    → (o : Order) × Checkout id t db (create_payment_for_order e r id t db).1 p o
unfolding create_payment_for_order create_payment
create_payment_for_order_sound e r id t db p h = elim (Option-cases (get_by_id id (some t) db)) [
  | inl gone ↦ absurd (ground arith)
  | inr (o, found) ↦ elim (Bool-cases (same_state o.state confirmed)) [
    | inr other ↦ absurd (ground arith)
    | inl sure ↦ elim (Option-cases o.amount) [
      | inl nothing ↦ absurd (ground arith)
      | inr (a, whole) ↦ elim (Option-cases (get_active_for_order id t db)) [
        | inr (q, busy) ↦ absurd (ground arith)
        | inl free ↦
            let made : new_payment e (checkout_for o t id a r) ≡ p = ground arith in
            (
              o,
              record {
                found = found;
                was_confirmed = same_state-eq o.state confirmed sure;
                whole_amount = ground arith;
                for_order = rw (← made);
                is_pending = rw (← made);
                none_before = no_blocker id t db free;
                one_after = one_blocker e o t id a r db free (ground arith);
                orders_kept = ground arith;
              },
            )
      ]
    ]
  ]
]

create_payment_for_order_ready :
    (e : Env) (r id t : String) (db : Db) (o : Order) (a : ℤ)
    → get_by_id id (some t) db ≡ some o
    → o.state ≡ confirmed
    → o.amount ≡ some a
    → get_active_for_order id t db ≡ none
    → (p : Payment) × ((create_payment_for_order e r id t db).0 ≡ ok p)
      × (p.amount ≡ a)
      × (p.reference ≡ r)
unfolding create_payment_for_order create_payment same_state
create_payment_for_order_ready e r id t db o a found sure amount free =
    (new_payment e (checkout_for o t id a r), ground arith, refl, refl)

-- When a checkout is due, by the rows alone: a confirmed order of the tenant with an amount, which may be zero, of
-- which every payment has failed.
pub record Payable (id t : String) (db : Db) : Type 0 where
  pub order : Order
  pub found : get_by_id id (some t) db ≡ some order
  pub was_confirmed : order.state ≡ confirmed
  pub amount : ℤ
  pub has_amount : order.amount ≡ some amount
  pub all_failed :
      (p : Payment)
      → Memᴰ p db.payments
      → p.order_id ≡ id
      → p.tenant_id ≡ t
      → p.status ≡ PaymentStatus.failed

not_active-failed : (s : PaymentStatus) → is_active s ≡ false → s ≡ PaymentStatus.failed
unfolding is_active
not_active-failed PaymentStatus.pending h = cc
not_active-failed PaymentStatus.success h = cc
not_active-failed PaymentStatus.failed h = refl

failed_all :
    (id t : String) (ps : List Payment)
    → count (blocks id t) ps ≡ 0
    → (p : Payment) → Memᴰ p ps
    → p.order_id ≡ id
    → p.tenant_id ≡ t
    → p.status ≡ PaymentStatus.failed
failed_all id t ps none_active p m same_order same_tenant = not_active-failed p.status (
    rw (same_order, same_tenant, str_eq_self id, str_eq_self t) at
      (count-zero_at (blocks id t) ps none_active p m))

latest_free :
    (id t : String) (ps : List Payment)
    → ((p : Payment)
        → Memᴰ p ps
        → p.order_id ≡ id
        → p.tenant_id ≡ t
        → p.status ≡ PaymentStatus.failed)
    → latest (blocks id t) (λ p. p.created_at) ps ≡ none
unfolding is_active
latest_free id t ps all_failed =
    latest-none_of (blocks id t) (λ p. p.created_at) ps (λ p m. passed_by p (all_failed p m))
  where
    passed_by :
        (p : Payment)
        → (p.order_id ≡ id → p.tenant_id ≡ t → p.status ≡ PaymentStatus.failed)
        → blocks id t p ≡ false
    passed_by p all_over = elim (Bool-cases (str_eq p.order_id id)) [
      | inr other ↦ rw other refl
      | inl same_order ↦ elim (Bool-cases (str_eq p.tenant_id t)) [
        | inr other ↦ rw (same_order, other) refl
        | inl same_tenant ↦
            rw
              (
                same_order,
                same_tenant,
                all_over (eq_of_str_eq p.order_id id same_order)
                    (eq_of_str_eq p.tenant_id t same_tenant),
              )
              refl
      ]
    ]

-- A checkout returns a payment exactly where the order is one of the tenant's, is confirmed and has an amount, and each
-- payment of the order in the tenant has failed; an amount of zero is enough.
pub create_payment_for_order_iff :
    (e : Env) (r id t : String) (db : Db)
    → ((p : Payment) × ((create_payment_for_order e r id t db).0 ≡ ok p)) ↔ Payable id t db
unfolding get_active_for_order
create_payment_for_order_iff e r id t db = (
  (λ (p, h).
      let (o, made) = create_payment_for_order_sound e r id t db p h in
      record {
        order = o;
        found = made.found;
        was_confirmed = made.was_confirmed;
        amount = p.amount;
        has_amount = made.whole_amount;
        all_failed = failed_all id t db.payments made.none_before;
      }),
  (λ due.
      let (p, h, a, b) =
        create_payment_for_order_ready e r id t db due.order due.amount due.found due.was_confirmed
          due.has_amount (latest_free id t db.payments due.all_failed) in
      (p, h)),
)
