-- ===== src/Payments/Handlers/Delivery.antt =====
-- From the provider's webhook to the paid order, and what repeated deliveries of an event do.
use chat_to_sales.Payments.Service.Webhook.{
  get_by_reference_updated, webhook_first_success, succeeded_db, confirmation,
}
use chat_to_sales.Payments.Service.{handle_webhook, is_success}
use chat_to_sales.Payments.Repository.{with_status, get_by_reference}
use chat_to_sales.Payments.Handlers.{in_transaction, handle_payment_confirmed_event}
use chat_to_sales.Orders.Service.Changes.{order_id}
use chat_to_sales.Session.{ok}
use chat_to_sales.Orders.Service.Outcomes.{
  confirmed_or_not, do_paid_transition_ok, do_paid_transition_refused, paid_db,
}
use chat_to_sales.Orders.StateMachine.{same_state, state_in}
use chat_to_sales.Base.{
  [], ◌∷◌, ◌++◌, true, str_eq, not, Bool-cases, str_eq_self, ◌&&◌, has_key, refl,
  find?-update_where, inr, false, arith, inl, none, Option-cases, ◌≡◌, some, Option, String,
}
use chat_to_sales.Models.{
  success, payment_confirmed, Event, Payment, paid, confirmed, Order, Db, Env,
}
use chat_to_sales.Orders.Repository.{in_tenant, with_state, get_by_id}
use chat_to_sales.Orders.Service.{handle_payment_confirmed}

-- The listener's method when the order is confirmed: the order is paid.
pub handle_payment_confirmed_ok :
    (e : Env) (id t : String) (o : Order) (db : Db)
    → get_by_id id (some t) db ≡ some o
    → o.state ≡ confirmed
    → handle_payment_confirmed e id t db ≡ (ok (some (with_state paid o)), paid_db e o db)
unfolding handle_payment_confirmed state_in same_state
handle_payment_confirmed_ok e id t o db h sure = ground (arith, do_paid_transition_ok e o db sure)

-- In any other state the method changes nothing.
pub handle_payment_confirmed_other :
    (e : Env) (id t : String) (o : Order) (db : Db)
    → get_by_id id (some t) db ≡ some o
    → same_state o.state confirmed ≡ false
    → (handle_payment_confirmed e id t db).1 ≡ db
unfolding handle_payment_confirmed state_in same_state
handle_payment_confirmed_other e id t o db h unsure =
    ground (arith, do_paid_transition_refused e o db unsure)

handle_payment_confirmed_missing :
    (e : Env) (id t : String) (db : Db)
    → get_by_id id (some t) db ≡ none
    → (handle_payment_confirmed e id t db).1 ≡ db
unfolding handle_payment_confirmed
handle_payment_confirmed_missing e id t db h = ground arith

-- The order that the method has paid is found as a paid order.
get_by_id-paid :
    (e : Env) (id : String) (t : Option String) (o : Order) (db : Db)
    → get_by_id id t db ≡ some o
    → get_by_id id t (paid_db e o db) ≡ some (with_state paid o)
unfolding get_by_id
get_by_id-paid e id t o db h =
    rw
      (
        find?-update_where (λ x. has_key order_id id x && in_tenant t x) (has_key order_id o.id)
            (with_state paid) db.orders (λ x. refl),
        h,
      )
      (rw (str_eq_self o.id))

-- A second delivery to the method changes nothing, whatever the first one did.
pub handle_payment_confirmed_again :
    (e e' : Env) (id t : String) (db : Db)
    → let db₁ = (handle_payment_confirmed e id t db).1 in
      (handle_payment_confirmed e' id t db₁).1 ≡ db₁
handle_payment_confirmed_again e e' id t db = elim (Option-cases (get_by_id id (some t) db)) [
  | inl gone ↦
      rw (handle_payment_confirmed_missing e id t db gone)
        (handle_payment_confirmed_missing e' id t db gone)
  | inr (o, found) ↦ elim (confirmed_or_not o.state) [
    | inl sure ↦ rw (handle_payment_confirmed_ok e id t o db found sure) (
        handle_payment_confirmed_other e' id t (with_state paid o) (paid_db e o db)
          (get_by_id-paid e id (some t) o db found) (unfold same_state in refl))
    | inr unsure ↦
        rw (handle_payment_confirmed_other e id t o db found unsure)
          (handle_payment_confirmed_other e' id t o db found unsure)
  ]
]

-- The method never raises, so its transaction is never rolled back.
quiet_or_paid :
    (e : Env) (id t : String) (db : Db)
    → (r : Option Order) × ((handle_payment_confirmed e id t db).0 ≡ ok r)
quiet_or_paid e id t db = elim (Option-cases (get_by_id id (some t) db)) [
  | inl gone ↦ (none, unfold handle_payment_confirmed in ground arith)
  | inr (o, found) ↦ elim (confirmed_or_not o.state) [
    | inl sure ↦ (some (with_state paid o), rw (handle_payment_confirmed_ok e id t o db found sure))
    | inr unsure ↦ elim (Bool-cases (same_state o.state paid)) [
      | inl done ↦ (some o, unfold handle_payment_confirmed state_in same_state in ground arith)
      | inr other ↦ (
        none,
        unfold handle_payment_confirmed state_in same_state in
            ground (arith, do_paid_transition_refused e o db unsure),
      )
    ]
  ]
]

in_transaction_lem :
    (e : Env) (id t : String) (db : Db)
    → in_transaction (handle_payment_confirmed e id t) db ≡ (handle_payment_confirmed e id t db).1
in_transaction_lem e id t db = let (r, p) = quiet_or_paid e id t db in ground arith

-- The bus may deliver an event more than once: for any event and any database, a second delivery
-- to the payment listener changes nothing.
pub deliver_twice :
    (e e' : Env) (ev : Event) (db : Db)
    → handle_payment_confirmed_event e' ev (handle_payment_confirmed_event e ev db)
      ≡ handle_payment_confirmed_event e ev db
unfolding handle_payment_confirmed_event
deliver_twice e e' (payment_confirmed t p id ref a c) db =
    elim (Bool-cases (not (str_eq id "") && not (str_eq t ""))) [
      | inl full ↦
          rw (full, in_transaction_lem e id t db)
            (rw (in_transaction_lem e' id t (handle_payment_confirmed e id t db).1)
              (handle_payment_confirmed_again e e' id t db))
      | inr empty ↦ rw empty refl
    ]
deliver_twice e e' _ db = refl

-- A webhook that reports success for a payment that has not succeeded, of a confirmed order, puts
-- exactly its confirmation on the bus; once the listener has taken that event, the order is
-- paid and the payment is SUCCESS.
pub webhook_pays_order :
    (e : Env) (r : String) (p : Payment) (o : Order) (db : Db)
    → get_by_reference r db ≡ some p
    → is_success p.status ≡ false
    → str_eq p.order_id "" ≡ false
    → str_eq p.tenant_id "" ≡ false
    → get_by_id p.order_id (some p.tenant_id) db ≡ some o
    → o.state ≡ confirmed
    → let db₁ = (handle_webhook r true db).1 in
      let db₂ = handle_payment_confirmed_event e (confirmation p) db₁ in
      (db₁.events ≡ db.events ++ confirmation p ∷ [])
      × (get_by_id p.order_id (some p.tenant_id) db₂ ≡ some (with_state paid o))
      × (get_by_reference r db₂ ≡ some (with_status success p))
unfolding handle_payment_confirmed_event
webhook_pays_order e r p o db hp open_yet has_order has_tenant ho sure =
    rw
      (
        webhook_first_success r p db hp open_yet,
        has_order,
        has_tenant,
        in_transaction_lem e p.order_id p.tenant_id (succeeded_db p db),
        handle_payment_confirmed_ok e p.order_id p.tenant_id o (succeeded_db p db) found₁ sure,
      )
      (
        refl,
        get_by_id-paid e p.order_id (some p.tenant_id) o (succeeded_db p db) found₁,
        get_by_reference_updated r success p db (paid_db e o (succeeded_db p db)) hp refl,
      )
  where
    found₁ : get_by_id p.order_id (some p.tenant_id) (succeeded_db p db) ≡ some o
    found₁ = unfold get_by_id in unfold get_by_id in ho
