-- ===== src/Orders/Trader/Commands.antt =====
-- What a command of a trader does to the tables: what the method of the HTTP API does, on the order
-- that its reference finds in any tenant.
use chat_to_sales.CreditSales.Repository.{create, get_by_order_id, of_order}
use chat_to_sales.CreditSales.Service.{create_credit_sale, create_unless_found, CreditSaleCreate}
use mathlib.Core.List.{Memᴰ}
use chat_to_sales.Orders.Repository.{update_order, get_by_ref_prefix, get_by_id}
use chat_to_sales.Scheduler.OrderReminders.{whole_naira}
use chat_to_sales.Orders.Dialogue.Placed.{guarded-rest}
use chat_to_sales.Orders.Service.{
  reload, get_or_404, confirm_order, fail_order, mark_order_paid, do_paid_transition, transition,
}
use chat_to_sales.Session.{err, ok, Result}
use chat_to_sales.Notifications.Service.{send_interactive, send_message, Notice}
use chat_to_sales.Orders.Trader.{
  order_command, credit_it, paid_it, paid_buttons, cancel_it, debtor_name, confirm_it,
  confirmed_reply, has_debt, on_credit, put_on_credit, to_buyer, with_db, credit_command,
  paid_command, back, cancel_command, confirm_command, OrderCommand, tell_confirmed, run_command,
  after_change, tell_cancelled, TraderCommand,
}
use chat_to_sales.World.{Attachment, World}
use chat_to_sales.Orders.Dialogue.{Chat, Setting}
use chat_to_sales.Base.{
  Bool-cases, Option-cases, inl, inr, ◌||◌, ◌*◌, pos_part, str_eq, subst, find?-key, [], has_key,
  ◌∷◌, find?-mem, arith, ◌&&◌, sym, none, find?, IsKeyed, List, Bool, refl, some, ap, text_or,
  if◌then◌else◌, ◌∙◌, ◌≡◌, true, false,
}
use chat_to_sales.Models.{CreditSale, Env, Reply, Order, Db, confirmed, failed}
use chat_to_sales.Orders.Dialogue.Replies.{
  drop_session, sending_env, reply_interactive, guarded, reply,
}
use chat_to_sales.Orders.Service.Changes.{order_id}

-- The tables are these, but for the notifications.
pub record Reads (db : Db) (v : World) : Type 0 where
  pub tables : v.db ≡ record db { notifications = v.db.notifications }

pub reply-Reads :
    (S : Setting) (db : Db) (n n' : Notice) (v : World)
    → Reads db v
    → Reads db (guarded S n (send_message S.provider (sending_env S n) n') v)
reply-Reads S db n n' v before =
    let v' = guarded S n (send_message S.provider (sending_env S n) n') v in
    record {
      tables =
          guarded-rest S n n' v
          ∙ ap (λ (d : Db). record d { notifications = v'.db.notifications }) before.tables;
    }

module _ (S : Setting) (k : TraderCommand) where
  pub after_change-Reads :
      (r : Result Order × Db) (next : Chat S → Chat S) (refusal : Notice) (c : Chat S)
      → ((d : Chat S) → Reads r.1 d.world → Reads r.1 (next d).world)
      → Reads r.1 (after_change S k r next refusal c).world
  unfolding after_change reply
  after_change-Reads (ok o, db) next refusal c keeps =
      keeps (with_db S k db c) (record { tables = refl })
  after_change-Reads (err x, db) next refusal c keeps =
      reply-Reads S db refusal refusal (with_db S k db c).world (record { tables = refl })

  tell_confirmed-Reads :
      (db : Db) (o : Order) (d : Chat S)
      → Reads db d.world
      → Reads db (tell_confirmed S k o d).world
  unfolding tell_confirmed reply reply_interactive send_interactive
  tell_confirmed-Reads db o d before =
      let n =
        back S k "order.confirmed_trader." o.id
          (Reply.order_confirmed_to_trader k.ref o.customer_name (text_or o.customer_phone "")) in
      let n' = to_buyer S k o "order.confirmed_customer." (confirmed_reply S k o) in
      let told = reply_interactive S n (paid_buttons k.ref) d in
      reply-Reads S db n' n' told.world (
        reply-Reads S db n (record n { attachment = Attachment.interactive (paid_buttons k.ref) })
          d.world before)

  tell_cancelled-Reads :
      (db : Db) (o : Order) (d : Chat S)
      → Reads db d.world
      → Reads db (tell_cancelled S k o d).world
  unfolding tell_cancelled reply
  tell_cancelled-Reads db o d before =
      let n =
        back S k "order.cancelled_trader." o.id
          (Reply.order_cancelled_to_trader k.ref o.customer_name) in
      let n' =
        to_buyer S k o "order.cancelled_customer."
          (Reply.order_cancelled_to_customer k.trader_name) in
      let told = reply S n (drop_session S k.tenant_id (text_or o.customer_phone "") d) in
      reply-Reads S db n' n' told.world (reply-Reads S db n n d.world before)

  -- What a command does to the tables, in terms of the service.
  abbrev pub effect : OrderCommand → Order → Db → Db
  effect confirm_it o db = (transition o confirmed db).1
  effect cancel_it o db = (transition o failed db).1
  effect paid_it o db = (do_paid_transition S.env o db).1
  effect credit_it o db = if o.is_credit then db else (put_on_credit S.env o db).1

  pub run_command-Reads :
      (what : OrderCommand) (o : Order) (c : Chat S)
      → Reads (effect what o c.world.db) (run_command S k what (some o) c).world
  unfolding run_command confirm_command cancel_command paid_command credit_command reply
  run_command-Reads confirm_it o c =
      after_change-Reads (transition o confirmed c.world.db) (tell_confirmed S k o) _ c
        (tell_confirmed-Reads (transition o confirmed c.world.db).1 o)
  run_command-Reads cancel_it o c =
      after_change-Reads (transition o failed c.world.db) (tell_cancelled S k o) _ c
        (tell_cancelled-Reads (transition o failed c.world.db).1 o)
  run_command-Reads paid_it o c =
      let n =
        back S k "order.paid_trader." o.id (Reply.order_paid_to_trader k.ref o.customer_name) in
      after_change-Reads (do_paid_transition S.env o c.world.db) (reply S n) _ c
        (λ d. reply-Reads S (do_paid_transition S.env o c.world.db).1 n n d.world)
  run_command-Reads credit_it o c = by_credit o.is_credit
    where
      dup : Notice
      dup =
          back S k "order.credit_dup." k.message_id
            (Reply.order_already_on_credit k.ref o.customer_name)

      done : Notice
      done =
          back S k "order.credit_trader." o.id
            (Reply.order_credit_to_trader k.ref (debtor_name o) (whole_naira o.amount))

      refusal : Notice
      refusal = back S k "order.credit_err." k.message_id (Reply.cannot_create_credit k.ref)

      r : Result Order × Db
      r = put_on_credit S.env o c.world.db

      by_credit :
          (already : Bool)
          → Reads
              (if already then c.world.db else r.1)
              (if already then reply S dup c else after_change S k r (reply S done) refusal c).world
      by_credit true = reply-Reads S c.world.db dup dup c.world (record { tables = refl })
      by_credit false =
          after_change-Reads r (reply S done) refusal c (λ d. reply-Reads S r.1 done done d.world)

-- A further test that always holds changes nothing.
find?-and_true {ℓ} :
    {A : Type ℓ} (p : A → Bool) (xs : List A) → find? (λ x. p x && true) xs ≡ find? p xs
find?-and_true p [] = refl
find?-and_true p (x ∷ xs) = ground (arith, find?-and_true p xs)

-- What no row passes, no row passes together with a further test.
find?-and_none {ℓ} :
    {A : Type ℓ} (p q : A → Bool) (xs : List A)
    → find? p xs ≡ none
    → find? (λ x. p x && q x) xs ≡ none
find?-and_none p q [] h = refl
find?-and_none p q (x ∷ xs) h = ground (arith, find?-and_none p q xs)

-- In a keyed table a row is found by its key in any tenant.
pub get_by_id-row :
    (o : Order) (db : Db)
    → IsKeyed order_id db.orders
    → Memᴰ o db.orders
    → get_by_id o.id none db ≡ some o
unfolding get_by_id
get_by_id-row o db keyed m =
    find?-and_true (has_key order_id o.id) db.orders ∙ find?-key order_id db.orders o keyed m

confirm_order-effect :
    (o : Order) (db : Db)
    → get_by_id o.id none db ≡ some o
    → (confirm_order o.id none db).1 ≡ (transition o confirmed db).1
unfolding confirm_order get_or_404 reload
confirm_order-effect o db found = ground (arith, found)

fail_order-effect :
    (o : Order) (db : Db)
    → get_by_id o.id none db ≡ some o
    → (fail_order o.id none db).1 ≡ (transition o failed db).1
unfolding fail_order get_or_404 reload
fail_order-effect o db found = ground (arith, found)

mark_order_paid-effect :
    (e : Env) (o : Order) (db : Db)
    → get_by_id o.id none db ≡ some o
    → (mark_order_paid e o.id none db).1 ≡ (do_paid_transition e o db).1
unfolding mark_order_paid get_or_404 reload
mark_order_paid-effect e o db found = ground (arith, found)

module _ (S : Setting) (k : TraderCommand) where
  -- The body of a request for a credit sale over an order.
  abbrev pub credit_body : Order → CreditSaleCreate
  credit_body o = record {
    order_id = o.id;
    conversation_id = some o.conversation_id;
    customer_name = debtor_name o;
    amount = pos_part (whole_naira o.amount) * 100;
    currency = if str_eq o.currency "" then "NGN" else o.currency;
    due_date = none;
    reminder_interval_days = 3;
    max_reminders = 5;
    notes = none;
  }

  -- What the API does to the tables for a command; for CREDIT the request for a credit sale, after
  -- which the order is marked. An order that is marked, or has a debt in any tenant, is left alone.
  abbrev pub by_api : OrderCommand → Order → Db → Db
  by_api confirm_it o db = (confirm_order o.id none db).1
  by_api cancel_it o db = (fail_order o.id none db).1
  by_api paid_it o db = (mark_order_paid S.env o.id none db).1
  by_api credit_it o db =
      if o.is_credit || has_debt o.id db
      then db
      else update_order o.id on_credit (create_credit_sale S.env o.tenant_id (credit_body o) db).1

  credit-by_api : (o : Order) (db : Db) → effect S k credit_it o db ≡ by_api credit_it o db
  unfolding put_on_credit create_credit_sale create_unless_found create get_by_order_id has_debt
  credit-by_api o db = elim (Bool-cases o.is_credit) [
    | inl marked ↦ rw marked refl
    | inr new ↦
        elim (Option-cases (find? (λ (x : CreditSale). of_order o.id x.order_id) db.credit_sales)) [
          | inr (x, there) ↦ rw (new, there) refl
          | inl free ↦
              rw
                (
                  new,
                  free,
                  find?-and_none (λ (x : CreditSale). of_order o.id x.order_id)
                      (λ (x : CreditSale). str_eq x.tenant_id o.tenant_id) db.credit_sales free,
                )
                refl
        ]
  ]

  effect-by_api :
      (what : OrderCommand) (o : Order) (db : Db)
      → get_by_id o.id none db ≡ some o
      → effect S k what o db ≡ by_api what o db
  effect-by_api confirm_it o db found = sym (confirm_order-effect o db found)
  effect-by_api cancel_it o db found = sym (fail_order-effect o db found)
  effect-by_api paid_it o db found = sym (mark_order_paid-effect S.env o db found)
  effect-by_api credit_it o db found = credit-by_api o db

  pub order_command_refines :
      (what : OrderCommand) (o : Order) (c : Chat S)
      → IsKeyed order_id c.world.db.orders
      → get_by_ref_prefix k.ref none c.world.db ≡ some o
      → Reads (by_api what o c.world.db) (order_command S k what c).world
  unfolding order_command get_by_ref_prefix
  order_command_refines what o c keyed found =
      let m : Memᴰ o c.world.db.orders = find?-mem _ c.world.db.orders o found in
      subst (λ (d : Chat S). Reads (by_api what o c.world.db) d.world)
        (sym (ap (λ f. run_command S k what f c) found))
        (subst (λ db. Reads db (run_command S k what (some o) c).world)
          (effect-by_api what o c.world.db (get_by_id-row o c.world.db keyed m))
          (run_command-Reads S k what o c))
