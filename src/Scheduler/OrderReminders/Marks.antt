-- ===== src/Scheduler/OrderReminders/Marks.antt =====
-- Which orders the job marks, and that no order is reminded of twice.
use chat_to_sales.Orders.StateMachine.{same_state}
use chat_to_sales.Models.{OrderState}
use chat_to_sales.Session.{modify, Result-cases}
use chat_to_sales.Scheduler.Hours.{is_business_hours}
use chat_to_sales.Notifications.Outcomes.{Sends-rest, send-Sends}
use chat_to_sales.Notifications.Service.{send_in_transaction}
use mathlib.Core.List.{Memᴰ}
use chat_to_sales.Orders.Service.History.{order_of}
use chat_to_sales.Orders.Service.Changes.{order_id}
use chat_to_sales.Notifications.Once.{keep-Once, Sends-Once, Once}
use chat_to_sales.Orders.Repository.{update_order}
use chat_to_sales.Models.{Db, Order}
use chat_to_sales.Scheduler.OrderReminders.{
  is_stale, order_notice, env_at, remind_of_orders, send_order_reminders, with_reminder,
  remind_of_order,
}
use chat_to_sales.World.{bind-err, bind-ok, on_db, begin, Sending, World, Provider}
use chat_to_sales.Base.{
  none, is_some, not, ◌≤◌, ◌+◌, Option, arith, subst, find?-holds, ◌∙◌, eq_of_str_eq, find?-key,
  select-mem, sym, select, find?-update_where_key, refl, Bool-cases, inr, true, ap, [], inl, some,
  IsKeyed, ◌∷◌, ◌⊎◌, has_key, ◌≡◌, update_where, List, String, ℕ,
}
use mathlib.Core.Option.{some-injective}

-- An order that a reminder is due for: an inquiry with a trader, an hour old, without a reminder.
pub record IsStale (now : ℕ) (o : Order) : Type 0 where
  pub unanswered : o.state ≡ OrderState.inquiry
  pub an_hour_old : o.created_at + 3600 ≤ now
  pub not_reminded : o.reminder_sent_at ≡ none
  pub has_trader : is_some o.trader_phone ≡ true

inquiry_only : (s : OrderState) → same_state s OrderState.inquiry ≡ true → s ≡ OrderState.inquiry
unfolding same_state
inquiry_only OrderState.inquiry h = refl
inquiry_only OrderState.confirmed h = cc
inquiry_only OrderState.paid h = cc
inquiry_only OrderState.failed h = cc

not_some {ℓ} : {A : Type ℓ} (o : Option A) → not (is_some o) ≡ true → o ≡ none
not_some none h = refl
not_some (some a) h = cc

is_stale-IsStale : (now : ℕ) (o : Order) → is_stale now o ≡ true → IsStale now o
unfolding is_stale
is_stale-IsStale now o h = record {
  unanswered = inquiry_only o.state (ground arith);
  an_hour_old = ground arith;
  not_reminded = not_some o.reminder_sent_at (ground arith);
  has_trader = ground arith;
}

-- The mark on the row of one order.
abbrev marked : ℕ → String → List Order → List Order
marked now id xs = update_where (has_key order_id id) (with_reminder now) xs

module _ (provider : Provider) (platform : String) (keys : String → String) where
  -- One round leaves the orders alone or marks the order, whatever the provider answers.
  round-orders :
      (now : ℕ) (o : Order) (w : World)
      → let w' = remind_of_order provider platform keys now o w in
        (w'.db.orders ≡ w.db.orders) ⊎ (w'.db.orders ≡ marked now o.id w.db.orders)
  unfolding remind_of_order update_order
  round-orders now o w =
      let e = env_at provider platform keys now o.id in
      let n = order_notice platform now o in
      let send = send_in_transaction provider e n in
      let mark : Sending (Unit {0}) =
        begin (on_db (modify (update_order o.id (with_reminder now)))) in
      let kept : (send w).1.db.orders ≡ w.db.orders =
        ap (λ (d : Db). d.orders) (Sends-rest e n w (send w).1 (send-Sends provider e n w)) in
      elim (Result-cases (send w).0) [
        | inl (a, good) ↦ inr (
            ap (λ r. r.1.db.orders) (bind-ok send (λ _. mark) w a good) ∙ ap (marked now o.id) kept)
        | inr (x, bad) ↦ inl (ap (λ r. r.1.db.orders) (bind-err send (λ _. mark) w x bad) ∙ kept)
      ]

  round-Once :
      (now : ℕ) (o : Order) (w : World)
      → Once w
      → Once (remind_of_order provider platform keys now o w)
  unfolding remind_of_order update_order
  round-Once now o w once =
      let e = env_at provider platform keys now o.id in
      let n = order_notice platform now o in
      let send = send_in_transaction provider e n in
      let mark : Sending (Unit {0}) =
        begin (on_db (modify (update_order o.id (with_reminder now)))) in
      let once₁ = Sends-Once e n w (send w).1 (send-Sends provider e n w) once in
      elim (Result-cases (send w).0) [
        | inl (a, good) ↦
            subst Once (sym (ap (λ r. r.1) (bind-ok send (λ _. mark) w a good)))
              (keep-Once (send w).1 _ refl refl once₁)
        | inr (x, bad) ↦ subst Once (sym (ap (λ r. r.1) (bind-err send (λ _. mark) w x bad))) once₁
      ]

  loop-Once :
      (now : ℕ) (os : List Order) (w : World)
      → Once w
      → Once (remind_of_orders provider platform keys now os w)
  unfolding remind_of_orders
  loop-Once now [] w once = once
  loop-Once now (o ∷ rest) w once =
      loop-Once now rest (remind_of_order provider platform keys now o w) (round-Once now o w once)

  -- The row of a key after one round.
  round-row :
      (now : ℕ) (d o : Order) (j : String) (w : World)
      → order_of j w.db.orders ≡ some o
      → let w' = remind_of_order provider platform keys now d w in
        (order_of j w'.db.orders ≡ some o)
        ⊎ ((d.id ≡ j) × (order_of j w'.db.orders ≡ some (with_reminder now o)))
  round-row now d o j w h = elim (round-orders now d w) [
    | inl kept ↦ inl (rw kept h)
    | inr written ↦ elim (Bool-cases (has_key order_id d.id o)) [
      | inr other ↦ inl (
          rw
            (
              written,
              find?-update_where_key order_id j (has_key order_id d.id) (with_reminder now)
                  w.db.orders (λ x. refl),
              h,
            )
            (rw other))
      | inl same ↦ inr (
        sym (eq_of_str_eq o.id d.id same)
            ∙ eq_of_str_eq o.id j (find?-holds (has_key order_id j) w.db.orders o h),
        rw
            (
              written,
              find?-update_where_key order_id j (has_key order_id d.id) (with_reminder now)
                  w.db.orders (λ x. refl),
              h,
            )
            (rw same),
      )
    ]
  ]

  -- The row of a key after the loop: as it was, or marked, and then the key was among those of the
  -- list.
  loop-row :
      (now : ℕ) (ds : List Order) (o : Order) (j : String) (w : World)
      → order_of j w.db.orders ≡ some o
      → let w' = remind_of_orders provider platform keys now ds w in
        (order_of j w'.db.orders ≡ some o)
        ⊎ ((d : Order) × Memᴰ d ds
            × (d.id ≡ j)
            × (order_of j w'.db.orders ≡ some (with_reminder now o)))
  unfolding remind_of_orders
  loop-row now [] o j w h = inl h
  loop-row now (d ∷ rest) o j w h =
      let w₁ = remind_of_order provider platform keys now d w in
      elim (round-row now d o j w h) [
        | inl kept ↦ elim (loop-row now rest o j w₁ kept) [
          | inl still ↦ inl still
          | inr (x, m, e, r) ↦ inr (x, Memᴰ.tail m, e, r)
        ]
        | inr (e, r) ↦ elim (loop-row now rest (with_reminder now o) j w₁ r) [
          | inl still ↦ inr (d, Memᴰ.head refl, e, still)
          | inr (x, m, e₂, r₂) ↦ inr (d, Memᴰ.head refl, e, r₂)
        ]
      ]

  -- Whatever the provider answers, the job leaves every order of a table with unique keys as it was, or
  -- sets its date of the reminder alone, and then it is in business hours and the order has been
  -- an inquiry with a trader for an hour, without a reminder; and if no event had been sent twice
  -- before, none has been afterwards.
  pub send_order_reminders_lem :
      (now : ℕ) (o : Order) (j : String) (w : World)
      → IsKeyed order_id w.db.orders
      → order_of j w.db.orders ≡ some o
      → Once w
      → let w' = send_order_reminders provider platform keys now w in
        ((order_of j w'.db.orders ≡ some o)
          ⊎ ((order_of j w'.db.orders ≡ some (with_reminder now o))
              × IsStale now o
              × (is_business_hours now ≡ true)))
        × Once w'
  unfolding send_order_reminders
  send_order_reminders_lem now o j w keyed h once = elim (Bool-cases (is_business_hours now)) [
    | inr closed ↦ rw closed (inl h, once)
    | inl day ↦ rw day (
      elim (loop-row now (select (is_stale now) w.db.orders) o j w h) [
        | inl kept ↦ inl kept
        | inr (d, m, e, r) ↦
            let (there, stale) = select-mem (is_stale now) w.db.orders d m in
            let same : d ≡ o = some-injective d o (
              sym (find?-key order_id w.db.orders d keyed there)
              ∙ ap (λ k. order_of k w.db.orders) e
              ∙ h) in
            inr (r, is_stale-IsStale now o (rw (← same) stale), refl)
      ],
      loop-Once now (select (is_stale now) w.db.orders) w once,
    )
  ]
