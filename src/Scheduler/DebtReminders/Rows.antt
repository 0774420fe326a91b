-- ===== src/Scheduler/DebtReminders/Rows.antt =====
-- What the job does to the rows of the sales.
use chat_to_sales.Scheduler.OrderReminders.{at_least_one}
use chat_to_sales.Base.{◌/◌, ◌-◌, ◌+◌, truthy, false, true}
use chat_to_sales.Notifications.Outcomes.{Sends-rest, send-Sends}
use chat_to_sales.Notifications.Once.{Sends-Once, keep-Once, Once}
use chat_to_sales.Scheduler.DebtReminders.{
  naira_of, with_count, phone_of_trader, numbered, remind_trader_at, remind_trader, count_reminder,
  remind_of_debt, to_trader, debt_env, tell_trader, send_to_trader, remind_customer,
}
use chat_to_sales.Session.{modify, err, ok, Result}
use chat_to_sales.Notifications.Service.{send_in_transaction, Notice}
use chat_to_sales.Models.{Content, CreditSale, Db, Env}
use chat_to_sales.Base.{
  leb, refl, Bool-cases, ◌∙◌, inr, true, arith, ap, eq_of_str_eq, inl, str_eq, Option-cases,
  if◌then◌else◌, ◌&&◌, Bool, has_key, List, update_where, find?-holds, ◌⊎◌, Option, some, ◌≡◌, ℕ,
  String,
}
use chat_to_sales.CreditSales.Repository.{update_sale, is_active_sale, sale_id, reminded, get_sale}
use chat_to_sales.World.{bind-leads, ◌>>>◌, attempt, on_db, bind-keeps, begin, World, Provider}
use chat_to_sales.CreditSales.Service.{send_reminder}

get_sale-id : (id t : String) (db : Db) (c : CreditSale) → get_sale id t db ≡ some c → c.id ≡ id
unfolding get_sale
get_sale-id id t db c h =
    let both =
      find?-holds (λ x. has_key sale_id id x && str_eq x.tenant_id t) db.credit_sales c h in
    eq_of_str_eq c.id id (ground arith)

send_reminder-rows :
    (e : Env) (id t : String) (db : Db)
    → let db' = (send_reminder e id t db).1 in
      ((db'.credit_sales ≡ db.credit_sales)
        ⊎ (db'.credit_sales ≡ update_where (has_key sale_id id) (reminded e.now) db.credit_sales))
      × (db'.notifications ≡ db.notifications)
unfolding send_reminder
send_reminder-rows e id t db = elim (Option-cases (get_sale id t db)) [
  | inl gone ↦ (inl (ground arith), ground arith)
  | inr (c, found) ↦ elim (Bool-cases (is_active_sale c.status)) [
    | inr closed ↦ (inl (ground arith), ground arith)
    | inl opened ↦ elim (Option-cases c.conversation_id) [
      | inl alone ↦ (inl (ground arith), ground arith)
      | inr (conv, linked) ↦ elim (Bool-cases (leb c.max_reminders c.reminders_sent)) [
        | inl full ↦ (inl (ground arith), ground arith)
        | inr room ↦ (inr (ground (arith, get_sale-id id t db c found)), ground arith)
      ]
    ]
  ]
]

module _ (provider : Provider) (platform : String) (keys : String → String) (digits : ℕ → String)
    (cached : CreditSale → Option String) (now : ℕ) where
  -- One round: the rows are as they were, or the row of the sale is counted as reminded.
  pub record Counted (d : CreditSale) (f : CreditSale → CreditSale) (before after : List CreditSale)
      : Type 0 where
    pub keeps_id : (x : CreditSale) → (f x).id ≡ x.id
    pub on_row : f d ≡ reminded now d
    pub rows : after ≡ update_where (has_key sale_id d.id) f before

  abbrev pub Rounded : CreditSale → World → World → Type 0
  Rounded d w v =
      ((v.db.credit_sales ≡ w.db.credit_sales)
        ⊎ ((f : CreditSale → CreditSale) × Counted d f w.db.credit_sales v.db.credit_sales))
      × (Once w → Once v)

  begin-reminder :
      (d : CreditSale) (r : Result CreditSale × Db) (w : World)
      → ((r.1.credit_sales ≡ w.db.credit_sales)
          ⊎ (r.1.credit_sales
              ≡ update_where (has_key sale_id d.id) (reminded now) w.db.credit_sales))
        × (r.1.notifications ≡ w.db.notifications)
      → Rounded d w (begin (λ v. (r.0, record v { db = r.1 })) w).1
  begin-reminder d (ok a, db) w (inl same, n) = (inl same, keep-Once w _ n refl)
  begin-reminder d (ok a, db) w (inr changed, n) = (
    inr (reminded now, record { keeps_id = λ x. refl; on_row = refl; rows = changed }),
    keep-Once w _ n refl,
  )
  begin-reminder d (err x, db) w rows = (inl refl, keep-Once w _ refl refl)

  -- A message changes no sale.
  sent_Rounded :
      (d : CreditSale) (e : Env) (n : Notice) (w v : World)
      → Rounded d w v
      → Rounded d w (send_in_transaction provider e n v).1
  sent_Rounded d e n w v (rows, once) =
      let v' = (send_in_transaction provider e n v).1 in
      let sent = send-Sends provider e n v in
      let kept = Sends-rest e n v v' sent in
      (
        elim rows [
          | inl same ↦ inl (ap (λ (x : Db). x.credit_sales) kept ∙ same)
          | inr (f, c) ↦ inr (
            f,
            record {
              keeps_id = c.keeps_id;
              on_row = c.on_row;
              rows = ap (λ (x : Db). x.credit_sales) kept ∙ c.rows;
            },
          )
        ],
        λ h. Sends-Once e n v v' sent (once h),
      )

  send_to_trader-Rounded :
      (d : CreditSale) (event_id phone : String) (content : Content) (w v : World)
      → Rounded d w v
      → Rounded d w
          (send_to_trader provider platform keys digits cached now event_id phone content v).1
  unfolding send_to_trader
  send_to_trader-Rounded d event_id phone content w v (rows, once) = by_phone (str_eq phone "")
    where
      by_phone :
          (absent : Bool)
          → Rounded d w
              (if absent
                then (ok tt, v)
                else send_in_transaction provider
                    (debt_env provider platform keys digits cached now event_id)
                    (to_trader provider platform keys digits cached now event_id phone content)
                    v).1
      by_phone true = (rows, once)
      by_phone false =
          sent_Rounded d (debt_env provider platform keys digits cached now event_id)
            (to_trader provider platform keys digits cached now event_id phone content) w v
            (rows, once)

  remind_customer-Rounded :
      (d : CreditSale) (w : World)
      → Rounded d w (remind_customer provider platform keys digits cached now d w).1
  unfolding remind_customer tell_trader
  remind_customer-Rounded d w =
      let e = debt_env provider platform keys digits cached now d.id in
      bind-keeps (begin (on_db (send_reminder e d.id d.tenant_id)))
        (λ _. tell_trader provider platform keys digits cached now d) w (Rounded d w)
        (begin-reminder d (send_reminder e d.id d.tenant_id w.db) w
          (send_reminder-rows e d.id d.tenant_id w.db))
        (λ _ v. send_to_trader-Rounded d _ _ _ w v)

  counted_lem :
      (d : CreditSale) (w v : World)
      → v.db.credit_sales ≡ w.db.credit_sales
      → (Once w → Once v)
      → Rounded d w (begin (on_db (modify (count_reminder now d))) v).1
  unfolding count_reminder update_sale
  counted_lem d w v same once = (
    inr (
      with_count now (d.reminders_sent + 1),
      record {
        keeps_id = λ x. refl;
        on_row = refl;
        rows =
            ap (update_where (has_key sale_id d.id) (with_count now (d.reminders_sent + 1))) same;
      },
    ),
    λ h. keep-Once v _ refl refl (once h),
  )

  remind_trader-Rounded :
      (d : CreditSale) (w : World)
      → Rounded d w (remind_trader provider platform keys digits cached now d w).1
  unfolding remind_trader remind_trader_at
  remind_trader-Rounded d w =
      by_phone (str_eq (phone_of_trader provider platform keys digits cached now d w.db) "")
    where
      event : String
      event = numbered digits "debt.reminder." d

      by_phone :
          (absent : Bool)
          → Rounded d w
              (if absent
                then (ok tt, w)
                else (send_in_transaction provider
                        (debt_env provider platform keys digits cached now event)
                        (to_trader provider platform keys digits cached now event
                          (phone_of_trader provider platform keys digits cached now d w.db)
                          (Content.debt_reminder d.customer_name
                            (naira_of d)
                            (at_least_one ((now - d.created_at) / 86400))))
                      >>> begin (on_db (modify (count_reminder now d))))
                    w).1
      by_phone true = (inl refl, λ h. h)
      by_phone false =
          let e = debt_env provider platform keys digits cached now event in
          let n =
            to_trader provider platform keys digits cached now event
              (phone_of_trader provider platform keys digits cached now d w.db)
              (Content.debt_reminder d.customer_name (naira_of d)
                (at_least_one ((now - d.created_at) / 86400))) in
          let sent = send-Sends provider e n w in
          bind-leads (send_in_transaction provider e n)
            (λ _. begin (on_db (modify (count_reminder now d)))) w
            (λ v. (v.db.credit_sales ≡ w.db.credit_sales) × (Once w → Once v)) (Rounded d w)
            (ap (λ (x : Db). x.credit_sales) (Sends-rest e n w _ sent), Sends-Once e n w _ sent)
            (λ v (same, once). (inl same, once)) (λ _ v (same, once). counted_lem d w v same once)

  pub remind_of_debt-Rounded :
      (d : CreditSale) (w : World)
      → Rounded d w (remind_of_debt provider platform keys digits cached now d w)
  unfolding remind_of_debt
  remind_of_debt-Rounded d w = by_conversation (truthy d.conversation_id)
    where
      by_conversation :
          (linked : Bool)
          → Rounded d w (
              (if linked
                  then attempt (remind_customer provider platform keys digits cached now d)
                  else attempt (remind_trader provider platform keys digits cached now d))
                w)
      by_conversation true = remind_customer-Rounded d w
      by_conversation false = remind_trader-Rounded d w
