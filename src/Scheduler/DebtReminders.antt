-- ===== src/Scheduler/DebtReminders.antt =====
-- app/infra/scheduler.py `_send_debt_reminders`: the reminders of debts that are due. The job's clock
-- stands still while it runs. What Redis holds for the tenant of a sale, when the job asks for it,
-- is the parameter `cached`: the phone number in the cached record, empty where it has none.
pub mod Rows
pub mod Job
use chat_to_sales.Scheduler.OrderReminders.{at_least_one}
use chat_to_sales.CreditSales.Service.{send_reminder}
use chat_to_sales.Session.{modify, ok}
use chat_to_sales.Scheduler.Hours.{is_business_hours}
use chat_to_sales.Notifications.Service.{send_in_transaction, Notice}
use chat_to_sales.Onboarding.Repository.{get_by_tenant}
use chat_to_sales.Base.{
  ◌-◌, select, ◌*◌, [], str_eq, truthy, leb, if◌then◌else◌, ltb, ◌+◌, Option, append_text, ◌&&◌,
  none, String, ◌/◌, Bool, some, ℕ,
}
use chat_to_sales.World.{
  Attachment, ◌>>>◌, attempt, for_each, on_db, begin, Sending, World, Provider,
}
use chat_to_sales.CreditSales.Repository.{update_sale, is_active_sale}
use chat_to_sales.Models.{Env, Content, Db, CreditSale}

-- `(now - last).total_seconds() >= reminder_interval_days * 86400`
abbrev pub last_contact : CreditSale → ℕ
last_contact c = elim c.last_reminded_at [ none ↦ c.created_at | some last ↦ last ]

unfoldable pub is_due : ℕ → CreditSale → Bool
unfolding is_active_sale
is_due now c =
    is_active_sale c.status
    && (ltb c.reminders_sent c.max_reminders
        && leb (last_contact c + c.reminder_interval_days * 86400) now)

-- `int(cs.amount)`, in naira, of an amount that is above zero.
abbrev pub naira_of : CreditSale → ℕ
naira_of c = c.amount / 100

abbrev pub with_count : ℕ → ℕ → CreditSale → CreditSale
with_count now n c = record c { reminders_sent = n; last_reminded_at = some now }

-- The count that the code writes is that of the row as it was read before the loop.
unfoldable pub count_reminder : ℕ → CreditSale → Db → Db
unfolding update_sale
count_reminder now c = update_sale c.id (with_count now (c.reminders_sent + 1))

-- The event of one reminder: the sale, and the number of reminders so far.
abbrev pub numbered : (ℕ → String) → String → CreditSale → String
numbered digits kind c =
    append_text kind (append_text c.id (append_text "." (digits c.reminders_sent)))

module _ (provider : Provider) (platform : String) (keys : String → String) (digits : ℕ → String)
    (cached : CreditSale → Option String) (now : ℕ) where
  abbrev pub debt_env : String → Env
  debt_env event_id = record { fresh_id = keys event_id; now = now }

  abbrev pub to_trader : String → String → Content → Notice
  to_trader event_id phone content = record {
    tenant_id = platform;
    event_id = event_id;
    recipient = phone;
    message_text = content;
    channel = "whatsapp";
    order_id = none;
    channel_tenant_id = some platform;
    attachment = Attachment.plain;
  }

  -- The trader's phone number, from the cache or from the table; the empty text where there is none.
  unfoldable pub phone_of_trader : CreditSale → Db → String
  unfolding get_by_tenant
  phone_of_trader c db = elim (cached c) [
    | some phone ↦ phone
    | none ↦ elim (get_by_tenant c.tenant_id db) [ some t ↦ t.phone_number | none ↦ "" ]
  ]

  -- `if trader_phone: ...`
  unfoldable pub send_to_trader : String → String → Content → Sending (Unit {0})
  send_to_trader event_id phone content w =
      if str_eq phone ""
      then (ok tt, w)
      else send_in_transaction provider (debt_env event_id) (to_trader event_id phone content) w

  -- The trader hears of the reminder; the count is again that of the row as it was read.
  unfoldable pub tell_trader : CreditSale → Sending (Unit {0})
  unfolding send_to_trader phone_of_trader
  tell_trader c w =
      send_to_trader (numbered digits "debt.reminder_notify." c) (phone_of_trader c w.db)
        (Content.customer_reminded c.customer_name (naira_of c) c.reminders_sent) w

  -- A sale with a conversation.
  unfoldable pub remind_customer : CreditSale → Sending (Unit {0})
  unfolding tell_trader
  remind_customer c =
      begin (on_db (send_reminder (debt_env c.id) c.id c.tenant_id)) >>> tell_trader c

  unfoldable pub remind_trader_at : CreditSale → String → Sending (Unit {0})
  unfolding count_reminder
  remind_trader_at c phone w =
      if str_eq phone ""
      then (ok tt, w)
      else (send_in_transaction provider (debt_env (numbered digits "debt.reminder." c)) (
              to_trader (numbered digits "debt.reminder." c) phone (
                Content.debt_reminder c.customer_name (naira_of c)
                  (at_least_one ((now - c.created_at) / 86400))))
            >>> begin (on_db (modify (count_reminder now c))))
          w

  -- A sale without one.
  unfoldable pub remind_trader : CreditSale → Sending (Unit {0})
  unfolding remind_trader_at phone_of_trader
  remind_trader c w = remind_trader_at c (phone_of_trader c w.db) w

  -- The body of the loop: `if cs.conversation_id: ... else: ...`
  unfoldable pub remind_of_debt : CreditSale → World → World
  unfolding remind_customer remind_trader
  remind_of_debt c =
      if truthy c.conversation_id then attempt (remind_customer c) else attempt (remind_trader c)

  unfoldable pub send_debt_reminders : World → World
  unfolding remind_of_debt is_due
  send_debt_reminders w =
      if is_business_hours now
      then for_each remind_of_debt (select (is_due now) w.db.credit_sales) w
      else w
