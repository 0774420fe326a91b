-- ===== src/Scheduler/OrderReminders.antt =====
-- app/infra/scheduler.py `_send_order_reminders`: one reminder to the trader for an order that has
-- been an inquiry for an hour.
pub mod Marks
use chat_to_sales.Session.{modify}
use chat_to_sales.Notifications.Service.{send_in_transaction, Notice}
use chat_to_sales.Scheduler.Hours.{is_business_hours}
use chat_to_sales.Models.{Content, inquiry, Env, Order}
use chat_to_sales.Orders.Repository.{update_order}
use chat_to_sales.Base.{
  is_some, none, not, ◌-◌, ◌+◌, sub_ℕ, leb, ◌&&◌, text_or, negsuc, ◌/◌, select, append_text, [],
  pos, ◌==◌, ◌∷◌, Bool, some, if◌then◌else◌, ℤ, List, String, ℕ, Option,
}
use chat_to_sales.World.{Attachment, Button, on_db, begin, ◌>>>◌, attempt, World, Provider}
use chat_to_sales.Orders.StateMachine.{same_state}

abbrev pub reminder_delay : ℕ
reminder_delay = 3600

-- `Order.state == INQUIRY and created_at <= cutoff and reminder_sent_at is null and ...`
unfoldable pub is_stale : ℕ → Order → Bool
unfolding same_state
is_stale now o =
    same_state o.state inquiry
    && (leb (o.created_at + reminder_delay) now
        && (not (is_some o.reminder_sent_at) && is_some o.trader_phone))

-- `int(order.amount or 0)`, which cuts towards zero
unfoldable pub whole_naira : Option ℤ → ℤ
whole_naira none = pos 0
whole_naira (some (pos n)) = pos (n / 100)
whole_naira (some (negsuc n)) = sub_ℕ 0 ((n + 1) / 100)

-- `max(1, int((now - then).total_seconds() / unit))`
abbrev pub at_least_one : ℕ → ℕ
at_least_one n = if n == 0 then 1 else n

-- CONFIRM and CANCEL, each with the order.
abbrev pub reminder_buttons : Order → List Button
reminder_buttons o =
    record { id = append_text "CONFIRM " o.id; title = "Confirm" }
    ∷ record { id = append_text "CANCEL " o.id; title = "Decline" }
    ∷ []

-- The message to the trader, with the two buttons; a reference is the start of the order's key.
unfoldable pub order_notice : String → ℕ → Order → Notice
unfolding whole_naira
order_notice platform now o = record {
  tenant_id = platform;
  event_id = append_text "order.reminder." o.id;
  recipient = text_or o.trader_phone "";
  message_text =
      Content.order_reminder (text_or o.customer_phone "unknown") o.customer_name
        (whole_naira o.amount) o.id (at_least_one ((now - o.created_at) / 3600));
  channel = "whatsapp";
  order_id = none;
  channel_tenant_id = some platform;
  attachment = Attachment.interactive (reminder_buttons o);
}

abbrev pub with_reminder : ℕ → Order → Order
with_reminder now o = record o { reminder_sent_at = some now }

-- The provider, the tenant of the platform's number, and the keys that `uuid4` draws for the rows.
module _ (provider : Provider) (platform : String) (keys : String → String) where
  abbrev pub env_at : ℕ → String → Env
  env_at now event_id = record { fresh_id = keys event_id; now = now }

  -- The body of the loop: the message, and then the mark in a transaction of its own.
  unfoldable pub remind_of_order : ℕ → Order → World → World
  unfolding update_order
  remind_of_order now o = attempt (
      send_in_transaction provider (env_at now o.id) (order_notice platform now o)
      >>> begin (on_db (modify (update_order o.id (with_reminder now)))))

  unfoldable pub remind_of_orders : ℕ → List Order → World → World
  remind_of_orders now [] w = w
  remind_of_orders now (o ∷ rest) w = remind_of_orders now rest (remind_of_order now o w)

  unfoldable pub send_order_reminders : ℕ → World → World
  send_order_reminders now w =
      if is_business_hours now
      then remind_of_orders now (select (is_stale now) w.db.orders) w
      else w
