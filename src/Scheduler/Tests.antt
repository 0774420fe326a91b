-- ===== src/Scheduler/Tests.antt =====
-- The theorems on the timed jobs at concrete inputs.
-- Noon of the second day.
use chat_to_sales.Scheduler.OrderReminders.Marks.{IsStale, send_order_reminders_lem}
use chat_to_sales.Scheduler.DebtReminders.Job.{IsDue, send_debt_reminders_lem}
use chat_to_sales.Notifications.Once.{empty-Once, Once}
use chat_to_sales.Scheduler.Hours.{is_business_hours}
use chat_to_sales.CreditSales.Repository.{reminded}
use chat_to_sales.Orders.Service.History.{order_of}
use chat_to_sales.CreditSales.Fates.{sale_of}
use chat_to_sales.Samples.{
  active_sale, sample_keys, flaky_provider, sample_db, sample_world, sample_order,
}
use chat_to_sales.Scheduler.OrderReminders.{with_reminder, send_order_reminders}
use chat_to_sales.Scheduler.DebtReminders.{send_debt_reminders}
use chat_to_sales.Models.{inquiry, CreditSale, Order}
use chat_to_sales.Base.{
  refl, true, ◌⊎◌, [], ◌==◌, ◌∷◌, some, if◌then◌else◌, ◌*◌, ◌≡◌, ◌+◌, Option, none, String, ℕ,
  str_eq,
}
use chat_to_sales.World.{World}

abbrev noon : ℕ
noon = 86400 + 12 * 3600

abbrev asked_order : Order
asked_order = sample_order "o3" inquiry

abbrev morning_world : World
morning_world = record sample_world { db = record sample_db { orders = asked_order ∷ [] } }

send_order_reminders_lem_example :
    let w' = send_order_reminders flaky_provider "t0" sample_keys noon morning_world in
    ((order_of "o3" w'.db.orders ≡ some asked_order)
      ⊎ ((order_of "o3" w'.db.orders ≡ some (with_reminder noon asked_order))
          × IsStale noon asked_order
          × (is_business_hours noon ≡ true)))
    × Once w'
unfolding str_eq
send_order_reminders_lem_example =
    send_order_reminders_lem flaky_provider "t0" sample_keys noon asked_order "o3" morning_world
      (refl, tt) refl (empty-Once morning_world refl refl)

abbrev due_time : ℕ
due_time = 4 * 86400 + 12 * 3600

abbrev no_cache : CreditSale → Option String
no_cache c = none

abbrev one_digit : ℕ → String
one_digit n = if n == 0 then "0" else "1"

send_debt_reminders_lem_example :
    let w' =
      send_debt_reminders flaky_provider "t0" sample_keys one_digit no_cache due_time
        sample_world in
    ((sale_of "c1" w'.db.credit_sales ≡ some active_sale)
      ⊎ ((sale_of "c1" w'.db.credit_sales ≡ some (reminded due_time active_sale))
          × IsDue due_time active_sale
          × (is_business_hours due_time ≡ true)))
    × Once w'
unfolding str_eq
send_debt_reminders_lem_example =
    send_debt_reminders_lem flaky_provider "t0" sample_keys one_digit no_cache due_time active_sale
      "c1" sample_world (refl, tt) refl (empty-Once sample_world refl refl)
