-- ===== src/Scheduler.antt =====
-- The timed jobs (app/infra/scheduler.py) that remind traders of orders and of debts.
pub mod Hours
pub mod OrderReminders
pub mod Followups
pub mod DebtReminders
mod Tests
