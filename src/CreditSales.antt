-- ===== src/CreditSales.antt =====
-- The credit sales component (app/modules/credit_sales) and the trader's debt commands
-- (app/modules/orders/service.py), which write the same table.
pub mod Repository
pub mod Service
pub mod Debts
pub mod Changes
pub mod History
pub mod Fates
pub mod Settlement
mod Tests
