-- ===== src/Payments.antt =====
-- The payments component (app/modules/payments): the repository, the service and the listener for
-- payment.confirmed.
pub mod Repository
pub mod Service
pub mod Handlers
mod Tests
