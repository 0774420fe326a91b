-- ===== src/Orders.antt =====
-- The orders component (app/modules/orders): the state machine, the repository, and the
-- service's state-changing methods.
pub mod Dialogue
pub mod StateMachine
pub mod Repository
pub mod Service
pub mod Sessions
pub mod Trader
mod Tests
