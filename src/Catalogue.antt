-- ===== src/Catalogue.antt =====
-- The trader's catalogue commands (app/modules/orders/service.py): ADD, REMOVE and PRICE.
pub mod Dict
pub mod Commands
pub mod Removals
pub mod Prices
pub mod Sessions
mod Tests
