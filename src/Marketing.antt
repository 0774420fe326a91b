-- ===== src/Marketing.antt =====
-- The marketing component (app/modules/marketing).
pub mod CustomerList
pub mod Segments
pub mod Referrals
pub mod Broadcast
pub mod Followups
mod Tests
