-- ===== src/Conversations.antt =====
-- The conversations component (app/modules/conversation).
pub mod Repository
pub mod Reactions
pub mod Service
pub mod Scheduled
pub mod Inbound
pub mod Toggle
pub mod Redelivery
mod Tests
