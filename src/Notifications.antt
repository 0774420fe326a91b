-- ===== src/Notifications.antt =====
-- Notifications (app/modules/notifications): what is sent to the provider, and once for each event.
pub mod Service
pub mod Outcomes
pub mod Media
pub mod Once
pub mod Steps
pub mod Handlers
mod Tests
