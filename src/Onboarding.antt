-- ===== src/Onboarding.antt =====
-- The traders (app/modules/onboarding), and the loops that look for a free slug or referral code.
pub mod Repository
pub mod Slugs
mod Tests
