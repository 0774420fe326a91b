-- ===== src/Scheduler/Hours.antt =====
-- app/infra/scheduler.py `_is_business_hours`, and the job that runs outside them. An instant is a
-- number of seconds since a midnight in UTC.
use chat_to_sales.Base.{
  arith, ltb, ◌↔◌, false, ◌&&◌, true, leb, ◌≡◌, ◌%◌, ◌+◌, ◌*◌, Bool, ◌<◌, ◌/◌, ◌≤◌, ℕ,
}

abbrev pub wat_offset_hours : ℕ
wat_offset_hours = 1

abbrev pub business_hour_start : ℕ
business_hour_start = 8

abbrev pub business_hour_end : ℕ
business_hour_end = 20

-- `now.hour`
abbrev pub hour_of : ℕ → ℕ
hour_of now = now / 3600 % 24

unfoldable pub is_business_hours : ℕ → Bool
is_business_hours now =
    let wat_hour = (hour_of now + wat_offset_hours) % 24 in
    leb business_hour_start wat_hour && ltb wat_hour business_hour_end

hour_in_day : (day s : ℕ) → s < 86400 → hour_of (day * 86400 + s) ≡ s / 3600
hour_in_day day s h = omega arith

within :
    (h : ℕ) → h < 24 → leb 8 ((h + 1) % 24) && ltb ((h + 1) % 24) 20 ≡ true ↔ (7 ≤ h) × (h < 19)
within h small = (ground arith, ground arith)

-- Business hours are from 7:00 to 19:00 in UTC, which is 8:00 to 20:00 in Lagos, of every day.
pub is_business_hours_lem :
    (day s : ℕ)
    → s < 86400
    → is_business_hours (day * 86400 + s) ≡ true ↔ (7 * 3600 ≤ s) × (s < 19 * 3600)
unfolding is_business_hours
is_business_hours_lem day s h = rw (hour_in_day day s h) (
    let (to, from) = within (s / 3600) (omega arith) in
    ((λ open_now. omega (arith, to open_now)), λ times. from (omega arith)))

-- `_send_status_kit` is scheduled for 5:30 in UTC, with a grace of one hour, and returns at once outside
-- business hours: on every day, at every moment at which it can be started, it returns at once.
pub status_kit_never :
    (day late : ℕ)
    → late ≤ 3600
    → is_business_hours (day * 86400 + (5 * 3600 + 30 * 60 + late)) ≡ false
unfolding is_business_hours
status_kit_never day late h =
    rw (hour_in_day day (5 * 3600 + 30 * 60 + late) (omega arith)) (ground arith)
