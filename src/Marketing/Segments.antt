-- ===== src/Marketing/Segments.antt =====
-- app/modules/marketing/segments.py `_compute_behaviour_segment`. A spend is in hundredths of a
-- naira, an instant in seconds.
use mathlib.Core.Option.{some-injective}
use chat_to_sales.Models.{CustomerListEntry}
use chat_to_sales.Marketing.CustomerList.{bump}
use chat_to_sales.Base.{
  ◌∙◌, inr, inl, refl, Bool-cases, sym, ◌≤ℤ◌, leb_ℤ, ◌≤◌, ◌/◌, ◌||◌, ◌*◌, ◌<◌, arith, leb, none,
  ◌-◌, ◌+◌, ◌==◌, ◌⊎◌, ltb, ◌↔◌, if◌then◌else◌, some, false, true, pos, ◌≡◌, String, Bool, ℤ, ℕ,
  Option,
}

pub data Segment : Type 0 where
  abandoned_cart new_lead lapsed vip repeat_buyer paid_once : Segment

abbrev vip_order_threshold : ℕ
vip_order_threshold = 5

abbrev vip_spend_threshold : ℤ
vip_spend_threshold = pos 20000000

-- `last_order_date and (now - last_order_date).days > _LAPSED_DAYS`
unfoldable pub is_lapsed : Option ℕ → ℕ → Bool
is_lapsed none now = false
is_lapsed (some last) now = ltb 90 ((now - last) / 86400)

unfoldable pub compute_behaviour_segment : ℕ → ℤ → Option ℕ → Bool → ℕ → Segment
unfolding is_lapsed
compute_behaviour_segment total_orders total_spend last_order_date has_confirmed_unpaid now =
    if total_orders == 0
    then if has_confirmed_unpaid then abandoned_cart else new_lead
    else if leb vip_order_threshold total_orders || leb_ℤ vip_spend_threshold total_spend
    then if is_lapsed last_order_date now then lapsed else vip
    else if leb 2 total_orders
    then if is_lapsed last_order_date now then lapsed else repeat_buyer
    else if is_lapsed last_order_date now
    then lapsed
    else paid_once

-- More than 90 whole days have gone by since the last order, if there was one.
abbrev pub Gone : Option ℕ → ℕ → Type 0
Gone last now = (t : ℕ) × (last ≡ some t) × (t + 91 * 86400 ≤ now)

days_gone : (now t : ℕ) → t + 91 * 86400 ≤ now → ltb 90 ((now - t) / 86400) ≡ true
days_gone now t h = ground arith

is_lapsed-Gone : (last : Option ℕ) (now : ℕ) → is_lapsed last now ≡ true ↔ Gone last now
unfolding is_lapsed
is_lapsed-Gone none now = ((λ h. cc), λ (t, e, late). cc)
is_lapsed-Gone (some t) now = (
  (λ h. (t, refl, ground arith)),
  λ (u, e, late). days_gone now t (rw (sym (some-injective _ _ e)) at late),
)

Bool_differ : true ≡ false → ⊥
Bool_differ h = cc

segment_cases :
    {P : Type 0} (n : ℕ) (spend : ℤ) (last : Option ℕ) (unpaid : Bool) (now : ℕ)
    → (is_lapsed last now ≡ true ↔ P)
    → let s = compute_behaviour_segment n spend last unpaid now in
      (n ≡ 0 → s ≡ (if unpaid then abandoned_cart else new_lead))
      × (s ≡ lapsed ↔ (0 < n) × P)
      × (s ≡ vip ↔ (0 < n) × (¬ P) × ((5 ≤ n) ⊎ (pos 20000000 ≤ℤ spend)))
unfolding compute_behaviour_segment
segment_cases {P = P} n spend last unpaid now (to, from) = elim (Bool-cases (is_lapsed last now)) [
  | inl gone ↦
      let p = to gone in
      rw gone ((ground arith), (ground arith, ground arith), (ground arith, ground arith))
  | inr stays ↦
      let no_p : ¬ P = λ q. Bool_differ (sym (from q) ∙ stays) in
      rw stays ((ground arith), (ground arith, ground arith), (ground arith, ground arith))
]

-- The segment of a customer: without an order it is abandoned_cart or new_lead; with one it is
-- lapsed exactly where more than 90 whole days have gone by since the last order, and otherwise
-- vip exactly where five orders or 200,000 naira are reached.
pub compute_behaviour_segment_lem :
    (n : ℕ) (spend : ℤ) (last : Option ℕ) (unpaid : Bool) (now : ℕ)
    → let s = compute_behaviour_segment n spend last unpaid now in
      (n ≡ 0 → s ≡ (if unpaid then abandoned_cart else new_lead))
      × (s ≡ lapsed ↔ (0 < n) × Gone last now)
      × (s ≡ vip ↔ (0 < n) × (¬ Gone last now) × ((5 ≤ n) ⊎ (pos 20000000 ≤ℤ spend)))
compute_behaviour_segment_lem n spend last unpaid now =
    segment_cases n spend last unpaid now (is_lapsed-Gone last now)

-- A customer who buys at an instant is in none of the segments of those who have not bought or have
-- lapsed, computed at that instant, whatever the row said before.
pub bump_segment :
    (now : ℕ) (name : Option String) (amount : ℤ) (unpaid : Bool) (c : CustomerListEntry)
    → let c' = bump now name amount c in
      let s =
        compute_behaviour_segment c'.total_orders c'.total_spend c'.last_order_date unpaid now in
      (s ≡ vip) ⊎ (s ≡ repeat_buyer) ⊎ (s ≡ paid_once)
unfolding compute_behaviour_segment bump is_lapsed
bump_segment now name amount unpaid c = ground arith
