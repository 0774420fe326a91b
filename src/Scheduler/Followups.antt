-- ===== src/Scheduler/Followups.antt =====
-- app/infra/scheduler.py `_send_smart_followups`. The code reads `trader.catalogue`, which the
use chat_to_sales.Base.{false, true}
-- class `Trader` does not have: from there on it raises, and the lines after it are never reached.
use chat_to_sales.Session.{modify, no_attribute, err, ok}
use chat_to_sales.Scheduler.Hours.{is_business_hours}
use chat_to_sales.Onboarding.Repository.{text_is, get_by_phone}
use chat_to_sales.Base.{
  true, refl, ap, none, ltb, find?, ◌∙◌, ◌&&◌, ◌||◌, inl, inr, some, str_eq, Bool, Bool-cases,
  if◌then◌else◌, ◌≡◌, Option, ℕ,
}
use chat_to_sales.World.{on_db, for_each-keeps, begin, for_each, attempt, Sending, World}
use chat_to_sales.Models.{paid, confirmed, Trader, Order, OrderState, InterestEvent}
use chat_to_sales.Marketing.Followups.{mark_converted, mark_followed_up, get_pending_followups}
use chat_to_sales.Orders.StateMachine.{same_state}

abbrev pub followup_limit : ℕ
followup_limit = 30

unfoldable pub is_bought : OrderState → Bool
unfolding same_state
is_bought s = same_state s confirmed || same_state s paid

-- An order of the customer with the trader since the interest, confirmed or paid.
unfoldable pub is_order_since : InterestEvent → Order → Bool
unfolding is_bought
is_order_since x o =
    text_is o.trader_phone x.trader_phone
    && (text_is o.customer_phone x.customer_phone
        && (is_bought o.state && ltb x.created_at o.created_at))

-- `trader.catalogue or {}`
unfoldable pub read_catalogue : Option Trader → Sending (Unit {0})
read_catalogue none w = (ok tt, w)
read_catalogue (some t) w = (err (no_attribute "catalogue"), w)

unfoldable pub follow_up_unless : ℕ → InterestEvent → Option Order → Sending (Unit {0})
unfolding mark_converted read_catalogue get_by_phone
follow_up_unless now x (some o) w =
    begin (on_db (modify (mark_converted x.trader_phone x.customer_phone x.product_name o.id))) w
follow_up_unless now x none w = read_catalogue (get_by_phone x.trader_phone w.db) w

unfoldable pub follow_up : ℕ → InterestEvent → Sending (Unit {0})
unfolding follow_up_unless mark_followed_up is_order_since
follow_up now x w =
    if str_eq x.product_name "(photo inquiry)"
    then begin (on_db (modify (mark_followed_up now x.id))) w
    else follow_up_unless now x (find? (is_order_since x) w.db.orders) w

unfoldable pub send_smart_followups : ℕ → ℕ → World → World
unfolding follow_up get_pending_followups
send_smart_followups delay_hours now w =
    if is_business_hours now
    then for_each (λ x. attempt (follow_up now x))
        (get_pending_followups now delay_hours followup_limit w.db) w
    else w

-- Nothing but the interests has changed.
abbrev OnlyInterests : World → World → Type 0
OnlyInterests w v = v ≡ record w { db = record w.db { interests = v.db.interests } }

read_catalogue-OnlyInterests :
    (t : Option Trader) (w : World) → OnlyInterests w (read_catalogue t w).1
unfolding read_catalogue
read_catalogue-OnlyInterests none w = refl
read_catalogue-OnlyInterests (some t) w = refl

follow_up_unless-OnlyInterests :
    (now : ℕ) (x : InterestEvent) (o : Option Order) (w : World)
    → OnlyInterests w (follow_up_unless now x o w).1
unfolding follow_up_unless mark_converted
follow_up_unless-OnlyInterests now x (some o) w = refl
follow_up_unless-OnlyInterests now x none w =
    read_catalogue-OnlyInterests (get_by_phone x.trader_phone w.db) w

follow_up-OnlyInterests :
    (now : ℕ) (x : InterestEvent) (w : World) → OnlyInterests w (follow_up now x w).1
unfolding follow_up mark_followed_up
follow_up-OnlyInterests now x w = by_name (str_eq x.product_name "(photo inquiry)")
  where
    by_name :
        (photo : Bool)
        → OnlyInterests w
            (if photo
              then begin (on_db (modify (mark_followed_up now x.id))) w
              else follow_up_unless now x (find? (is_order_since x) w.db.orders) w).1
    by_name true = refl
    by_name false = follow_up_unless-OnlyInterests now x (find? (is_order_since x) w.db.orders) w

-- The job for follow-ups never sends a message, at any time and whatever is in the database: a run
-- changes the table of interests and nothing else.
pub send_smart_followups_lem :
    (delay now : ℕ) (w : World)
    → let w' = send_smart_followups delay now w in
      w' ≡ record w { db = record w.db { interests = w'.db.interests } }
unfolding send_smart_followups
send_smart_followups_lem delay now w = elim (Bool-cases (is_business_hours now)) [
  | inr closed ↦ rw closed refl
  | inl day ↦ rw day (
      for_each-keeps (OnlyInterests w) (λ x. attempt (follow_up now x))
        (get_pending_followups now delay followup_limit w.db) w
        (λ x v m so_far.
          follow_up-OnlyInterests now x v
          ∙ ap
              (λ (u : World). record u {
                db = record u.db { interests = (attempt (follow_up now x) v).db.interests };
              })
              so_far)
        refl)
]
