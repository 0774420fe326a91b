-- ===== src/Marketing/Followups.antt =====
-- app/modules/marketing/followup.py: the interest of customers in products, and the rows that wait
-- for a follow-up.
pub mod Log
use chat_to_sales.Session.{modify, ◌>>◌, gets, pure, ◌>>=◌, Action}
use chat_to_sales.Models.{Db, InterestEvent, Env}
use chat_to_sales.Base.{
  ◌++◌, ◌+◌, find?, zero, leb, has_key, ltb, str_eq, some, if◌then◌else◌, not, update_where, ◌&&◌,
  select, suc, none, true, ◌*◌, [], false, Option, Bool, ◌∷◌, List, ℕ, String,
}

abbrev pub interest_id : InterestEvent → String
interest_id x = x.id

-- The arguments of `log_interest`.
pub record Interest : Type 0 where
  pub tenant_id : String
  pub trader_phone : String
  pub customer_phone : String
  pub customer_name : Option String
  pub product_name : String
  pub price : Option ℕ
  pub event_type : String

unfoldable pub is_interest : String → String → String → InterestEvent → Bool
is_interest trader_phone customer_phone product_name x =
    str_eq x.trader_phone trader_phone
    && (str_eq x.customer_phone customer_phone && str_eq x.product_name product_name)

abbrev pub repeat_window : ℕ
repeat_window = 48 * 3600

-- `created_at > now - 48 hours`
unfoldable pub is_recent_interest : ℕ → Interest → InterestEvent → Bool
unfolding is_interest
is_recent_interest now i x =
    is_interest i.trader_phone i.customer_phone i.product_name x
    && ltb now (x.created_at + repeat_window)

unfoldable pub new_interest : Env → Interest → InterestEvent
new_interest e i = record {
  id = e.fresh_id;
  tenant_id = i.tenant_id;
  trader_phone = i.trader_phone;
  customer_phone = i.customer_phone;
  customer_name = i.customer_name;
  product_name = i.product_name;
  price = i.price;
  event_type = i.event_type;
  followed_up = false;
  followed_up_at = none;
  converted = false;
  order_id = none;
  created_at = e.now;
}

unfoldable pub log_unless : Env → Interest → Option InterestEvent → Action InterestEvent
unfolding new_interest
log_unless e i (some existing) = pure existing
log_unless e i none = do
  modify (λ db. record db { interests = db.interests ++ new_interest e i ∷ [] })
  pure (new_interest e i)

unfoldable pub log_interest : Env → Interest → Action InterestEvent
unfolding log_unless is_recent_interest
log_interest e i = do
  existing ← gets (λ db. find? (is_recent_interest e.now i) db.interests)
  log_unless e i existing

abbrev pub converted_by : String → InterestEvent → InterestEvent
converted_by order x = record x { converted = true; order_id = some order }

unfoldable pub mark_converted : String → String → String → String → Db → Db
unfolding is_interest
mark_converted trader_phone customer_phone product_name order db = record db {
  interests =
      update_where (λ x. is_interest trader_phone customer_phone product_name x && not x.converted)
        (converted_by order) db.interests;
}

unfoldable pub is_pending_followup : ℕ → ℕ → InterestEvent → Bool
is_pending_followup now min_age_hours x =
    not x.followed_up && (not x.converted && leb (x.created_at + min_age_hours * 3600) now)

-- `ORDER BY created_at ASC`, on rows that come from the table in any order.
abbrev pub insert_by_age : InterestEvent → List InterestEvent → List InterestEvent
insert_by_age x [] = x ∷ []
insert_by_age x (y ∷ ys) =
    let rest = insert_by_age x ys in if leb x.created_at y.created_at then x ∷ y ∷ ys else y ∷ rest

abbrev pub by_age : List InterestEvent → List InterestEvent
by_age [] = []
by_age (x ∷ xs) = insert_by_age x (by_age xs)

-- `LIMIT n`
abbrev pub limit : {A : Type 0} → ℕ → List A → List A
limit zero xs = []
limit (suc n) [] = []
limit (suc n) (x ∷ xs) = x ∷ limit n xs

unfoldable pub get_pending_followups : ℕ → ℕ → ℕ → Db → List InterestEvent
unfolding is_pending_followup
get_pending_followups now min_age_hours n db =
    limit n (by_age (select (is_pending_followup now min_age_hours) db.interests))

abbrev pub with_followup : ℕ → InterestEvent → InterestEvent
with_followup now x = record x { followed_up = true; followed_up_at = some now }

unfoldable pub mark_followed_up : ℕ → String → Db → Db
mark_followed_up now id db = record db {
  interests = update_where (has_key interest_id id) (with_followup now) db.interests;
}
