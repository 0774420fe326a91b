-- ===== src/Orders/Dialogue/Quantity.antt =====
-- app/modules/orders/service.py, `handle_inbound_customer_message`: the quantity that a customer
-- chooses from the list or types while an order waits for the confirmation, with the table of words
-- of app/modules/orders/nlp.py.
use chat_to_sales.Orders.Dialogue.Replies.{in_world}
use chat_to_sales.Orders.Service.{with_amount}
use chat_to_sales.Scheduler.OrderReminders.{whole_naira}
use chat_to_sales.Orders.Dialogue.{Chat, Summary, Incoming, Setting}
use chat_to_sales.Models.{inquiry, Line, Db, Order, OrderItem, OrderState}
use chat_to_sales.Orders.Repository.{get_by_id, update_order}
use text.Mathlib.Text.{starts_with}
use chat_to_sales.Base.{
  ◌&&◌, negsuc, leb, ltb, str_eq, if◌then◌else◌, [], none, find?, Bool, some, ◌*ℕ◌, ◌∷◌, pos,
  String, List, Option, ℕ, ℤ, true, false,
}

-- `_YORUBA_NUMS` and `_ENGLISH_NUMS`, which make up `_WORD_TO_NUM`
abbrev pub word_to_num : List (String × ℕ)
word_to_num =
    ("meji", 2)
    ∷ ("meta", 3)
    ∷ ("merin", 4)
    ∷ ("marun", 5)
    ∷ ("mefa", 6)
    ∷ ("meje", 7)
    ∷ ("mejo", 8)
    ∷ ("mesan", 9)
    ∷ ("mewa", 10)
    ∷ ("ogun", 20)
    ∷ ("ogoji", 40)
    ∷ ("one", 1)
    ∷ ("two", 2)
    ∷ ("three", 3)
    ∷ ("four", 4)
    ∷ ("five", 5)
    ∷ ("six", 6)
    ∷ ("seven", 7)
    ∷ ("eight", 8)
    ∷ ("nine", 9)
    ∷ ("ten", 10)
    ∷ []

abbrev number_of : Option (String × ℕ) → Option ℕ
number_of none = none
number_of (some entry) = some entry.1

unfoldable pub number_word : String → Option ℕ
number_word word = number_of (find? (λ entry. str_eq entry.0 word) word_to_num)

-- The first word of a list that is a number.
unfoldable pub first_number_word : List String → Option ℕ
unfolding number_word
first_number_word [] = none
first_number_word (word ∷ words) = or_else (number_word word) (first_number_word words)
  where
    or_else : Option ℕ → Option ℕ → Option ℕ
    or_else none rest = rest
    or_else (some n) rest = some n

-- A number in digits counts between 1 and 1000; only without one are the words looked at.
unfoldable pub typed_quantity : Option ℕ → List String → Option ℕ
unfolding first_number_word
typed_quantity (some n) words = if leb 1 n && leb n 1000 then some n else none
typed_quantity none words = first_number_word words

-- `if qty < 1: qty = 1`
unfoldable pub clamped : ℤ → ℕ
clamped (pos n) = if ltb n 1 then 1 else n
clamped (negsuc n) = 1

-- `int(...)`, or 1 if that raises
abbrev pub tapped_quantity : Option ℤ → ℕ
tapped_quantity none = 1
tapped_quantity (some n) = clamped n

abbrev pub typed_clamped : Option ℕ → Option ℕ
typed_clamped none = none
typed_clamped (some n) = some (clamped (pos n))

-- `if item: f(item)` on the first item of the order, in the order of insertion
abbrev pub update_first :
    (OrderItem → Bool) → (OrderItem → OrderItem) → List OrderItem → List OrderItem
update_first p f [] = []
update_first p f (x ∷ xs) = if p x then f x ∷ xs else x ∷ update_first p f xs

abbrev pub with_quantity : ℕ → OrderItem → OrderItem
with_quantity qty x = record x { quantity = qty }

-- `Decimal(str(int(item.unit_price) * qty))`
unfoldable pub quoted : OrderItem → ℕ → ℤ
unfolding whole_naira
quoted item qty = whole_naira (some item.unit_price) *ℕ qty

-- Naira as hundredths.
abbrev pub hundredths : ℤ → ℤ
hundredths naira = naira *ℕ 100

-- The new quantity of the first item, and the order's amount that is made of it alone.
unfoldable pub requote : Order → OrderItem → ℕ → Db → Db
unfolding update_order quoted
requote o item qty db = record (update_order o.id (with_amount (hundredths (quoted item qty))) db) {
  items = update_first (λ x. str_eq x.order_id o.id) (with_quantity qty) db.items;
}

-- `if session_items: session_items[0]["qty"] = qty`
abbrev pub with_first_qty : ℕ → List Line → List Line
with_first_qty qty [] = []
with_first_qty qty (l ∷ ls) = record l { qty = qty } ∷ ls

-- `order.state == OrderState.INQUIRY`
abbrev pub is_inquiry : OrderState → Bool
is_inquiry inquiry = true
is_inquiry _ = false

-- `await self._repo.get_by_id(order_id=..., tenant_id=...)`, where the id may be `None`
unfoldable pub session_order : Option String → String → Db → Option Order
unfolding get_by_id
session_order none tenant_id db = none
session_order (some id) tenant_id db = get_by_id id (some tenant_id) db

-- An order that still is an inquiry.
abbrev pub if_inquiry : Option Order → Option Order
if_inquiry none = none
if_inquiry (some o) = if is_inquiry o.state then some o else none

module _ (S : Setting) (i : Incoming) where
  -- `qty`, if the message gives one
  unfoldable pub read_quantity : Option ℕ
  unfolding typed_quantity clamped
  read_quantity =
      if starts_with (S.strip_upper i.message) "QTY_"
      then some (tapped_quantity (S.after_underscore (S.strip_upper i.message)))
      else typed_clamped (typed_quantity (S.first_number i.message) (S.lower_words i.message))

  -- The order with its first item, under `if order and order.state == INQUIRY and order.items`.
  unfoldable pub set_found :
      ℕ → Summary → Option Order → Option OrderItem → Chat S → Summary × Chat S
  unfolding requote quoted
  set_found qty s none item c = (s, c)
  set_found qty s (some o) none c = (s, c)
  set_found qty s (some o) (some item) c = (
    record s { items = with_first_qty qty s.items; total = quoted item qty },
    in_world S (λ w. record w { db = requote o item qty w.db }) c,
  )

  -- The first item of an order.
  abbrev pub item_of : Option Order → Db → Option OrderItem
  item_of none db = none
  item_of (some o) db = find? (λ x. str_eq x.order_id o.id) db.items

  unfoldable pub set_quantity : ℕ → Summary → Chat S → Summary × Chat S
  unfolding set_found session_order
  set_quantity qty s c =
      let found = if_inquiry (session_order s.order_id i.tenant_id c.world.db) in
      set_found qty s found (item_of found c.world.db) c
