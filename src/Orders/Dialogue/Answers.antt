-- ===== src/Orders/Dialogue/Answers.antt =====
-- What an answer of a customer does: a quantity, a YES after an accepted offer, a YES or NO to a
-- question, and an offer without an order.
use chat_to_sales.Orders.Dialogue.Walks.{session_order-mem}
use chat_to_sales.Orders.Repository.{update_order}
use chat_to_sales.Scheduler.OrderReminders.{whole_naira}
use chat_to_sales.Orders.Service.{with_amount}
use chat_to_sales.Orders.Service.History.{order_of}
use chat_to_sales.Orders.Dialogue.Customer.{by_offer, pass_offer, negotiate}
use mathlib.Core.Option
use text.Mathlib.Text.{starts_with}
use mathlib.Core.Option.{some-injective}
use chat_to_sales.Orders.Dialogue.Quantity.{
  quoted, requote, set_found, with_first_qty, hundredths, item_of, session_order, if_inquiry,
  typed_clamped, read_quantity, set_quantity, tapped_quantity, clamped, word_to_num, number_word,
  first_number_word, typed_quantity,
}
use chat_to_sales.Base.{
  str_eq_self, has_key, find?-key, find?-update_where_key, ap, ◌*ℕ◌, IsKeyed, sym, ◌⊎◌, negsuc, pos,
  ℤ, refl, subst, ◌∙◌, inr, ◌&&◌, str_eq, Bool-cases, inl, find?, leb, Option-cases, Bool, not,
  none, [], ◌∷◌, arith, ◌≤◌, some, ◌≡◌, ℕ, Option, String, List, true, false,
}
use chat_to_sales.Models.{Db, OrderItem, Order}
use chat_to_sales.Orders.Dialogue.{Clarification, Chat, Summary, Incoming, Setting, OrderSession}
use chat_to_sales.Orders.Service.Changes.{order_id}

-- What a search finds is no exception where there is none.
find?-none-some {ℓ} :
    {A : Type ℓ} (q p : A → Bool) (xs : List A) (x : A)
    → find? q xs ≡ none
    → find? p xs ≡ some x
    → q x ≡ false
find?-none-some q p [] x h found = cc
find?-none-some q p (y ∷ ys) x h found = elim (Bool-cases (q y)) [
  | inl bad ↦ absurd (clash (rw bad at h))
  | inr good ↦ elim (Bool-cases (p y)) [
    | inl hit ↦ subst (λ z. q z ≡ false) (some-injective y x (rw hit at found)) good
    | inr miss ↦ find?-none-some q p ys x (rw good at h) (rw miss at found)
  ]
]
  where
    clash : some y ≡ none → ⊥
    clash e = cc

-- Every number that a word stands for is between 1 and 40.
abbrev out_of_range : String × ℕ → Bool
out_of_range entry = not (leb 1 entry.1 && leb entry.1 40)

in_range : (n : ℕ) → not (leb 1 n && leb n 40) ≡ false → (1 ≤ n) × (n ≤ 40)
in_range n h = (ground arith, ground arith)

number_word-bounds : (word : String) (n : ℕ) → number_word word ≡ some n → (1 ≤ n) × (n ≤ 40)
unfolding number_word
number_word-bounds word n h =
    elim (Option-cases (find? (λ (entry : String × ℕ). str_eq entry.0 word) word_to_num)) [
      | inl unknown_word ↦ absurd (clash (rw unknown_word at h))
      | inr (entry, found) ↦
          subst (λ k. (1 ≤ k) × (k ≤ 40)) (some-injective entry.1 n (rw found at h))
            (in_range entry.1 (
              find?-none-some out_of_range (λ (e : String × ℕ). str_eq e.0 word) word_to_num entry
                refl found))
    ]
  where
    clash : none ≡ some n → ⊥
    clash e = cc

first_number_word-bounds :
    (words : List String) (n : ℕ) → first_number_word words ≡ some n → (1 ≤ n) × (n ≤ 40)
unfolding first_number_word
first_number_word-bounds [] n h = cc
first_number_word-bounds (word ∷ words) n h = elim (Option-cases (number_word word)) [
  | inl no_number ↦ first_number_word-bounds words n (rw no_number at h)
  | inr (k, number) ↦ number_word-bounds word n (number ∙ rw number at h)
]

typed_quantity-bounds :
    (digits : Option ℕ) (words : List String) (n : ℕ)
    → typed_quantity digits words ≡ some n
    → (1 ≤ n) × (n ≤ 1000)
unfolding typed_quantity
typed_quantity-bounds none words n h =
    let (low, high) = first_number_word-bounds words n h in (low, omega (arith, high))
typed_quantity-bounds (some k) words n h = (ground arith, ground arith)

clamped-least : (n : ℤ) → 1 ≤ clamped n
unfolding clamped
clamped-least (pos n) = ground arith
clamped-least (negsuc n) = omega arith

tapped-least : (n : Option ℤ) → 1 ≤ tapped_quantity n
tapped-least none = omega arith
tapped-least (some n) = clamped-least n

clamped-same : (n : ℕ) → 1 ≤ n → clamped (pos n) ≡ n
unfolding clamped
clamped-same n low = ground arith

requote_row :
    (o : Order) (item : OrderItem) (qty : ℕ) (db : Db)
    → order_of o.id db.orders ≡ some o
    → order_of o.id (requote o item qty db).orders
      ≡ some (with_amount (hundredths (whole_naira (some item.unit_price) *ℕ qty)) o)
unfolding requote update_order quoted
requote_row o item qty db found =
    find?-update_where_key order_id o.id (has_key order_id o.id)
      (with_amount (hundredths (whole_naira (some item.unit_price) *ℕ qty))) db.orders (λ x. refl)
    ∙ rw found (rw (str_eq_self o.id) refl)

module _ (S : Setting) (i : Incoming) where
  -- A quantity that is read from a message is at least 1; unless the message is a tap on the list (it starts with
  -- QTY_), it is at most 1000, whether it was written in digits or as a word.
  pub read_quantity-bounds :
      (n : ℕ)
      → read_quantity S i ≡ some n
      → (1 ≤ n) × ((starts_with (S.strip_upper i.message) "QTY_" ≡ true) ⊎ (n ≤ 1000))
  unfolding read_quantity
  read_quantity-bounds n h = elim (Bool-cases (starts_with (S.strip_upper i.message) "QTY_")) [
    | inl tap ↦ (
      subst (λ k. 1 ≤ k) (some-injective _ n (rw tap at h))
          (tapped-least (S.after_underscore (S.strip_upper i.message))),
      inl tap,
    )
    | inr typed ↦
        let (low, high) =
          by_typed (typed_quantity (S.first_number i.message) (S.lower_words i.message)) refl
            (rw typed at h) in
        (low, inr high)
  ]
    where
      by_typed :
          (found : Option ℕ)
          → typed_quantity (S.first_number i.message) (S.lower_words i.message) ≡ found
          → typed_clamped found ≡ some n
          → (1 ≤ n) × (n ≤ 1000)
      by_typed none e h = cc
      by_typed (some k) e h =
          let (low, high) =
            typed_quantity-bounds (S.first_number i.message) (S.lower_words i.message) k e in
          subst (λ m. (1 ≤ m) × (m ≤ 1000)) (sym (clamped-same k low) ∙ some-injective _ n h)
            (low, high)

  -- With distinct keys of orders, where the session's order is found as an inquiry and has a first item: a quantity sets the
  -- order's amount to the price of that item alone, in whole naira, times the quantity, whatever other items the order
  -- has, and the session's total to the same; the order stays the same otherwise.
  pub set_quantity_lem :
      (qty : ℕ) (s : Summary) (c : Chat S) (o : Order) (item : OrderItem)
      → IsKeyed order_id c.world.db.orders
      → if_inquiry (session_order s.order_id i.tenant_id c.world.db) ≡ some o
      → item_of S i (some o) c.world.db ≡ some item
      → let (s', c') = set_quantity S i qty s c in
        (order_of o.id c'.world.db.orders
          ≡ some (with_amount (hundredths (whole_naira (some item.unit_price) *ℕ qty)) o))
        × (s'.total ≡ whole_naira (some item.unit_price) *ℕ qty)
        × (s'.items ≡ with_first_qty qty s.items)
  unfolding set_quantity set_found quoted
  set_quantity_lem qty s c o item keyed found first =
      let ran : set_quantity S i qty s c ≡ set_found S i qty s (some o) (some item) c =
        ap (λ f. set_found S i qty s f (item_of S i f c.world.db) c) found
        ∙ ap (λ it. set_found S i qty s (some o) it c) first in
      (
        ap (λ (r : Summary × Chat S). order_of o.id r.1.world.db.orders) ran
            ∙ requote_row o item qty c.world.db (
                find?-key order_id c.world.db.orders o keyed
                  (session_order-mem s.order_id i.tenant_id c.world.db o found).0),
        ap (λ (r : Summary × Chat S). r.0.total) ran,
        ap (λ (r : Summary × Chat S). r.0.items) ran,
      )

  -- An offer that is not an answer to a summary is never put to the trader with its price: the call does the same
  -- whether the offer had a price or not.
  pub fresh_offer_unpriced :
      (q : Option Clarification) (offer : Option ℕ) (c : Chat S)
      → negotiate S i (Option.map OrderSession.awaiting_clarification q) offer c
        ≡ negotiate S i (Option.map OrderSession.awaiting_clarification q) none c
  unfolding negotiate pass_offer by_offer
  fresh_offer_unpriced none none c = refl
  fresh_offer_unpriced none (some offered) c = refl
  fresh_offer_unpriced (some q) none c = refl
  fresh_offer_unpriced (some q) (some offered) c = refl
