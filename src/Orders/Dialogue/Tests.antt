-- ===== src/Orders/Dialogue/Tests.antt =====
-- The theorems on the dialogue at concrete inputs.
use chat_to_sales.Notifications.Once.{empty-Once, Once}
use chat_to_sales.Notifications.Service.{
  get_by_tenant_and_channel, get_by_event_id, send_message, delivery,
}
use chat_to_sales.World.{Delivery}
use chat_to_sales.Orders.Dialogue.Placed.{asked}
use chat_to_sales.Redis.Entries.{entries}
use chat_to_sales.Orders.Dialogue.Question.{smart_parse, pick}
use chat_to_sales.Redis.{Carries}
use chat_to_sales.Orders.Dialogue.Bargains.{
  orders_in, accepted_price_not_recorded, yes_to_question_places_empty_order,
}
use chat_to_sales.Orders.Dialogue.Prices.{orders_placed, Ordered}
use chat_to_sales.Orders.Dialogue.Handler.{handle_inbound_customer_message, on_answer, by_session}
use chat_to_sales.Orders.Dialogue.Placing.{
  matched_price, total_of, priced_by, handle_cart_order, fill_prices, order_for, from_cart,
}
use chat_to_sales.Orders.Sessions.{
  get_pending_negotiation, session_ttl, get_order_session, set_pending_negotiation,
}
use chat_to_sales.Orders.Dialogue.Haggling.{
  accepted_total, with_first_price, settled_summary, Answer, handle_negotiation_response,
}
use chat_to_sales.Orders.Dialogue.Customer.{order_items}
use text.Mathlib.Text.{starts_with}
use chat_to_sales.Orders.Dialogue.Answers.{read_quantity-bounds, set_quantity_lem}
use chat_to_sales.Orders.Repository.{new_order, get_by_id}
use chat_to_sales.Scheduler.OrderReminders.{whole_naira}
use chat_to_sales.Orders.Dialogue.Talks.{Treated}
use chat_to_sales.Orders.Service.{with_amount}
use chat_to_sales.Samples.{sample_channel, sample_env}
use chat_to_sales.Orders.Dialogue.Safety.{
  customer_message_recipients, customer_never_confirms, after_message,
}
use chat_to_sales.Orders.Dialogue.Samples.{
  constant_json-Carries, constant_json, answer_of, rice_session, sample_offer, sample_question,
  two_rice_item, rice_lines, waiting_order, waiting_summary, message_from, setting_of,
  waiting_world,
}
use chat_to_sales.Orders.Service.History.{order_of, IsFresh}
use chat_to_sales.Orders.Dialogue.Quantity.{
  clamped, typed_quantity, read_quantity, session_order, if_inquiry, with_first_qty, hundredths,
  set_quantity,
}
use mathlib.Core.List.{Memᴰ}
use chat_to_sales.Base.{
  inl, ◌++◌, ◌+◌, ltb, ◌∷◌, if◌then◌else◌, none, map, List, ◌⊎◌, ◌*ℕ◌, pos, refl, ◌≡◌, some, [],
  IsKeyed, ◌≤◌, str_eq, true,
}
use chat_to_sales.Models.{Order, Content, inquiry}
use chat_to_sales.Orders.Dialogue.{ParsedItem, Summary, Chat, Setting, Intent, OrderSession}
use chat_to_sales.Orders.Dialogue.Replies.{customer_notice}
use chat_to_sales.Orders.Service.Changes.{order_id}

-- A customer writes a 7 while an order waits for the confirmation.
abbrev seven : Setting
seven = setting_of Intent.confirm (some 7) (OrderSession.awaiting_confirmation waiting_summary)

abbrev waiting_chat : (S : Setting) → S.redis.Store → Chat S
waiting_chat S store = record { world = waiting_world; store = store }

abbrev seven_chat : Chat seven
seven_chat = waiting_chat seven (setex_session (OrderSession.awaiting_confirmation waiting_summary))
  where
    setex_session : OrderSession → seven.redis.Store
    setex_session s = seven.redis.setex 900 "order:session:t1:0802" 86400 "{}" []

waiting-IsKeyed : IsKeyed order_id waiting_world.db.orders
waiting-IsKeyed = (refl, tt)

waiting-IsFresh : IsFresh sample_env waiting_world.db
unfolding str_eq
waiting-IsFresh = refl

customer_never_confirms_example :
    ((o' : Order) × (order_of "o3" (after_message seven (message_from "7") seven_chat).db.orders
        ≡ some o')
      × Treated waiting_order o')
    × IsKeyed order_id (after_message seven (message_from "7") seven_chat).db.orders
customer_never_confirms_example =
    customer_never_confirms seven (message_from "7") seven_chat "o3" waiting_order waiting-IsFresh
      waiting-IsKeyed (unfold str_eq in refl)

read_quantity-bounds_example : (1 ≤ 7) × ((starts_with "7" "QTY_" ≡ true) ⊎ (7 ≤ 1000))
read_quantity-bounds_example =
    read_quantity-bounds seven (message_from "7") 7
      (unfold read_quantity typed_quantity clamped in refl)

set_quantity_lem_example :
    let (s', c') = set_quantity seven (message_from "7") 7 waiting_summary seven_chat in
    (order_of "o3" c'.world.db.orders
      ≡ some (with_amount (hundredths (whole_naira (some (pos 50000)) *ℕ 7)) waiting_order))
    × (s'.total ≡ whole_naira (some (pos 50000)) *ℕ 7)
    × (s'.items ≡ with_first_qty 7 rice_lines)
set_quantity_lem_example =
    set_quantity_lem seven (message_from "7") 7 waiting_summary seven_chat waiting_order
      two_rice_item waiting-IsKeyed found (unfold str_eq in refl)
  where
    found : if_inquiry (session_order (some "o3") "t1" waiting_world.db) ≡ some waiting_order
    found = unfold session_order get_by_id str_eq in refl

-- An order of rice in words and from the cart; JSON carries the session that asks for both.
abbrev shop_setting : Setting
shop_setting = setting_of Intent.order none rice_session

abbrev two_rice : List ParsedItem
two_rice = record { name = "Rice"; qty = 2; unit_price = some 500 } ∷ []

orders_placed_example :
    let S = shop_setting in
    let i = message_from "2 rice" in
    let c = waiting_chat S [] in
    let cart = map (from_cart S i) (("Rice", 2) ∷ []) in
    Ordered S i c two_rice (order_items S i two_rice c)
    × Ordered S i c cart (handle_cart_order S i (("Rice", 2) ∷ []) c)
orders_placed_example =
    orders_placed shop_setting (message_from "2 rice") (waiting_chat shop_setting []) two_rice
      (("Rice", 2) ∷ []) carried carried'
  where
    carried :
        Carries
          (constant_json rice_session)
          (asked shop_setting (fill_prices shop_setting (message_from "2 rice") two_rice).1)
    carried = unfold fill_prices priced_by total_of in constant_json-Carries rice_session

    carried' : Carries (constant_json rice_session) (
        asked shop_setting
          (fill_prices shop_setting
            (message_from "2 rice")
            (map (from_cart shop_setting (message_from "2 rice")) (("Rice", 2) ∷ []))).1)
    carried' =
        unfold fill_prices priced_by matched_price total_of str_eq in
        constant_json-Carries rice_session

-- The trader accepts 800 for the order of 1000.
abbrev trader_accepts : Answer
trader_accepts = record {
  is_accept = true;
  customer_phone = "0802";
  trader_phone = "0801";
  trader_name = "Mama Caro";
  message_id = "m2";
  tenant_id = "t1";
  channel_tenant_id = some "t0";
}

abbrev cheaper : Summary
cheaper =
    settled_summary sample_offer (with_first_price 800 rice_lines) (accepted_total sample_offer)

abbrev bargain_setting : Setting
bargain_setting = setting_of Intent.confirm none (OrderSession.awaiting_confirmation cheaper)

abbrev offer_kept : Chat bargain_setting
offer_kept = waiting_chat bargain_setting (
    set_pending_negotiation bargain_setting.redis bargain_setting.negotiation_json 900 "0801" "0802"
      sample_offer [])

accepted_price_not_recorded_example :
    let S = bargain_setting in
    let c₁ = handle_negotiation_response S trader_accepts offer_kept in
    (get_order_session S.redis S.session_json 1200 "t1" "0802" c₁.store ≡ (
      if ltb 1200 (1000 + session_ttl)
      then some (OrderSession.awaiting_confirmation cheaper)
      else none))
    × (orders_in (on_answer S (message_from "yes") cheaper Intent.confirm c₁).1
        ≡ orders_in offer_kept)
accepted_price_not_recorded_example =
    accepted_price_not_recorded bargain_setting trader_accepts offer_kept sample_offer 1200
      (message_from "yes") refl kept
      (constant_json-Carries (OrderSession.awaiting_confirmation cheaper))
  where
    kept :
        get_pending_negotiation entries
          (constant_json sample_offer)
          1000
          "0801"
          "0802"
          offer_kept.store
        ≡ some sample_offer
    kept = unfold get_pending_negotiation set_pending_negotiation str_eq in refl

-- A YES to a question.
yes_to_question_places_empty_order_example :
    let S = bargain_setting in
    let i = message_from "yes" in
    let c = waiting_chat S [] in
    let o = new_order S.env (order_for S i 0) in
    let (ending, c') =
      by_session S i (some (OrderSession.awaiting_clarification sample_question)) c in
    (orders_in c' ≡ orders_in c ++ o ∷ [])
    × (o.state ≡ inquiry)
    × (o.amount ≡ some (pos 0))
    × (c'.world.db.items ≡ c.world.db.items)
yes_to_question_places_empty_order_example =
    yes_to_question_places_empty_order bargain_setting (message_from "yes")
      (waiting_chat bargain_setting []) sample_question (answer_of Intent.confirm)
      (unfold pick in refl) (unfold smart_parse in refl) (inl refl) refl

-- A greeting, which is answered.
abbrev chatty : Setting
chatty = setting_of Intent.chitchat none rice_session

customer_message_recipients_example :
    let S = chatty in
    let i = message_from "hello" in
    let c = waiting_chat S [] in
    let d : Delivery =
      delivery
        (customer_notice i "order.chitchat." "m1"
          (Content.text "Hi! What would you like to order?"))
        sample_channel in
    Once (after_message S i c) × (Memᴰ d c.world.delivered ⊎ ((d.to ≡ "0802") ⊎ (d.to ≡ "0801")))
unfolding handle_inbound_customer_message str_eq send_message get_by_event_id
    get_by_tenant_and_channel
customer_message_recipients_example =
    customer_message_recipients chatty (message_from "hello") (waiting_chat chatty []) _
      waiting-IsFresh (empty-Once waiting_world refl refl) (Memᴰ.head refl)
