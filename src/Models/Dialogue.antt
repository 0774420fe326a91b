-- ===== src/Models/Dialogue.antt =====
-- What the dialogue with a customer speaks of (app/modules/orders/service.py): the lines of an order,
-- as the dictionaries with `name`, `qty` and `unit_price`, and the replies of
-- app/modules/orders/whatsapp.py, each as the name of its template with the values it is filled with.
use chat_to_sales.Base.{ℕ, ℤ, String, Option, Bool, List}

-- An item with its price, in naira.
pub record Line : Type 0 where
  pub name : String
  pub qty : ℕ
  pub unit_price : ℕ

pub data Reply : Type 0 where
  unsubscribed order_gone cancelled_repick negotiation_hold_customer no_active_session : Reply
  unknown_order_prompt negotiation_expired : Reply
  -- the trader's name
  order_pending_to_customer order_cancelled_to_customer : String → Reply
  no_confirmed_order_for_payment payment_receipt_ack_to_customer : String → Reply
  -- the question
  ask_clarification : String → Reply
  price_missing_prompt : List String → Reply
  -- items, total, trader
  order_summary : List Line → ℤ → String → Reply
  -- items, total, customer's phone, the order's reference, customer's name
  order_received : List Line → ℤ → String → String → Option String → Reply
  -- customer's phone and name, product, price, offer
  negotiation_to_trader_with_price : String → Option String → String → ℤ → ℕ → Reply
  -- customer's phone and name, product, price
  negotiation_to_trader_general : String → Option String → String → ℤ → Reply
  -- trader, price
  negotiation_accepted_to_customer negotiation_declined_to_customer : String → ℤ → Reply
  -- the offer
  negotiation_accepted_by_trader : ℕ → Reply
  -- the price
  negotiation_declined_by_trader : ℤ → Reply
  -- customer's phone and name, amount, the order's reference, whether there is a screenshot
  payment_receipt_to_trader : String → Option String → ℤ → String → Bool → Reply
  -- product, price, trader
  image_inquiry_matched : String → ℕ → String → Reply
  -- To the trader about a reference: no such order, and why a command fails.
  order_not_found_to_trader cannot_confirm cannot_cancel cannot_pay cannot_create_credit
        payment_not_received_noted :
      String → Reply
  -- reference, customer's name and phone
  order_confirmed_to_trader : String → Option String → String → Reply
  -- reference, customer's name
  order_cancelled_to_trader order_paid_to_trader order_already_on_credit :
      String → Option String → Reply
  -- reference, customer, amount
  order_credit_to_trader : String → String → ℤ → Reply
  -- reference, amount, customer's name
  credit_paid_in_full credit_partial_prompt : String → ℤ → Option String → Reply
  -- trader, total
  order_confirmed_to_customer : String → ℤ → Reply
  -- trader, total, the bank with the account's number and name, reference
  payment_details_to_customer : String → ℤ → String → String → String → String → Reply
  -- trader, reference
  payment_confirmed_to_customer payment_not_received_to_customer : String → String → Reply
  -- Of the sessions of a trader: what was typed is no number, or is 0.
  amount_not_understood amount_zero price_not_understood price_zero : Reply
  -- reference
  no_active_credit : String → Reply
  -- reference, paid, remaining, customer's name
  credit_partial_received : String → ℕ → ℕ → Option String → Reply
  -- original price, offer
  negotiation_counter_prompt : ℤ → ℕ → Reply
  -- trader, price
  negotiation_counter_to_customer : String → ℕ → Reply
  negotiation_counter_sent : ℕ → Reply
