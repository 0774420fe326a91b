-- ===== src/Models/Events.antt =====
-- The events that the services publish (app/infra/event_bus.py `Event`): one constructor for each
-- event name, with the tenant first and then the payload.
use chat_to_sales.Base.{ℤ, String, Option}
use chat_to_sales.Models.Rows.{OrderState, CreditSaleStatus}

pub data Event : Type 0 where
  -- order.created, for an order made from a conversation: order, conversation
  order_created : String → String → String → Event
  -- order.created, for an order with items: order, conversation, amount, currency
  order_created_with_items : String → String → String → Option ℤ → String → Event
  -- order.state_changed: order, conversation, previous state, new state
  order_state_changed : String → String → String → OrderState → OrderState → Event
  -- order.paid: order, conversation, amount, currency
  order_paid : String → String → String → Option ℤ → String → Event
  -- payment.created: payment, order, reference, amount, currency, link
  payment_created : String → String → String → String → ℤ → String → String → Event
  -- payment.confirmed: payment, order, reference, amount, currency
  payment_confirmed : String → String → String → String → ℤ → String → Event
  -- credit_sale.status_changed: credit sale, order, new status
  credit_sale_status_changed : String → String → Option String → CreditSaleStatus → Event
