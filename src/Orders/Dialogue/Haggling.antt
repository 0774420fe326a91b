-- ===== src/Orders/Dialogue/Haggling.antt =====
-- app/modules/orders/service.py: `_handle_negotiation_response`, the trader's answer to an offer.
use chat_to_sales.Notifications.Service.{Notice}
use chat_to_sales.Orders.Sessions.{clear_pending_negotiation, get_pending_negotiation}
use chat_to_sales.Orders.Dialogue.{OrderSession, Summary, Chat, Negotiation, Setting}
use chat_to_sales.Base.{
  ◌==◌, none, pos, append_text, [], ◌∷◌, some, truthy, ℤ, if◌then◌else◌, String, List, Bool, ℕ,
  Option,
}
use chat_to_sales.Models.{Line, Reply, Content}
use chat_to_sales.Orders.Dialogue.Replies.{in_store, notice, save_session, ◌▹◌, reply}

-- The arguments of `_handle_negotiation_response`.
pub record Answer : Type 0 where
  pub is_accept : Bool
  pub customer_phone : String
  pub trader_phone : String
  pub trader_name : String
  pub message_id : String
  pub tenant_id : String
  pub channel_tenant_id : Option String

-- `if items and offered_price: items[0]["unit_price"] = offered_price`
abbrev pub with_first_price : ℕ → List Line → List Line
with_first_price price [] = []
with_first_price price (l ∷ ls) = (if price == 0 then l else record l { unit_price = price }) ∷ ls

-- `offered_price if offered_price else original_price`
abbrev pub accepted_total : Negotiation → ℤ
accepted_total n = if n.offered_price == 0 then n.original_price else pos n.offered_price

-- `neg.get("channel_tenant_id") or channel_tenant_id`
abbrev pub channel_of : Option String → Option String → Option String
channel_of of_offer of_call = if truthy of_offer then of_offer else of_call

-- What the customer is asked to confirm after the answer.
abbrev pub settled_summary : Negotiation → List Line → ℤ → Summary
settled_summary n items total = record {
  order_id = n.order_id;
  items = items;
  total = total;
  media_id = none;
}

module _ (S : Setting) (a : Answer) where
  abbrev pub customer_note : Negotiation → String → Reply → Notice
  customer_note n event r =
      notice a.customer_phone n.tenant_id (append_text event a.message_id) (Content.from_template r)
        (channel_of n.channel_tenant_id a.channel_tenant_id)

  abbrev pub trader_note : String → Reply → Notice
  trader_note event r =
      notice a.trader_phone a.tenant_id (append_text event a.message_id) (Content.from_template r)
        a.channel_tenant_id

  unfoldable pub accept : Negotiation → Chat S → Chat S
  unfolding reply
  accept n c =
      c
      ▹ save_session S n.tenant_id a.customer_phone (
          OrderSession.awaiting_confirmation
            (settled_summary n (with_first_price n.offered_price n.items) (accepted_total n)))
      ▹ reply S (
          customer_note n "order.neg_accepted."
            (Reply.negotiation_accepted_to_customer a.trader_name (accepted_total n)))
      ▹ reply S (
          trader_note "order.neg_accepted_trader."
            (Reply.negotiation_accepted_by_trader n.offered_price))

  unfoldable pub decline : Negotiation → Chat S → Chat S
  unfolding reply
  decline n c =
      c
      ▹ save_session S n.tenant_id a.customer_phone
          (OrderSession.awaiting_confirmation (settled_summary n n.items n.original_price))
      ▹ reply S (
          customer_note n "order.neg_declined."
            (Reply.negotiation_declined_to_customer a.trader_name n.original_price))
      ▹ reply S (
          trader_note "order.neg_declined_trader."
            (Reply.negotiation_declined_by_trader n.original_price))

  unfoldable pub answer_offer : Option Negotiation → Chat S → Chat S
  unfolding accept decline reply
  answer_offer none c = reply S (trader_note "order.neg_expired." Reply.negotiation_expired) c
  answer_offer (some n) c =
      let cleared =
        in_store S (clear_pending_negotiation S.redis a.trader_phone a.customer_phone) c in
      if a.is_accept then accept n cleared else decline n cleared

  unfoldable pub handle_negotiation_response : Chat S → Chat S
  unfolding answer_offer get_pending_negotiation
  handle_negotiation_response c =
      answer_offer
        (get_pending_negotiation S.redis S.negotiation_json S.env.now a.trader_phone
          a.customer_phone c.store)
        c
