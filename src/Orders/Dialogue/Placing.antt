-- ===== src/Orders/Dialogue/Placing.antt =====
-- app/modules/orders/service.py: how an order is placed in the dialogue. The prices come from the
-- catalogue where they are missing, then the order is made with its items and the session asks for
-- the confirmation: the last part of `handle_inbound_customer_message`, `handle_cart_order` and
-- `_create_image_order`.
use chat_to_sales.Orders.Dialogue.Replies.{
  reply, save_session, in_world, customer_notice, ◌▹◌, reply_interactive, reply_list,
}
use chat_to_sales.Session.{◌>>=◌, ◌>>◌, pure, Action}
use chat_to_sales.Orders.Repository.{add_item, NewOrder, create_order}
use chat_to_sales.World.{on_db, Button}
use chat_to_sales.Base.{
  ◌==◌, ◌+◌, ◌||◌, if◌then◌else◌, ◌*◌, some, find?, map, [], none, ◌∷◌, pos, Option, ℤ, ℕ, List,
  String,
}
use chat_to_sales.Orders.Dialogue.{OrderSession, Chat, ParsedItem, Incoming, Setting}
use chat_to_sales.Models.{Reply, Line, Content}

-- `sum(item["qty"] * item["unit_price"] for item in items)`
unfoldable pub total_of : List Line → ℕ
total_of [] = 0
total_of (l ∷ ls) = l.qty * l.unit_price + total_of ls

-- `Decimal(str(naira))`
abbrev pub decimal : ℕ → ℤ
decimal naira = pos (naira * 100)

unfoldable pub add_lines : String → List Line → Action (Unit {0})
add_lines order_id [] = pure tt
add_lines order_id (l ∷ ls) = do
  add_item order_id l.name l.qty (decimal l.unit_price)
  add_lines order_id ls

abbrev pub summary_buttons : List Button
summary_buttons =
    record { id = "YES"; title = "✅ Confirm" } ∷ record { id = "NO"; title = "❌ Cancel" } ∷ []

abbrev pub quantity_row : String → String → Button
quantity_row id title = record { id = id; title = title }

-- `image_inquiry_matched_list`, without the descriptions
abbrev pub quantity_sections : List (String × List Button)
quantity_sections =
    (
      "Quantity",
      quantity_row "QTY_1" "Buy 1"
          ∷ quantity_row "QTY_2" "Buy 2"
          ∷ quantity_row "QTY_3" "Buy 3"
          ∷ quantity_row "QTY_4" "Buy 4"
          ∷ quantity_row "QTY_5" "Buy 5"
          ∷ quantity_row "NO" "Cancel order"
          ∷ [],
    )
    ∷ []

module _ (S : Setting) (i : Incoming) where
  -- The first entry of the catalogue whose name contains the item's or is contained in it.
  unfoldable pub matched_price : String → Option (String × ℕ)
  matched_price name =
      find?
        (λ entry.
          S.is_in (S.lower name) (S.lower entry.0) || S.is_in (S.lower entry.0) (S.lower name))
        i.trader.catalogue

  abbrev pub line_at : ParsedItem → ℕ → Line
  line_at x price = record { name = x.name; qty = x.qty; unit_price = price }

  abbrev pub line_from : ParsedItem → Option (String × ℕ) → Option Line
  line_from x none = none
  line_from x (some entry) = some (line_at x entry.1)

  -- `if not item.get("unit_price"): ...`
  unfoldable pub priced_by : ParsedItem → Option ℕ → Option Line
  unfolding matched_price
  priced_by x none = line_from x (matched_price x.name)
  priced_by x (some price) =
      if price == 0 then line_from x (matched_price x.name) else some (line_at x price)

  abbrev pub note_line :
      ParsedItem → Option Line → List String × List Line → List String × List Line
  note_line x none seen = (x.name ∷ seen.0, seen.1)
  note_line x (some l) seen = (seen.0, l ∷ seen.1)

  -- `missing_price_names`, and the items that have a price.
  unfoldable pub fill_prices : List ParsedItem → List String × List Line
  unfolding priced_by
  fill_prices [] = ([], [])
  fill_prices (x ∷ xs) = note_line x (priced_by x x.unit_price) (fill_prices xs)

  abbrev pub order_for : ℕ → NewOrder
  order_for total = record {
    tenant_id = i.tenant_id;
    conversation_id = i.conversation_id;
    customer_id = none;
    customer_phone = some i.customer_phone;
    customer_name = i.customer_name;
    trader_phone = some i.trader.phone_number;
    amount = some (decimal total);
    currency = "NGN";
  }

  -- `create_order` and the loop of `add_item`, then the session.
  unfoldable pub place : List Line → Option String → Chat S → Chat S
  unfolding create_order add_lines total_of
  place lines media_id c =
      c
      ▹ in_world S (λ w.
        (on_db
          (create_order S.env (order_for (total_of lines)) >>= λ order. add_lines order.id lines)
          w).1)
      ▹ save_session S i.tenant_id i.customer_phone (
          OrderSession.awaiting_confirmation record {
            order_id = some S.env.fresh_id;
            items = lines;
            total = pos (total_of lines);
            media_id = media_id;
          })

  -- A missing price asks for it; otherwise the order is made and its summary is shown.
  unfoldable pub place_priced : String → String → List String → List Line → Chat S → Chat S
  unfolding place reply reply_interactive
  place_priced missing_event summary_event (name ∷ names) lines c =
      c
      ▹ reply S (
          customer_notice i missing_event i.message_id
            (Content.from_template (Reply.price_missing_prompt (name ∷ names))))
  place_priced missing_event summary_event [] lines c =
      c
      ▹ place lines none
      ▹ reply_interactive S
          (customer_notice i summary_event S.env.fresh_id (
            Content.from_template
              (Reply.order_summary lines (pos (total_of lines)) i.trader.business_name)))
          summary_buttons

  -- The prices of a cart come from the catalogue alone.
  abbrev pub from_cart : String × ℕ → ParsedItem
  from_cart (name, qty) = record { name = name; qty = qty; unit_price = none }

  unfoldable pub handle_cart_order : List (String × ℕ) → Chat S → Chat S
  unfolding place_priced fill_prices
  handle_cart_order cart_items c =
      let (missing, lines) = fill_prices (map from_cart cart_items) in
      place_priced "order.cart_price_missing." "order.cart_summary." missing lines c

  abbrev pub one_line : String → ℕ → List Line
  one_line product price = record { name = product; qty = 1; unit_price = price } ∷ []

  unfoldable pub create_image_order : String → ℕ → Option String → Chat S → Chat S
  unfolding place reply_list
  create_image_order product price media_id c =
      c
      ▹ place (one_line product price) media_id
      ▹ reply_list S
          (customer_notice i "order.image_matched." S.env.fresh_id (
            Content.from_template
              (Reply.image_inquiry_matched product price i.trader.business_name)))
          "Select quantity" quantity_sections
