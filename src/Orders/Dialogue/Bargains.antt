-- ===== src/Orders/Dialogue/Bargains.antt =====
-- What a YES does: after an accepted offer, and to a question that is not about an order.
use chat_to_sales.Redis.{Carries}
use chat_to_sales.Orders.Dialogue.Customer.{order_items, by_intent}
use mathlib.Core.List.{append-nil}
use chat_to_sales.Orders.Dialogue.Quantity.{session_order, if_inquiry}
use chat_to_sales.Orders.Dialogue.Placing.{total_of, fill_prices, order_for}
use chat_to_sales.Orders.Repository.{new_order}
use chat_to_sales.Orders.Sessions.{
  clear_pending_negotiation, get_order_session, session_ttl, get_pending_negotiation,
}
use chat_to_sales.Orders.Dialogue.Handler.{by_session, on_answer}
use chat_to_sales.Orders.Dialogue.Question.{read_answer, answered, said_if, smart_parse, pick}
use chat_to_sales.Orders.Dialogue.Haggling.{
  trader_note, customer_note, decline, accepted_total, with_first_price, settled_summary,
  answer_offer, handle_negotiation_response, accept, Answer,
}
use chat_to_sales.Orders.Dialogue.Placed.{place_priced-rows, session_kept, guarded-rest}
use chat_to_sales.World.{Attachment, World}
use chat_to_sales.Notifications.Service.{
  captioned, send_message, send_image, send_interactive, Notice,
}
use chat_to_sales.Base.{
  Bool, append_text, if◌then◌else◌, pos, ◌∷◌, ◌+◌, [], ◌⊎◌, ltb, ◌++◌, ℕ, refl, inr, inl, none,
  str_eq, ◌∙◌, some, ap, String, ◌≡◌, Option, List, true, false,
}
use chat_to_sales.Models.{Reply, Db, Order, Content, inquiry}
use chat_to_sales.Orders.Dialogue.{
  Negotiation, ParseResult, Clarification, Summary, Incoming, Chat, Setting, Intent, OrderSession,
}
use chat_to_sales.Orders.Dialogue.Replies.{
  drop_session, reference, trader_notice, customer_notice, in_store, sending_env, guarded,
  reply_image, reply_interactive, reply,
}
use chat_to_sales.Orders.Dialogue.Confirmation.{confirm_buttons, forward_photo, on_confirm}

abbrev pub orders_in : {S : Setting} → Chat S → List Order
orders_in c = c.world.db.orders

-- The orders are still these.
pub record Leaves (xs : List Order) (v : World) : Type 0 where
  pub still : v.db.orders ≡ xs

module _ (S : Setting) (xs : List Order) where
  reply-Leaves :
      (n n' : Notice) (v : World)
      → Leaves xs v
      → Leaves xs (guarded S n (send_message S.provider (sending_env S n) n') v)
  reply-Leaves n n' v before = record {
    still = ap (λ (d : Db). d.orders) (guarded-rest S n n' v) ∙ before.still;
  }

  forward_photo-Leaves :
      (i : Incoming) (o : Order) (media_id : Option String) (c : Chat S)
      → Leaves xs c.world
      → Leaves xs (forward_photo S i o media_id c).world
  unfolding forward_photo reply_image send_image
  forward_photo-Leaves i o none c before = before
  forward_photo-Leaves i o (some media_id) c before = by_key (str_eq media_id "")
    where
      n : Notice
      n = trader_notice i "order.image_notify_trader." o.id (Content.text "")

      caption : Option String
      caption =
          some (append_text "Customer +" (append_text i.customer_phone " wants to buy this item:"))

      sent : Notice
      sent = record n {
        message_text = captioned caption "[image]";
        attachment = Attachment.image media_id caption;
      }

      by_key :
          (empty : Bool) → Leaves xs (if empty then c else reply_image S n media_id caption c).world
      by_key true = before
      by_key false = reply-Leaves n sent c.world before

  -- A YES changes no order: it stays the inquiry that it was, with the amount that it had.
  pub on_confirm-Leaves :
      (i : Incoming) (s : Summary) (found : Option Order) (c : Chat S)
      → Leaves xs c.world
      → Leaves xs (on_confirm S i s found c).world
  unfolding on_confirm reply reply_interactive send_interactive
  on_confirm-Leaves i s none c before =
      let n =
        customer_notice i "order.customer_confirm_missing." i.message_id
          (Content.from_template Reply.order_gone) in
      reply-Leaves n n c.world before
  on_confirm-Leaves i s (some o) c before =
      let photo = forward_photo S i o s.media_id c in
      let n = trader_notice i "order.trader_notify." o.id (
        Content.from_template (
          Reply.order_received s.items s.total i.customer_phone (reference o.id)
            i.customer_name)) in
      let buttons = confirm_buttons (reference o.id) in
      let told = reply_interactive S n buttons photo in
      let n' =
        customer_notice i "order.customer_pending." o.id
          (Content.from_template (Reply.order_pending_to_customer i.trader.business_name)) in
      reply-Leaves n' n' told.world (
        reply-Leaves n (record n { attachment = Attachment.interactive buttons }) photo.world
          (forward_photo-Leaves i o s.media_id c before))

  pub accept-Leaves :
      (a : Answer) (n : Negotiation) (c : Chat S)
      → Leaves xs c.world
      → Leaves xs (accept S a n c).world
  unfolding accept reply
  accept-Leaves a n c before =
      let n₁ =
        customer_note S a n "order.neg_accepted."
          (Reply.negotiation_accepted_to_customer a.trader_name (accepted_total n)) in
      let n₂ =
        trader_note S a "order.neg_accepted_trader."
          (Reply.negotiation_accepted_by_trader n.offered_price) in
      let told = reply S n₁ c in reply-Leaves n₂ n₂ told.world (reply-Leaves n₁ n₁ c.world before)

module _ (S : Setting) (a : Answer) (c : Chat S) where
  -- Where the trader accepts an offer that is kept, and JSON carries the session: for a day the customer is asked to confirm the offered price (the original
  -- one if the offer is 0), and a YES to this leaves every order as it was before the offer was accepted, with the
  -- original amount.
  pub accepted_price_not_recorded :
      (n : Negotiation) (t : ℕ) (i : Incoming)
      → a.is_accept ≡ true
      → get_pending_negotiation S.redis S.negotiation_json S.env.now a.trader_phone a.customer_phone
          c.store
        ≡ some n
      → Carries S.session_json (
          OrderSession.awaiting_confirmation
            (settled_summary n (with_first_price n.offered_price n.items) (accepted_total n)))
      → let s = settled_summary n (with_first_price n.offered_price n.items) (accepted_total n) in
        let c₁ = handle_negotiation_response S a c in
        (get_order_session S.redis S.session_json t n.tenant_id a.customer_phone c₁.store ≡ (
          if ltb t (S.env.now + session_ttl)
          then some (OrderSession.awaiting_confirmation s)
          else none))
        × (orders_in (on_answer S i s Intent.confirm c₁).1 ≡ orders_in c)
  unfolding handle_negotiation_response answer_offer on_answer
  accepted_price_not_recorded n t i agreed kept carried =
      let s = settled_summary n (with_first_price n.offered_price n.items) (accepted_total n) in
      let cleared =
        in_store S (clear_pending_negotiation S.redis a.trader_phone a.customer_phone) c in
      let ran : handle_negotiation_response S a c ≡ accept S a n cleared =
        ap (λ o. answer_offer S a o c) kept
        ∙ ap (λ b. if b then accept S a n cleared else decline S a n cleared) agreed in
      let waits : Leaves (orders_in c) cleared.world = record { still = refl } in
      (
        ap
              (λ (c₁ : Chat S).
                get_order_session S.redis S.session_json t n.tenant_id a.customer_phone c₁.store)
              ran
            ∙ unfold accept reply in
              session_kept S n.tenant_id a.customer_phone t (OrderSession.awaiting_confirmation s)
                cleared.store carried,
        ap (λ c₁. orders_in (on_answer S i s Intent.confirm c₁).1) ran
            ∙ (on_confirm-Leaves S (orders_in c) i s
                (if_inquiry (session_order s.order_id i.tenant_id (accept S a n cleared).world.db))
                (accept S a n cleared) (accept-Leaves S (orders_in c) a n cleared waits)).still,
      )

module _ (S : Setting) (i : Incoming) (c : Chat S) where
  taken_as_order :
      (q : Clarification) (r : ParseResult) (d : Chat S)
      → (r.intent ≡ Intent.confirm) ⊎ (r.intent ≡ Intent.cancel)
      → by_intent S i (some (OrderSession.awaiting_clarification q)) r r.intent d
        ≡ order_items S i r.items d
  unfolding by_intent
  taken_as_order q r d (inl e) =
      ap (λ kind. by_intent S i (some (OrderSession.awaiting_clarification q)) r kind d) e
  taken_as_order q r d (inr e) =
      ap (λ kind. by_intent S i (some (OrderSession.awaiting_clarification q)) r kind d) e

  -- A YES or a NO that the parser finds without items, given to a question (not by the number of one of its answers), places an
  -- order: an inquiry without any item whose amount is 0.
  pub yes_to_question_places_empty_order :
      (q : Clarification) (r : ParseResult)
      → pick (S.lone_number i.message) q.numbered_items ≡ none
      → smart_parse S i (said_if false q.original_message ++ said_if true q.bot_reply) c ≡ r
      → (r.intent ≡ Intent.confirm) ⊎ (r.intent ≡ Intent.cancel)
      → r.items ≡ []
      → let o = new_order S.env (order_for S i 0) in
        let (ending, c') = by_session S i (some (OrderSession.awaiting_clarification q)) c in
        (orders_in c' ≡ orders_in c ++ o ∷ [])
        × (o.state ≡ inquiry)
        × (o.amount ≡ some (pos 0))
        × (c'.world.db.items ≡ c.world.db.items)
  unfolding by_session answered read_answer
  yes_to_question_places_empty_order q r no_pick parsed yes_or_no no_items =
      let session = some (OrderSession.awaiting_clarification q) in
      let dropped = drop_session S i.tenant_id i.customer_phone c in
      let same_result : (answered S i q c).0 ≡ r =
        ap (λ p. read_answer S i q p c) no_pick ∙ parsed in
      let ran : (by_session S i session c).1 ≡ order_items S i [] dropped =
        ap (λ (x : ParseResult). by_intent S i session x x.intent dropped) same_result
        ∙ taken_as_order q r dropped yes_or_no
        ∙ ap (λ items. order_items S i items dropped) no_items in
      let (orders, items) =
        place_priced-rows S i dropped "order.price_missing." "order.summary." [] in
      (
        ap orders_in ran ∙ unfold order_items fill_prices total_of in orders,
        refl,
        refl,
        ap (λ (c' : Chat S). c'.world.db.items) ran
            ∙ unfold order_items fill_prices in (items ∙ append-nil c.world.db.items),
      )
