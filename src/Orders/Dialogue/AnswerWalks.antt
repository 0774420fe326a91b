-- ===== src/Orders/Dialogue/AnswerWalks.antt =====
-- The answers to a summary are runs of the dialogue.
use chat_to_sales.Orders.Dialogue.Talks.{Talks, Turn}
use chat_to_sales.Orders.StateMachine.{value, validate_transition}
use chat_to_sales.Orders.Repository.{update_order, update_state}
use mathlib.Core.List.{Memᴰ}
use chat_to_sales.Orders.Service.{transition}
use chat_to_sales.Orders.Dialogue.Walks.{
  drop-Turn, reply_image-Walk, reply_interactive-Walk, reply-Walk, Walk, Addressed,
}
use chat_to_sales.Notifications.Service.{Notice}
use chat_to_sales.World.{on_db, begin, World}
use chat_to_sales.Marketing.Followups.{log_interest, Interest, log_unless}
use chat_to_sales.Base.{
  str_eq, ◌||◌, is_zero_ℤ, if◌then◌else◌, Option-cases, [], Bool, ◌∷◌, inr, refl, append_text, none,
  inl, List, ℕ, String, some, ◌≡◌, Option, true, false,
}
use chat_to_sales.Models.{failed, Line, InterestEvent, Db, Env, Order, Content, inquiry}
use chat_to_sales.Orders.Dialogue.{
  ParseResult, Numbered, Negotiation, Clarification, Summary, Chat, Incoming, Setting, Intent,
}
use chat_to_sales.Orders.Dialogue.Replies.{reply_interactive, reply_image, trader_notice, reply}
use chat_to_sales.Orders.Dialogue.Confirmation.{
  first_name, offer_in, negotiation_of, show_again, counter_offer, drop_order, repick, otherwise,
  new_round, escalate, log_first, forward_photo, on_confirm, on_cancel,
}

-- An order that a session is about, as it was found.
abbrev pub WasFound : Option Order → Db → Type 0
WasFound found db = (o : Order) → found ≡ some o → Memᴰ o db.orders × (o.state ≡ inquiry)

-- Logging an interest is apart from the orders and the messages.
logged-apart :
    (e : Env) (x : Interest) (found : Option InterestEvent) (w : World)
    → let w' = (begin (on_db (log_unless e x found)) w).1 in
      (w'.db.notifications ≡ w.db.notifications)
      × (w'.delivered ≡ w.delivered)
      × (w'.db.orders ≡ w.db.orders)
unfolding log_unless
logged-apart e x none w = (refl, refl, refl)
logged-apart e x (some seen) w = (refl, refl, refl)

module _ (S : Setting) (i : Incoming) (w : World) where
  abbrev pub Reached : Chat S → Type 0
  Reached c = Walk S (Addressed i.customer_phone i.trader.phone_number) w c

  abbrev pub To : Notice → Type 0
  To = Addressed i.customer_phone i.trader.phone_number

  forward_photo-Reached :
      (o : Order) (media_id : Option String) (c : Chat S)
      → Reached c
      → Reached (forward_photo S i o media_id c)
  unfolding forward_photo reply_image
  forward_photo-Reached o none c before = before
  forward_photo-Reached o (some media_id) c before = by_key (str_eq media_id "")
    where
      n : Notice
      n = trader_notice i "order.image_notify_trader." o.id (Content.text "")

      caption : String
      caption = append_text "Customer +" (append_text i.customer_phone " wants to buy this item:")

      by_key :
          (empty : Bool) → Reached (if empty then c else reply_image S n media_id (some caption) c)
      by_key true = before
      by_key false = reply_image-Walk S To w n media_id (some caption) c.world (inr refl) before

  pub on_confirm-Reached :
      (s : Summary) (found : Option Order) (c : Chat S)
      → Reached c
      → Reached (on_confirm S i s found c)
  unfolding on_confirm reply reply_interactive
  on_confirm-Reached s none c before = reply-Walk S To w _ _ (inl refl) before
  on_confirm-Reached s (some o) c before =
      reply-Walk S To w _ _ (inl refl) (
        reply_interactive-Walk S To w _ _ _ (inr refl)
          (forward_photo-Reached o s.media_id c before))

  drop_order-Reached :
      (found : Option Order) (c : Chat S)
      → WasFound found c.world.db
      → Reached c
      → Reached (drop_order S i found c)
  unfolding drop_order transition update_state update_order
  drop_order-Reached none c was before = before
  drop_order-Reached (some o) c was before =
      let (m, waits) = was o refl in
      Talks.turned c.world _ before (kept o c.world.db) refl (drop-Turn S.env o c.world.db m waits)
    where
      kept : (o : Order) (db : Db) → (transition o failed db).1.notifications ≡ db.notifications
      kept o db = elim (Option-cases (validate_transition o.id (value o.state) (value failed))) [
        | inl good ↦ rw good refl
        | inr (x, refused) ↦ rw refused refl
      ]

  repick-Reached :
      (last : Option Clarification) (c : Chat S) → Reached c → Reached (repick S i last c)
  unfolding repick reply
  repick-Reached none c before = reply-Walk S To w _ _ (inl refl) before
  repick-Reached (some q) c before = by_list q.numbered_items
    where
      by_list :
          (ns : List Numbered) → Reached (repick S i (some record q { numbered_items = ns }) c)
      by_list [] = reply-Walk S To w _ c.world (inl refl) before
      by_list (n ∷ ns) = reply-Walk S To w _ c.world (inl refl) before

  log_first-Reached : (lines : List Line) (c : Chat S) → Reached c → Reached (log_first S i lines c)
  unfolding log_first log_interest log_unless
  log_first-Reached [] c before = before
  log_first-Reached (l ∷ ls) c before =
      let (notes, sent, orders) = logged-apart _ _ _ c.world in
      Talks.turned c.world _ before notes sent (Turn.same orders)

  pub on_cancel-Reached :
      (s : Summary) (found : Option Order) (c : Chat S)
      → WasFound found c.world.db
      → Reached c
      → Reached (on_cancel S i s found c)
  unfolding on_cancel
  on_cancel-Reached s found c was before =
      log_first-Reached s.items _ (repick-Reached _ _ (drop_order-Reached found c was before))

  pub escalate-Reached :
      (event key : String) (n : Negotiation) (c : Chat S)
      → Reached c
      → Reached (escalate S i event key n c)
  unfolding escalate reply_interactive
  escalate-Reached event key n c before = reply_interactive-Walk S To w _ _ _ (inr refl) before

  new_round-Reached :
      (s : Summary) (offer : Option ℕ) (c : Chat S) → Reached c → Reached (new_round S i s offer c)
  unfolding new_round
  new_round-Reached s none c before = before
  new_round-Reached s (some offered) c before =
      by_price (is_zero_ℤ s.total || str_eq i.trader.phone_number "")
    where
      n : Negotiation
      n = negotiation_of S i offered s.total (first_name "the item" s.items) s.items s.order_id

      by_price :
          (skip : Bool)
          → Reached (if skip then c else escalate S i "order.neg_round." i.message_id n c)
      by_price true = before
      by_price false = escalate-Reached "order.neg_round." i.message_id n c before

  pub otherwise-Reached :
      (s : Summary) (answer : Option ParseResult) (c : Chat S)
      → Reached c
      → Reached (otherwise S i s answer c).1
  unfolding otherwise counter_offer show_again reply
  otherwise-Reached s none c before = before
  otherwise-Reached s (some r) c before = by_kind r.intent
    where
      again : Reached (show_again S i s c)
      again = reply-Walk S To w _ c.world (inl refl) before

      by_kind : (kind : Intent) → Reached (otherwise S i s (some record r { intent = kind }) c).1
      by_kind Intent.negotiation =
          new_round-Reached s (offer_in r.items) _ (reply-Walk S To w _ _ (inl refl) before)
      by_kind Intent.order = again
      by_kind Intent.confirm = again
      by_kind Intent.cancel = again
      by_kind Intent.ignore = again
      by_kind Intent.chitchat = again
      by_kind Intent.payment_sent = again
      by_kind Intent.unknown = again
      by_kind Intent.trader_command = again
