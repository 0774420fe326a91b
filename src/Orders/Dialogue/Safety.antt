-- ===== src/Orders/Dialogue/Safety.antt =====
-- The whole handler of a customer's message as a run of the dialogue, and what follows for the orders
-- and for the messages, whatever the customer writes and the parsers answer.
use chat_to_sales.Notifications.Service.{Notice}
use chat_to_sales.Notifications.Steps.{Steps-delivered, Steps-Once, SentFor, Steps}
use chat_to_sales.Session.{ok, Result}
use mathlib.Core.List.{Memᴰ}
use chat_to_sales.Notifications.Once.{Once}
use chat_to_sales.Marketing.CustomerList.{opt_out_row, is_entry, opt_out, opt_out_found}
use chat_to_sales.Orders.Repository.{update_order}
use chat_to_sales.Orders.Dialogue.OrderWalks.{by_intent-Reached}
use chat_to_sales.Orders.Sessions.{is_quiet_mode, get_order_session}
use chat_to_sales.Orders.Dialogue.Walks.{reply-Walk, Addressed, requote-Turn, session_order-mem}
use chat_to_sales.Orders.Service.History.{order_of, IsFresh}
use chat_to_sales.Orders.Dialogue.AnswerWalks.{
  To, otherwise-Reached, on_cancel-Reached, on_confirm-Reached, WasFound, Reached,
}
use chat_to_sales.Orders.Dialogue.Question.{smart_parse, answered}
use chat_to_sales.Orders.Dialogue.Handler.{
  second_parse, said_yes, with_message, handle_inbound_customer_message, is_noise,
  with_quantity_or_not, by_session, on_answer, after_stop,
}
use chat_to_sales.Orders.Dialogue.Quantity.{requote, read_quantity, set_found, set_quantity}
use chat_to_sales.World.{Delivery, World}
use chat_to_sales.Orders.Dialogue.Talks.{Talks-Steps, Talks-IsKeyed, Talks-Treated, Treated, Talks}
use chat_to_sales.Base.{
  [], str_eq, inr, ◌∙◌, inl, find?, update_where, ◌⊎◌, IsKeyed, refl, ◌≡◌, ◌&&◌, if◌then◌else◌,
  none, Bool, some, Option, String, ℕ, true, false,
}
use chat_to_sales.Models.{Reply, CustomerListEntry, Db, OrderItem, Order, Content}
use chat_to_sales.Orders.Dialogue.{Summary, Chat, Incoming, Setting, Intent, OrderSession}
use chat_to_sales.Orders.Dialogue.Replies.{customer_notice, in_world, reply}
use chat_to_sales.Orders.Dialogue.Confirmation.{finished}
use chat_to_sales.Orders.Service.Changes.{order_id}

module _ (S : Setting) (i : Incoming) (w : World) where
  on_answer-Reached :
      (t : String) (s : Summary) (kind : Intent) (c : Chat S)
      → Reached S i w c
      → Reached S i w (on_answer S (with_message S t i) s kind c).1
  unfolding on_answer
  on_answer-Reached t s Intent.confirm c before =
      on_confirm-Reached S (with_message S t i) w s _ c before
  on_answer-Reached t s Intent.cancel c before =
      on_cancel-Reached S (with_message S t i) w s _ c
        (session_order-mem s.order_id i.tenant_id c.world.db) before
  on_answer-Reached t s Intent.order c before =
      otherwise-Reached S (with_message S t i) w s (second_parse S (with_message S t i)) c before
  on_answer-Reached t s Intent.negotiation c before =
      otherwise-Reached S (with_message S t i) w s (second_parse S (with_message S t i)) c before
  on_answer-Reached t s Intent.ignore c before =
      otherwise-Reached S (with_message S t i) w s (second_parse S (with_message S t i)) c before
  on_answer-Reached t s Intent.chitchat c before =
      otherwise-Reached S (with_message S t i) w s (second_parse S (with_message S t i)) c before
  on_answer-Reached t s Intent.payment_sent c before =
      otherwise-Reached S (with_message S t i) w s (second_parse S (with_message S t i)) c before
  on_answer-Reached t s Intent.unknown c before =
      otherwise-Reached S (with_message S t i) w s (second_parse S (with_message S t i)) c before
  on_answer-Reached t s Intent.trader_command c before =
      otherwise-Reached S (with_message S t i) w s (second_parse S (with_message S t i)) c before

  set_found-Reached :
      (qty : ℕ) (s : Summary) (found : Option Order) (item : Option OrderItem) (c : Chat S)
      → WasFound found c.world.db
      → Reached S i w c
      → Reached S i w (set_found S i qty s found item c).1
  unfolding set_found
  set_found-Reached qty s none item c was before = before
  set_found-Reached qty s (some o) none c was before = before
  set_found-Reached qty s (some o) (some item) c was before =
      let (m, waits) = was o refl in
      Talks.turned c.world _ before (notes o item c.world.db) refl
        (requote-Turn S.env o item qty c.world.db m waits)
    where
      notes :
          (o : Order) (item : OrderItem) (db : Db)
          → (requote o item qty db).notifications ≡ db.notifications
      notes o item db = unfold requote update_order in refl

  set_quantity-Reached :
      (qty : ℕ) (s : Summary) (c : Chat S)
      → Reached S i w c
      → Reached S i w (set_quantity S i qty s c).1
  unfolding set_quantity
  set_quantity-Reached qty s c before =
      set_found-Reached qty s _ _ c (session_order-mem s.order_id i.tenant_id c.world.db) before

  with_quantity-Reached :
      (s : Summary) (qty : Option ℕ) (c : Chat S)
      → Reached S i w c
      → Reached S i w (with_quantity_or_not S i s qty c).1
  unfolding with_quantity_or_not
  with_quantity-Reached s none c before = on_answer-Reached i.message s _ c before
  with_quantity-Reached s (some qty) c before =
      on_answer-Reached "YES" (set_quantity S i qty s c).0 _ (set_quantity S i qty s c).1
        (set_quantity-Reached qty s c before)

  by_session-Reached :
      (session : Option OrderSession) (c : Chat S)
      → IsFresh S.env c.world.db
      → Reached S i w c
      → Reached S i w (by_session S i session c).1
  unfolding by_session answered
  by_session-Reached none c fresh before =
      let r = smart_parse S i [] c in by_intent-Reached S i w none r r.intent c fresh before
  by_session-Reached (some (OrderSession.awaiting_confirmation s)) c fresh before =
      with_quantity-Reached s (read_quantity S i) c before
  by_session-Reached (some (OrderSession.awaiting_clarification q)) c fresh before =
      let r = (answered S i q c).0 in
      by_intent-Reached S i w (some (OrderSession.awaiting_clarification q)) r r.intent
        (answered S i q c).1 fresh before

  after_stop-Reached :
      (c : Chat S) → IsFresh S.env c.world.db → Reached S i w c → Reached S i w (after_stop S i c).1
  unfolding after_stop
  after_stop-Reached c fresh before = by_quiet (
      is_quiet_mode S.redis S.env.now i.tenant_id i.customer_phone c.store
      && is_noise S (S.layer1 i.message))
    where
      session : Option OrderSession
      session =
          get_order_session S.redis S.session_json S.env.now i.tenant_id i.customer_phone c.store

      by_quiet :
          (quiet : Bool)
          → Reached S i w (if quiet then (finished, c) else by_session S i session c).1
      by_quiet true = before
      by_quiet false = by_session-Reached session c fresh before

opt_out-apart :
    (now : ℕ) (trader customer : String) (found : Option CustomerListEntry) (db : Db)
    → let db' = (opt_out_found now trader customer found db).1 in
      (db'.orders ≡ db.orders) × (db'.notifications ≡ db.notifications)
unfolding opt_out_found
opt_out-apart now trader customer none db = (refl, refl)
opt_out-apart now trader customer (some entry) db = by_state entry.opted_out
  where
    by_state :
        (already : Bool)
        → let answer : Result Bool × Db = if already then (ok false, db) else (
          ok true,
          record db {
            customers = update_where (is_entry trader customer) (opt_out_row now) db.customers;
          },
        ) in
          (answer.1.orders ≡ db.orders) × (answer.1.notifications ≡ db.notifications)
    by_state true = (refl, refl)
    by_state false = (refl, refl)

module _ (S : Setting) (i : Incoming) (c : Chat S) where
  abbrev pub after_message : World
  after_message = (handle_inbound_customer_message S i c).1.world

  handle-Talks :
      IsFresh S.env c.world.db
      → Talks (Addressed i.customer_phone i.trader.phone_number) S.env c.world after_message
  unfolding handle_inbound_customer_message opt_out reply
  handle-Talks fresh = by_stop (str_eq (S.strip_upper i.message) "STOP" && said_yes S answer.0)
    where
      answer : Result Bool × Db
      answer = opt_out S.env i.trader.phone_number i.customer_phone c.world.db

      stopped : Chat S
      stopped = in_world S (λ w. record w { db = answer.1 }) c

      n : Notice
      n =
          customer_notice i "customer.opted_out." i.message_id
            (Content.from_template Reply.unsubscribed)

      by_stop :
          (stop : Bool)
          → Reached S i c.world (if stop then (finished, reply S n stopped) else after_stop S i c).1
      by_stop true =
          let (orders, notes) =
            opt_out-apart S.env.now i.trader.phone_number i.customer_phone
              (find? (is_entry i.trader.phone_number i.customer_phone) c.world.db.customers)
              c.world.db in
          reply-Walk S (To S i c.world) c.world n stopped.world (inl refl)
            (Talks.still stopped.world notes refl orders)
      by_stop false = after_stop-Reached S i c.world c fresh (Talks.still c.world refl refl refl)

  -- In a table of orders with distinct keys that lacks the fresh key: whatever a customer writes, whatever the
  -- parsers answer and whatever is kept of the dialogue, an order is afterwards the order it was, or it was
  -- an inquiry, is an inquiry or has failed, and is the same order of the same tenant, conversation and customer; the
  -- keys stay distinct. So no message of a customer confirms an order or makes it paid.
  pub customer_never_confirms :
      (j : String) (o : Order)
      → IsFresh S.env c.world.db
      → IsKeyed order_id c.world.db.orders
      → order_of j c.world.db.orders ≡ some o
      → ((o' : Order) × (order_of j after_message.db.orders ≡ some o') × Treated o o')
        × IsKeyed order_id after_message.db.orders
  customer_never_confirms j o fresh keyed found = (
    Talks-Treated c.world after_message j o (handle-Talks fresh) keyed found,
    Talks-IsKeyed c.world after_message (handle-Talks fresh) keyed,
  )

  -- Where the order's fresh key is unused and events are notified once, a call for a message of a customer
  -- keeps that, and a message that has gone out by its end had gone out before or goes to that customer or to
  -- the shop's trader.
  pub customer_message_recipients :
      (d : Delivery)
      → IsFresh S.env c.world.db
      → Once c.world
      → Memᴰ d after_message.delivered
      → Once after_message
        × (Memᴰ d c.world.delivered ⊎ ((d.to ≡ i.customer_phone) ⊎ (d.to ≡ i.trader.phone_number)))
  customer_message_recipients d fresh once m = (
    Steps-Once c.world after_message run once,
    elim (Steps-delivered c.world after_message d run m) [
      | inl old ↦ inl old
      | inr (n, sent) ↦ inr (to_one sent)
    ],
  )
    where
      run : Steps (Addressed i.customer_phone i.trader.phone_number) c.world after_message
      run = Talks-Steps c.world after_message (handle-Talks fresh)

      to_one :
          {n : Notice}
          → SentFor (Addressed i.customer_phone i.trader.phone_number) n d
          → (d.to ≡ i.customer_phone) ⊎ (d.to ≡ i.trader.phone_number)
      to_one s = elim s.allowed [
        | inl customer ↦ inl (s.same_recipient ∙ customer)
        | inr trader ↦ inr (s.same_recipient ∙ trader)
      ]
