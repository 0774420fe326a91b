-- ===== src/Orders/Dialogue/OrderWalks.antt =====
-- The other parts of the handler, and with them the whole handler, are runs of the dialogue.
use chat_to_sales.Orders.Dialogue.Walks.{add_lines-orders, reply_interactive-Walk, reply-Walk}
use chat_to_sales.Orders.Dialogue.AnswerWalks.{escalate-Reached, To, Reached}
use chat_to_sales.Orders.Service.History.{IsFresh}
use chat_to_sales.Session.{◌>>=◌}
use chat_to_sales.Orders.Dialogue.Customer.{
  handle_payment_sent, chat_back, offer_of, no_session_reply, ask_generally, ask, not_understood,
  by_intent, ask_or_prompt, order_or_ask, order_items, by_offer, negotiate, session_items,
  first_price, pass_offer, payment_for,
}
use chat_to_sales.Orders.Dialogue.Placing.{total_of, order_for, add_lines, place, place_priced}
use chat_to_sales.World.{World}
use chat_to_sales.Orders.Repository.{new_order, NewOrder, create_order}
use chat_to_sales.Orders.Dialogue.Talks.{Talks, Turn}
use chat_to_sales.Base.{
  str_eq, ◌==◌, if◌then◌else◌, refl, inr, none, some, [], inl, ◌++◌, ◌≡◌, ◌∷◌, String, Bool, ℕ,
  Option, List, true, false,
}
use chat_to_sales.Models.{Order, Db, Line, Env}
use chat_to_sales.Orders.Dialogue.{
  ParseResult, Chat, Incoming, Setting, Intent, ParsedItem, OrderSession,
}
use chat_to_sales.Orders.Dialogue.Replies.{reply_interactive, reply}
use chat_to_sales.Orders.Dialogue.Confirmation.{escalate}

-- The placing of an order adds it and its items.
pub place-db :
    (e : Env) (n : NewOrder) (lines : List Line) (db : Db)
    → let db' = ((create_order e n >>= λ order. add_lines order.id lines) db).1 in
      (db'.orders ≡ db.orders ++ new_order e n ∷ []) × (db'.notifications ≡ db.notifications)
unfolding create_order
place-db e n lines db =
    add_lines-orders e.fresh_id lines (record db { orders = db.orders ++ new_order e n ∷ [] })

module _ (S : Setting) (i : Incoming) (w : World) where
  pub place-Reached :
      (lines : List Line) (media_id : Option String) (c : Chat S)
      → IsFresh S.env c.world.db
      → Reached S i w c
      → Reached S i w (place S i lines media_id c)
  unfolding place
  place-Reached lines media_id c fresh before =
      let (orders, notes) = place-db S.env (order_for S i (total_of lines)) lines c.world.db in
      Talks.turned c.world _ before notes refl (Turn.opened _ fresh orders)

  pub place_priced-Reached :
      (missing_event summary_event : String) (missing : List String) (lines : List Line)
      (c : Chat S)
      → IsFresh S.env c.world.db
      → Reached S i w c
      → Reached S i w (place_priced S i missing_event summary_event missing lines c)
  unfolding place_priced reply reply_interactive
  place_priced-Reached missing_event summary_event (name ∷ names) lines c fresh before =
      reply-Walk S (To S i w) w _ _ (inl refl) before
  place_priced-Reached missing_event summary_event [] lines c fresh before =
      reply_interactive-Walk S (To S i w) w _ _ _ (inl refl)
        (place-Reached lines none c fresh before)

  payment_for-Reached :
      (shot : Bool) (found : Option Order) (c : Chat S)
      → Reached S i w c
      → Reached S i w (payment_for S i shot found c)
  unfolding payment_for reply reply_interactive
  payment_for-Reached shot none c before = reply-Walk S (To S i w) w _ _ (inl refl) before
  payment_for-Reached shot (some o) c before =
      reply-Walk S (To S i w) w _ _ (inl refl)
        (reply_interactive-Walk S (To S i w) w _ _ _ (inr refl) before)

  by_offer-Reached :
      (session : Option OrderSession) (offer : Option ℕ) (c : Chat S)
      → Reached S i w c
      → Reached S i w (by_offer S i session offer c)
  unfolding by_offer ask_generally reply
  by_offer-Reached session none c before = reply-Walk S (To S i w) w _ c.world (inr refl) before
  by_offer-Reached session (some offered) c before =
      by_price (first_price (session_items session) == 0)
    where
      by_price :
          (zero_price : Bool)
          → Reached S i w (
              if zero_price
              then ask_generally S i session c
              else escalate S i "order.neg_escalate." i.message_id (offer_of S i session offered) c)
      by_price true = reply-Walk S (To S i w) w _ c.world (inr refl) before
      by_price false =
          escalate-Reached S i w "order.neg_escalate." i.message_id (offer_of S i session offered) c
            before

  pass_offer-Reached :
      (session : Option OrderSession) (offer : Option ℕ) (c : Chat S)
      → Reached S i w c
      → Reached S i w (pass_offer S i session offer c)
  unfolding pass_offer
  pass_offer-Reached session offer c before = by_phone (str_eq i.trader.phone_number "")
    where
      by_phone :
          (nobody : Bool) → Reached S i w (if nobody then c else by_offer S i session offer c)
      by_phone true = before
      by_phone false = by_offer-Reached session offer c before

  negotiate-Reached :
      (session : Option OrderSession) (offer : Option ℕ) (c : Chat S)
      → Reached S i w c
      → Reached S i w (negotiate S i session offer c)
  unfolding negotiate reply
  negotiate-Reached none offer c before =
      pass_offer-Reached none offer _ (reply-Walk S (To S i w) w _ _ (inl refl) before)
  negotiate-Reached (some s) offer c before =
      pass_offer-Reached (some s) offer _ (reply-Walk S (To S i w) w _ _ (inl refl) before)

  not_understood-Reached : (c : Chat S) → Reached S i w c → Reached S i w (not_understood S i c)
  unfolding not_understood reply
  not_understood-Reached c before = reply-Walk S (To S i w) w _ c.world (inl refl) before

  ask_or_prompt-Reached :
      (needed : Bool) (question : Option String) (c : Chat S)
      → Reached S i w c
      → Reached S i w (ask_or_prompt S i needed question c)
  unfolding ask_or_prompt ask reply
  ask_or_prompt-Reached true none c before = not_understood-Reached c before
  ask_or_prompt-Reached false question c before = not_understood-Reached c before
  ask_or_prompt-Reached true (some question) c before = by_text (str_eq question "")
    where
      by_text :
          (empty : Bool)
          → Reached S i w (if empty then not_understood S i c else ask S i question c)
      by_text true = not_understood-Reached c before
      by_text false = reply-Walk S (To S i w) w _ c.world (inl refl) before

  order_items-Reached :
      (items : List ParsedItem) (c : Chat S)
      → IsFresh S.env c.world.db
      → Reached S i w c
      → Reached S i w (order_items S i items c)
  unfolding order_items
  order_items-Reached items c fresh before = place_priced-Reached _ _ _ _ c fresh before

  order_or_ask-Reached :
      (r : ParseResult) (items : List ParsedItem) (c : Chat S)
      → IsFresh S.env c.world.db
      → Reached S i w c
      → Reached S i w (order_or_ask S i r items c)
  unfolding order_or_ask
  order_or_ask-Reached r [] c fresh before = ask_or_prompt-Reached _ _ c before
  order_or_ask-Reached r (x ∷ xs) c fresh before = order_items-Reached (x ∷ xs) c fresh before

  pub by_intent-Reached :
      (session : Option OrderSession) (r : ParseResult) (kind : Intent) (c : Chat S)
      → IsFresh S.env c.world.db
      → Reached S i w c
      → Reached S i w (by_intent S i session r kind c)
  unfolding by_intent no_session_reply chat_back handle_payment_sent reply
  by_intent-Reached none r Intent.confirm c fresh before =
      reply-Walk S (To S i w) w _ c.world (inl refl) before
  by_intent-Reached none r Intent.cancel c fresh before =
      reply-Walk S (To S i w) w _ c.world (inl refl) before
  by_intent-Reached none r Intent.ignore c fresh before = before
  by_intent-Reached (some s) r Intent.ignore c fresh before = before
  by_intent-Reached none r Intent.chitchat c fresh before =
      reply-Walk S (To S i w) w _ c.world (inl refl) before
  by_intent-Reached (some s) r Intent.chitchat c fresh before =
      reply-Walk S (To S i w) w _ c.world (inl refl) before
  by_intent-Reached none r Intent.payment_sent c fresh before = payment_for-Reached false _ c before
  by_intent-Reached (some s) r Intent.payment_sent c fresh before =
      payment_for-Reached false _ c before
  by_intent-Reached none r Intent.negotiation c fresh before = negotiate-Reached none _ c before
  by_intent-Reached (some s) r Intent.negotiation c fresh before =
      negotiate-Reached (some s) _ c before
  by_intent-Reached none r Intent.unknown c fresh before = ask_or_prompt-Reached _ _ c before
  by_intent-Reached (some s) r Intent.unknown c fresh before = ask_or_prompt-Reached _ _ c before
  by_intent-Reached none r Intent.order c fresh before =
      order_or_ask-Reached r r.items c fresh before
  by_intent-Reached (some s) r Intent.order c fresh before =
      order_or_ask-Reached r r.items c fresh before
  by_intent-Reached (some s) r Intent.confirm c fresh before =
      order_items-Reached r.items c fresh before
  by_intent-Reached (some s) r Intent.cancel c fresh before =
      order_items-Reached r.items c fresh before
  by_intent-Reached none r Intent.trader_command c fresh before =
      order_items-Reached r.items c fresh before
  by_intent-Reached (some s) r Intent.trader_command c fresh before =
      order_items-Reached r.items c fresh before
