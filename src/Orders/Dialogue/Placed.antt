-- ===== src/Orders/Dialogue/Placed.antt =====
-- What the placing of an order leaves: the order, its items and the session that asks for the YES.
use chat_to_sales.Redis.{Carries}
use chat_to_sales.Orders.Dialogue.OrderWalks.{place-db}
use chat_to_sales.Orders.Sessions.Lifetimes.{Slot, write_slot-read_slot}
use chat_to_sales.Session.{◌>>=◌}
use chat_to_sales.Orders.Sessions.{session_ttl, set_order_session, get_order_session}
use chat_to_sales.Notifications.Outcomes.{send-Sends, Sends-rest}
use mathlib.Core.List.{append-nil, append_assoc}
use chat_to_sales.World.{Attachment, begin, World}
use chat_to_sales.Notifications.Service.{
  send_interactive, send_message, Notice, send_in_transaction,
}
use chat_to_sales.Orders.Repository.{NewOrder, new_order, create_order, add_item}
use chat_to_sales.Orders.Dialogue.Placing.{
  summary_buttons, place, order_for, place_priced, decimal, total_of, add_lines,
}
use chat_to_sales.Base.{
  none, ltb, some, Option, ap, sym, ◌∙◌, ◌+◌, arith, str_eq, if◌then◌else◌, Bool, ◌*◌, ◌++◌, refl,
  ◌≡◌, pos, [], ◌∷◌, ℤ, ◌+ℤ◌, ℕ, String, ◌*ℕ◌, List, true, false,
}
use chat_to_sales.Models.{Reply, Env, Db, OrderItem, Line, Content}
use chat_to_sales.Orders.Dialogue.{Chat, Incoming, Setting, OrderSession}
use chat_to_sales.Orders.Dialogue.Replies.{
  customer_notice, reply_interactive, sending_env, guarded, reply,
}

-- A guarded reply touches no table but the notifications.
pub guarded-rest :
    (S : Setting) (n n' : Notice) (v : World)
    → let v' = guarded S n (send_message S.provider (sending_env S n) n') v in
      v'.db ≡ record v.db { notifications = v'.db.notifications }
unfolding guarded send_in_transaction
guarded-rest S n n' v = by_phone (str_eq n.recipient "")
  where
    sent : World
    sent = (begin (send_message S.provider (sending_env S n) n') v).1

    by_phone :
        (nobody : Bool)
        → (if nobody then v else sent).db
          ≡ record v.db { notifications = (if nobody then v else sent).db.notifications }
    by_phone true = refl
    by_phone false =
        Sends-rest (sending_env S n) n' v sent (send-Sends S.provider (sending_env S n) n' v)

-- The rows of `order_items` that the lines become.
abbrev pub line_row : String → Line → OrderItem
line_row id l = record {
  order_id = id;
  product_name = l.name;
  quantity = l.qty;
  unit_price = decimal l.unit_price;
}

abbrev pub line_rows : String → List Line → List OrderItem
line_rows id [] = []
line_rows id (l ∷ ls) = line_row id l ∷ line_rows id ls

-- What the rows of an order cost together.
unfoldable pub rows_total : List OrderItem → ℤ
rows_total [] = pos 0
rows_total (x ∷ xs) = x.unit_price *ℕ x.quantity +ℤ rows_total xs

decimal_times : (p q : ℕ) → decimal p *ℕ q ≡ decimal (q * p)
unfolding ◌*ℕ◌
decimal_times p q = grind arith

decimal_plus : (a b : ℕ) → decimal (a + b) ≡ decimal a +ℤ decimal b
unfolding ◌+ℤ◌
decimal_plus a b = ground arith

pub total_of-rows :
    (id : String) (lines : List Line) → decimal (total_of lines) ≡ rows_total (line_rows id lines)
unfolding total_of rows_total ◌+ℤ◌
total_of-rows id [] = refl
total_of-rows id (l ∷ ls) =
    decimal_plus (l.qty * l.unit_price) (total_of ls)
    ∙ ap (λ a. a +ℤ decimal (total_of ls)) (sym (decimal_times l.unit_price l.qty))
    ∙ ap (λ a. decimal l.unit_price *ℕ l.qty +ℤ a) (total_of-rows id ls)

add_lines-items :
    (id : String) (lines : List Line) (db : Db)
    → (add_lines id lines db).1.items ≡ db.items ++ line_rows id lines
unfolding add_lines add_item
add_lines-items id [] db = sym (append-nil db.items)
add_lines-items id (l ∷ ls) db =
    add_lines-items id ls _ ∙ append_assoc db.items (line_row id l ∷ []) (line_rows id ls)

place-items :
    (e : Env) (n : NewOrder) (lines : List Line) (db : Db)
    → ((create_order e n >>= λ order. add_lines order.id lines) db).1.items
      ≡ db.items ++ line_rows e.fresh_id lines
unfolding create_order
place-items e n lines db =
    add_lines-items e.fresh_id lines (record db { orders = db.orders ++ new_order e n ∷ [] })

-- A session is read back for a day.
pub session_kept :
    (S : Setting) (tenant_id phone : String) (t : ℕ) (s : OrderSession) (store : S.redis.Store)
    → Carries S.session_json s
    → get_order_session S.redis S.session_json t tenant_id phone
        (set_order_session S.redis S.session_json S.env.now tenant_id phone s store)
      ≡ (if ltb t (S.env.now + session_ttl) then some s else none)
session_kept S tenant_id phone t s store carried =
    write_slot-read_slot S.redis S.session_json S.env.now t (Slot.order_session tenant_id phone) s
      store carried

-- The session that asks for the confirmation of a new order.
abbrev pub asked : (S : Setting) → List Line → OrderSession
asked S lines = OrderSession.awaiting_confirmation record {
  order_id = some S.env.fresh_id;
  items = lines;
  total = pos (total_of lines);
  media_id = none;
}

module _ (S : Setting) (i : Incoming) (c : Chat S) where
  -- The session as it is read at a moment.
  abbrev pub session_at : ℕ → Chat S → Option OrderSession
  session_at t c' = get_order_session S.redis S.session_json t i.tenant_id i.customer_phone c'.store

  -- One new order in the state INQUIRY, with the rows of its items, an amount that is the sum of
  -- these rows, and a session that asks for the confirmation of exactly this.
  pub record Placed (lines : List Line) (c' : Chat S) : Type 0 where
    pub orders :
        c'.world.db.orders
        ≡ c.world.db.orders ++ new_order S.env (order_for S i (total_of lines)) ∷ []
    pub items : c'.world.db.items ≡ c.world.db.items ++ line_rows S.env.fresh_id lines
    pub amount :
        (new_order S.env (order_for S i (total_of lines))).amount
        ≡ some (rows_total (line_rows S.env.fresh_id lines))
    pub session :
        (t : ℕ)
        → session_at t c' ≡ (if ltb t (S.env.now + session_ttl) then some (asked S lines) else none)

  -- The orders, their items and what is kept of the dialogue are as they were.
  pub record Unplaced (c' : Chat S) : Type 0 where
    pub orders : c'.world.db.orders ≡ c.world.db.orders
    pub items : c'.world.db.items ≡ c.world.db.items
    pub store : c'.store ≡ c.store

  pub place_priced-rows :
      (missing_event summary_event : String) (lines : List Line)
      → let c' = place_priced S i missing_event summary_event [] lines c in
        (c'.world.db.orders
          ≡ c.world.db.orders ++ new_order S.env (order_for S i (total_of lines)) ∷ [])
        × (c'.world.db.items ≡ c.world.db.items ++ line_rows S.env.fresh_id lines)
  unfolding place_priced place reply_interactive send_interactive
  place_priced-rows missing_event summary_event lines =
      let placed = place S i lines none c in
      let n = customer_notice i summary_event S.env.fresh_id (
        Content.from_template
          (Reply.order_summary lines (pos (total_of lines)) i.trader.business_name)) in
      let rest =
        guarded-rest S n (record n { attachment = Attachment.interactive summary_buttons })
          placed.world in
      (
        ap (λ (d : Db). d.orders) rest
            ∙ (place-db S.env (order_for S i (total_of lines)) lines c.world.db).0,
        ap (λ (d : Db). d.items) rest
            ∙ place-items S.env (order_for S i (total_of lines)) lines c.world.db,
      )

  pub place_priced-Placed :
      (missing_event summary_event : String) (lines : List Line)
      → Carries S.session_json (asked S lines)
      → Placed lines (place_priced S i missing_event summary_event [] lines c)
  unfolding place_priced place reply_interactive
  place_priced-Placed missing_event summary_event lines carried =
      let (orders, items) = place_priced-rows missing_event summary_event lines in
      record {
        orders = orders;
        items = items;
        amount = ap some (total_of-rows S.env.fresh_id lines);
        session =
            λ t. session_kept S i.tenant_id i.customer_phone t (asked S lines) c.store carried;
      }

  pub place_priced-Unplaced :
      (missing_event summary_event name : String) (names : List String) (lines : List Line)
      → Unplaced (place_priced S i missing_event summary_event (name ∷ names) lines c)
  unfolding place_priced reply
  place_priced-Unplaced missing_event summary_event name names lines =
      let n =
        customer_notice i missing_event i.message_id
          (Content.from_template (Reply.price_missing_prompt (name ∷ names))) in
      let rest = guarded-rest S n n c.world in
      record {
        orders = ap (λ (d : Db). d.orders) rest;
        items = ap (λ (d : Db). d.items) rest;
        store = refl;
      }
