-- ===== src/Orders/Trader/Balance.antt =====
-- What a part of a debt that is paid leaves: the balance, and the order.
use chat_to_sales.World.{World}
use chat_to_sales.Session.{Result}
use chat_to_sales.Orders.Trader.Effects.{moved_row, confirmed_taken}
use chat_to_sales.Orders.Trader.Commands.{reply-Reads}
use chat_to_sales.Orders.Service.Outcomes.{do_paid_transition_ok, paid_db}
use chat_to_sales.Orders.Sessions.{clear_trader_session}
use chat_to_sales.CreditSales.Debts.{with_balance}
use chat_to_sales.Orders.Dialogue.Customer.{if_confirmed}
use chat_to_sales.Orders.Service.History.{order_of}
use chat_to_sales.Orders.Repository.{with_state, get_by_id}
use mathlib.Core.List.{Memᴰ}
use chat_to_sales.Orders.Trader.Parts.{
  tell, paid_off, pay_confirmed, pay_part, part_of_debts, answer_part,
}
use chat_to_sales.CreditSales.Repository.{update_sale, sale_id}
use chat_to_sales.Orders.Trader.Taps.{is_open_debt, PartialCredit}
use chat_to_sales.Orders.Trader.{back, with_db, TraderCommand}
use chat_to_sales.Orders.Dialogue.{Chat, Setting}
use chat_to_sales.Base.{
  inr, inl, leb, Bool-cases, sym, subst, if◌then◌else◌, ap, select-first, pos, ◌==◌, [], refl, ◌∷◌,
  str_eq_self, select, find?-key, none, ◌∙◌, ◌≤◌, find?-update_where_key, arith, some, update_where,
  ◌%◌, has_key, ◌≡◌, ◌+◌, find?, ◌*◌, ◌-◌, IsKeyed, ◌/◌, ◌<◌, List, ℕ, false,
}
use chat_to_sales.Models.{Db, Reply, Order, CreditSale, confirmed, paid}
use chat_to_sales.Orders.Dialogue.Replies.{in_store, reply}
use chat_to_sales.Orders.Service.Changes.{get_by_id-mem, order_id}
use chat_to_sales.Orders.Dialogue.Confirmation.{finished, Ending}

sale_row :
    (x : CreditSale) (f : CreditSale → CreditSale) (xs : List CreditSale)
    → IsKeyed sale_id xs
    → Memᴰ x xs
    → ((y : CreditSale) → (f y).id ≡ y.id)
    → find? (has_key sale_id x.id) (update_where (has_key sale_id x.id) f xs) ≡ some (f x)
sale_row x f xs keyed m keep =
    find?-update_where_key sale_id x.id (has_key sale_id x.id) f xs keep
    ∙ rw (find?-key sale_id xs x keyed m) (rw (str_eq_self x.id) refl)

balance_left :
    (amount n : ℕ) → n < amount / 100 → (amount / 100 - n) * 100 + n * 100 + amount % 100 ≡ amount
balance_left amount n h = omega arith

module _ (S : Setting) (k : TraderCommand) (p : PartialCredit) where
  -- The balance after a part and after the rest: in naira it is what is left, and the hundredths of the
  -- old balance are lost.
  pub data Paid (x : CreditSale) (o : Order) (n : ℕ) (before : List Order) (w' : World)
      : Type 0 where
    reduced :
        (x' : CreditSale)
        → n < x.amount / 100
        → find? (has_key sale_id x.id) w'.db.credit_sales ≡ some x'
        → x'.status ≡ x.status
        → x'.amount + n * 100 + x.amount % 100 ≡ x.amount
        → w'.db.orders ≡ before
        → Paid x o n before w'
    settled :
        x.amount / 100 ≤ n
        → find? (has_key sale_id x.id) w'.db.credit_sales ≡ some (paid_off x)
        → order_of o.id w'.db.orders ≡ some (with_state paid o)
        → Paid x o n before w'

  -- The rest is paid.
  pay_all-Paid :
      (x : CreditSale) (o : Order) (n : ℕ) (c : Chat S)
      → IsKeyed order_id c.world.db.orders
      → IsKeyed sale_id c.world.db.credit_sales
      → get_by_id p.order_id none c.world.db ≡ some o
      → o.state ≡ confirmed
      → Memᴰ x c.world.db.credit_sales
      → x.amount / 100 ≤ n
      → let db₁ =
          pay_confirmed S.env
            (if_confirmed (get_by_id p.order_id none c.world.db))
            (update_sale x.id paid_off c.world.db) in
        let r =
          Reply.credit_paid_in_full p.order_ref (pos (x.amount / 100)) (some p.customer_name) in
        Paid x o n c.world.db.orders (tell S k "order.creditpart_full." r (with_db S k db₁ c)).world
  unfolding reply pay_confirmed update_sale
  pay_all-Paid x o n c keyed keyed_sales found sure m enough =
      let db' = update_sale x.id paid_off c.world.db in
      let db₁ = pay_confirmed S.env (if_confirmed (get_by_id p.order_id none c.world.db)) db' in
      let notice_ =
        back S k "order.creditpart_full." k.message_id
          (Reply.credit_paid_in_full p.order_ref (pos (x.amount / 100)) (some p.customer_name)) in
      let same_db : db₁ ≡ paid_db S.env o db' =
        ap (λ f. pay_confirmed S.env (if_confirmed f) db') found
        ∙ ap (λ f. pay_confirmed S.env f db') (confirmed_taken o sure)
        ∙ ap (λ (r : Result Order × Db). r.1) (do_paid_transition_ok S.env o db' sure) in
      let tables =
        (reply-Reads S db₁ notice_ notice_ (with_db S k db₁ c).world
          (record { tables = refl })).tables in
      Paid.settled enough
        (ap (λ (d : Db). find? (has_key sale_id x.id) d.credit_sales) tables
          ∙ ap (λ (d : Db). find? (has_key sale_id x.id) d.credit_sales) same_db
          ∙ sale_row x paid_off c.world.db.credit_sales keyed_sales m (λ y. refl))
        (ap (λ (d : Db). order_of o.id d.orders) tables
          ∙ ap (λ (d : Db). order_of o.id d.orders) same_db
          ∙ moved_row o paid c.world.db keyed (get_by_id-mem p.order_id none c.world.db o found))

  -- A part is paid.
  pay_less-Paid :
      (x : CreditSale) (o : Order) (n : ℕ) (c : Chat S)
      → IsKeyed sale_id c.world.db.credit_sales
      → Memᴰ x c.world.db.credit_sales
      → n < x.amount / 100
      → let db₁ = update_sale x.id (with_balance (x.amount / 100 - n)) c.world.db in
        let r =
          Reply.credit_partial_received p.order_ref n (x.amount / 100 - n) (some p.customer_name) in
        Paid x o n c.world.db.orders
          (tell S k "order.creditpart_partial." r (with_db S k db₁ c)).world
  unfolding reply update_sale
  pay_less-Paid x o n c keyed_sales m less =
      let db₁ = update_sale x.id (with_balance (x.amount / 100 - n)) c.world.db in
      let notice_ =
        back S k "order.creditpart_partial." k.message_id (
          Reply.credit_partial_received p.order_ref n (x.amount / 100 - n)
            (some p.customer_name)) in
      let tables =
        (reply-Reads S db₁ notice_ notice_ (with_db S k db₁ c).world
          (record { tables = refl })).tables in
      Paid.reduced (with_balance (x.amount / 100 - n) x) less
        (ap (λ (d : Db). find? (has_key sale_id x.id) d.credit_sales) tables
          ∙ sale_row x (with_balance (x.amount / 100 - n)) c.world.db.credit_sales keyed_sales m
              (λ y. refl))
        refl (balance_left x.amount n less) (ap (λ (d : Db). d.orders) tables)

  -- In tables of orders and debts with distinct keys, for the confirmed order of the session and its one open debt: an amount below the
  -- whole naira of the debt leaves it open with a balance that together with the amount and the old hundredths makes
  -- the old balance, and no order changes; any other amount settles the debt with nothing left and pays the order.
  pub part_payment_lem :
      (x : CreditSale) (o : Order) (n : ℕ) (c : Chat S)
      → IsKeyed order_id c.world.db.orders
      → IsKeyed sale_id c.world.db.credit_sales
      → get_by_id p.order_id none c.world.db ≡ some o
      → o.state ≡ confirmed
      → select (is_open_debt p.order_id) c.world.db.credit_sales ≡ x ∷ []
      → (n == 0) ≡ false
      → let (ending, c') = answer_part S k p (some n) c in
        (ending ≡ finished) × Paid x o n c.world.db.orders c'.world
  unfolding answer_part part_of_debts pay_part
  part_payment_lem x o n c keyed keyed_sales found sure one_debt some_amount =
      let d = in_store S (clear_trader_session S.redis k.trader_phone) c in
      let m : Memᴰ x c.world.db.credit_sales =
        (select-first (is_open_debt p.order_id) c.world.db.credit_sales x one_debt).0 in
      let ran : answer_part S k p (some n) c ≡ (finished, pay_part S k p x n d) =
        ap
          (λ b.
            if b
            then (finished, tell S k "trader.creditpart_zero." Reply.amount_zero d)
            else part_of_debts S k p n (select (is_open_debt p.order_id) c.world.db.credit_sales) d)
          some_amount
        ∙ ap (λ ds. part_of_debts S k p n ds d) one_debt in
      (
        ap (λ (r : Ending × Chat S). r.0) ran,
        subst (λ (r : Ending × Chat S). Paid x o n c.world.db.orders r.1.world) (sym ran)
            (elim (Bool-cases (leb (x.amount / 100) n)) [
              | inl enough ↦
                  rw enough (pay_all-Paid x o n d keyed keyed_sales found sure m (ground arith))
              | inr less ↦ rw less (pay_less-Paid x o n d keyed_sales m (ground arith))
            ]),
      )
