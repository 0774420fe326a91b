-- ===== src/Orders/Trader/Effects.antt =====
-- What two commands leave behind: a CONFIRM by any trader, and the payment in full of an order on
-- credit.
use chat_to_sales.Orders.Dialogue.Customer.{if_confirmed}
use chat_to_sales.Orders.StateMachine.{same_state}
use chat_to_sales.Redis.{Json}
use chat_to_sales.Orders.Service.Outcomes.{do_paid_transition_ok, paid_db, transition_ok}
use chat_to_sales.Session.{Result}
use chat_to_sales.Orders.Repository.{column_is}
use chat_to_sales.Orders.Trader.Commands.{run_command-Reads, reply-Reads, Reads}
use chat_to_sales.Orders.Service.History.{order_of}
use mathlib.Core.List.{Memᴰ}
use chat_to_sales.Orders.Repository.{with_state, get_by_ref_prefix}
use chat_to_sales.CreditSales.Repository.{with_sale_status, is_active_sale}
use chat_to_sales.Orders.Trader.Taps.{
  debts_of, outstanding, if_on_credit, credit_tap, handle_credit_tap, PartialCredit, pay_in_full,
  settle_order_debts, tell_settled, is_open_debt,
}
use chat_to_sales.Orders.Dialogue.{Chat, Setting}
use chat_to_sales.Base.{
  select, str_eq, if◌then◌else◌, str_eq_self, ap, find?-key, refl, sym, [], subst, ◌∙◌, inr,
  find?-update_where_key, find?-mem, inl, ◌∷◌, some, has_key, Bool-cases, none, ℤ, update_where,
  ◌≡◌, IsKeyed, find?, List, String, true, false,
}
use chat_to_sales.Models.{
  Reply, CreditSale, Db, OrderState, Order, inquiry, confirmed, paid, CreditSaleStatus,
}
use chat_to_sales.Orders.Dialogue.Replies.{in_world, reference, reply}
use chat_to_sales.Orders.Service.Changes.{order_id}
use chat_to_sales.Orders.Dialogue.Confirmation.{finished, Ending}
use chat_to_sales.Orders.StateMachine.Lifecycle.{◌⟶◌}
use chat_to_sales.Orders.Trader.{
  with_db, after_change, run_command, to_buyer, back, order_command, TraderCommand, confirm_it,
}

settled_is_closed :
    (id : String) (x : CreditSale)
    → is_open_debt id (with_sale_status CreditSaleStatus.settled x) ≡ false
unfolding is_open_debt is_active_sale
settled_is_closed id x = elim (Bool-cases (column_is x.order_id id)) [
  | inl e ↦ rw e refl
  | inr e ↦ rw e refl
]

-- After the update no debt of the order is open.
settled_all :
    (id : String) (xs : List CreditSale)
    → find?
        (is_open_debt id)
        (update_where (is_open_debt id) (with_sale_status CreditSaleStatus.settled) xs)
      ≡ none
settled_all id [] = refl
settled_all id (x ∷ xs) = elim (Bool-cases (is_open_debt id x)) [
  | inl hit ↦ rw (hit, settled_is_closed id x) (settled_all id xs)
  | inr miss ↦ rw (miss, miss) (settled_all id xs)
]

pub moved_row :
    (o : Order) (s : OrderState) (db : Db)
    → IsKeyed order_id db.orders
    → Memᴰ o db.orders
    → order_of o.id (update_where (has_key order_id o.id) (with_state s) db.orders)
      ≡ some (with_state s o)
moved_row o s db keyed m =
    find?-update_where_key order_id o.id (has_key order_id o.id) (with_state s) db.orders
      (λ x. refl)
    ∙ rw (find?-key order_id db.orders o keyed m) (rw (str_eq_self o.id) refl)

pub confirmed_taken : (o : Order) → o.state ≡ confirmed → if_confirmed (some o) ≡ some o
unfolding same_state
confirmed_taken o sure = ap (λ s. if same_state s confirmed then some o else none) sure

module _ (S : Setting) (k : TraderCommand) where
  -- In a table of orders with distinct keys: a CONFIRM whose reference finds an inquiry makes it confirmed, whichever tenant
  -- and trader the order and the command belong to.
  pub any_trader_confirms :
      (o : Order) (c : Chat S)
      → IsKeyed order_id c.world.db.orders
      → get_by_ref_prefix k.ref none c.world.db ≡ some o
      → o.state ≡ inquiry
      → order_of o.id (order_command S k confirm_it c).world.db.orders
        ≡ some (with_state confirmed o)
  unfolding order_command get_by_ref_prefix
  any_trader_confirms o c keyed found waits =
      let m : Memᴰ o c.world.db.orders = find?-mem _ c.world.db.orders o found in
      let step : o.state ⟶ confirmed = subst (λ s. s ⟶ confirmed) (sym waits) ◌⟶◌.agree in
      ap (λ f. order_of o.id (run_command S k confirm_it f c).world.db.orders) found
      ∙ ap (λ (d : Db). order_of o.id d.orders) (run_command-Reads S k confirm_it o c).tables
      ∙ ap (λ (r : Result Order × Db). order_of o.id r.1.orders)
          (transition_ok o confirmed c.world.db step)
      ∙ moved_row o confirmed c.world.db keyed m

  tell_settled-Reads :
      (db : Db) (o : Order) (total : ℤ) (d : Chat S)
      → Reads db d.world
      → Reads (settle_order_debts o.id db) (tell_settled S k o total d).world
  unfolding tell_settled reply settle_order_debts
  tell_settled-Reads db o total d before =
      let n =
        back S k "order.creditpaid_trader." o.id
          (Reply.credit_paid_in_full (reference o.id) total o.customer_name) in
      let n' =
        to_buyer S k o "order.creditpaid_customer."
          (Reply.payment_confirmed_to_customer k.trader_name (reference o.id)) in
      let settled = in_world S (λ w. record w { db = settle_order_debts o.id w.db }) d in
      let told = reply S n settled in
      let settled-Reads : Reads (settle_order_debts o.id db) settled.world = record {
        tables = ap (settle_order_debts o.id) before.tables;
      } in
      reply-Reads S (settle_order_debts o.id db) n' n' told.world
        (reply-Reads S (settle_order_debts o.id db) n n settled.world settled-Reads)

  pay_in_full-Reads :
      (o : Order) (total : ℤ) (c : Chat S)
      → o.state ≡ confirmed
      → Reads
          (settle_order_debts o.id (paid_db S.env o c.world.db))
          (pay_in_full S k o total c).world
  unfolding pay_in_full after_change
  pay_in_full-Reads o total c sure =
      subst (λ (d : Chat S). Reads (settle_order_debts o.id (paid_db S.env o c.world.db)) d.world)
        (sym (
          ap
            (λ r.
              after_change S k r (tell_settled S k o total)
                (back S k "order.creditpaid_err." k.message_id (Reply.cannot_pay (reference o.id)))
                c)
            (do_paid_transition_ok S.env o c.world.db sure)))
        (tell_settled-Reads (paid_db S.env o c.world.db) o total
          (with_db S k (paid_db S.env o c.world.db) c) (record { tables = refl }))

  module _ (J : Json PartialCredit) where
    -- In a table of orders with distinct keys: a tap on Paid in Full, whose reference is not empty and finds a confirmed order on credit with
    -- one open debt, ends by itself, and then the order is paid and no debt of it is open.
    pub credit_paid_in_full_lem :
        (o : Order) (debt : CreditSale) (c : Chat S)
        → IsKeyed order_id c.world.db.orders
        → str_eq k.ref "" ≡ false
        → get_by_ref_prefix k.ref none c.world.db ≡ some o
        → o.state ≡ confirmed
        → o.is_credit ≡ true
        → select (is_open_debt o.id) c.world.db.credit_sales ≡ debt ∷ []
        → let (ending, c') = handle_credit_tap S k J true c in
          (ending ≡ finished)
          × (order_of o.id c'.world.db.orders ≡ some (with_state paid o))
          × (find? (is_open_debt o.id) c'.world.db.credit_sales ≡ none)
    unfolding handle_credit_tap credit_tap settle_order_debts
    credit_paid_in_full_lem o debt c keyed some_ref found sure credit one_debt =
        let m : Memᴰ o c.world.db.orders =
          unfold get_by_ref_prefix in find?-mem _ c.world.db.orders o found in
        let taken : if_on_credit (if_confirmed (get_by_ref_prefix k.ref none c.world.db)) ≡ some o =
          ap (λ f. if_on_credit (if_confirmed f)) found
          ∙ ap if_on_credit (confirmed_taken o sure)
          ∙ ap (λ b. if b then some o else none) credit in
        let total = outstanding o (debt ∷ []) in
        let ran : handle_credit_tap S k J true c ≡ (finished, pay_in_full S k o total c) =
          ap
            (λ b.
              let f = if_on_credit (if_confirmed (get_by_ref_prefix k.ref none c.world.db)) in
              if b then (finished, c) else credit_tap S k J true f (debts_of S k J f c.world.db) c)
            some_ref
          ∙ ap (λ f. credit_tap S k J true f (debts_of S k J f c.world.db) c) taken
          ∙ ap (λ ds. credit_tap S k J true (some o) ds c) one_debt in
        let tables = (pay_in_full-Reads o total c sure).tables in
        (
          ap (λ (r : Ending × Chat S). r.0) ran,
          ap (λ (r : Ending × Chat S). order_of o.id r.1.world.db.orders) ran
              ∙ ap (λ (d : Db). order_of o.id d.orders) tables
              ∙ moved_row o paid c.world.db keyed m,
          ap (λ (r : Ending × Chat S). find? (is_open_debt o.id) r.1.world.db.credit_sales) ran
              ∙ ap (λ (d : Db). find? (is_open_debt o.id) d.credit_sales) tables
              ∙ settled_all o.id c.world.db.credit_sales,
        )
