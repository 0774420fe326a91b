-- ===== src/Orders/Trader/Tests.antt =====
-- The theorems on the commands of a trader at concrete inputs.
use chat_to_sales.Orders.Trader.Final.{closed_but_for_credit, marked}
use chat_to_sales.Orders.Trader.Balance.{part_payment_lem, Paid}
use chat_to_sales.Orders.Trader.Parts.{answer_part}
use chat_to_sales.CreditSales.Repository.{is_active_sale}
use chat_to_sales.Orders.Trader.Effects.{credit_paid_in_full_lem}
use chat_to_sales.Orders.Repository.{is_open, get_by_id, get_by_ref_prefix, with_state}
use chat_to_sales.Orders.Service.History.{order_of}
use chat_to_sales.Samples.{active_sale, sample_db, sample_world, confirmed_order}
use chat_to_sales.Orders.Dialogue.Samples.{rice_session, setting_of, constant_json}
use chat_to_sales.Orders.Trader.Taps.{is_open_debt, PartialCredit, handle_credit_tap}
use chat_to_sales.Base.{Bool, str_eq, refl, find?, [], ◌∷◌, none, ◌≡◌, some, IsKeyed, true}
use chat_to_sales.Models.{Order, paid}
use chat_to_sales.Orders.Dialogue.{Setting, Chat, Intent}
use chat_to_sales.Orders.Service.Changes.{order_id}
use chat_to_sales.Orders.Trader.{order_command, TraderCommand, credit_it}
use chat_to_sales.Orders.Dialogue.Confirmation.{finished}

abbrev quiet_setting : Setting
quiet_setting = setting_of Intent.unknown none rice_session

-- A trader of another tenant.
abbrev other_trader : TraderCommand
other_trader = record {
  tenant_id = "t2";
  trader_phone = "0809";
  trader_name = "Iya Bose";
  message_id = "m7";
  ref = "o1";
  bank_name = "";
  bank_account_number = "";
  bank_account_name = "";
  channel_tenant_id = some "t0";
}

abbrev credit_order : Order
credit_order = record confirmed_order { is_credit = true }

-- A confirmed order on credit, with its debt.
abbrev credit_chat : Chat quiet_setting
credit_chat = record {
  world = record sample_world {
    db = record sample_db { orders = credit_order ∷ []; credit_sales = active_sale ∷ [] };
  };
  store = [];
}

credit-IsKeyed : IsKeyed order_id credit_chat.world.db.orders
credit-IsKeyed = (refl, tt)

abbrev empty_part : PartialCredit
empty_part = record { order_id = "o1"; order_ref = "o1"; customer_name = "Ada" }

credit_paid_in_full_lem_example :
    let (ending, c') =
      handle_credit_tap quiet_setting other_trader (constant_json empty_part) true credit_chat in
    (ending ≡ finished)
    × (order_of "o1" c'.world.db.orders ≡ some (with_state paid credit_order))
    × (find? (is_open_debt "o1") c'.world.db.credit_sales ≡ none)
credit_paid_in_full_lem_example =
    credit_paid_in_full_lem quiet_setting other_trader (constant_json empty_part) credit_order
      active_sale credit_chat credit-IsKeyed (unfold str_eq in refl)
      (unfold get_by_ref_prefix in refl) refl refl
      (unfold is_open_debt is_active_sale str_eq in refl)

-- A thousand of the debt of 1500 naira and 50 kobo is paid.
part_payment_lem_example :
    let (ending, c') = answer_part quiet_setting other_trader empty_part (some 1000) credit_chat in
    (ending ≡ finished)
    × Paid quiet_setting other_trader empty_part active_sale credit_order 1000
        credit_chat.world.db.orders c'.world
part_payment_lem_example =
    part_payment_lem quiet_setting other_trader empty_part active_sale credit_order 1000 credit_chat
      credit-IsKeyed (refl, tt) (unfold get_by_id str_eq in refl) refl
      (unfold is_open_debt is_active_sale str_eq in refl) refl

-- CREDIT for an order that is paid already.
abbrev paid_chat : Chat quiet_setting
paid_chat = record {
  world = record sample_world {
    db = record sample_db { orders = with_state paid confirmed_order ∷ [] };
  };
  store = [];
}

closed_but_for_credit_example :
    (b : Bool) × (order_of "o1"
        (order_command quiet_setting other_trader credit_it paid_chat).world.db.orders
      ≡ some (marked b (with_state paid confirmed_order)))
closed_but_for_credit_example =
    closed_but_for_credit quiet_setting other_trader credit_it "o1"
      (with_state paid confirmed_order) paid_chat (refl, tt) (unfold str_eq in refl)
      (unfold is_open in refl)
