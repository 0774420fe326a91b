-- ===== src/Orders/Tests.antt =====
-- The theorems on orders at concrete inputs.
use chat_to_sales.Redis.Entries.{entries}
use chat_to_sales.Redis.{Json, Carries}
use chat_to_sales.Orders.Sessions.Lifetimes.{write_slot-read_slot, write_slot, Slot, read_slot}
use chat_to_sales.Orders.Service.Additions.{add_items_lem, item_row}
use chat_to_sales.Marketing.Referrals.{advance_referral_to_first_order}
use chat_to_sales.Marketing.CustomerList.{is_entry, upsert_rows, upsert_customer}
use chat_to_sales.Orders.Service.Outcomes.{mark_order_paid_lem, paid_db}
use chat_to_sales.Session.{ok}
use chat_to_sales.Orders.StateMachine.Lifecycle.{validate_transition_iff, Accepted}
use chat_to_sales.Orders.Service.{
  with_amount, add_items, total_from, OrderItemCreate, items_total, do_paid_transition, pay_unless,
  handle_payment_confirmed, reload, get_or_404, transition, confirm_order, mark_order_paid,
  create_unless, create_order_from_conversation,
}
use chat_to_sales.Orders.Service.Changes.{order_id}
use chat_to_sales.Samples.{later_env, confirmed_order, sample_env, paid_order, sample_db}
use chat_to_sales.Orders.Repository.{
  update_order, update_state, with_state, create_order, get_open_order_for_conversation, is_open,
  get_by_id,
}
use chat_to_sales.Orders.Service.History.{
  FreshRun, mark_paid, confirm, run-Becomes, run_closed_frozen, create_from_conversation, Becomes,
  LifecycleCall, order_of, call, run,
}
use chat_to_sales.Models.{confirmed, paid, Env, OrderState, Order}
use chat_to_sales.Base.{
  ◌*◌, ◌+◌, ltb, if◌then◌else◌, true, String, false, Bool, ◌*ℕ◌, ◌+ℤ◌, pos, [], ◌∷◌, arith, ◌↔◌,
  map, some, refl, none, ◌≡◌, IsKeyed, str_eq, List,
}
use chat_to_sales.Orders.StateMachine.{
  check_states, check_parsed, value, parse_state, state_in, same_state, validate_transition,
}
use chat_to_sales.Orders.Service.OneOpen.{run-OneOpen, OneOpen}

validate_transition_iff_example :
    (validate_transition "o1" "confirmed" "paid" ≡ none) ↔ Accepted "confirmed" "paid"
validate_transition_iff_example = validate_transition_iff "o1" "confirmed" "paid"

-- An order is opened, confirmed and paid; the payment's event comes a second time.
abbrev one_day : List (Env × LifecycleCall)
one_day =
    (sample_env, create_from_conversation "t1" "conv-2" none)
    ∷ (later_env, confirm "id-9" (some "t1"))
    ∷ (later_env, LifecycleCall.payment_confirmed "o1" "t1")
    ∷ (later_env, LifecycleCall.payment_confirmed "o1" "t1")
    ∷ (later_env, mark_paid "o2" none)
    ∷ []

sample-IsKeyed : IsKeyed order_id sample_db.orders
unfolding str_eq
sample-IsKeyed = (refl, (refl, tt))

sample_fresh : FreshRun one_day sample_db
unfolding call create_order_from_conversation create_unless get_open_order_for_conversation is_open
    state_in same_state create_order confirm_order transition get_or_404 get_by_id
    validate_transition parse_state value check_parsed check_states update_state update_order reload
    handle_payment_confirmed pay_unless do_paid_transition str_eq upsert_customer upsert_rows
    is_entry advance_referral_to_first_order
sample_fresh = (refl, (refl, (refl, (refl, (refl, tt)))))

run-Becomes_example :
    (o' : Order) × (order_of "o1" (run one_day sample_db).orders ≡ some o')
    × Becomes confirmed_order o'
run-Becomes_example =
    run-Becomes one_day sample_db "o1" confirmed_order sample-IsKeyed sample_fresh found
  where
    found : order_of "o1" sample_db.orders ≡ some confirmed_order
    found = unfold str_eq in refl

run_closed_frozen_example : order_of "o2" (run one_day sample_db).orders ≡ some paid_order
run_closed_frozen_example =
    run_closed_frozen one_day sample_db "o2" paid_order sample-IsKeyed sample_fresh
      (unfold str_eq in refl) (unfold is_open state_in same_state in refl)

run-OneOpen_example : OneOpen (run one_day sample_db)
run-OneOpen_example = run-OneOpen one_day sample_db sample-IsKeyed sample_fresh one_open
  where
    one_open : OneOpen sample_db
    one_open conv t = unfold is_open state_in same_state in ground arith

mark_order_paid_lem_example :
    mark_order_paid sample_env "o1" (some "t1") sample_db
    ≡ (ok (with_state paid confirmed_order), paid_db sample_env confirmed_order sample_db)
unfolding get_by_id same_state str_eq
mark_order_paid_lem_example =
    mark_order_paid_lem sample_env "o1" (some "t1") sample_db sample-IsKeyed

-- What the day leaves: the paid order, the order that was paid before, and the confirmed new one.
abbrev states : List Order → List OrderState
states = map (λ o. o.state)

one_day_test : states (run one_day sample_db).orders ≡ paid ∷ paid ∷ confirmed ∷ []
unfolding run call create_order_from_conversation create_unless get_open_order_for_conversation
    is_open state_in same_state create_order confirm_order transition get_or_404 get_by_id
    validate_transition parse_state value check_parsed check_states update_state update_order reload
    handle_payment_confirmed pay_unless do_paid_transition str_eq upsert_customer upsert_rows
    is_entry advance_referral_to_first_order mark_order_paid
one_day_test = refl

abbrev two_bags : List OrderItemCreate
two_bags = record { name = "rice"; quantity = 2; unit_price = pos 5000 } ∷ []

-- The amount of 150000 is replaced by that of the two bags alone.
add_items_lem_example : add_items "o1" two_bags (some "t1") sample_db ≡ (
  ok (with_amount (pos 10000) confirmed_order),
  record sample_db {
    orders = with_amount (pos 10000) confirmed_order ∷ paid_order ∷ [];
    items = map (item_row "o1") two_bags;
  },
)
unfolding get_by_id is_open state_in same_state str_eq items_total total_from ◌+ℤ◌ ◌*ℕ◌
add_items_lem_example =
    add_items_lem "o1" two_bags (some "t1") confirmed_order sample_db sample-IsKeyed refl

-- The JSON texts of a flag.
abbrev flag_text : Bool → String
flag_text true = "true"
flag_text false = "false"

flag-back : (d : Bool) → str_eq (flag_text d) "true" ≡ d
unfolding str_eq
flag-back true = refl
flag-back false = refl

flag_not_empty : (d : Bool) → str_eq (flag_text d) "" ≡ false
unfolding str_eq
flag_not_empty true = refl
flag_not_empty false = refl

abbrev flags : Json Bool
flags = record { dumps = flag_text; loads = λ s. str_eq s "true" }

flag-carried : (d : Bool) → Carries flags d
flag-carried d = record { loads-dumps = flag-back d; dumps_not_empty = flag_not_empty d }

write_slot-read_slot_example :
    read_slot entries flags 1599
      (Slot.trader_session "0801")
      (write_slot entries flags 1000 (Slot.trader_session "0801") true [])
    ≡ (if ltb 1599 (1000 + 10 * 60) then some true else none)
write_slot-read_slot_example =
    write_slot-read_slot entries flags 1000 1599 (Slot.trader_session "0801") true []
      (flag-carried true)
