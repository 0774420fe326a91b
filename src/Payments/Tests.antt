-- ===== src/Payments/Tests.antt =====
-- The theorems on payments at concrete inputs.
use chat_to_sales.Payments.Handlers.Delivery.{webhook_pays_order, deliver_twice}
use chat_to_sales.Payments.Service.Checkout.{
  Payable, create_payment_for_order_iff, create_payment_for_order_sound, Checkout,
}
use chat_to_sales.Session.{ok}
use chat_to_sales.Orders.StateMachine.{same_state}
use chat_to_sales.Payments.Handlers.{handle_payment_confirmed_event}
use chat_to_sales.Base.{◌↔◌, ◌∷◌, refl, some, ◌++◌, pos, false, [], ◌≡◌, true, str_eq}
use chat_to_sales.Samples.{
  checkout_db, confirmed_order, later_env, sample_db, sample_env, pending_payment,
}
use chat_to_sales.Payments.Service.{
  checkout_for, handle_webhook, is_success, create_payment_for_order,
}
use chat_to_sales.Models.{paid, success, Order, Payment}
use chat_to_sales.Payments.Repository.{
  with_status, is_active, get_active_for_order, new_payment, create_payment, get_by_reference,
}
use chat_to_sales.Payments.Service.Webhook.{webhook_success_final, confirmation}
use chat_to_sales.Orders.Repository.{with_state, get_by_id}

webhook_pays_order_example :
    let db₁ = (handle_webhook "CTS-1" true checkout_db).1 in
    let db₂ = handle_payment_confirmed_event later_env (confirmation pending_payment) db₁ in
    (db₁.events ≡ [] ++ confirmation pending_payment ∷ [])
    × (get_by_id "o1" (some "t1") db₂ ≡ some (with_state paid confirmed_order))
    × (get_by_reference "CTS-1" db₂ ≡ some (with_status success pending_payment))
unfolding get_by_reference get_by_id str_eq is_success
webhook_pays_order_example =
    webhook_pays_order later_env "CTS-1" pending_payment confirmed_order checkout_db refl refl refl
      refl refl refl

webhook_success_final_example :
    let db₁ = (handle_webhook "CTS-1" true checkout_db).1 in
    handle_webhook "CTS-1" false db₁ ≡ (ok (some (with_status success pending_payment)), db₁)
unfolding get_by_reference str_eq
webhook_success_final_example = webhook_success_final "CTS-1" false pending_payment checkout_db refl

deliver_twice_example :
    let ev = confirmation pending_payment in
    handle_payment_confirmed_event later_env ev
      (handle_payment_confirmed_event sample_env ev checkout_db)
    ≡ handle_payment_confirmed_event sample_env ev checkout_db
deliver_twice_example =
    deliver_twice sample_env later_env (confirmation pending_payment) checkout_db

-- The payment that a checkout of the sample order makes.
abbrev made : Payment
made = new_payment sample_env (checkout_for confirmed_order "t1" "o1" (pos 150000) "CTS-1")

create_payment_for_order_sound_example :
    (o : Order) × Checkout "o1" "t1" sample_db
      (create_payment_for_order sample_env "CTS-1" "o1" "t1" sample_db).1
      made
      o
unfolding create_payment_for_order create_payment get_by_id same_state get_active_for_order str_eq
    is_active
create_payment_for_order_sound_example =
    create_payment_for_order_sound sample_env "CTS-1" "o1" "t1" sample_db made refl

create_payment_for_order_iff_example :
    ((p : Payment) × ((create_payment_for_order sample_env "CTS-1" "o1" "t1" sample_db).0 ≡ ok p))
    ↔ Payable "o1" "t1" sample_db
create_payment_for_order_iff_example =
    create_payment_for_order_iff sample_env "CTS-1" "o1" "t1" sample_db
