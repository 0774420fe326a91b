-- ===== src/Marketing/Tests.antt =====
-- The theorems on the customer list, the referrals and the segments at concrete inputs.
use chat_to_sales.Notifications.Once.{empty-Once, Once}
use mathlib.Core.List.{Memᴰ}
use chat_to_sales.Marketing.Broadcast.{send_broadcast_paced, entry_of}
use chat_to_sales.World.{Delivery, World}
use chat_to_sales.Marketing.Followups.{Interest}
use chat_to_sales.Marketing.Broadcast.Respect.{send_broadcast_paced_lem}
use chat_to_sales.Marketing.CustomerList.Totals.{
  record_sales-totals, spend_of, record_sales, orders_of, Sale,
}
use chat_to_sales.Samples.{sample_keys, flaky_provider, sample_world, sample_db}
use chat_to_sales.Models.{
  BroadcastStatus, RecipientStatus, Content, BroadcastRecipient, Broadcast, CustomerListEntry,
}
use chat_to_sales.Base.{
  inl, refl, ◌≡◌, [], ◌∷◌, true, ◌+ℤ◌, some, pos, none, ℕ, str_eq, String, List,
}
use chat_to_sales.Marketing.CustomerList.{is_entry}

abbrev sale_to : String → ℕ → Sale
sale_to customer hundredths = record {
  now = 1000;
  trader_phone = "0801";
  tenant_id = "t1";
  customer_phone = customer;
  customer_name = none;
  order_amount = pos hundredths;
}

abbrev three_sales : List Sale
three_sales = sale_to "0802" 100 ∷ sale_to "0803" 200 ∷ sale_to "0802" 300 ∷ []

record_sales-totals_example :
    (orders_of "0801" "0802" (record_sales three_sales []) ≡ 2)
    × (spend_of "0801" "0802" (record_sales three_sales []) ≡ pos 400)
unfolding is_entry str_eq ◌+ℤ◌
record_sales-totals_example = record_sales-totals "0801" "0802" three_sales []

abbrev stopped : CustomerListEntry
stopped = record {
  tenant_id = "t1";
  trader_phone = "0801";
  customer_phone = "0802";
  customer_name = none;
  total_orders = 1;
  total_spend = pos 100;
  first_order_date = some 10;
  last_order_date = some 10;
  opted_out = true;
  opted_out_at = some 20;
  last_broadcast_at = none;
}

abbrev rice : Interest
rice = record {
  tenant_id = "t1";
  trader_phone = "0801";
  customer_phone = "0802";
  customer_name = none;
  product_name = "Rice";
  price = some 500;
  event_type = "price_inquiry";
}

abbrev news : Broadcast
news = record {
  id = "b1";
  trader_phone = "0801";
  segment = "all";
  message_text = Content.text "New rice";
  sent_count = 0;
  status = BroadcastStatus.draft;
  completed_at = none;
}

abbrev to_stopped : BroadcastRecipient
to_stopped = record {
  id = "r1";
  broadcast_id = "b1";
  customer_phone = "0802";
  status = RecipientStatus.pending;
  sent_at = none;
  skipped_after = none;
}

abbrev news_world : World
news_world = record sample_world {
  db = record sample_db {
    customers = stopped ∷ [];
    broadcasts = news ∷ [];
    recipients = to_stopped ∷ [];
  };
}

send_broadcast_paced_lem_example :
    let w' = send_broadcast_paced flaky_provider "t0" sample_keys 900 "0801" "b1" news_world in
    ((d : Delivery) → Memᴰ d w'.delivered → str_eq d.to "0802" ≡ true → Memᴰ d news_world.delivered)
    × Once w'
unfolding entry_of is_entry str_eq
send_broadcast_paced_lem_example =
    send_broadcast_paced_lem flaky_provider "t0" sample_keys 900 "0801" "0802" "b1" stopped
      news_world refl (inl refl) (empty-Once news_world refl refl)
