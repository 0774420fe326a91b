-- ===== src/Samples.antt =====
-- Sample rows and a sample database for the tests.
use chat_to_sales.World.{Provider, World}
use chat_to_sales.Base.{ltb, append_text, false, [], none, pos, some, ◌∷◌, String}
use chat_to_sales.Models.{
  OnboardingStatus, TenantChannel, Trader, active, signed_up, pending, OrderState, confirmed, paid,
  Referral, Payment, CreditSale, Db, Order, Env,
}

abbrev pub sample_env : Env
sample_env = record { fresh_id = "id-9"; now = 1000 }

abbrev pub later_env : Env
later_env = record { fresh_id = "id-10"; now = 2000 }

abbrev pub sample_order : String → OrderState → Order
sample_order id s = record {
  id = id;
  tenant_id = "t1";
  conversation_id = "conv-1";
  customer_id = none;
  customer_phone = some "0802";
  customer_name = some "Ada";
  trader_phone = some "0801";
  state = s;
  amount = some (pos 150000);
  currency = "NGN";
  is_credit = false;
  reminder_sent_at = none;
  created_at = 10;
}

abbrev pub confirmed_order : Order
confirmed_order = sample_order "o1" confirmed

abbrev pub paid_order : Order
paid_order = sample_order "o2" paid

abbrev pub pending_payment : Payment
pending_payment = record {
  id = "p1";
  tenant_id = "t1";
  order_id = "o1";
  reference = "CTS-1";
  amount = pos 150000;
  currency = "NGN";
  status = pending;
  provider = "paystack";
  payment_link = some "https://paystack.mock/pay/CTS-1";
  created_at = 20;
}

abbrev pub active_sale : CreditSale
active_sale = record {
  id = "c1";
  tenant_id = "t1";
  order_id = some "o1";
  conversation_id = some "conv-1";
  customer_name = "ada";
  amount = 150050;
  currency = "NGN";
  due_date = none;
  status = active;
  notes = none;
  reminder_interval_days = 3;
  max_reminders = 2;
  reminders_sent = 0;
  last_reminded_at = none;
  created_at = 30;
}

abbrev pub signed_up_referral : Referral
signed_up_referral = record {
  referrer_phone = some "0803";
  agent_code = none;
  referred_phone = "0801";
  referred_name = some "Mama Caro";
  attribution_type = "trader";
  status = signed_up;
  first_order_at = none;
  active_30d_at = none;
  converted_at = none;
}

abbrev pub sample_channel : TenantChannel
sample_channel = record { tenant_id = "t0"; channel = "whatsapp"; phone_number_id = "700" }

abbrev pub sample_trader : Trader
sample_trader = record {
  phone_number = "0801";
  tenant_id = some "t1";
  business_name = some "Mama Caro";
  store_slug = some "mama-caro";
  referral_code = some "REF-MAMA-CARO";
  onboarding_status = OnboardingStatus.complete;
  onboarding_catalogue = some "{\"Rice\": 500}";
}

-- A database with a confirmed and a paid order, without payments.
abbrev pub sample_db : Db
sample_db = record {
  orders = confirmed_order ∷ paid_order ∷ [];
  items = [];
  payments = [];
  credit_sales = active_sale ∷ [];
  customers = [];
  referrals = signed_up_referral ∷ [];
  conversations = [];
  messages = [];
  reactions = [];
  scheduled = [];
  channels = sample_channel ∷ [];
  notifications = [];
  traders = sample_trader ∷ [];
  interests = [];
  broadcasts = [];
  recipients = [];
  events = [];
}

-- The same with a pending payment of the confirmed order.
abbrev pub checkout_db : Db
checkout_db = record sample_db { payments = pending_payment ∷ [] }

-- Nothing has been sent yet.
abbrev pub sample_world : World
sample_world = record { db = sample_db; delivered = []; posts = 0 }

-- A provider that refuses the first post and accepts the later ones.
abbrev pub flaky_provider : Provider
flaky_provider n d = ltb 0 n

abbrev pub sample_keys : String → String
sample_keys event_id = append_text "id-" event_id
