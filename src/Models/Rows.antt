-- ===== src/Models/Rows.antt =====
-- The tables' rows: app/modules/orders/models.py, payments/models.py, credit_sales/models.py,
-- marketing/models.py and marketing/referrals.py.
use chat_to_sales.Base.{ℕ, ℤ, String, Option, Bool}

pub data OrderState : Type 0 where
  inquiry confirmed paid failed : OrderState

pub record Order : Type 0 where
  pub id : String
  pub tenant_id : String
  pub conversation_id : String
  pub customer_id : Option String
  pub customer_phone : Option String
  pub customer_name : Option String
  pub trader_phone : Option String
  pub state : OrderState
  pub amount : Option ℤ
  pub currency : String
  pub is_credit : Bool
  pub reminder_sent_at : Option ℕ
  pub created_at : ℕ

-- The generated key of an item is never read, and is left out.
pub record OrderItem : Type 0 where
  pub order_id : String
  pub product_name : String
  pub quantity : ℕ
  pub unit_price : ℤ

pub data PaymentStatus : Type 0 where
  pending success failed : PaymentStatus

pub record Payment : Type 0 where
  pub id : String
  pub tenant_id : String
  pub order_id : String
  pub reference : String
  pub amount : ℤ
  pub currency : String
  pub status : PaymentStatus
  pub provider : String
  pub payment_link : Option String
  pub created_at : ℕ

pub data CreditSaleStatus : Type 0 where
  active settled disputed written_off : CreditSaleStatus

-- The amount is a number of hundredths, above zero by the request's schema.
pub record CreditSale : Type 0 where
  pub id : String
  pub tenant_id : String
  pub order_id : Option String
  pub conversation_id : Option String
  pub customer_name : String
  pub amount : ℕ
  pub currency : String
  pub due_date : Option ℕ
  pub status : CreditSaleStatus
  pub notes : Option String
  pub reminder_interval_days : ℕ
  pub max_reminders : ℕ
  pub reminders_sent : ℕ
  pub last_reminded_at : Option ℕ
  pub created_at : ℕ

pub record CustomerListEntry : Type 0 where
  pub tenant_id : String
  pub trader_phone : String
  pub customer_phone : String
  pub customer_name : Option String
  pub total_orders : ℕ
  pub total_spend : ℤ
  pub first_order_date : Option ℕ
  pub last_order_date : Option ℕ
  pub opted_out : Bool
  pub opted_out_at : Option ℕ
  pub last_broadcast_at : Option ℕ

pub data ReferralStatus : Type 0 where
  signed_up first_order active_30d converted : ReferralStatus

pub record Referral : Type 0 where
  pub referrer_phone : Option String
  pub agent_code : Option String
  pub referred_phone : String
  pub referred_name : Option String
  pub attribution_type : String
  pub status : ReferralStatus
  pub first_order_at : Option ℕ
  pub active_30d_at : Option ℕ
  pub converted_at : Option ℕ
