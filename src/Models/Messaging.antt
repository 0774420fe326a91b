-- ===== src/Models/Messaging.antt =====
-- The rows of messaging: app/modules/conversation/models.py, notifications/models.py,
-- channels/models.py, marketing/models.py and marketing/followup.py, with the traders of
-- onboarding/models.py.
use chat_to_sales.Base.{ℕ, ℤ, String, Option, Bool}
use chat_to_sales.Models.Dialogue.{Reply}

pub data ConversationStatus : Type 0 where
  active resolved escalated : ConversationStatus

pub record Conversation : Type 0 where
  pub id : String
  pub tenant_id : String
  pub channel : String
  pub customer_id : Option String
  pub customer_identifier : String
  pub customer_name : Option String
  pub status : ConversationStatus
  pub assigned_to_user_id : Option String
  pub created_at : ℕ

pub data MessageSender : Type 0 where
  user assistant system : MessageSender

-- A text that comes from outside, or a template with the values that it is filled with.
pub data Content : Type 0 where
  text : String → Content
  -- CreditSaleService.send_reminder: customer, currency, amount
  reminder : String → String → ℕ → Content
  -- order_reminder_to_trader: customer phone and name, total, order, hours
  order_reminder : String → Option String → ℤ → String → ℕ → Content
  -- debt_customer_reminded_notification: customer, amount, reminders sent
  customer_reminded : String → ℕ → ℕ → Content
  -- debt_reminder_to_trader: customer, amount, days
  debt_reminder : String → ℕ → ℕ → Content
  -- the templates of notifications/handlers.py: order
  order_created_text order_confirmed_text order_paid_text payment_confirmed_text : String → Content
  -- followup_to_customer: customer, product, price, trader
  followup : Option String → String → Option ℕ → String → Content
  -- followup_notification_to_trader: customer, phone, product
  followup_notification : Option String → String → String → Content
  -- a reply of the dialogue with a customer
  from_template : Reply → Content

pub record Message : Type 0 where
  pub id : String
  pub conversation_id : String
  pub tenant_id : String
  pub sender_role : MessageSender
  pub sender_identifier : Option String
  pub content : Content
  pub external_id : Option String

pub record MessageReaction : Type 0 where
  pub message_id : String
  pub tenant_id : String
  pub user_id : String
  pub emoji : String

pub data ScheduledStatus : Type 0 where
  pending sent cancelled : ScheduledStatus

pub record ScheduledMessage : Type 0 where
  pub id : String
  pub tenant_id : String
  pub conversation_id : String
  pub content : String
  pub scheduled_for : ℕ
  pub status : ScheduledStatus

-- The access token is only handed to the provider, and is left out.
pub record TenantChannel : Type 0 where
  pub tenant_id : String
  pub channel : String
  pub phone_number_id : String

pub data NotificationStatus : Type 0 where
  pending sent failed : NotificationStatus

pub record Notification : Type 0 where
  pub id : String
  pub tenant_id : String
  pub event_id : String
  pub recipient : String
  pub channel : String
  pub message_text : Content
  pub status : NotificationStatus
  pub order_id : Option String

pub data OnboardingStatus : Type 0 where
  in_progress complete : OnboardingStatus

-- The catalogue is the JSON text of its column.
pub record Trader : Type 0 where
  pub phone_number : String
  pub tenant_id : Option String
  pub business_name : Option String
  pub store_slug : Option String
  pub referral_code : Option String
  pub onboarding_status : OnboardingStatus
  pub onboarding_catalogue : Option String

pub record InterestEvent : Type 0 where
  pub id : String
  pub tenant_id : String
  pub trader_phone : String
  pub customer_phone : String
  pub customer_name : Option String
  pub product_name : String
  pub price : Option ℕ
  pub event_type : String
  pub followed_up : Bool
  pub followed_up_at : Option ℕ
  pub converted : Bool
  pub order_id : Option String
  pub created_at : ℕ

pub data BroadcastStatus : Type 0 where
  draft sending sent paused failed : BroadcastStatus

pub record Broadcast : Type 0 where
  pub id : String
  pub trader_phone : String
  pub segment : String
  pub message_text : Content
  pub sent_count : ℕ
  pub status : BroadcastStatus
  pub completed_at : Option ℕ

pub data RecipientStatus : Type 0 where
  pending sent delivered read replied opted_out skipped : RecipientStatus

-- The reason of a skip is kept as the number of days in its text.
pub record BroadcastRecipient : Type 0 where
  pub id : String
  pub broadcast_id : String
  pub customer_phone : String
  pub status : RecipientStatus
  pub sent_at : Option ℕ
  pub skipped_after : Option ℕ
