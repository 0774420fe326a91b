-- ===== src/Models.antt =====
-- The rows of the database (app/modules/*/models.py), as records with one field for each column
-- that the modelled code reads or writes, and the tables together with the published events.
-- Identifiers, phone numbers and names are texts; an instant is a number of seconds.
mod Rows
mod Events
mod Messaging
mod Dialogue
pub use Rows.*
pub use Events.*
pub use Dialogue.*
pub use Messaging.{
  Conversation, ConversationStatus, MessageSender, Content, Message, MessageReaction,
  ScheduledMessage, ScheduledStatus, TenantChannel, Notification, NotificationStatus, Trader,
  OnboardingStatus, InterestEvent, Broadcast, BroadcastStatus, BroadcastRecipient, RecipientStatus,
}
use chat_to_sales.Base.{ℕ, String, List, Option}

-- The state that one database session sees, and what has been published on the event bus.
pub record Db : Type 0 where
  pub orders : List Order
  pub items : List OrderItem
  pub payments : List Payment
  pub credit_sales : List CreditSale
  pub customers : List CustomerListEntry
  pub referrals : List Referral
  pub conversations : List Conversation
  pub messages : List Message
  pub reactions : List MessageReaction
  pub scheduled : List ScheduledMessage
  pub channels : List TenantChannel
  pub notifications : List Notification
  pub traders : List Trader
  pub interests : List InterestEvent
  pub broadcasts : List Broadcast
  pub recipients : List BroadcastRecipient
  pub events : List Event

-- What the environment hands to one call: a fresh `uuid4` and the clock.
pub record Env : Type 0 where
  pub fresh_id : String
  pub now : ℕ
