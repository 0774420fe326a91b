-- ===== src/Orders/Dialogue.antt =====
-- app/modules/orders/service.py: what the dialogue with a customer is about. The sessions that are kept
-- in Redis, what the parsers of app/modules/orders/nlp.py answer, and the setting of one call: the
-- stores, the provider, the clock and the fresh keys, the parsers, which may answer anything, and
-- Python's readings of a text. Prices are whole naira.
pub mod Replies
pub mod Quantity
pub mod Confirmation
pub mod Question
pub mod Placing
pub mod Customer
pub mod Haggling
pub mod Handler
pub mod Talks
pub mod Walks
pub mod AnswerWalks
pub mod OrderWalks
pub mod Safety
pub mod Placed
pub mod Answers
pub mod Prices
pub mod Bargains
pub mod Samples
mod Tests
use chat_to_sales.Redis.{Json, Redis}
use chat_to_sales.World.{Provider, World}
use chat_to_sales.Base.{true, none, ℤ, Option, ℕ, [], Bool, List, String, false}
use chat_to_sales.Models.{Env, Line, Content}

-- The order that a session is about, and what the customer is asked to confirm.
pub record Summary : Type 0 where
  pub order_id : Option String
  pub items : List Line
  pub total : ℤ
  pub media_id : Option String

-- An entry of the numbered list in a question.
pub record Numbered : Type 0 where
  pub index : ℕ
  pub name : String
  pub price : ℕ

pub record Clarification : Type 0 where
  pub original_message : String
  pub bot_reply : String
  pub numbered_items : List Numbered

-- AWAITING_CUSTOMER_CONFIRMATION and AWAITING_CLARIFICATION, with the keys that each state has.
pub data OrderSession : Type 0 where
  awaiting_confirmation : Summary → OrderSession
  awaiting_clarification : Clarification → OrderSession

-- What `set_pending_negotiation` keeps.
pub record Negotiation : Type 0 where
  pub offered_price : ℕ
  pub original_price : ℤ
  pub product_name : String
  pub items : List Line
  pub order_id : Option String
  pub tenant_id : String
  pub channel_tenant_id : Option String

-- The intents on which the dialogue with a customer depends; the trader's commands are one.
pub data Intent : Type 0 where
  order confirm cancel negotiation ignore chitchat payment_sent unknown trader_command : Intent

-- An item as it is parsed, with the price if there was one.
pub record ParsedItem : Type 0 where
  pub name : String
  pub qty : ℕ
  pub unit_price : Option ℕ

-- The confidence is kept as the two tests that are made of it.
pub record ParseResult : Type 0 where
  pub intent : Intent
  pub items : List ParsedItem
  pub clarification_needed : Bool
  pub clarification_question : Option String
  pub no_confidence : Bool

abbrev pub unknown_result : ParseResult
unknown_result = record {
  intent = Intent.unknown;
  items = [];
  clarification_needed = false;
  clarification_question = none;
  no_confidence = true;
}

-- The dictionary of a trader, as far as the dialogue reads it.
pub record TraderInfo : Type 0 where
  pub business_name : String
  pub business_category : String
  pub catalogue : List (String × ℕ)
  pub phone_number : String

-- The arguments of `handle_inbound_customer_message`.
pub record Incoming : Type 0 where
  pub tenant_id : String
  pub conversation_id : String
  pub customer_phone : String
  pub message : String
  pub message_id : String
  pub trader : TraderInfo
  pub channel_tenant_id : Option String
  pub customer_name : Option String

-- A turn of the history that the parser is given.
pub record Said : Type 0 where
  pub by_assistant : Bool
  pub content : Content

pub record Setting : Type 1 where
  pub redis : Redis
  pub session_json : Json OrderSession
  pub clarification_json : Json Clarification
  pub negotiation_json : Json Negotiation
  pub provider : Provider
  -- the key of the row that is made under an event or for an order
  pub keys : String → String
  -- the key of a new order, and the clock
  pub env : Env
  pub layer1 : String → ParseResult
  -- with the category and the catalogue
  pub parse_message : String → String → List (String × ℕ) → ParseResult
  -- with the history too; it may raise
  pub smart_parse_customer_message :
      String → String → List (String × ℕ) → List Said → Option ParseResult
  -- the regular expression on a question of the assistant
  pub numbered_in : String → List Numbered
  -- `strip().upper()`
  pub strip_upper : String → String
  -- `strip().lower().split()`
  pub lower_words : String → List String
  -- `re.search(r"\b(\d+)\b", ...)`
  pub first_number : String → Option ℕ
  -- `re.match(r"^\s*(\d{1,3})\s*$", ...)`
  pub lone_number : String → Option ℕ
  -- `int(text.split("_")[1])`, if that raises nothing
  pub after_underscore : String → Option ℤ
  -- `str.lower`, and `needle in text`
  pub lower : String → String
  pub is_in : String → String → Bool

-- What one call sees and changes: the database with what went out, and Redis.
pub record Chat (S : Setting) : Type 0 where
  pub world : World
  pub store : S.redis.Store
