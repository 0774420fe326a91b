-- ===== src/Orders/Dialogue/Samples.antt =====
-- A setting, a shop and messages for the tests. The JSON of the setting carries one session and one
-- offer, and its parsers give one answer.
use chat_to_sales.Redis.Entries.{entries}
use chat_to_sales.Samples.{sample_env, sample_keys, sample_db, sample_world, sample_order}
use chat_to_sales.Redis.{Carries, Json}
use chat_to_sales.World.{World}
use chat_to_sales.Base.{
  none, refl, ℕ, pos, [], ◌∷◌, some, List, Option, String, str_eq, true, false,
}
use chat_to_sales.Models.{Line, Order, OrderItem, inquiry}
use chat_to_sales.Orders.Dialogue.{
  Setting, Incoming, Negotiation, Clarification, Summary, TraderInfo, ParseResult, Intent,
  OrderSession,
}

abbrev pub constant_json : {D : Type 0} → D → Json D
constant_json d = record { dumps = λ x. "{}"; loads = λ s. d }

pub constant_json-Carries : {D : Type 0} (d : D) → Carries (constant_json d) d
unfolding str_eq
constant_json-Carries d = record { loads-dumps = refl; dumps_not_empty = refl }

abbrev pub sample_question : Clarification
sample_question = record {
  original_message = "rice?";
  bot_reply = "Do you mean the big bag?";
  numbered_items = [];
}

abbrev pub rice_lines : List Line
rice_lines = record { name = "Rice"; qty = 2; unit_price = 500 } ∷ []

-- The session of a new order of rice, under the key that `sample_env` draws.
abbrev pub rice_session : OrderSession
rice_session =
    OrderSession.awaiting_confirmation
      record { order_id = some "id-9"; items = rice_lines; total = pos 1000; media_id = none }

abbrev pub waiting_order : Order
waiting_order = sample_order "o3" inquiry

abbrev pub waiting_summary : Summary
waiting_summary = record {
  order_id = some "o3";
  items = rice_lines;
  total = pos 1000;
  media_id = none;
}

-- The offer of 800 for the order of 1000.
abbrev pub sample_offer : Negotiation
sample_offer = record {
  offered_price = 800;
  original_price = pos 1000;
  product_name = "Rice";
  items = rice_lines;
  order_id = some "o3";
  tenant_id = "t1";
  channel_tenant_id = some "t0";
}

abbrev pub answer_of : Intent → ParseResult
answer_of kind = record {
  intent = kind;
  items = [];
  clarification_needed = false;
  clarification_question = none;
  no_confidence = false;
}

-- A setting whose parsers find one intent, and where every message has the given number.
abbrev pub setting_of : Intent → Option ℕ → OrderSession → Setting
setting_of kind number session = record {
  redis = entries;
  session_json = constant_json session;
  clarification_json = constant_json sample_question;
  negotiation_json = constant_json sample_offer;
  provider = λ n d. true;
  keys = sample_keys;
  env = sample_env;
  layer1 = λ m. answer_of kind;
  parse_message = λ m category catalogue. answer_of kind;
  smart_parse_customer_message = λ m category catalogue history. some (answer_of kind);
  numbered_in = λ t. [];
  strip_upper = λ t. t;
  lower_words = λ t. [];
  first_number = λ t. number;
  lone_number = λ t. none;
  after_underscore = λ t. none;
  lower = λ t. t;
  is_in = str_eq;
}

abbrev pub rice_shop : TraderInfo
rice_shop = record {
  business_name = "Mama Caro";
  business_category = "food";
  catalogue = ("Rice", 500) ∷ [];
  phone_number = "0801";
}

abbrev pub message_from : String → Incoming
message_from words = record {
  tenant_id = "t1";
  conversation_id = "conv-1";
  customer_phone = "0802";
  message = words;
  message_id = "m1";
  trader = rice_shop;
  channel_tenant_id = some "t0";
  customer_name = some "Ada";
}

abbrev pub two_rice_item : OrderItem
two_rice_item = record {
  order_id = "o3";
  product_name = "Rice";
  quantity = 2;
  unit_price = pos 50000;
}

-- A world with one order, an inquiry with an item.
abbrev pub waiting_world : World
waiting_world = record sample_world {
  db = record sample_db { orders = waiting_order ∷ []; items = two_rice_item ∷ [] };
}
