-- ===== src/Orders/Dialogue/Question.antt =====
-- app/modules/orders/service.py: `_smart_parse`, and in `handle_inbound_customer_message` the answer to
-- a question (AWAITING_CLARIFICATION), which is a number of its list or is parsed with what was said.
use chat_to_sales.Orders.Dialogue.Replies.{drop_session}
use chat_to_sales.Base.{
  ◌==◌, zero, [], ◌-◌, ◌∷◌, str_eq, find?, select, none, ◌++◌, length, map, suc, if◌then◌else◌,
  some, List, Option, String, Bool, ℕ, true, false,
}
use chat_to_sales.Models.{Db, Message, Content, MessageSender}
use chat_to_sales.Orders.Dialogue.{
  Chat, unknown_result, Clarification, Incoming, ParseResult, Said, Numbered, Setting, Intent,
}

-- The last `n` of a list.
abbrev pub drop_first : ℕ → List Said → List Said
drop_first zero xs = xs
drop_first (suc n) [] = []
drop_first (suc n) (x ∷ xs) = drop_first n xs

abbrev pub last_of : ℕ → List Said → List Said
last_of n xs = drop_first (length xs - n) xs

abbrev pub is_assistant : MessageSender → Bool
is_assistant MessageSender.assistant = true
is_assistant _ = false

abbrev pub said : Message → Said
said m = record { by_assistant = is_assistant m.sender_role; content = m.content }

-- The last five messages of the conversation, in the order of their insertion.
unfoldable pub history_of : String → Db → List Said
history_of conversation_id db =
    last_of 5 (map said (select (λ m. str_eq m.conversation_id conversation_id) db.messages))

-- `if original: ...append(...)`
abbrev pub said_if : Bool → String → List Said
said_if by_assistant t =
    if str_eq t ""
    then []
    else record { by_assistant = by_assistant; content = Content.text t } ∷ []

-- `except Exception: result = ParseResult(intent=UNKNOWN, confidence=0.0)`
abbrev pub or_unknown : Option ParseResult → ParseResult
or_unknown none = unknown_result
or_unknown (some r) = r

-- The result that is made for an item of the list.
abbrev pub pick_result : Numbered → ParseResult
pick_result n = record {
  intent = Intent.order;
  items = record { name = n.name; qty = 1; unit_price = some n.price } ∷ [];
  clarification_needed = false;
  clarification_question = none;
  no_confidence = false;
}

unfoldable pub pick : Option ℕ → List Numbered → Option Numbered
pick none numbered_items = none
pick (some n) numbered_items = find? (λ it. it.index == n) numbered_items

module _ (S : Setting) (i : Incoming) where
  -- `_smart_parse`, caught
  unfoldable pub smart_parse : List Said → Chat S → ParseResult
  unfolding history_of
  smart_parse extra_history c = or_unknown (
      S.smart_parse_customer_message i.message i.trader.business_category i.trader.catalogue
        (extra_history ++ history_of i.conversation_id c.world.db))

  -- A number that is not in the list, a number without a list and any other text are parsed alike.
  unfoldable pub read_answer : Clarification → Option Numbered → Chat S → ParseResult
  unfolding smart_parse
  read_answer q (some n) c = pick_result n
  read_answer q none c =
      smart_parse (said_if false q.original_message ++ said_if true q.bot_reply) c

  unfoldable pub answered : Clarification → Chat S → ParseResult × Chat S
  unfolding read_answer pick
  answered q c = (
    read_answer q (pick (S.lone_number i.message) q.numbered_items) c,
    drop_session S i.tenant_id i.customer_phone c,
  )
