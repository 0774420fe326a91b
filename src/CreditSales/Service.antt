-- ===== src/CreditSales/Service.antt =====
-- app/modules/credit_sales/service.py, `CreditSaleService`. `commit` changes nothing that one
-- session sees, and is not written; what is returned is the row, not its serialised form.
use chat_to_sales.Conversations.Repository.{duplicate_of, save_message, NewMessage}
use chat_to_sales.Session.{
  max_reminders_sent, no_conversation, not_active, not_found, raise_if, ◌>>◌, gets, pure, publish,
  ◌>>=◌, or_raise, Action,
}
use chat_to_sales.Base.{leb, not, none, ℕ, Option, some, String}
use chat_to_sales.Models.{
  Content, MessageSender, credit_sale_status_changed, written_off, disputed, settled, active,
  CreditSaleStatus, Env, CreditSale,
}
use chat_to_sales.CreditSales.Repository.{
  get_by_order_id, get_sale, is_active_sale, create, increment_reminder, update_sale_status,
}

-- `CreditSaleCreate`; the schema wants an amount above zero and at least one reminder.
pub record CreditSaleCreate : Type 0 where
  pub order_id : String
  pub conversation_id : Option String
  pub customer_name : String
  pub amount : ℕ
  pub currency : String
  pub due_date : Option ℕ
  pub reminder_interval_days : ℕ
  pub max_reminders : ℕ
  pub notes : Option String

abbrev pub new_sale : Env → String → CreditSaleCreate → CreditSale
new_sale e tenant_id b = record {
  id = e.fresh_id;
  tenant_id = tenant_id;
  order_id = some b.order_id;
  conversation_id = b.conversation_id;
  customer_name = b.customer_name;
  amount = b.amount;
  currency = b.currency;
  due_date = b.due_date;
  status = active;
  notes = b.notes;
  reminder_interval_days = b.reminder_interval_days;
  max_reminders = b.max_reminders;
  reminders_sent = 0;
  last_reminded_at = none;
  created_at = e.now;
}

-- The branch on the sale that the order already has.
unfoldable pub create_unless_found : CreditSale → Option CreditSale → Action CreditSale
unfolding create
create_unless_found c (some existing) = pure existing
create_unless_found c none = do create c; pure c

unfoldable pub create_credit_sale : Env → String → CreditSaleCreate → Action CreditSale
unfolding create_unless_found
create_credit_sale e tenant_id b = do
  existing ← gets (get_by_order_id b.order_id tenant_id)
  create_unless_found (new_sale e tenant_id b) existing

unfoldable pub get_credit_sale : String → String → Action CreditSale
get_credit_sale id tenant_id = do
  or_raise (← gets (get_sale id tenant_id)) (not_found "CreditSale" id)

abbrev pub publish_status_changed : CreditSale → CreditSaleStatus → String → Action (Unit {0})
publish_status_changed c s tenant_id =
    publish (credit_sale_status_changed tenant_id c.id c.order_id s)

-- `settle`, `dispute` and `write_off` differ in the status alone.
unfoldable pub change_status : CreditSaleStatus → String → String → Action CreditSale
unfolding get_credit_sale update_sale_status
change_status s id tenant_id = do
  found ← get_credit_sale id tenant_id
  changed ← update_sale_status found s
  publish_status_changed changed s tenant_id
  pure changed

unfoldable pub settle : String → String → Action CreditSale
unfolding change_status
settle = change_status settled

unfoldable pub dispute : String → String → Action CreditSale
unfolding change_status
dispute = change_status disputed

unfoldable pub write_off : String → String → Action CreditSale
unfolding change_status
write_off = change_status written_off

abbrev pub reminder_message : String → String → CreditSale → NewMessage
reminder_message conversation tenant_id c = record {
  conversation_id = conversation;
  tenant_id = tenant_id;
  sender_role = MessageSender.assistant;
  content = Content.reminder c.customer_name c.currency c.amount;
  external_id = none;
  sender_identifier = none;
}

unfoldable pub send_reminder : Env → String → String → Action CreditSale
unfolding get_credit_sale increment_reminder is_active_sale save_message duplicate_of
send_reminder e id tenant_id = do
  c ← get_credit_sale id tenant_id
  raise_if (not (is_active_sale c.status)) not_active
  conversation ← or_raise c.conversation_id no_conversation
  raise_if (leb c.max_reminders c.reminders_sent) max_reminders_sent
  save_message e (reminder_message conversation tenant_id c)
  increment_reminder e c
