-- ===== src/Notifications/Tests.antt =====
-- The theorems on notifications at concrete inputs.
use chat_to_sales.Notifications.Handlers.Recipients.{notify_lem, Customer}
use mathlib.Core.List.{Memᴰ}
use chat_to_sales.Notifications.Handlers.{notify}
use chat_to_sales.Notifications.Media.{send_url_lem, status_after, went_out}
use chat_to_sales.Models.{OrderState, ConversationStatus, Conversation, Event, Env, Content}
use chat_to_sales.Notifications.Outcomes.{with_row}
use chat_to_sales.Session.{ok}
use chat_to_sales.Base.{◌==◌, str_eq, ◌++◌, if◌then◌else◌, ◌⊎◌, List, none, refl, [], ◌≡◌, ◌∷◌}
use chat_to_sales.Samples.{
  sample_db, sample_channel, later_env, sample_env, flaky_provider, sample_world,
}
use chat_to_sales.World.{Delivery, begin, Attachment, World}
use chat_to_sales.Notifications.Once.{SendCall, empty-Once, Once}
use chat_to_sales.Notifications.Service.{
  get_by_tenant_and_channel, delivery, Answers, UrlAnswer, send_url, Notice, get_by_event_id,
}

abbrev hello : Notice
hello = record {
  tenant_id = "t0";
  event_id = "e1";
  recipient = "0802";
  message_text = Content.text "Hello";
  channel = "whatsapp";
  order_id = none;
  channel_tenant_id = none;
  attachment = Attachment.plain;
}

abbrev three_calls : List (SendCall × Env × Notice)
three_calls =
    (SendCall.message, sample_env, hello)
    ∷ (SendCall.message, later_env, hello)
    ∷ (SendCall.image_url "https://img" none, later_env, hello)
    ∷ []

-- The first post ends in an exception after the provider took it, and all others before.
abbrev cut_off_first : Answers
cut_off_first i d = if i == 0 then UrlAnswer.cut_off else UrlAnswer.lost

-- The first post is lost; later ones would be accepted.
abbrev lost_first : Answers
lost_first i d = UrlAnswer.lost

abbrev lost_never : Answers
lost_never i d = UrlAnswer.accepted

send_url_lem_example :
    let w' = (begin (send_url lost_first sample_env hello) sample_world).1 in
    ((begin (send_url lost_first sample_env hello) sample_world).0 ≡ ok tt)
    × (w'.db ≡ with_row (status_after UrlAnswer.lost) sample_env hello sample_world.db)
    × (w'.delivered ≡ (
        if went_out UrlAnswer.lost
        then sample_world.delivered ++ delivery hello sample_channel ∷ []
        else sample_world.delivered))
    × (begin (send_url lost_never later_env hello) w' ≡ (ok tt, w'))
unfolding get_by_event_id str_eq
send_url_lem_example =
    send_url_lem lost_first lost_never sample_env later_env hello sample_channel sample_world refl
      refl (unfold get_by_tenant_and_channel in refl)

abbrev known_customer : Conversation
known_customer = record {
  id = "conv-1";
  tenant_id = "t1";
  channel = "whatsapp";
  customer_id = none;
  customer_identifier = "0802";
  customer_name = none;
  status = ConversationStatus.active;
  assigned_to_user_id = none;
  created_at = 5;
}

abbrev connected_world : World
connected_world = record {
  db = record sample_db {
    conversations = known_customer ∷ [];
    channels = record sample_channel { tenant_id = "t1" } ∷ [];
  };
  delivered = [];
  posts = 1;
}

abbrev order_paid_event : Event
order_paid_event = Event.order_state_changed "t1" "o1" "conv-1" OrderState.confirmed OrderState.paid

notify_lem_example :
    let w' = (notify flaky_provider sample_env "e7" order_paid_event connected_world).1 in
    Once w'
    × ((d : Delivery)
        → Memᴰ d w'.delivered
        → Memᴰ d connected_world.delivered
          ⊎ (Customer "t1" connected_world.db d.to × (d.event_id ≡ "e7")))
notify_lem_example =
    notify_lem flaky_provider sample_env "e7" order_paid_event connected_world
      (empty-Once connected_world refl refl)
