-- ===== src/Notifications/Service.antt =====
-- app/modules/notifications/repository.py and service.py, with the lookup of the sender's channel in
-- app/modules/channels/repository.py. The post to the provider is the parameter `provider`.
use chat_to_sales.Session.{provider_error, not_found, ok, err, Result}
use chat_to_sales.Base.{
  ◌+◌, none, ◌&&◌, [], ◌∷◌, has_key, str_eq, ◌++◌, update_where, some, if◌then◌else◌, text_or,
  find?, List, Option, String, ℕ,
}
use chat_to_sales.World.{Attachment, Button, begin, World, Sending, Delivery, Provider}
use chat_to_sales.Models.{Db, Content, NotificationStatus, Notification, TenantChannel, Env}

abbrev pub event_of : Notification → String
event_of n = n.event_id

-- The column `event_id` is unique, so at most one row fits.
unfoldable pub get_by_event_id : String → Db → Option Notification
get_by_event_id event_id db = find? (has_key event_of event_id) db.notifications

unfoldable pub get_by_tenant_and_channel : String → String → Db → Option TenantChannel
get_by_tenant_and_channel tenant_id channel db =
    find? (λ c. str_eq c.tenant_id tenant_id && str_eq c.channel channel) db.channels

-- The arguments of the two sending methods.
pub record Notice : Type 0 where
  pub tenant_id : String
  pub event_id : String
  pub recipient : String
  pub message_text : Content
  pub channel : String
  pub order_id : Option String
  pub channel_tenant_id : Option String
  pub attachment : Attachment

abbrev pub new_notification : Env → Notice → Notification
new_notification e n = record {
  id = e.fresh_id;
  tenant_id = n.tenant_id;
  event_id = n.event_id;
  recipient = n.recipient;
  channel = n.channel;
  message_text = n.message_text;
  status = NotificationStatus.pending;
  order_id = n.order_id;
}

unfoldable pub create_notification : Env → Notice → Db → Db
create_notification e n db = record db {
  notifications = db.notifications ++ new_notification e n ∷ [];
}

abbrev pub with_notification_status : NotificationStatus → Notification → Notification
with_notification_status s n = record n { status = s }

-- `update_status`, on the row with the event's key.
unfoldable pub mark_notification : String → NotificationStatus → Db → Db
mark_notification event_id s db = record db {
  notifications =
      update_where (has_key event_of event_id) (with_notification_status s) db.notifications;
}

abbrev pub delivery : Notice → TenantChannel → Delivery
delivery n c = record {
  event_id = n.event_id;
  via = c.phone_number_id;
  to = n.recipient;
  content = n.message_text;
  attachment = n.attachment;
}

-- `caption or "[image]"`
abbrev pub captioned : Option String → String → Content
captioned caption fallback = Content.text (text_or caption fallback)

module _ (provider : Provider) where
  -- The post and its answer.
  unfoldable pub post : Delivery → Sending (Unit {0})
  post d w =
      if provider w.posts d
      then (ok tt, record w { delivered = w.delivered ++ d ∷ []; posts = w.posts + 1 })
      else (err provider_error, record w { posts = w.posts + 1 })

  unfoldable pub dispatch_via : Notice → Option TenantChannel → Sending (Unit {0})
  unfolding post
  dispatch_via n none w = (err (not_found "WhatsApp channel" n.tenant_id), w)
  dispatch_via n (some c) w = post (delivery n c) w

  -- `_dispatch_whatsapp`, `_dispatch_whatsapp_interactive` and `_dispatch_whatsapp_image`, which
  -- differ in the attachment that the body of the post carries. The
  -- credentials are those of `channel_tenant_id or tenant_id`.
  unfoldable pub dispatch_whatsapp : Notice → Sending (Unit {0})
  unfolding dispatch_via
  dispatch_whatsapp n w =
      dispatch_via n
        (get_by_tenant_and_channel (text_or n.channel_tenant_id n.tenant_id) "whatsapp" w.db) w

  -- `if channel == "whatsapp": ... else: logger.info(...)`
  unfoldable pub dispatch : Notice → Sending (Unit {0})
  unfolding dispatch_whatsapp
  dispatch n w = if str_eq n.channel "whatsapp" then dispatch_whatsapp n w else (ok tt, w)

  -- After the dispatch: the row becomes SENT, or FAILED and the error goes on.
  unfoldable pub finish : Notice → Result (Unit {0}) × World → Result (Unit {0}) × World
  unfolding mark_notification
  finish n (ok a, w) =
      (ok tt, record w { db = mark_notification n.event_id NotificationStatus.sent w.db })
  finish n (err x, w) =
      (err x, record w { db = mark_notification n.event_id NotificationStatus.failed w.db })

  unfoldable pub send_unless : Env → Notice → Option Notification → Sending (Unit {0})
  unfolding dispatch finish create_notification
  send_unless e n (some existing) w = (ok tt, w)
  send_unless e n none w = finish n (dispatch n (record w { db = create_notification e n w.db }))

  -- `send_message`, of a notice with any attachment.
  unfoldable pub send_message : Env → Notice → Sending (Unit {0})
  unfolding send_unless
  send_message e n w = send_unless e n (get_by_event_id n.event_id w.db) w

  -- Every caller sends in a transaction of its own.
  unfoldable pub send_in_transaction : Env → Notice → Sending (Unit {0})
  unfolding send_message
  send_in_transaction e n = begin (send_message e n)

  -- `send_interactive`: the same method, with buttons.
  unfoldable pub send_interactive : Env → Notice → List Button → Sending (Unit {0})
  unfolding send_message
  send_interactive e n buttons =
      send_message e (record n { attachment = Attachment.interactive buttons })

  -- `send_list`: the same method, with a list to pick from under a button.
  unfoldable pub send_list :
      Env → Notice → String → List (String × List Button) → Sending (Unit {0})
  unfolding send_message
  send_list e n button_label sections =
      send_message e (record n { attachment = Attachment.list_picker button_label sections })

  -- `send_image`; the provider's key of the sent message is not kept.
  unfoldable pub send_image : Env → Notice → String → Option String → Sending (Unit {0})
  unfolding send_message
  send_image e n media_id caption = send_message e (record n {
    message_text = captioned caption "[image]";
    attachment = Attachment.image media_id caption;
  })

-- How a post of an image or a video by address ends: a response that is a success, another response,
-- an exception before the provider took the message (a timeout, a lost connection, a token that cannot be
-- read), and an exception after it (a timeout, a body that is not JSON).
pub data UrlAnswer : Type 0 where
  accepted refused lost cut_off : UrlAnswer

-- The answer to the n-th post, which may be anything.
abbrev pub Answers : Type 0
Answers = ℕ → Delivery → UrlAnswer

abbrev pub counted : World → World
counted w = record w { posts = w.posts + 1 }

abbrev pub taken : Delivery → World → World
taken d w = record w { delivered = w.delivered ++ d ∷ []; posts = w.posts + 1 }

-- A response that is no success is only logged.
unfoldable pub after_answer : Delivery → World → UrlAnswer → Result (Unit {0}) × World
after_answer d w accepted = (ok tt, taken d w)
after_answer d w refused = (ok tt, counted w)
after_answer d w lost = (err provider_error, counted w)
after_answer d w cut_off = (err provider_error, taken d w)

-- After the dispatch: the row becomes SENT, or FAILED with a log line; the error does not go on.
unfoldable pub finish_url : Notice → Result (Unit {0}) × World → Result (Unit {0}) × World
unfolding mark_notification
finish_url n (ok a, w) =
    (ok tt, record w { db = mark_notification n.event_id NotificationStatus.sent w.db })
finish_url n (err x, w) =
    (ok tt, record w { db = mark_notification n.event_id NotificationStatus.failed w.db })

module _ (answers : Answers) where
  -- `_dispatch_whatsapp_image_url`, and the same steps inside `send_video_url`: without a channel
  -- nothing is posted.
  unfoldable pub try_post : Notice → Option TenantChannel → Sending (Unit {0})
  unfolding after_answer
  try_post n none w = (ok tt, w)
  try_post n (some c) w = after_answer (delivery n c) w (answers w.posts (delivery n c))

  unfoldable pub dispatch_url : Notice → Sending (Unit {0})
  unfolding try_post
  dispatch_url n w =
      if str_eq n.channel "whatsapp"
      then try_post n
          (get_by_tenant_and_channel (text_or n.channel_tenant_id n.tenant_id) "whatsapp" w.db) w
      else (ok tt, w)

  -- The common body of `send_image_url` and `send_video_url`.
  unfoldable pub send_url_unless : Env → Notice → Option Notification → Sending (Unit {0})
  unfolding dispatch_url finish_url create_notification
  send_url_unless e n (some existing) w = (ok tt, w)
  send_url_unless e n none w =
      finish_url n (dispatch_url n (record w { db = create_notification e n w.db }))

  unfoldable pub send_url : Env → Notice → Sending (Unit {0})
  unfolding send_url_unless
  send_url e n w = send_url_unless e n (get_by_event_id n.event_id w.db) w

  unfoldable pub send_image_url : Env → Notice → String → Option String → Sending (Unit {0})
  unfolding send_url
  send_image_url e n url caption = send_url e (record n {
    message_text = captioned caption "[image]";
    attachment = Attachment.image_url url caption;
  })

  unfoldable pub send_video_url : Env → Notice → String → Option String → Sending (Unit {0})
  unfolding send_url
  send_video_url e n url caption = send_url e (record n {
    message_text = captioned caption "[video]";
    attachment = Attachment.video_url url caption;
  })
