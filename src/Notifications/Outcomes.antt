-- ===== src/Notifications/Outcomes.antt =====
-- What one sending transaction does, on every branch.
use chat_to_sales.Session.{provider_error, err, ok}
use chat_to_sales.Base.{
  ◌+◌, false, true, String, some, Option, text_or, refl, str_eq_self, str_eq, update_where-none,
  Bool-cases, has_key, inl, update_where-append, [], arith, none, ◌∷◌, inr, Option-cases, ◌++◌, ◌≡◌,
}
use chat_to_sales.Models.{TenantChannel, NotificationStatus, Notification, Db, Env}
use chat_to_sales.Notifications.Service.{
  delivery, get_by_tenant_and_channel, event_of, new_notification, with_notification_status,
  get_by_event_id, dispatch, send_in_transaction, Notice, create_notification, mark_notification,
}
use chat_to_sales.World.{Delivery, World, Provider}

-- The row that a notice leaves in a status.
abbrev pub row_in : NotificationStatus → Env → Notice → Notification
row_in s e n = with_notification_status s (new_notification e n)

abbrev pub with_row : NotificationStatus → Env → Notice → Db → Db
with_row s e n db = record db { notifications = db.notifications ++ row_in s e n ∷ [] }

abbrev pub with_sent_row : Env → Notice → Db → Db
with_sent_row = with_row NotificationStatus.sent

pub mark_row :
    (s : NotificationStatus) (e : Env) (n : Notice) (db : Db)
    → get_by_event_id n.event_id db ≡ none
    → mark_notification n.event_id s (create_notification e n db) ≡ with_row s e n db
unfolding mark_notification create_notification get_by_event_id
mark_row s e n db fresh =
    rw
      (
        update_where-append (has_key event_of n.event_id) (with_notification_status s)
            db.notifications (new_notification e n ∷ []),
        update_where-none (has_key event_of n.event_id) (with_notification_status s)
            db.notifications fresh,
        str_eq_self n.event_id,
      )
      refl

mark_created :
    (e : Env) (n : Notice) (db : Db)
    → get_by_event_id n.event_id db ≡ none
    → mark_notification n.event_id NotificationStatus.sent (create_notification e n db)
      ≡ with_sent_row e n db
mark_created e n db fresh = mark_row NotificationStatus.sent e n db fresh

-- One sending transaction either leaves the database and the deliveries as they were, or it was the
-- first for its event: then it leaves one row, SENT, and at most one message to the recipient.
pub data Sends (e : Env) (n : Notice) (w w' : World) : Type 0 where
  nothing : w'.db ≡ w.db → w'.delivered ≡ w.delivered → Sends e n w w'
  logged :
      get_by_event_id n.event_id w.db ≡ none
      → w'.db ≡ with_sent_row e n w.db
      → w'.delivered ≡ w.delivered
      → Sends e n w w'
  posted :
      (d : Delivery)
      → get_by_event_id n.event_id w.db ≡ none
      → d.event_id ≡ n.event_id
      → d.to ≡ n.recipient
      → d.content ≡ n.message_text
      → w'.db ≡ with_sent_row e n w.db
      → w'.delivered ≡ w.delivered ++ d ∷ []
      → Sends e n w w'

-- The channel that a notice goes out by; the row that was just made is not looked at.
abbrev pub sender : Notice → World → Option TenantChannel
sender n w = get_by_tenant_and_channel (text_or n.channel_tenant_id n.tenant_id) "whatsapp" w.db

sender_created :
    (e : Env) (n : Notice) (db : Db) (t : String)
    → get_by_tenant_and_channel t "whatsapp" (create_notification e n db)
      ≡ get_by_tenant_and_channel t "whatsapp" db
unfolding get_by_tenant_and_channel create_notification
sender_created e n db t = refl

module _ (provider : Provider) where
  pub send-Sends :
      (e : Env) (n : Notice) (w : World) → Sends e n w (send_in_transaction provider e n w).1
  unfolding send_in_transaction dispatch
  send-Sends e n w = elim (Option-cases (get_by_event_id n.event_id w.db)) [
    | inr (row, found) ↦
        nothing (ground (arith, sender_created e n w.db (text_or n.channel_tenant_id n.tenant_id)))
          (ground (arith, sender_created e n w.db (text_or n.channel_tenant_id n.tenant_id)))
    | inl fresh ↦ elim (Bool-cases (str_eq n.channel "whatsapp")) [
      | inr other ↦
          logged fresh
            (ground (
              arith,
              mark_created e n w.db fresh,
              sender_created e n w.db (text_or n.channel_tenant_id n.tenant_id),
            ))
            (ground (arith, sender_created e n w.db (text_or n.channel_tenant_id n.tenant_id)))
      | inl chat ↦ elim (Option-cases (sender n w)) [
        | inl alone ↦
            nothing
              (ground (arith, sender_created e n w.db (text_or n.channel_tenant_id n.tenant_id)))
              (ground (arith, sender_created e n w.db (text_or n.channel_tenant_id n.tenant_id)))
        | inr (c, connected) ↦ elim (Bool-cases (provider w.posts (delivery n c))) [
          | inr refused ↦
              nothing
                (ground (arith, sender_created e n w.db (text_or n.channel_tenant_id n.tenant_id)))
                (ground (arith, sender_created e n w.db (text_or n.channel_tenant_id n.tenant_id)))
          | inl accepted ↦
              posted (delivery n c) fresh refl refl refl
                (ground (
                  arith,
                  mark_created e n w.db fresh,
                  sender_created e n w.db (text_or n.channel_tenant_id n.tenant_id),
                ))
                (ground (arith, sender_created e n w.db (text_or n.channel_tenant_id n.tenant_id)))
        ]
      ]
    ]
  ]

  -- A notice of a new event over the chat channel, of a tenant that has one, whose post the provider
  -- accepts: the call succeeds, the message goes out and the event has its row.
  pub send_accepted :
      (e : Env) (n : Notice) (c : TenantChannel) (w : World)
      → get_by_event_id n.event_id w.db ≡ none
      → str_eq n.channel "whatsapp" ≡ true
      → sender n w ≡ some c
      → provider w.posts (delivery n c) ≡ true
      → send_in_transaction provider e n w ≡ (
        ok tt,
        record w {
          db = with_sent_row e n w.db;
          delivered = w.delivered ++ delivery n c ∷ [];
          posts = w.posts + 1;
        },
      )
  unfolding send_in_transaction dispatch
  send_accepted e n c w fresh chat connected accepted = ground (
    arith,
    mark_created e n w.db fresh,
    sender_created e n w.db (text_or n.channel_tenant_id n.tenant_id),
  )

  -- Where the provider refuses the post, the call raises and the database is as it was: the row that
  -- was marked FAILED is taken back with the transaction, so that a later call sends again.
  pub send_refused :
      (e : Env) (n : Notice) (c : TenantChannel) (w : World)
      → get_by_event_id n.event_id w.db ≡ none
      → str_eq n.channel "whatsapp" ≡ true
      → sender n w ≡ some c
      → provider w.posts (delivery n c) ≡ false
      → send_in_transaction provider e n w ≡ (err provider_error, record w { posts = w.posts + 1 })
  unfolding send_in_transaction dispatch
  send_refused e n c w fresh chat connected refused =
      ground (arith, sender_created e n w.db (text_or n.channel_tenant_id n.tenant_id))

  -- An event that has its row is not sent again.
  pub send_known :
      (e : Env) (n : Notice) (row : Notification) (w : World)
      → get_by_event_id n.event_id w.db ≡ some row
      → send_in_transaction provider e n w ≡ (ok tt, w)
  unfolding send_in_transaction
  send_known e n row w found =
      ground (arith, sender_created e n w.db (text_or n.channel_tenant_id n.tenant_id))

-- A sending transaction touches no table but the notifications.
pub Sends-rest :
    (e : Env) (n : Notice) (w w' : World)
    → Sends e n w w'
    → w'.db ≡ record w.db { notifications = w'.db.notifications }
Sends-rest e n w w' (nothing p q) = rw p refl
Sends-rest e n w w' (logged fresh p q) = rw p refl
Sends-rest e n w w' (posted d fresh same to content p q) = rw p refl
