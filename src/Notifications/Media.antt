-- ===== src/Notifications/Media.antt =====
-- Images and videos by address: what their sending does on every branch. A failure of the post marks the row and
-- does not raise, so the row stays.
use chat_to_sales.Session.{Result, ok}
use chat_to_sales.Notifications.Outcomes.{row_in, with_row, sender, mark_row}
use chat_to_sales.Models.{Db, NotificationStatus, Notification, TenantChannel, Env}
use chat_to_sales.Base.{
  subst, sym, Bool-cases, Option-cases, str_eq_self, has_key, find?-append_none, inr, ◌∙◌, refl,
  ◌+◌, true, [], false, ◌∷◌, str_eq, some, ◌++◌, inl, none, if◌then◌else◌, Bool, ◌≡◌,
}
use chat_to_sales.World.{begin-ok, begin, World}
use chat_to_sales.Notifications.Service.{
  event_of, create_notification, delivery, finish_url, get_by_tenant_and_channel, get_by_event_id,
  dispatch_url, send_url, Notice, Answers, UrlAnswer, after_answer,
}

-- The status that an answer leads to, and whether the message went out.
abbrev pub status_after : UrlAnswer → NotificationStatus
status_after UrlAnswer.accepted = NotificationStatus.sent
status_after UrlAnswer.refused = NotificationStatus.sent
status_after UrlAnswer.lost = NotificationStatus.failed
status_after UrlAnswer.cut_off = NotificationStatus.failed

abbrev pub went_out : UrlAnswer → Bool
went_out UrlAnswer.accepted = true
went_out UrlAnswer.refused = false
went_out UrlAnswer.lost = false
went_out UrlAnswer.cut_off = true

-- One call leaves everything as it was, or it was the first for its event: then it leaves one row, SENT or
-- FAILED, and at most one message to the recipient.
pub data SendsUrl (e : Env) (n : Notice) (w w' : World) : Type 0 where
  known : w' ≡ w → SendsUrl e n w w'
  unposted :
      get_by_event_id n.event_id w.db ≡ none
      → w' ≡ record w { db = with_row NotificationStatus.sent e n w.db }
      → SendsUrl e n w w'
  url_answered :
      (c : TenantChannel) (a : UrlAnswer)
      → get_by_event_id n.event_id w.db ≡ none
      → w' ≡ record w {
        db = with_row (status_after a) e n w.db;
        delivered = if went_out a then w.delivered ++ delivery n c ∷ [] else w.delivered;
        posts = w.posts + 1;
      }
      → SendsUrl e n w w'

module _ (answers : Answers) where
  -- The end of a new event, by the answer to its post.
  url_posted :
      (e : Env) (n : Notice) (c : TenantChannel) (w : World) (a : UrlAnswer)
      → get_by_event_id n.event_id w.db ≡ none
      → finish_url n
          (after_answer (delivery n c) (record w { db = create_notification e n w.db }) a)
        ≡ (
          ok tt,
          record w {
            db = with_row (status_after a) e n w.db;
            delivered = if went_out a then w.delivered ++ delivery n c ∷ [] else w.delivered;
            posts = w.posts + 1;
          },
        )
  unfolding finish_url after_answer
  url_posted e n c w UrlAnswer.accepted fresh =
      rw (mark_row NotificationStatus.sent e n w.db fresh) refl
  url_posted e n c w UrlAnswer.refused fresh =
      rw (mark_row NotificationStatus.sent e n w.db fresh) refl
  url_posted e n c w UrlAnswer.lost fresh =
      rw (mark_row NotificationStatus.failed e n w.db fresh) refl
  url_posted e n c w UrlAnswer.cut_off fresh =
      rw (mark_row NotificationStatus.failed e n w.db fresh) refl

  sender_new :
      (e : Env) (n : Notice) (w : World)
      → sender n (record w { db = create_notification e n w.db }) ≡ sender n w
  unfolding get_by_tenant_and_channel create_notification
  sender_new e n w = refl

  url_connected :
      (e : Env) (n : Notice) (c : TenantChannel) (w : World)
      → get_by_event_id n.event_id w.db ≡ none
      → str_eq n.channel "whatsapp" ≡ true
      → sender n w ≡ some c
      → let a = answers w.posts (delivery n c) in
        send_url answers e n w ≡ (
          ok tt,
          record w {
            db = with_row (status_after a) e n w.db;
            delivered = if went_out a then w.delivered ++ delivery n c ∷ [] else w.delivered;
            posts = w.posts + 1;
          },
        )
  unfolding send_url dispatch_url
  url_connected e n c w fresh chat connected =
      rw (fresh, chat, sender_new e n w, connected)
        (url_posted e n c w (answers w.posts (delivery n c)) fresh)

  url_other :
      (e : Env) (n : Notice) (w : World)
      → get_by_event_id n.event_id w.db ≡ none
      → str_eq n.channel "whatsapp" ≡ false
      → send_url answers e n w
        ≡ (ok tt, record w { db = with_row NotificationStatus.sent e n w.db })
  unfolding send_url dispatch_url finish_url
  url_other e n w fresh other =
      rw (fresh, other) (rw (mark_row NotificationStatus.sent e n w.db fresh) refl)

  url_alone :
      (e : Env) (n : Notice) (w : World)
      → get_by_event_id n.event_id w.db ≡ none
      → str_eq n.channel "whatsapp" ≡ true
      → sender n w ≡ none
      → send_url answers e n w
        ≡ (ok tt, record w { db = with_row NotificationStatus.sent e n w.db })
  unfolding send_url dispatch_url finish_url
  url_alone e n w fresh chat alone =
      rw (fresh, chat, sender_new e n w, alone)
        (rw (mark_row NotificationStatus.sent e n w.db fresh) refl)

  url_known :
      (e : Env) (n : Notice) (row : Notification) (w : World)
      → get_by_event_id n.event_id w.db ≡ some row
      → send_url answers e n w ≡ (ok tt, w)
  unfolding send_url
  url_known e n row w found = rw found refl

  ends_as :
      (e : Env) (n : Notice) (w v : World)
      → send_url answers e n w ≡ (ok tt, v)
      → SendsUrl e n w v
      → SendsUrl e n w (begin (send_url answers e n) w).1
  ends_as e n w v h done =
      subst (λ (r : Result (Unit {0}) × World). SendsUrl e n w r.1)
        (sym (begin-ok (send_url answers e n) w v tt h)) done

  pub send_url-SendsUrl :
      (e : Env) (n : Notice) (w : World) → SendsUrl e n w (begin (send_url answers e n) w).1
  send_url-SendsUrl e n w = elim (Option-cases (get_by_event_id n.event_id w.db)) [
    | inr (row, found) ↦ ends_as e n w w (url_known e n row w found) (SendsUrl.known refl)
    | inl fresh ↦ elim (Bool-cases (str_eq n.channel "whatsapp")) [
      | inr other ↦ ends_as e n w _ (url_other e n w fresh other) (SendsUrl.unposted fresh refl)
      | inl chat ↦ elim (Option-cases (sender n w)) [
        | inl alone ↦
            ends_as e n w _ (url_alone e n w fresh chat alone) (SendsUrl.unposted fresh refl)
        | inr (c, connected) ↦
            ends_as e n w _ (url_connected e n c w fresh chat connected)
              (SendsUrl.url_answered c (answers w.posts (delivery n c)) fresh refl)
      ]
    ]
  ]

known_after :
    (s : NotificationStatus) (e : Env) (n : Notice) (db : Db)
    → get_by_event_id n.event_id db ≡ none
    → get_by_event_id n.event_id (with_row s e n db) ≡ some (row_in s e n)
unfolding get_by_event_id
known_after s e n db fresh =
    find?-append_none (has_key event_of n.event_id) db.notifications (row_in s e n ∷ []) fresh
    ∙ rw (str_eq_self n.event_id) refl

-- A new image or video by address of a tenant that has a channel, whatever the answer to its post: the call
-- returns, and leaves one row for the event, SENT where the provider accepted or refused the post and
-- FAILED where the post ended in an exception, with the message out exactly where the provider had taken it; and a
-- later call for the event, whatever would be answered then, does nothing, so that what was refused or lost is
-- never sent.
pub send_url_lem :
    (answers answers' : Answers) (e e' : Env) (n : Notice) (c : TenantChannel) (w : World)
    → get_by_event_id n.event_id w.db ≡ none
    → str_eq n.channel "whatsapp" ≡ true
    → sender n w ≡ some c
    → let a = answers w.posts (delivery n c) in
      let w' = (begin (send_url answers e n) w).1 in
      ((begin (send_url answers e n) w).0 ≡ ok tt)
      × (w'.db ≡ with_row (status_after a) e n w.db)
      × (w'.delivered ≡ (if went_out a then w.delivered ++ delivery n c ∷ [] else w.delivered))
      × (begin (send_url answers' e' n) w' ≡ (ok tt, w'))
send_url_lem answers answers' e e' n c w fresh chat connected =
    let s = status_after (answers w.posts (delivery n c)) in
    let out =
      if went_out (answers w.posts (delivery n c))
      then w.delivered ++ delivery n c ∷ []
      else w.delivered in
    let v : World = record w { db = with_row s e n w.db; delivered = out; posts = w.posts + 1 } in
    let later : begin (send_url answers' e' n) v ≡ (ok tt, v) =
      begin-ok (send_url answers' e' n) v v tt
        (url_known answers' e' n (row_in s e n) v (known_after s e n w.db fresh)) in
    subst
      (λ (r : Result (Unit {0}) × World).
        (r.0 ≡ ok tt)
        × (r.1.db ≡ with_row s e n w.db)
        × (r.1.delivered ≡ out)
        × (begin (send_url answers' e' n) r.1 ≡ (ok tt, r.1)))
      (sym (
        begin-ok (send_url answers e n) w v tt
          (url_connected answers e n c w fresh chat connected)))
      (refl, refl, refl, later)
