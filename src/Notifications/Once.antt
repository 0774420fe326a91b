-- ===== src/Notifications/Once.antt =====
-- At most one message for each event, whatever is sent, refused and sent again.
use chat_to_sales.Notifications.Outcomes.{posted, logged, nothing, row_in, with_row, Sends}
use mathlib.Core.List.{Memᴰ}
use chat_to_sales.Notifications.Service.{
  Answers, send_video_url, send_image_url, send_image, send_interactive, send_in_transaction,
  event_of, Notice, get_by_event_id,
}
use chat_to_sales.World.{begin, Sending, Button, Delivery, Provider, World}
use chat_to_sales.Base.{
  sym, refl, subst, Memᴰ-append, Option, count-append, if◌then◌else◌, count-none, inr, inl,
  eq_of_str_eq, arith, ◌+◌, ap, [], has_key, ◌∷◌, none, false, str_eq, true, ◌≤◌, ◌++◌, Bool, ◌≡◌,
  count, List, String,
}
use chat_to_sales.Models.{Db, Notification, Env, NotificationStatus}

abbrev pub is_for : String → Delivery → Bool
is_for event_id d = str_eq d.event_id event_id

abbrev pub is_pending : NotificationStatus → Bool
is_pending NotificationStatus.pending = true
is_pending _ = false

-- For each event there is at most one row and no more messages than rows, and all rows have a status of
-- the given kind.
pub record OnceIn (Fine : NotificationStatus → Type 0) (w : World) : Type 0 where
  pub messages :
      (j : String) → count (is_for j) w.delivered ≤ count (has_key event_of j) w.db.notifications
  pub rows : (j : String) → count (has_key event_of j) w.db.notifications ≤ 1
  pub settled : (n : Notification) → Memᴰ n w.db.notifications → Fine n.status

-- All rows are SENT.
abbrev pub Once : World → Type 0
Once = OnceIn (λ s. s ≡ NotificationStatus.sent)

-- No row is left PENDING.
abbrev pub OnceEnded : World → Type 0
OnceEnded = OnceIn (λ s. is_pending s ≡ false)

-- What leaves the notifications and the messages alone keeps it.
pub keep-Once :
    {Fine : NotificationStatus → Type 0} (w w' : World)
    → w'.db.notifications ≡ w.db.notifications
    → w'.delivered ≡ w.delivered
    → OnceIn Fine w
    → OnceIn Fine w'
keep-Once w w' p q once = record {
  messages = λ j. rw (p, q) (once.messages j);
  rows = λ j. rw p (once.rows j);
  settled = λ n m. once.settled n (rw p at m);
}

settled_after :
    (Fine : NotificationStatus → Type 0) (s : NotificationStatus) (e : Env) (n : Notice)
    (ns : List Notification)
    → Fine s
    → ((x : Notification) → Memᴰ x ns → Fine x.status)
    → (x : Notification) → Memᴰ x (ns ++ row_in s e n ∷ [])
    → Fine x.status
settled_after Fine s e n ns fine old x m = elim (Memᴰ-append x (row_in s e n) ns m) [
  | inl before ↦ old x before
  | inr new ↦ subst Fine (sym (ap (λ (y : Notification). y.status) new)) fine
]

count_row :
    (s : NotificationStatus) (e : Env) (n : Notice) (j : String) (ns : List Notification)
    → count (has_key event_of j) (ns ++ row_in s e n ∷ [])
      ≡ count (has_key event_of j) ns + (if str_eq n.event_id j then 1 else 0)
count_row s e n j ns = omega (arith, count-append (has_key event_of j) ns (row_in s e n ∷ []))

count_new :
    (j : String) (d : Delivery) (ds : List Delivery)
    → count (is_for j) (ds ++ d ∷ []) ≡ count (is_for j) ds + (if str_eq d.event_id j then 1 else 0)
count_new j d ds = omega (arith, count-append (is_for j) ds (d ∷ []))

no_row :
    (n : Notice) (j : String) (db : Db)
    → get_by_event_id n.event_id db ≡ none
    → str_eq n.event_id j ≡ true
    → count (has_key event_of j) db.notifications ≡ 0
unfolding get_by_event_id
no_row n j db fresh same =
    rw (← eq_of_str_eq n.event_id j same)
      (count-none (has_key event_of n.event_id) db.notifications fresh)

one_row :
    (s : NotificationStatus) (e : Env) (n : Notice) (j : String) (db : Db)
    → get_by_event_id n.event_id db ≡ none
    → count (has_key event_of j) db.notifications ≤ 1
    → count (has_key event_of j) (db.notifications ++ row_in s e n ∷ []) ≤ 1
one_row s e n j db fresh one =
    rw (count_row s e n j db.notifications) (ground (arith, no_row n j db fresh))

module _ {Fine : NotificationStatus → Type 0} (s : NotificationStatus) (fine : Fine s) where
  -- A new row for a new event, without a message.
  row-Once :
      (e : Env) (n : Notice) (w w' : World)
      → get_by_event_id n.event_id w.db ≡ none
      → w'.db ≡ with_row s e n w.db
      → w'.delivered ≡ w.delivered
      → OnceIn Fine w
      → OnceIn Fine w'
  row-Once e n w w' fresh p q once = record {
    messages =
        λ j. rw (p, q, count_row s e n j w.db.notifications) (omega (arith, once.messages j));
    rows = λ j. rw p (one_row s e n j w.db fresh (once.rows j));
    settled = λ x m. settled_after Fine s e n w.db.notifications fine once.settled x (rw p at m);
  }

  -- A new row for a new event, with its message.
  row_and_message-Once :
      (e : Env) (n : Notice) (d : Delivery) (w w' : World)
      → get_by_event_id n.event_id w.db ≡ none
      → d.event_id ≡ n.event_id
      → w'.db ≡ with_row s e n w.db
      → w'.delivered ≡ w.delivered ++ d ∷ []
      → OnceIn Fine w
      → OnceIn Fine w'
  row_and_message-Once e n d w w' fresh same p q once = record {
    messages = λ j.
        rw (p, q, count_row s e n j w.db.notifications, count_new j d w.delivered, same)
          (omega (arith, once.messages j));
    rows = λ j. rw p (one_row s e n j w.db fresh (once.rows j));
    settled = λ x m. settled_after Fine s e n w.db.notifications fine once.settled x (rw p at m);
  }

module _ {Fine : NotificationStatus → Type 0} (sent_is : Fine NotificationStatus.sent) where
  Sends-OnceIn :
      (e : Env) (n : Notice) (w w' : World) → Sends e n w w' → OnceIn Fine w → OnceIn Fine w'
  Sends-OnceIn e n w w' (nothing p q) once =
      keep-Once w w' (ap (λ (x : Db). x.notifications) p) q once
  Sends-OnceIn e n w w' (logged fresh p q) once =
      row-Once NotificationStatus.sent sent_is e n w w' fresh p q once
  Sends-OnceIn e n w w' (posted d fresh same to content p q) once =
      row_and_message-Once NotificationStatus.sent sent_is e n d w w' fresh same p q once

pub Sends-Once : (e : Env) (n : Notice) (w w' : World) → Sends e n w w' → Once w → Once w'
Sends-Once = Sends-OnceIn refl

-- The sending methods, with their own arguments.
pub data SendCall : Type 0 where
  message : SendCall
  interactive : List Button → SendCall
  image image_url video_url : String → Option String → SendCall

-- A call in a transaction of its own.
unfoldable pub send_call : Provider → Answers → SendCall → Env → Notice → Sending (Unit {0})
unfolding send_interactive send_image send_image_url send_video_url
send_call provider answers SendCall.message e n = send_in_transaction provider e n
send_call provider answers (SendCall.interactive buttons) e n =
    begin (send_interactive provider e n buttons)
send_call provider answers (SendCall.image id caption) e n =
    begin (send_image provider e n id caption)
send_call provider answers (SendCall.image_url url caption) e n =
    begin (send_image_url answers e n url caption)
send_call provider answers (SendCall.video_url url caption) e n =
    begin (send_video_url answers e n url caption)

-- A sequence of calls.
unfoldable pub send_all : Provider → Answers → List (SendCall × Env × Notice) → World → World
send_all provider answers [] w = w
send_all provider answers ((call, e, n) ∷ rest) w =
    send_all provider answers rest (send_call provider answers call e n w).1

pub empty-Once :
    {Fine : NotificationStatus → Type 0} (w : World)
    → w.db.notifications ≡ []
    → w.delivered ≡ []
    → OnceIn Fine w
empty-Once w p q = record {
  messages = λ j. rw (p, q) (omega arith);
  rows = λ j. rw p (omega arith);
  settled = λ n m. elim (rw p at m) [ ];
}
