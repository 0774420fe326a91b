-- ===== src/Marketing/Broadcast.antt =====
-- app/modules/marketing/broadcast.py `send_broadcast_paced`: the messages of one broadcast, one by
-- one. The clock stands still during the run; the callback on progress and the pauses between the
-- messages are left out.
pub mod Verdicts
pub mod Respect
use chat_to_sales.Marketing.CustomerList.{is_entry}
use chat_to_sales.Session.{modify, err, ok, Result}
use chat_to_sales.Notifications.Service.{send_in_transaction, Notice}
use chat_to_sales.World.{Attachment, on_db, begin, ◌>>>◌, for_each, World, Sending, Provider}
use chat_to_sales.Models.{
  BroadcastStatus, Env, CustomerListEntry, Db, BroadcastRecipient, RecipientStatus, Broadcast,
}
use chat_to_sales.Base.{
  ltb, if◌then◌else◌, ◌/◌, select, [], has_key, ◌+◌, none, false, update_where, ◌-◌, find?,
  append_text, ◌&&◌, some, str_eq, true, Option, Bool, ℕ, String,
}

abbrev pub seconds_per_day : ℕ
seconds_per_day = 86400

abbrev pub recipient_id : BroadcastRecipient → String
recipient_id r = r.id

abbrev pub broadcast_key : Broadcast → String
broadcast_key b = b.id

abbrev is_pending_recipient : RecipientStatus → Bool
is_pending_recipient RecipientStatus.pending = true
is_pending_recipient _ = false

unfoldable pub is_open_recipient : String → BroadcastRecipient → Bool
is_open_recipient broadcast_id r =
    str_eq r.broadcast_id broadcast_id && is_pending_recipient r.status

-- What the row of the customer says about one more message.
pub data Verdict : Type 0 where
  capped : ℕ → Verdict
  stopped free : Verdict

abbrev pub opted : Bool → Verdict
opted true = Verdict.stopped
opted false = Verdict.free

abbrev pub verdict_on : ℕ → Bool → Option ℕ → Verdict
verdict_on now out none = opted out
verdict_on now out (some last) =
    let days_since = (now - last) / seconds_per_day in
    if ltb days_since 7 then Verdict.capped days_since else opted out

-- The two checks, in the code's order: the seven days, and then the opt-out.
unfoldable pub verdict : ℕ → Option CustomerListEntry → Verdict
verdict now none = Verdict.free
verdict now (some entry) = verdict_on now entry.opted_out entry.last_broadcast_at

unfoldable pub entry_of : String → String → Db → Option CustomerListEntry
entry_of trader_phone customer_phone db = find? (is_entry trader_phone customer_phone) db.customers

unfoldable pub update_recipient : String → (BroadcastRecipient → BroadcastRecipient) → Db → Db
update_recipient id f db = record db {
  recipients = update_where (has_key recipient_id id) f db.recipients;
}

unfoldable pub update_broadcast : String → (Broadcast → Broadcast) → Db → Db
update_broadcast id f db = record db {
  broadcasts = update_where (has_key broadcast_key id) f db.broadcasts;
}

abbrev pub skipped_recipient : ℕ → BroadcastRecipient → BroadcastRecipient
skipped_recipient days r = record r { status = RecipientStatus.skipped; skipped_after = some days }

abbrev pub opted_out_recipient : BroadcastRecipient → BroadcastRecipient
opted_out_recipient r = record r { status = RecipientStatus.opted_out }

abbrev pub sent_recipient : ℕ → BroadcastRecipient → BroadcastRecipient
sent_recipient now r = record r { status = RecipientStatus.sent; sent_at = some now }

abbrev pub broadcast_at : ℕ → CustomerListEntry → CustomerListEntry
broadcast_at now c = record c { last_broadcast_at = some now }

-- The transaction after a message has been sent.
unfoldable pub record_sent : ℕ → String → BroadcastRecipient → Db → Db
unfolding update_recipient
record_sent now trader_phone r db =
    let db₁ = update_recipient r.id (sent_recipient now) db in
    record db₁ {
      customers =
          update_where (is_entry trader_phone r.customer_phone) (broadcast_at now) db₁.customers;
    }

-- The messages are the platform's, and go out by its channel.
unfoldable pub broadcast_notice : String → Broadcast → BroadcastRecipient → Notice
broadcast_notice platform b r = record {
  tenant_id = platform;
  event_id = append_text "broadcast." (append_text b.id (append_text "." r.customer_phone));
  recipient = r.customer_phone;
  message_text = b.message_text;
  channel = "whatsapp";
  order_id = none;
  channel_tenant_id = none;
  attachment = Attachment.plain;
}

-- `sent_count += 1` after the two transactions; an exception is logged.
abbrev pub count_sent : ℕ → Result (Unit {0}) × World → World × ℕ
count_sent n (ok a, w) = (w, n + 1)
count_sent n (err x, w) = (w, n)

module _ (provider : Provider) (platform : String) (keys : String → String) (now : ℕ)
    (trader_phone : String) where
  abbrev pub broadcast_env : String → Env
  broadcast_env event_id = record { fresh_id = keys event_id; now = now }

  unfoldable pub send_and_record : Broadcast → BroadcastRecipient → Sending (Unit {0})
  unfolding broadcast_notice
  send_and_record b r =
      send_in_transaction provider (broadcast_env r.id) (broadcast_notice platform b r)
      >>> begin (on_db (modify (record_sent now trader_phone r)))

  unfoldable pub send_by_verdict : Broadcast → BroadcastRecipient → Verdict → World × ℕ → World × ℕ
  unfolding send_and_record update_recipient
  send_by_verdict b r (Verdict.capped days) (w, n) =
      (record w { db = update_recipient r.id (skipped_recipient days) w.db }, n)
  send_by_verdict b r Verdict.stopped (w, n) =
      (record w { db = update_recipient r.id opted_out_recipient w.db }, n)
  send_by_verdict b r Verdict.free (w, n) = count_sent n (send_and_record b r w)

  -- The body of the loop, on the world and the count so far.
  unfoldable pub send_to_recipient : Broadcast → BroadcastRecipient → World × ℕ → World × ℕ
  unfolding send_by_verdict
  send_to_recipient b r (w, n) =
      send_by_verdict b r (verdict now (entry_of trader_phone r.customer_phone w.db)) (w, n)

  -- The last transaction.
  unfoldable pub complete_broadcast : String → World × ℕ → World
  unfolding update_broadcast
  complete_broadcast id (w, n) = record w {
    db =
        update_broadcast id
          (λ b. record b { status = BroadcastStatus.sent; sent_count = n; completed_at = some now })
          w.db;
  }

  unfoldable pub send_found_broadcast : Broadcast → World → World
  unfolding update_broadcast complete_broadcast is_open_recipient
  send_found_broadcast b w = complete_broadcast b.id (
      for_each (send_to_recipient b) (select (is_open_recipient b.id) w.db.recipients) (
        record w {
          db = update_broadcast b.id (λ x. record x { status = BroadcastStatus.sending }) w.db;
        },
        0,
      ))

  unfoldable pub send_broadcast_paced : String → World → World
  unfolding send_found_broadcast
  send_broadcast_paced broadcast_id w =
      elim (find? (has_key broadcast_key broadcast_id) w.db.broadcasts) [
        | none ↦ w
        | some b ↦ send_found_broadcast b w
      ]
