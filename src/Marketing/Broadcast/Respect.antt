-- ===== src/Marketing/Broadcast/Respect.antt =====
-- Whom a broadcast leaves alone.
use chat_to_sales.Notifications.Outcomes.{Sends-rest, send-Sends}
use mathlib.Core.List.{Memᴰ}
use chat_to_sales.Notifications.Once.{Once}
use chat_to_sales.Session.{modify, err, ok, Result}
use chat_to_sales.Notifications.Steps.{Steps-Once, Steps-delivered, SentFor, Steps}
use chat_to_sales.Notifications.Service.{send_in_transaction, Notice}
use chat_to_sales.Models.{BroadcastStatus, Broadcast, Db, BroadcastRecipient, CustomerListEntry}
use chat_to_sales.Marketing.Broadcast.Verdicts.{left_alone, IsLeftAlone, may_receive}
use chat_to_sales.Marketing.Broadcast.{
  broadcast_key, opted_out_recipient, skipped_recipient, is_open_recipient, send_by_verdict,
  broadcast_notice, update_broadcast, broadcast_env, update_recipient, Verdict, count_sent,
  send_and_record, send_to_recipient, send_found_broadcast, verdict, send_broadcast_paced,
  broadcast_at, record_sent, entry_of,
}
use chat_to_sales.World.{
  on_db, for_each-keeps, begin, for_each, bind-keeps, Delivery, World, Provider,
}
use chat_to_sales.Base.{
  subst, has_key, str_eq_of_eq, none, ◌∙◌, find?-update_where, eq_of_str_eq, select, Bool, sym,
  find?-holds, if◌then◌else◌, arith, inl, ◌≢◌, inr, find?, Bool-cases, Option, false, true, some,
  refl, str_eq, ◌≡◌, ℕ, String,
}
use chat_to_sales.Marketing.CustomerList.{is_entry}
use mathlib.Core.Option

is_entry_clash :
    (t p q : String) (c : CustomerListEntry)
    → is_entry t p c ≡ true
    → str_eq q p ≡ false
    → is_entry t q c ≡ false
unfolding is_entry
is_entry_clash t p q c h other = elim (Bool-cases (str_eq c.customer_phone q)) [
  | inr differs ↦ ground arith
  | inl hit ↦
      let same : q ≡ p =
        sym (eq_of_str_eq c.customer_phone q hit)
        ∙ eq_of_str_eq c.customer_phone p (ground arith) in
      ground (arith, str_eq_of_eq q p same)
]

keeps_entry :
    (now : ℕ) (t p : String) (c : CustomerListEntry)
    → is_entry t p (broadcast_at now c) ≡ is_entry t p c
unfolding is_entry
keeps_entry now t p c = refl

-- What is recorded about one customer leaves the row of another one alone.
entry_of-record_sent :
    (now : ℕ) (t p : String) (r : BroadcastRecipient) (db : Db)
    → str_eq r.customer_phone p ≡ false
    → entry_of t p (record_sent now t r db) ≡ entry_of t p db
unfolding entry_of record_sent
entry_of-record_sent now t p r db other =
    find?-update_where (is_entry t p) (is_entry t r.customer_phone) (broadcast_at now) db.customers
      (keeps_entry now t p)
    ∙ kept (find? (is_entry t p) db.customers) refl
  where
    kept :
        (o : Option CustomerListEntry)
        → find? (is_entry t p) db.customers ≡ o
        → Option.map (λ x. if is_entry t r.customer_phone x then broadcast_at now x else x) o ≡ o
    kept none h = refl
    kept (some c) h =
        rw
          (is_entry_clash t p r.customer_phone c (find?-holds (is_entry t p) db.customers c h)
            other)
          refl

-- A notice to somebody else.
abbrev pub Elsewhere : String → Notice → Type 0
Elsewhere p n = str_eq n.recipient p ≡ false

free_clash :
    (now : ℕ) (t q p : String) (db : Db)
    → q ≡ p
    → verdict now (entry_of t q db) ≡ Verdict.free
    → may_receive now t p db ≢ false
unfolding may_receive
free_clash now t q p db same free alone = cc

module _ (provider : Provider) (platform : String) (keys : String → String) (now : ℕ) (t p : String)
    (start : World) where
  -- What the loop keeps: so far the messages went elsewhere, and the customer is still left alone.
  abbrev Respected : World → Type 0
  Respected w = Steps (Elsewhere p) start w × (may_receive now t p w.db ≡ false)

  Respected-row :
      (w : World) (db : Db)
      → db.customers ≡ w.db.customers
      → db.notifications ≡ w.db.notifications
      → Respected w
      → Respected (record w { db = db })
  unfolding may_receive entry_of
  Respected-row w db c n (steps, alone) =
      (Steps.then_write w (record w { db = db }) steps n refl, rw c alone)

  count_sent-world : (n : ℕ) (r : Result (Unit {0}) × World) → (count_sent n r).0 ≡ r.1
  count_sent-world n (ok a, w) = refl
  count_sent-world n (err x, w) = refl

  Respected-send :
      (b : Broadcast) (r : BroadcastRecipient) (w : World)
      → str_eq r.customer_phone p ≡ false
      → Respected w
      → Respected (send_and_record provider platform keys now t b r w).1
  unfolding send_and_record may_receive entry_of record_sent
  Respected-send b r w other (steps, alone) =
      let e = broadcast_env provider platform keys now t r.id in
      let n = broadcast_notice platform b r in
      let send = send_in_transaction provider e n in
      let sent = send-Sends provider e n w in
      bind-keeps send (λ _. begin (on_db (modify (record_sent now t r)))) w Respected
        (
          Steps.then_send w (send w).1 e n steps other sent,
          rw (Sends-rest e n w (send w).1 sent) alone,
        )
        (λ _ v (steps₂, alone₂). (
          Steps.then_write v _ steps₂ refl refl,
          rw (entry_of-record_sent now t p r v.db other) alone₂,
        ))

  Respected-step :
      (b : Broadcast) (r : BroadcastRecipient) (s : World × ℕ)
      → Respected s.0
      → Respected (send_to_recipient provider platform keys now t b r s).0
  unfolding send_to_recipient update_recipient
  Respected-step b r (w, n) kept = by_verdict (verdict now (entry_of t r.customer_phone w.db)) refl
    where
      clash :
          verdict now (entry_of t r.customer_phone w.db) ≡ Verdict.free
          → str_eq r.customer_phone p ≡ false
      clash h = elim (Bool-cases (str_eq r.customer_phone p)) [
        | inr other ↦ other
        | inl same ↦ absurd (
            free_clash now t r.customer_phone p w.db (eq_of_str_eq r.customer_phone p same) h
              kept.1)
      ]

      by_verdict :
          (v : Verdict)
          → verdict now (entry_of t r.customer_phone w.db) ≡ v
          → Respected (send_by_verdict provider platform keys now t b r v (w, n)).0
      by_verdict (Verdict.capped days) h =
          Respected-row w (update_recipient r.id (skipped_recipient days) w.db) refl refl kept
      by_verdict Verdict.stopped h =
          Respected-row w (update_recipient r.id opted_out_recipient w.db) refl refl kept
      by_verdict Verdict.free h =
          subst Respected
            (sym (count_sent-world n (send_and_record provider platform keys now t b r w)))
            (Respected-send b r w (clash h) kept)

  respected_run :
      (b : Broadcast)
      → may_receive now t p start.db ≡ false
      → Steps (Elsewhere p) start (send_found_broadcast provider platform keys now t b start)
  unfolding send_found_broadcast
  respected_run b alone =
      let sending = λ (x : Broadcast). record x { status = BroadcastStatus.sending } in
      let first = record start { db = update_broadcast b.id sending start.db } in
      let rows = select (is_open_recipient b.id) start.db.recipients in
      let send = send_to_recipient provider platform keys now t b in
      let run = for_each send rows (first, 0) in
      Steps.then_write run.0 _
        (for_each-keeps (λ (s : World × ℕ). Respected s.0) send rows (first, 0)
          (λ r s m. Respected-step b r s)
          (Respected-row start first.db refl refl (Steps.still start refl refl, alone))).0
        refl refl

module _ (provider : Provider) (platform : String) (keys : String → String) (now : ℕ)
    (t : String) where
  SentFor-Elsewhere :
      (p : String) (n : Notice) (d : Delivery) → SentFor (Elsewhere p) n d → str_eq d.to p ≡ false
  SentFor-Elsewhere p n d sent = rw sent.same_recipient sent.allowed

  -- A customer of the trader who has opted out, or was sent a broadcast within seven days, gets no
  -- message from a broadcast, whatever the provider answers: a message to this customer after the
  -- run was there before it; and if no event had been sent twice before, none has been afterwards.
  pub send_broadcast_paced_lem :
      (p id : String) (c : CustomerListEntry) (w : World)
      → entry_of t p w.db ≡ some c
      → IsLeftAlone now c
      → Once w
      → let w' = send_broadcast_paced provider platform keys now t id w in
        ((d : Delivery) → Memᴰ d w'.delivered → str_eq d.to p ≡ true → Memᴰ d w.delivered) × Once w'
  unfolding send_broadcast_paced
  send_broadcast_paced_lem p id c w found left once =
      let alone = left_alone now t p c w.db found left in
      let steps = run_Steps (find? (has_key broadcast_key id) w.db.broadcasts) in
      (
        λ d m to. elim (Steps-delivered w _ d steps m) [
          | inl old ↦ old
          | inr (n, sent) ↦ absurd (differ (SentFor-Elsewhere p n d sent) to)
        ],
        Steps-Once w _ steps once,
      )
    where
      differ : {b : Bool} → b ≡ false → b ≢ true
      differ p q = cc

      run_Steps :
          (found : Option Broadcast)
          → Steps (Elsewhere p) w (elim found [
            | none ↦ w
            | some b ↦ send_found_broadcast provider platform keys now t b w
          ])
      run_Steps none = Steps.still w refl refl
      run_Steps (some b) =
          respected_run provider platform keys now t p w b (left_alone now t p c w.db found left)
