-- ===== src/Marketing/Broadcast/Verdicts.antt =====
-- Whom the two checks of a broadcast keep from being sent to.
use chat_to_sales.Models.{Db, CustomerListEntry}
use chat_to_sales.Marketing.Broadcast.{entry_of, verdict_on, verdict, Verdict}
use chat_to_sales.Base.{
  refl, inr, none, ◌*◌, arith, inl, some, ◌+◌, ◌⊎◌, ◌<◌, ◌≡◌, Bool, String, Option, ℕ, true, false,
}

abbrev pub is_free : Verdict → Bool
is_free Verdict.free = true
is_free _ = false

-- Whether a broadcast may be sent to a customer of the trader.
unfoldable pub may_receive : ℕ → String → String → Db → Bool
may_receive now trader_phone customer_phone db =
    is_free (verdict now (entry_of trader_phone customer_phone db))

-- Who is to be left alone: whoever has opted out, or had a broadcast in the last seven days.
abbrev pub IsLeftAlone : ℕ → CustomerListEntry → Type 0
IsLeftAlone now c =
    (c.opted_out ≡ true)
    ⊎ ((last : ℕ) × (c.last_broadcast_at ≡ some last) × (now < last + 7 * 86400))

opted-alone : (now : ℕ) (o : Option ℕ) → is_free (verdict_on now true o) ≡ false
opted-alone now none = refl
opted-alone now (some last) = ground arith

capped-alone :
    (now last : ℕ) (out : Bool)
    → now < last + 7 * 86400
    → is_free (verdict_on now out (some last)) ≡ false
capped-alone now last out recent = ground arith

pub left_alone :
    (now : ℕ) (t p : String) (c : CustomerListEntry) (db : Db)
    → entry_of t p db ≡ some c
    → IsLeftAlone now c
    → may_receive now t p db ≡ false
unfolding may_receive verdict
left_alone now t p c db found (inl out) = rw (found, out) (opted-alone now c.last_broadcast_at)
left_alone now t p c db found (inr (last, sent, recent)) =
    rw (found, sent) (capped-alone now last c.opted_out recent)
