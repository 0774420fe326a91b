-- ===== src/Scheduler/DebtReminders/Job.antt =====
-- Which sales the job counts a reminder for, in one run.
use chat_to_sales.Models.{CreditSaleStatus}
use chat_to_sales.Scheduler.Hours.{is_business_hours}
use chat_to_sales.Scheduler.DebtReminders.Rows.{Rounded, remind_of_debt-Rounded}
use mathlib.Core.List.{Memᴰ}
use chat_to_sales.CreditSales.Repository.{is_active_sale, reminded, sale_id}
use chat_to_sales.Notifications.Once.{Once}
use chat_to_sales.CreditSales.Fates.{sale_of}
use chat_to_sales.Scheduler.DebtReminders.{
  last_contact, is_due, remind_of_debt, send_debt_reminders,
}
use chat_to_sales.Models.{CreditSale}
use chat_to_sales.Base.{
  ◌≤◌, ◌*◌, ◌+◌, ◌<◌, arith, refl, select-mem, find?-key, find?-holds, eq_of_str_eq, select-IsKeyed,
  find?-update_where_key, select, [], ◌∙◌, Bool-cases, sym, str_eq_of_eq, ap, false, true, inr,
  str_eq, inl, ◌≢◌, ◌∷◌, ◌⊎◌, some, none, ◌≡◌, has_key, IsKeyed, find?, List, Option, ℕ, String,
}
use chat_to_sales.World.{for_each-keeps, for_each, World, Provider}
use mathlib.Core.Option.{some-injective}

-- A sale that a reminder is due for: active, below its limit, and its interval has passed since the
-- last reminder, or since it was made.
pub record IsDue (now : ℕ) (c : CreditSale) : Type 0 where
  pub still_active : c.status ≡ CreditSaleStatus.active
  pub below_limit : c.reminders_sent < c.max_reminders
  pub interval_passed : last_contact c + c.reminder_interval_days * 86400 ≤ now

active_only : (s : CreditSaleStatus) → is_active_sale s ≡ true → s ≡ CreditSaleStatus.active
unfolding is_active_sale
active_only CreditSaleStatus.active h = refl
active_only CreditSaleStatus.settled h = cc
active_only CreditSaleStatus.disputed h = cc
active_only CreditSaleStatus.written_off h = cc

is_due-IsDue : (now : ℕ) (c : CreditSale) → is_due now c ≡ true → IsDue now c
unfolding is_due
is_due-IsDue now c h = record {
  still_active = active_only c.status (ground arith);
  below_limit = ground arith;
  interval_passed = ground arith;
}

module _ (provider : Provider) (platform : String) (keys : String → String) (digits : ℕ → String)
    (cached : CreditSale → Option String) (now : ℕ) where
  -- The row of a key after one round.
  round-row :
      (d c : CreditSale) (j : String) (w v : World)
      → sale_of j w.db.credit_sales ≡ some c
      → Rounded provider platform keys digits cached now d w v
      → (sale_of j v.db.credit_sales ≡ some c)
        ⊎ ((f : CreditSale → CreditSale) × (d.id ≡ j)
            × (f d ≡ reminded now d)
            × (sale_of j v.db.credit_sales ≡ some (f c)))
  round-row d c j w v h (inl same, once) = inl (rw same h)
  round-row d c j w v h (inr (f, counted), once) =
      let found =
        ap (sale_of j) counted.rows
        ∙ find?-update_where_key sale_id j (has_key sale_id d.id) f w.db.credit_sales
            counted.keeps_id in
      elim (Bool-cases (has_key sale_id d.id c)) [
        | inr other ↦ inl (found ∙ rw h (rw other refl))
        | inl hit ↦ inr (
          f,
          sym (eq_of_str_eq c.id d.id hit)
              ∙ eq_of_str_eq c.id j (find?-holds (has_key sale_id j) w.db.credit_sales c h),
          counted.on_row,
          found ∙ rw h (rw hit refl),
        )
      ]

  abbrev rounds : List CreditSale → World → World
  rounds = for_each (remind_of_debt provider platform keys digits cached now)

  loop-other :
      (ds : List CreditSale) (c : CreditSale) (j : String) (w : World)
      → find? (has_key sale_id j) ds ≡ none
      → sale_of j w.db.credit_sales ≡ some c
      → sale_of j (rounds ds w).db.credit_sales ≡ some c
  loop-other [] c j w absent h = h
  loop-other (d ∷ ds) c j w absent h = elim (Bool-cases (str_eq d.id j)) [
    | inl hit ↦ absurd (Option_clash (rw hit at absent))
    | inr other ↦
        elim (round-row d c j w _ h
          (remind_of_debt-Rounded provider platform keys digits cached now d w)) [
            | inl kept ↦ loop-other ds c j _ (rw other at absent) kept
            | inr (f, same, e, r) ↦ absurd (key_differs other same)
          ]
  ]
    where
      Option_clash : {x : CreditSale} → some x ≢ none
      Option_clash p = cc

      key_differs : {s t : String} → str_eq s t ≡ false → s ≢ t
      key_differs {s} {t} other same = cc (other, str_eq_of_eq s t same)

  loop-row :
      (ds : List CreditSale) (c : CreditSale) (j : String) (w : World)
      → IsKeyed sale_id ds
      → ((d : CreditSale) → Memᴰ d ds → d.id ≡ j → d ≡ c)
      → sale_of j w.db.credit_sales ≡ some c
      → (sale_of j (rounds ds w).db.credit_sales ≡ some c)
        ⊎ (Memᴰ c ds × (sale_of j (rounds ds w).db.credit_sales ≡ some (reminded now c)))
  loop-row [] c j w keyed own h = inl h
  loop-row (d ∷ ds) c j w (new, keyed) own h =
      elim (round-row d c j w _ h
        (remind_of_debt-Rounded provider platform keys digits cached now d w)) [
          | inl kept ↦ elim (loop-row ds c j _ keyed (λ x m. own x (Memᴰ.tail m)) kept) [
            | inl still_same ↦ inl still_same
            | inr (m, counted) ↦ inr (Memᴰ.tail m, counted)
          ]
          | inr (f, same, e, r) ↦
              let this = own d (Memᴰ.head refl) same in
              inr (
                Memᴰ.head (sym this),
                loop-other ds (reminded now c) j _ (rw (← same) new)
                    (r ∙ ap some (ap f (sym this) ∙ e ∙ ap (reminded now) this)),
              )
        ]

  loop-Once : (ds : List CreditSale) (w : World) → Once w → Once (rounds ds w)
  loop-Once ds w once =
      for_each-keeps Once (remind_of_debt provider platform keys digits cached now) ds w
        (λ d v m. (remind_of_debt-Rounded provider platform keys digits cached now d v).1) once

  -- One run of the job leaves each sale of a table with unique keys as it was, or counts exactly one
  -- reminder for it, and then it is in business hours and the sale is active, below its limit of
  -- reminders, and its interval has passed since the last one; and if no event had been sent twice
  -- before, none has been afterwards. This holds whatever the provider and the cache answer.
  pub send_debt_reminders_lem :
      (c : CreditSale) (j : String) (w : World)
      → IsKeyed sale_id w.db.credit_sales
      → sale_of j w.db.credit_sales ≡ some c
      → Once w
      → let w' = send_debt_reminders provider platform keys digits cached now w in
        ((sale_of j w'.db.credit_sales ≡ some c)
          ⊎ ((sale_of j w'.db.credit_sales ≡ some (reminded now c))
              × IsDue now c
              × (is_business_hours now ≡ true)))
        × Once w'
  unfolding send_debt_reminders
  send_debt_reminders_lem c j w keyed h once = elim (Bool-cases (is_business_hours now)) [
    | inr closed ↦ rw closed (inl h, once)
    | inl day ↦
        let ds = select (is_due now) w.db.credit_sales in
        rw day (
          elim (loop-row ds c j w (select-IsKeyed sale_id (is_due now) w.db.credit_sales keyed)
              (λ d m same. some-injective d c (
                sym (
                  find?-key sale_id w.db.credit_sales d keyed
                    (select-mem (is_due now) w.db.credit_sales d m).0)
                ∙ ap (λ k. sale_of k w.db.credit_sales) same
                ∙ h))
              h) [
                | inl kept ↦ inl kept
                | inr (m, counted) ↦ inr (
                  counted,
                  is_due-IsDue now c (select-mem (is_due now) w.db.credit_sales c m).1,
                  refl,
                )
              ],
          loop-Once ds w once,
        )
  ]
