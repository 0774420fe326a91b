-- ===== src/Marketing/Referrals/Milestones.antt =====
-- How a referral goes through its milestones, and what its referrer's numbers add up to.
use native.Mathlib.Nat.{le_trans, le_refl}
use chat_to_sales.Base.{
  count, false, [], ◌∷◌, arith, find?-append_some, str_eq, Option-cases, ap, ◌&&◌, inr,
  find?-update_where, inl, Bool-cases, update_where, refl, true, none, some, ◌≤◌, ℕ, find?, ◌<◌,
  ◌≡◌, ◌∙◌, Bool, String, Option, List,
}
use chat_to_sales.Models.{
  converted, active_30d, first_order, signed_up, Db, Referral, Env, ReferralStatus,
}
use chat_to_sales.Marketing.Referrals.{
  get_referral_stats, new_referral, reached_active_30d, reached_converted, reached_first_order,
  is_first_order, log_found, is_unconverted, is_signed_up, to_converted, to_active, to_first_order,
  is_referred, advance_referral_to_converted, log_referral, advance_referral_to_active,
  advance_referral_to_first_order, NewReferral,
}

-- How far a referral has come.
abbrev pub rank : ReferralStatus → ℕ
rank signed_up = 0
rank first_order = 1
rank active_30d = 2
rank converted = 3

-- The dates are those of the milestones that were reached: one that is ahead has no date.
abbrev pub IsDated : Referral → Type 0
IsDated r =
    (rank r.status < 1 → r.first_order_at ≡ none)
    × (rank r.status < 2 → r.active_30d_at ≡ none)
    × (rank r.status < 3 → r.converted_at ≡ none)

-- A date once set is kept.
abbrev Keeps : Option ℕ → Option ℕ → Type 0
Keeps old new = (t : ℕ) → old ≡ some t → new ≡ some t

-- How a referral goes on.
pub record Further (r r' : Referral) : Type 0 where
  pub same_phone : r'.referred_phone ≡ r.referred_phone
  pub same_referrer : r'.referrer_phone ≡ r.referrer_phone
  pub same_agent : r'.agent_code ≡ r.agent_code
  pub no_way_back : rank r.status ≤ rank r'.status
  pub dated : IsDated r → IsDated r'
  pub first_kept : IsDated r → Keeps r.first_order_at r'.first_order_at
  pub active_kept : IsDated r → Keeps r.active_30d_at r'.active_30d_at
  pub converted_kept : IsDated r → Keeps r.converted_at r'.converted_at

-- The four operations on the table, with their clock and arguments.
pub data Step : Type 0 where
  log : NewReferral → Step
  ordered active_month subscribed : String → Step

unfoldable pub step : Env → Step → Db → Db
step e (log n) db = (log_referral n db).1
step e (ordered phone) db = (advance_referral_to_first_order e phone db).1
step e (active_month phone) db = (advance_referral_to_active e phone db).1
step e (subscribed phone) db = (advance_referral_to_converted e phone db).1

unfoldable pub steps : List (Env × Step) → Db → Db
steps [] db = db
steps ((e, s) ∷ rest) db = steps rest (step e s db)

Further-refl : (r : Referral) → Further r r
Further-refl r = record {
  same_phone = refl;
  same_referrer = refl;
  same_agent = refl;
  no_way_back = le_refl (rank r.status);
  dated = λ d. d;
  first_kept = λ _ t h. h;
  active_kept = λ _ t h. h;
  converted_kept = λ _ t h. h;
}

Further-trans : (a b c : Referral) → Further a b → Further b c → Further a c
Further-trans a b c p q = record {
  same_phone = q.same_phone ∙ p.same_phone;
  same_referrer = q.same_referrer ∙ p.same_referrer;
  same_agent = q.same_agent ∙ p.same_agent;
  no_way_back = le_trans p.no_way_back q.no_way_back;
  dated = λ d. q.dated (p.dated d);
  first_kept = λ d t h. q.first_kept (p.dated d) t (p.first_kept d t h);
  active_kept = λ d t h. q.active_kept (p.dated d) t (p.active_kept d t h);
  converted_kept = λ d t h. q.converted_kept (p.dated d) t (p.converted_kept d t h);
}

-- The row of a phone number.
abbrev pub referral_of : String → List Referral → Option Referral
referral_of phone rows = find? (is_referred phone) rows

updated_referral :
    (phone : String) (p : Referral → Bool) (f : Referral → Referral) (r : Referral)
    (rows : List Referral)
    → ((x : Referral) → is_referred phone (f x) ≡ is_referred phone x)
    → ((x : Referral) → p x ≡ true → Further x (f x))
    → referral_of phone rows ≡ some r
    → (r' : Referral) × (referral_of phone (update_where p f rows) ≡ some r') × Further r r'
updated_referral phone p f r rows keep go h = elim (Bool-cases (p r)) [
  | inl hit ↦ (f r, rw (find?-update_where (is_referred phone) p f rows keep, h) (rw hit), go r hit)
  | inr miss ↦
      (r, rw (find?-update_where (is_referred phone) p f rows keep, h) (rw miss), Further-refl r)
]

reached_first_order-Further :
    (now : ℕ) (r : Referral) → is_signed_up r.status ≡ true → Further r (reached_first_order now r)
unfolding is_signed_up
reached_first_order-Further now r h = record {
  same_phone = refl;
  same_referrer = refl;
  same_agent = refl;
  no_way_back = ground arith;
  dated = ground arith;
  first_kept = ground arith;
  active_kept = λ _ t g. g;
  converted_kept = λ _ t g. g;
}

reached_active_30d-Further :
    (now : ℕ) (r : Referral) → is_first_order r.status ≡ true → Further r (reached_active_30d now r)
unfolding is_first_order
reached_active_30d-Further now r h = record {
  same_phone = refl;
  same_referrer = refl;
  same_agent = refl;
  no_way_back = ground arith;
  dated = ground arith;
  first_kept = λ _ t g. g;
  active_kept = ground arith;
  converted_kept = λ _ t g. g;
}

reached_converted-Further :
    (now : ℕ) (r : Referral) → is_unconverted r.status ≡ true → Further r (reached_converted now r)
unfolding is_unconverted
reached_converted-Further now r h = record {
  same_phone = refl;
  same_referrer = refl;
  same_agent = refl;
  no_way_back = ground arith;
  dated = ground arith;
  first_kept = λ _ t g. g;
  active_kept = λ _ t g. g;
  converted_kept = ground arith;
}

right_of : (a b : Bool) → (a && b) ≡ true → b ≡ true
right_of true b h = h
right_of false b h = cc

logged-Further :
    (n : NewReferral) (phone : String) (r : Referral) (db : Db)
    → referral_of phone db.referrals ≡ some r
    → referral_of phone (log_referral n db).1.referrals ≡ some r
unfolding log_referral log_found
logged-Further n phone r db h =
    elim (Option-cases (find? (is_referred n.referred_phone) db.referrals)) [
      | inl fresh ↦
          rw fresh (find?-append_some (is_referred phone) db.referrals (new_referral n ∷ []) r h)
      | inr (x, found) ↦ rw found h
    ]

keeps_phone :
    (phone : String) (f : Referral → Referral)
    → ((x : Referral) → (f x).referred_phone ≡ x.referred_phone)
    → (x : Referral) → is_referred phone (f x) ≡ is_referred phone x
unfolding is_referred
keeps_phone phone f same x = ap (λ p. str_eq p phone) (same x)

step-Further :
    (e : Env) (s : Step) (phone : String) (r : Referral) (db : Db)
    → referral_of phone db.referrals ≡ some r
    → (r' : Referral) × (referral_of phone (step e s db).referrals ≡ some r') × Further r r'
unfolding step advance_referral_to_first_order advance_referral_to_active
    advance_referral_to_converted to_first_order to_active to_converted
step-Further e (log n) phone r db h = (r, logged-Further n phone r db h, Further-refl r)
step-Further e (ordered p) phone r db h =
    updated_referral phone (λ x. is_referred p x && is_signed_up x.status)
      (reached_first_order e.now) r db.referrals
      (keeps_phone phone (reached_first_order e.now) (λ x. refl))
      (λ x fits.
        reached_first_order-Further e.now x
          (right_of (is_referred p x) (is_signed_up x.status) fits))
      h
step-Further e (active_month p) phone r db h =
    updated_referral phone (λ x. is_referred p x && is_first_order x.status)
      (reached_active_30d e.now) r db.referrals
      (keeps_phone phone (reached_active_30d e.now) (λ x. refl))
      (λ x fits.
        reached_active_30d-Further e.now x
          (right_of (is_referred p x) (is_first_order x.status) fits))
      h
step-Further e (subscribed p) phone r db h =
    updated_referral phone (λ x. is_referred p x && is_unconverted x.status)
      (reached_converted e.now) r db.referrals
      (keeps_phone phone (reached_converted e.now) (λ x. refl))
      (λ x fits.
        reached_converted-Further e.now x
          (right_of (is_referred p x) (is_unconverted x.status) fits))
      h

-- Whatever operations on referrals follow, the referral that a phone number finds is still the one
-- that it finds, with its referrer and its agent; it never goes back to an earlier milestone,
-- and, where its dates were those of the milestones reached, they still are, and a date that
-- was set is never overwritten.
pub steps-Further :
    (calls : List (Env × Step)) (phone : String) (r : Referral) (db : Db)
    → referral_of phone db.referrals ≡ some r
    → (r' : Referral) × (referral_of phone (steps calls db).referrals ≡ some r') × Further r r'
unfolding steps
steps-Further [] phone r db h = (r, h, Further-refl r)
steps-Further ((e, s) ∷ rest) phone r db h =
    let (r₁, h₁, p₁) = step-Further e s phone r db h in
    let (r₂, h₂, p₂) = steps-Further rest phone r₁ (step e s db) h₁ in
    (r₂, h₂, Further-trans r r₁ r₂ p₁ p₂)

count-le :
    (p q : Referral → Bool) (rows : List Referral)
    → ((r : Referral) → p r ≡ true → q r ≡ true)
    → count p rows ≤ count q rows
count-le p q [] h = omega arith
count-le p q (r ∷ rows) h = ground (arith, h r, count-le p q rows h)

-- In the numbers that a trader is shown, the converted referrals are among the active ones and
-- these among all of them, whatever the table.
pub get_referral_stats-ordered :
    (phone : String) (db : Db)
    → let s = get_referral_stats phone db in (s.converted ≤ s.active) × (s.active ≤ s.total)
unfolding get_referral_stats is_signed_up is_unconverted
get_referral_stats-ordered phone db = (
  count-le _ _ db.referrals (λ r h. ground arith),
  count-le _ _ db.referrals (λ r h. ground arith),
)
