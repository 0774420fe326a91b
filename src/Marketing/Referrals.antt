-- ===== src/Marketing/Referrals.antt =====
-- app/modules/marketing/referrals.py: a referral and its milestones.
pub mod Milestones
use chat_to_sales.Base.{
  ℕ, String, Bool, true, false, ◌&&◌, not, Option, none, some, List, [], ◌∷◌, ◌++◌, find?, count,
  update_where, str_eq,
}
use chat_to_sales.Models.{
  Db, Env, Referral, ReferralStatus, signed_up, first_order, active_30d, converted,
}
use chat_to_sales.Session.{Action, ok, modify}

unfoldable pub is_referred : String → Referral → Bool
is_referred phone r = str_eq r.referred_phone phone

-- `status == ReferralStatus.X` and `status.in_([...])`
unfoldable pub is_signed_up : ReferralStatus → Bool
is_signed_up signed_up = true
is_signed_up _ = false

unfoldable pub is_first_order : ReferralStatus → Bool
is_first_order first_order = true
is_first_order _ = false

unfoldable pub is_unconverted : ReferralStatus → Bool
is_unconverted converted = false
is_unconverted _ = true

-- The arguments of `log_referral`.
pub record NewReferral : Type 0 where
  pub referred_phone : String
  pub referred_name : Option String
  pub referrer_phone : Option String
  pub agent_code : Option String
  pub attribution_type : String

abbrev pub new_referral : NewReferral → Referral
new_referral n = record {
  referrer_phone = n.referrer_phone;
  agent_code = n.agent_code;
  referred_phone = n.referred_phone;
  referred_name = n.referred_name;
  attribution_type = n.attribution_type;
  status = signed_up;
  first_order_at = none;
  active_30d_at = none;
  converted_at = none;
}

-- The branch on the referral that was found.
unfoldable pub log_found : NewReferral → Option Referral → Action Referral
log_found n (some existing) db = (ok existing, db)
log_found n none db =
    (ok (new_referral n), record db { referrals = db.referrals ++ new_referral n ∷ [] })

unfoldable pub log_referral : NewReferral → Action Referral
unfolding log_found is_referred
log_referral n db = log_found n (find? (is_referred n.referred_phone) db.referrals) db

-- What the three `UPDATE` statements write.
abbrev pub reached_first_order : ℕ → Referral → Referral
reached_first_order now r = record r { status = first_order; first_order_at = some now }

abbrev pub reached_active_30d : ℕ → Referral → Referral
reached_active_30d now r = record r { status = active_30d; active_30d_at = some now }

abbrev pub reached_converted : ℕ → Referral → Referral
reached_converted now r = record r { status = converted; converted_at = some now }

-- The three `UPDATE` statements, on the rows.
unfoldable pub to_first_order : ℕ → String → List Referral → List Referral
unfolding is_referred is_signed_up
to_first_order now phone =
    update_where (λ r. is_referred phone r && is_signed_up r.status) (reached_first_order now)

unfoldable pub to_active : ℕ → String → List Referral → List Referral
unfolding is_referred is_first_order
to_active now phone =
    update_where (λ r. is_referred phone r && is_first_order r.status) (reached_active_30d now)

unfoldable pub to_converted : ℕ → String → List Referral → List Referral
unfolding is_referred is_unconverted
to_converted now phone =
    update_where (λ r. is_referred phone r && is_unconverted r.status) (reached_converted now)

unfoldable pub advance_referral_to_first_order : Env → String → Action (Unit {0})
advance_referral_to_first_order e phone =
    modify (λ db. record db { referrals = to_first_order e.now phone db.referrals })

unfoldable pub advance_referral_to_active : Env → String → Action (Unit {0})
advance_referral_to_active e phone =
    modify (λ db. record db { referrals = to_active e.now phone db.referrals })

unfoldable pub advance_referral_to_converted : Env → String → Action (Unit {0})
advance_referral_to_converted e phone =
    modify (λ db. record db { referrals = to_converted e.now phone db.referrals })

abbrev refers : String → Referral → Bool
refers phone r = elim r.referrer_phone [ none ↦ false | some p ↦ str_eq p phone ]

abbrev is_converted : ReferralStatus → Bool
is_converted s = not (is_unconverted s)

pub record ReferralStats : Type 0 where
  pub total : ℕ
  pub active : ℕ
  pub converted : ℕ

unfoldable pub get_referral_stats : String → Db → ReferralStats
unfolding is_signed_up is_unconverted
get_referral_stats phone db = record {
  total = count (refers phone) db.referrals;
  active = count (λ r. refers phone r && not (is_signed_up r.status)) db.referrals;
  converted = count (λ r. refers phone r && is_converted r.status) db.referrals;
}
