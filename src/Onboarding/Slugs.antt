-- ===== src/Onboarding/Slugs.antt =====
-- app/modules/onboarding/service.py `_generate_unique_slug`, from the base on, and
-- app/modules/marketing/referrals.py `ensure_unique_referral_code`: both append -2, -3, ... until the
-- text is free. The text of a number is the parameter `digits`.
pub mod Ends
use chat_to_sales.Models.{Db}
use chat_to_sales.Onboarding.Repository.{text_is, slug_exists}
use chat_to_sales.Base.{
  zero, some, if◌then◌else◌, find?, suc, is_some, none, Bool, append_text, Option, ◌+◌, String,
  length, List, ℕ,
}

-- `f"{base}-{counter}"`
abbrev pub candidate : (ℕ → String) → String → ℕ → String
candidate digits base counter = append_text base (append_text "-" (digits counter))

-- The loop, on fuel.
unfoldable pub first_free : (ℕ → String) → (String → Bool) → String → ℕ → ℕ → String → Option String
first_free digits taken base zero counter text = none
first_free digits taken base (suc fuel) counter text =
    let rest = first_free digits taken base fuel (counter + 1) (candidate digits base counter) in
    if taken text then rest else some text

-- One test for each row, one for the base and one more.
abbrev pub enough_for : {A : Type 0} → List A → ℕ
enough_for rows = length rows + 2

unfoldable pub generate_unique_slug : (ℕ → String) → String → Db → Option String
unfolding first_free slug_exists
generate_unique_slug digits base db =
    first_free digits (slug_exists db) base (enough_for db.traders) 2 base

unfoldable pub referral_code_taken : Db → String → Bool
referral_code_taken db code = is_some (find? (λ t. text_is t.referral_code code) db.traders)

unfoldable pub ensure_unique_referral_code : (ℕ → String) → String → Db → Option String
unfolding first_free referral_code_taken
ensure_unique_referral_code digits base db =
    first_free digits (referral_code_taken db) base (enough_for db.traders) 2 base
