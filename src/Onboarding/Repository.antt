-- ===== src/Onboarding/Repository.antt =====
-- app/modules/onboarding/repository.py: the lookups of traders.
use chat_to_sales.Base.{
  none, ◌&&◌, some, true, str_eq, find?, is_some, false, Bool, update_where, String, Option,
}
use chat_to_sales.Models.{Trader, OnboardingStatus, Db}

abbrev pub is_complete : OnboardingStatus → Bool
is_complete OnboardingStatus.complete = true
is_complete OnboardingStatus.in_progress = false

abbrev pub text_is : Option String → String → Bool
text_is none s = false
text_is (some t) s = str_eq t s

unfoldable pub get_by_phone : String → Db → Option Trader
get_by_phone phone db = find? (λ t. str_eq t.phone_number phone) db.traders

-- The completed trader of a tenant.
unfoldable pub get_by_tenant : String → Db → Option Trader
get_by_tenant tenant_id db =
    find? (λ t. text_is t.tenant_id tenant_id && is_complete t.onboarding_status) db.traders

unfoldable pub get_by_slug : String → Db → Option Trader
get_by_slug slug db = find? (λ t. text_is t.store_slug slug) db.traders

unfoldable pub slug_exists : Db → String → Bool
slug_exists db slug = is_some (find? (λ t. text_is t.store_slug slug) db.traders)

unfoldable pub update_tenant_id : String → String → Db → Db
update_tenant_id phone tenant_id db = record db {
  traders =
      update_where (λ t. str_eq t.phone_number phone) (λ t. record t { tenant_id = some tenant_id })
        db.traders;
}
