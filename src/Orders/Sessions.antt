-- ===== src/Orders/Sessions.antt =====
-- app/modules/orders/session.py: what is kept in Redis of a dialogue, each kind under its own key and
-- for its own time. Left out: the image inquiries with their index.
pub mod Lifetimes
use chat_to_sales.Redis.{Json, Redis}
use chat_to_sales.Base.{
  none, str_eq, if◌then◌else◌, some, Option, truthy, ◌*◌, Bool, append_text, String, ℕ,
}

abbrev pub join : String → String → String
join s t = append_text s (append_text ":" t)

abbrev pub session_key : String → String → String
session_key tenant_id customer_phone = join "order:session" (join tenant_id customer_phone)

abbrev pub session_ttl : ℕ
session_ttl = 24 * 60 * 60

abbrev pub last_clarify_key : String → String → String
last_clarify_key tenant_id customer_phone = join "clarify:last" (join tenant_id customer_phone)

abbrev pub last_clarify_ttl : ℕ
last_clarify_ttl = 10 * 60

abbrev pub trader_phone_key : String → String
trader_phone_key phone = join "trader:phone" phone

abbrev pub trader_tenant_key : String → String
trader_tenant_key tenant_id = join "trader:tenant" tenant_id

abbrev pub trader_slug_key : String → String
trader_slug_key slug = join "trader:slug" slug

abbrev pub trader_ttl : ℕ
trader_ttl = 60 * 60

abbrev pub customer_routing_key : String → String
customer_routing_key phone = join "customer:routing" phone

abbrev pub customer_routing_ttl : ℕ
customer_routing_ttl = 7 * 24 * 60 * 60

abbrev pub quiet_key : String → String → String
quiet_key tenant_id phone = join "quiet" (join tenant_id phone)

abbrev pub quiet_ttl : ℕ
quiet_ttl = 30 * 60

abbrev pub negotiation_key : String → String → String
negotiation_key trader_phone customer_phone = join "negotiation" (join trader_phone customer_phone)

abbrev pub negotiation_ttl : ℕ
negotiation_ttl = 24 * 60 * 60

abbrev pub trader_session_key : String → String
trader_session_key phone = join "trader:session" phone

abbrev pub trader_session_ttl : ℕ
trader_session_ttl = 10 * 60

module _ (R : Redis) where
  module _ {D : Type 0} (J : Json D) where
    -- `json.loads(raw) if raw else None`
    abbrev pub loaded : Option String → Option D
    loaded none = none
    loaded (some raw) = if str_eq raw "" then none else some (J.loads raw)

    unfoldable pub get_order_session : ℕ → String → String → R.Store → Option D
    get_order_session t tenant_id phone s = loaded (R.get t (session_key tenant_id phone) s)

    unfoldable pub set_order_session : ℕ → String → String → D → R.Store → R.Store
    set_order_session now tenant_id phone d s =
        R.setex now (session_key tenant_id phone) session_ttl (J.dumps d) s

    unfoldable pub get_last_clarification : ℕ → String → String → R.Store → Option D
    get_last_clarification t tenant_id phone s =
        loaded (R.get t (last_clarify_key tenant_id phone) s)

    unfoldable pub save_last_clarification : ℕ → String → String → D → R.Store → R.Store
    save_last_clarification now tenant_id phone d s =
        R.setex now (last_clarify_key tenant_id phone) last_clarify_ttl (J.dumps d) s

    unfoldable pub get_trader_by_phone_cache : ℕ → String → R.Store → Option D
    get_trader_by_phone_cache t phone s = loaded (R.get t (trader_phone_key phone) s)

    unfoldable pub cache_trader_by_phone : ℕ → String → D → R.Store → R.Store
    cache_trader_by_phone now phone d s =
        R.setex now (trader_phone_key phone) trader_ttl (J.dumps d) s

    unfoldable pub get_trader_by_tenant_cache : ℕ → String → R.Store → Option D
    get_trader_by_tenant_cache t tenant_id s = loaded (R.get t (trader_tenant_key tenant_id) s)

    unfoldable pub cache_trader_by_tenant : ℕ → String → D → R.Store → R.Store
    cache_trader_by_tenant now tenant_id d s =
        R.setex now (trader_tenant_key tenant_id) trader_ttl (J.dumps d) s

    unfoldable pub get_trader_by_slug_cache : ℕ → String → R.Store → Option D
    get_trader_by_slug_cache t slug s = loaded (R.get t (trader_slug_key slug) s)

    unfoldable pub cache_trader_by_slug : ℕ → String → D → R.Store → R.Store
    cache_trader_by_slug now slug d s = R.setex now (trader_slug_key slug) trader_ttl (J.dumps d) s

    unfoldable pub get_customer_routing : ℕ → String → R.Store → Option D
    get_customer_routing t phone s = loaded (R.get t (customer_routing_key phone) s)

    unfoldable pub set_customer_routing : ℕ → String → D → R.Store → R.Store
    set_customer_routing now phone d s =
        R.setex now (customer_routing_key phone) customer_routing_ttl (J.dumps d) s

    unfoldable pub get_pending_negotiation : ℕ → String → String → R.Store → Option D
    get_pending_negotiation t trader customer s =
        loaded (R.get t (negotiation_key trader customer) s)

    unfoldable pub set_pending_negotiation : ℕ → String → String → D → R.Store → R.Store
    set_pending_negotiation now trader customer d s =
        R.setex now (negotiation_key trader customer) negotiation_ttl (J.dumps d) s

    unfoldable pub get_trader_session : ℕ → String → R.Store → Option D
    get_trader_session t phone s = loaded (R.get t (trader_session_key phone) s)

    unfoldable pub set_trader_session : ℕ → String → D → R.Store → R.Store
    set_trader_session now phone d s =
        R.setex now (trader_session_key phone) trader_session_ttl (J.dumps d) s

  unfoldable pub clear_order_session : String → String → R.Store → R.Store
  clear_order_session tenant_id phone s = R.del (session_key tenant_id phone) s

  unfoldable pub clear_last_clarification : String → String → R.Store → R.Store
  clear_last_clarification tenant_id phone s = R.del (last_clarify_key tenant_id phone) s

  unfoldable pub clear_customer_routing : String → R.Store → R.Store
  clear_customer_routing phone s = R.del (customer_routing_key phone) s

  unfoldable pub clear_pending_negotiation : String → String → R.Store → R.Store
  clear_pending_negotiation trader customer s = R.del (negotiation_key trader customer) s

  unfoldable pub clear_trader_session : String → R.Store → R.Store
  clear_trader_session phone s = R.del (trader_session_key phone) s

  unfoldable pub set_quiet_mode : ℕ → String → String → R.Store → R.Store
  set_quiet_mode now tenant_id phone s = R.setex now (quiet_key tenant_id phone) quiet_ttl "1" s

  unfoldable pub is_quiet_mode : ℕ → String → String → R.Store → Bool
  is_quiet_mode t tenant_id phone s = truthy (R.get t (quiet_key tenant_id phone) s)
