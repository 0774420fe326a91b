-- ===== src/Orders/Sessions/Lifetimes.antt =====
-- What is written is read again until its time is over, or it is cleared.
use chat_to_sales.Base.{true, false}
-- The kinds of data that the dialogue keeps, with the names of their keys.
use chat_to_sales.Orders.Sessions.{
  trader_session_ttl, customer_routing_ttl, trader_ttl, negotiation_ttl, last_clarify_ttl,
  session_ttl, get_trader_session, set_trader_session, set_customer_routing, get_customer_routing,
  cache_trader_by_slug, get_trader_by_slug_cache, get_trader_by_tenant_cache,
  cache_trader_by_tenant, cache_trader_by_phone, get_trader_by_phone_cache, get_pending_negotiation,
  set_pending_negotiation, save_last_clarification, get_last_clarification, set_order_session,
  get_order_session, loaded,
}
use chat_to_sales.Redis.{Carries, Json, Redis}
use chat_to_sales.Base.{
  ◌*◌, true, ◌∙◌, ap, Bool, none, ◌+◌, ltb, if◌then◌else◌, refl, ◌≡◌, Option, some, ℕ, String,
}

pub data Slot : Type 0 where
  order_session last_clarification negotiation : String → String → Slot
  trader_by_phone trader_by_tenant trader_by_slug routing trader_session : String → Slot

module _ (R : Redis) {D : Type 0} (J : Json D) where
  abbrev pub read_slot : ℕ → Slot → R.Store → Option D
  read_slot t (Slot.order_session tenant phone) = get_order_session R J t tenant phone
  read_slot t (Slot.last_clarification tenant phone) = get_last_clarification R J t tenant phone
  read_slot t (Slot.negotiation trader customer) = get_pending_negotiation R J t trader customer
  read_slot t (Slot.trader_by_phone phone) = get_trader_by_phone_cache R J t phone
  read_slot t (Slot.trader_by_tenant tenant) = get_trader_by_tenant_cache R J t tenant
  read_slot t (Slot.trader_by_slug slug) = get_trader_by_slug_cache R J t slug
  read_slot t (Slot.routing phone) = get_customer_routing R J t phone
  read_slot t (Slot.trader_session phone) = get_trader_session R J t phone

  abbrev pub write_slot : ℕ → Slot → D → R.Store → R.Store
  write_slot now (Slot.order_session tenant phone) = set_order_session R J now tenant phone
  write_slot now (Slot.last_clarification tenant phone) =
      save_last_clarification R J now tenant phone
  write_slot now (Slot.negotiation trader customer) =
      set_pending_negotiation R J now trader customer
  write_slot now (Slot.trader_by_phone phone) = cache_trader_by_phone R J now phone
  write_slot now (Slot.trader_by_tenant tenant) = cache_trader_by_tenant R J now tenant
  write_slot now (Slot.trader_by_slug slug) = cache_trader_by_slug R J now slug
  write_slot now (Slot.routing phone) = set_customer_routing R J now phone
  write_slot now (Slot.trader_session phone) = set_trader_session R J now phone

  -- What the docs of the functions say: ten minutes, an hour, a day, a week.
  abbrev pub minutes_of : Slot → ℕ
  minutes_of (Slot.order_session tenant phone) = 1440
  minutes_of (Slot.last_clarification tenant phone) = 10
  minutes_of (Slot.negotiation trader customer) = 1440
  minutes_of (Slot.trader_by_phone phone) = 60
  minutes_of (Slot.trader_by_tenant tenant) = 60
  minutes_of (Slot.trader_by_slug slug) = 60
  minutes_of (Slot.routing phone) = 10080
  minutes_of (Slot.trader_session phone) = 10

  loaded-dumps : (d : D) → Carries J d → loaded R J (some (J.dumps d)) ≡ some d
  loaded-dumps d carried = rw (carried.dumps_not_empty, carried.loads-dumps) refl

  read_back :
      (now t ttl : ℕ) (k : String) (d : D) (s : R.Store)
      → Carries J d
      → loaded R J (R.get t k (R.setex now k ttl (J.dumps d) s))
        ≡ (if ltb t (now + ttl) then some d else none)
  read_back now t ttl k d s carried =
      ap (loaded R J) (R.get-setex now t ttl k (J.dumps d) s) ∙ by_time (ltb t (now + ttl))
    where
      by_time :
          (alive : Bool)
          → loaded R J (if alive then some (J.dumps d) else none) ≡ (if alive then some d else none)
      by_time true = loaded-dumps d carried
      by_time false = refl

  -- What is kept of a dialogue, of any kind and under any names, where JSON carries it, is read back as it was written until
  -- as many minutes have passed as its kind lives, and after that there is nothing.
  pub write_slot-read_slot :
      (now t : ℕ) (slot : Slot) (d : D) (s : R.Store)
      → Carries J d
      → read_slot t slot (write_slot now slot d s)
        ≡ (if ltb t (now + minutes_of slot * 60) then some d else none)
  unfolding get_order_session set_order_session get_last_clarification save_last_clarification
      get_pending_negotiation set_pending_negotiation get_trader_by_phone_cache
      cache_trader_by_phone get_trader_by_tenant_cache cache_trader_by_tenant
      get_trader_by_slug_cache cache_trader_by_slug get_customer_routing set_customer_routing
      get_trader_session set_trader_session
  write_slot-read_slot now t (Slot.order_session a b) d s carried =
      read_back now t session_ttl _ d s carried
  write_slot-read_slot now t (Slot.last_clarification a b) d s carried =
      read_back now t last_clarify_ttl _ d s carried
  write_slot-read_slot now t (Slot.negotiation a b) d s carried =
      read_back now t negotiation_ttl _ d s carried
  write_slot-read_slot now t (Slot.trader_by_phone a) d s carried =
      read_back now t trader_ttl _ d s carried
  write_slot-read_slot now t (Slot.trader_by_tenant a) d s carried =
      read_back now t trader_ttl _ d s carried
  write_slot-read_slot now t (Slot.trader_by_slug a) d s carried =
      read_back now t trader_ttl _ d s carried
  write_slot-read_slot now t (Slot.routing a) d s carried =
      read_back now t customer_routing_ttl _ d s carried
  write_slot-read_slot now t (Slot.trader_session a) d s carried =
      read_back now t trader_session_ttl _ d s carried
