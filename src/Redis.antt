-- ===== src/Redis.antt =====
-- The store that app/infra/cache.py connects to, as far as app/modules/orders/session.py uses it, and
-- the JSON texts that are kept in it: interfaces with the documented laws.
pub mod Entries
use chat_to_sales.Base.{none, some, ◌+◌, ltb, false, str_eq, if◌then◌else◌, ◌≡◌, Option, ℕ, String}

pub record Redis : Type 1 where
  pub Store : Type 0
  -- at a moment
  pub get : ℕ → String → Store → Option String
  -- at a moment, with the seconds that the value lives
  pub setex : ℕ → String → ℕ → String → Store → Store
  pub del : String → Store → Store
  pub get-setex :
      (now t ttl : ℕ) (k v : String) (s : Store)
      → get t k (setex now k ttl v s) ≡ (if ltb t (now + ttl) then some v else none)
  pub get-setex_other :
      (now t ttl : ℕ) (k k' v : String) (s : Store)
      → str_eq k k' ≡ false
      → get t k' (setex now k ttl v s) ≡ get t k' s
  pub get-del : (t : ℕ) (k : String) (s : Store) → get t k (del k s) ≡ none

-- `json.dumps` and `json.loads` on the data of one kind.
pub record Json (D : Type 0) : Type 0 where
  pub dumps : D → String
  pub loads : String → D

-- What the documentation says of a datum that JSON can carry: it is read back, from a text that is not empty.
pub record Carries {D : Type 0} (J : Json D) (d : D) : Type 0 where
  pub loads-dumps : J.loads (J.dumps d) ≡ d
  pub dumps_not_empty : str_eq (J.dumps d) "" ≡ false
