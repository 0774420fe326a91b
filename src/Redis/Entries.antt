-- ===== src/Redis/Entries.antt =====
-- A store that satisfies the interface: a list of entries with their ends.
use chat_to_sales.Redis.{Redis}
use chat_to_sales.Base.{
  refl, str_eq_comm_false, none, eq_of_str_eq, true, find?-delete_other, find?-delete, ltb, ap, ◌∷◌,
  if◌then◌else◌, false, has_key, not, ◌+◌, select, find?, str_eq_self, ◌≡◌, some, Option, str_eq,
  List, String, ℕ,
}

pub record Entry : Type 0 where
  pub key : String
  pub text : String
  pub until : ℕ

abbrev key_of : Entry → String
key_of x = x.key

abbrev alive : ℕ → Option Entry → Option String
alive t none = none
alive t (some x) = if ltb t x.until then some x.text else none

abbrev get_entry : ℕ → String → List Entry → Option String
get_entry t k s = alive t (find? (has_key key_of k) s)

abbrev delete_entry : String → List Entry → List Entry
delete_entry k s = select (λ x. not (has_key key_of k x)) s

abbrev setex_entry : ℕ → String → ℕ → String → List Entry → List Entry
setex_entry now k ttl v s = record { key = k; text = v; until = now + ttl } ∷ delete_entry k s

keys_apart :
    (k k' : String) (x : Entry)
    → str_eq k k' ≡ false
    → has_key key_of k' x ≡ true
    → has_key key_of k x ≡ false
keys_apart k k' x differ hit = rw (eq_of_str_eq x.key k' hit) (str_eq_comm_false k k' differ)

pub get-setex_entry_other :
    (now t ttl : ℕ) (k k' v : String) (s : List Entry)
    → str_eq k k' ≡ false
    → get_entry t k' (setex_entry now k ttl v s) ≡ get_entry t k' s
get-setex_entry_other now t ttl k k' v s differ = rw differ (
    ap (alive t) (
      find?-delete_other (has_key key_of k') (has_key key_of k) s
        (λ x hit. keys_apart k k' x differ hit)))

abbrev pub entries : Redis
entries = record {
  Store = List Entry;
  get = get_entry;
  setex = setex_entry;
  del = delete_entry;
  get-setex = λ now t ttl k v s. rw (str_eq_self k) refl;
  get-setex_other = get-setex_entry_other;
  get-del = λ t k s. ap (alive t) (find?-delete (has_key key_of k) s);
}
