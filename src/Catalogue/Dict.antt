-- ===== src/Catalogue/Dict.antt =====
-- Python's `dict` from product names to prices, with the order of insertion: `d[k] = v`, `del d[k]`,
-- and the loop by which the catalogue commands find a key whatever its case.
use mathlib.Core.List.{Memᴰ}
use chat_to_sales.Base.{
  str_eq_comm_false, inr, eq_of_str_eq, inl, find?-key, refl, false, [], Bool-cases, some, arith,
  str_eq, ◌∷◌, has_key, Bool, none, if◌then◌else◌, ℕ, Option, ◌≡◌, find?, String, IsKeyed, List,
}

abbrev pub Catalogue : Type 0
Catalogue = List (String × ℕ)

abbrev pub name_of : String × ℕ → String
name_of entry = entry.0

-- `d[name] = price`
unfoldable pub put : String → ℕ → Catalogue → Catalogue
put name price [] = (name, price) ∷ []
put name price ((k, v) ∷ rest) =
    let later_entries = put name price rest in
    if str_eq k name then (k, price) ∷ rest else (k, v) ∷ later_entries

-- `del d[name]`, for a key that is there
unfoldable pub delete : String → Catalogue → Catalogue
delete name [] = []
delete name ((k, v) ∷ rest) =
    let later_entries = delete name rest in if str_eq k name then rest else (k, v) ∷ later_entries

-- `d.get(name)`
unfoldable pub lookup : String → Catalogue → Option ℕ
lookup name [] = none
lookup name ((k, v) ∷ rest) = if str_eq k name then some v else lookup name rest

module _ (lower : String → String) where
  abbrev pub same_name : String → String × ℕ → Bool
  same_name name entry = str_eq (lower entry.0) (lower name)

  -- `for key, val in catalogue.items(): if key.lower() == name.lower(): ... break`
  abbrev pub matched : String → Catalogue → Option (String × ℕ)
  matched name catalogue = find? (same_name name) catalogue

pub lookup-put :
    (k name : String) (price : ℕ) (d : Catalogue)
    → lookup k (put name price d) ≡ (if str_eq name k then some price else lookup k d)
unfolding lookup put
lookup-put k name price [] = refl
lookup-put k name price ((j, v) ∷ rest) = elim (Bool-cases (str_eq j name)) [
  | inl hit ↦ ground (arith, eq_of_str_eq j name hit)
  | inr miss ↦ elim (Bool-cases (str_eq j k)) [
    | inl here ↦ ground (arith, eq_of_str_eq j k here, str_eq_comm_false j name miss)
    | inr there ↦ ground (arith, lookup-put k name price rest)
  ]
]

-- The keys of a `dict` differ.
abbrev pub IsDict : Catalogue → Type 0
IsDict = IsKeyed name_of

lookup-absent :
    (k : String) (d : Catalogue) → find? (has_key name_of k) d ≡ none → lookup k d ≡ none
unfolding lookup
lookup-absent k [] h = refl
lookup-absent k ((j, v) ∷ rest) h = ground (arith, lookup-absent k rest)

lookup-present :
    (k : String) (v : ℕ) (d : Catalogue)
    → find? (has_key name_of k) d ≡ some (k, v)
    → lookup k d ≡ some v
unfolding lookup
lookup-present k v [] h = cc
lookup-present k v ((j, w) ∷ rest) h = elim (Bool-cases (str_eq j k)) [
  | inl hit ↦ ground arith
  | inr miss ↦ ground (arith, lookup-present k v rest)
]

-- An entry that is in a `dict` is what its key finds.
pub lookup-mem :
    (k : String) (v : ℕ) (d : Catalogue) → IsDict d → Memᴰ (k, v) d → lookup k d ≡ some v
lookup-mem k v d keyed m = lookup-present k v d (find?-key name_of d (k, v) keyed m)

pub lookup-delete :
    (k name : String) (d : Catalogue)
    → IsDict d
    → lookup k (delete name d) ≡ (if str_eq name k then none else lookup k d)
unfolding lookup delete
lookup-delete k name [] keyed = ground arith
lookup-delete k name ((j, v) ∷ rest) (new, keyed) = elim (Bool-cases (str_eq j name)) [
  | inl hit ↦ elim (Bool-cases (str_eq name k)) [
    | inl asked ↦
        ground (arith, lookup-absent k rest, eq_of_str_eq j name hit, eq_of_str_eq name k asked)
    | inr other ↦ ground (arith, eq_of_str_eq j name hit)
  ]
  | inr miss ↦ elim (Bool-cases (str_eq j k)) [
    | inl here ↦ ground (arith, eq_of_str_eq j k here, str_eq_comm_false j name miss)
    | inr there ↦ ground (arith, lookup-delete k name rest keyed)
  ]
]

absent-put :
    (k name : String) (price : ℕ) (d : Catalogue)
    → str_eq name k ≡ false
    → find? (has_key name_of k) d ≡ none
    → find? (has_key name_of k) (put name price d) ≡ none
unfolding put
absent-put k name price [] other h = ground arith
absent-put k name price ((j, v) ∷ rest) other h = ground (arith, absent-put k name price rest other)

absent-delete :
    (k name : String) (d : Catalogue)
    → find? (has_key name_of k) d ≡ none
    → find? (has_key name_of k) (delete name d) ≡ none
unfolding delete
absent-delete k name [] h = refl
absent-delete k name ((j, v) ∷ rest) h = ground (arith, absent-delete k name rest)

pub put-IsDict : (name : String) (price : ℕ) (d : Catalogue) → IsDict d → IsDict (put name price d)
unfolding put
put-IsDict name price [] keyed = ground arith
put-IsDict name price ((j, v) ∷ rest) (new, keyed) = elim (Bool-cases (str_eq j name)) [
  | inl hit ↦ rw hit (new, keyed)
  | inr miss ↦ rw miss (
    absent-put j name price rest (str_eq_comm_false j name miss) new,
    put-IsDict name price rest keyed,
  )
]

pub delete-IsDict : (name : String) (d : Catalogue) → IsDict d → IsDict (delete name d)
unfolding delete
delete-IsDict name [] keyed = keyed
delete-IsDict name ((j, v) ∷ rest) (new, keyed) = elim (Bool-cases (str_eq j name)) [
  | inl hit ↦ rw hit keyed
  | inr miss ↦ rw miss (absent-delete j name rest new, delete-IsDict name rest keyed)
]
