-- ===== src/Base/Keys.antt =====
-- Tables with a primary key: a row is found by its key, and an update by key changes that row only.
use Prim.Native.String.{String}
use mathlib.Core.Path.{◌≡◌, refl, sym, ◌∙◌, ap}
use mathlib.Core.Logic.{◌≢◌, inl, inr, ◌⊎◌}
use mathlib.Core.Bool.{Bool, true, false}
use mathlib.Core.Option
use mathlib.Core.Option.{Option, none, some, some-injective}
use mathlib.Core.List.{List, [], ◌∷◌, ◌++◌, Memᴰ}
use native.Mathlib.Omega.{arith}
use chat_to_sales.Base.Tests.{
  if◌then◌else◌, str_eq, str_eq_self, str_eq_of_eq, eq_of_str_eq, Bool-cases, ltb,
}
use chat_to_sales.Base.Rows.{
  count, find?, select, update_where, latest, later, find?-update_where, find?-append_none,
  find?-holds,
}
use Prim.Native.Nat.{ℕ}

module _ {ℓ} {A : Type ℓ} (key : A → String) where
  -- `WHERE key = k`
  abbrev pub has_key : String → A → Bool
  has_key k x = str_eq (key x) k

  -- No two rows have one key.
  abbrev pub IsKeyed : List A → Type ℓ
  IsKeyed [] = Unit
  IsKeyed (x ∷ xs) = (find? (has_key (key x)) xs ≡ none) × IsKeyed xs

pub Option_clash {ℓ} : {A : Type ℓ} {a : A} → some a ≡ none → ⊥
Option_clash h = cc

-- Texts that differ one way differ the other way.
pub str_eq_comm_false : (s t : String) → str_eq s t ≡ false → str_eq t s ≡ false
str_eq_comm_false s t h = elim (Bool-cases (str_eq t s)) [
  | inl e ↦ absurd (Bool_clash (sym (str_eq_of_eq s t (sym (eq_of_str_eq t s e))) ∙ h))
  | inr e ↦ e
]
  where
    Bool_clash : true ≡ false → ⊥
    Bool_clash p = cc

module _ {ℓ} {A : Type ℓ} where
  -- Where a search finds nothing, no element passes.
  pub find?-none_at :
      (p : A → Bool) (xs : List A) → find? p xs ≡ none → (x : A) → Memᴰ x xs → p x ≡ false
  find?-none_at p [] h x m = elim m [ ]
  find?-none_at p (y ∷ ys) h x m = elim (Bool-cases (p y)) [
    | inl hit ↦ absurd (Option_clash (rw hit at h))
    | inr miss ↦ elim m [
      | Memᴰ.head same ↦ rw same miss
      | Memᴰ.tail later ↦ find?-none_at p ys (rw miss at h) x later
    ]
  ]

  pub count-zero_at :
      (p : A → Bool) (xs : List A) → count p xs ≡ 0 → (x : A) → Memᴰ x xs → p x ≡ false
  count-zero_at p xs h = find?-none_at p xs (search xs h)
    where
      search : (ys : List A) → count p ys ≡ 0 → find? p ys ≡ none
      search [] h = refl
      search (y ∷ ys) h = ground (arith, search ys)

  pub latest-none_of :
      (p : A → Bool) (at : A → ℕ) (xs : List A)
      → ((x : A) → Memᴰ x xs → p x ≡ false)
      → latest p at xs ≡ none
  latest-none_of p at [] miss = refl
  latest-none_of p at (x ∷ xs) miss =
      rw (miss x (Memᴰ.head refl)) (latest-none_of p at xs (λ y m. miss y (Memᴰ.tail m)))

  pub Memᴰ-append : (x y : A) (xs : List A) → Memᴰ x (xs ++ y ∷ []) → Memᴰ x xs ⊎ (x ≡ y)
  Memᴰ-append x y [] (Memᴰ.head e) = inr e
  Memᴰ-append x y [] (Memᴰ.tail m) = elim m [ ]
  Memᴰ-append x y (z ∷ xs) (Memᴰ.head e) = inl (Memᴰ.head e)
  Memᴰ-append x y (z ∷ xs) (Memᴰ.tail m) = elim (Memᴰ-append x y xs m) [
    | inl old ↦ inl (Memᴰ.tail old)
    | inr e ↦ inr e
  ]

  pub find?-mem : (p : A → Bool) (xs : List A) (x : A) → find? p xs ≡ some x → Memᴰ x xs
  find?-mem p [] x h = cc
  find?-mem p (y ∷ ys) x h = elim (Bool-cases (p y)) [
    | inl e ↦ Memᴰ.head (some-injective _ _ (sym (rw e at h)))
    | inr e ↦ Memᴰ.tail (find?-mem p ys x (rw e at h))
  ]

  -- The first row of a selection is a row of the table that fits.
  pub select-first :
      (p : A → Bool) (xs : List A) (x : A) {rest : List A}
      → select p xs ≡ x ∷ rest
      → Memᴰ x xs × (p x ≡ true)
  select-first p [] x h = cc
  select-first p (y ∷ ys) x h = elim (Bool-cases (p y)) [
    | inl hit ↦ (Memᴰ.head (cc (rw hit at h)), cc (hit, rw hit at h))
    | inr miss ↦ let (m, fits) = select-first p ys x (rw miss at h) in (Memᴰ.tail m, fits)
  ]

  later-mem :
      (p : A → Bool) (at : A → ℕ) (y : A) (ys : List A) (x : A) (best : Option A)
      → later at y best ≡ some x
      → (best ≡ some x → Memᴰ x ys)
      → Memᴰ x (y ∷ ys)
  later-mem p at y ys x none h rest = Memᴰ.head (some-injective _ _ (sym h))
  later-mem p at y ys x (some z) h rest = elim (Bool-cases (ltb (at y) (at z))) [
    | inl e ↦ Memᴰ.tail (rest (rw e at h))
    | inr e ↦ Memᴰ.head (some-injective _ _ (sym (rw e at h)))
  ]

  pub latest-mem :
      (p : A → Bool) (at : A → ℕ) (xs : List A) (x : A) → latest p at xs ≡ some x → Memᴰ x xs
  latest-mem p at [] x h = cc
  latest-mem p at (y ∷ ys) x h = elim (Bool-cases (p y)) [
    | inl e ↦ later-mem p at y ys x (latest p at ys) (rw e at h) (latest-mem p at ys x)
    | inr e ↦ Memᴰ.tail (latest-mem p at ys x (rw e at h))
  ]

module _ {ℓ} {A : Type ℓ} (key : A → String) where
  key_clash :
      (ys : List A) (y x : A)
      → find? (has_key key (key y)) ys ≡ none
      → key y ≡ key x
      → find? (has_key key (key x)) ys ≢ some x
  key_clash ys y x new same found = cc (new, found, ap (λ k. find? (has_key key k) ys) same)

  -- A row that is in the table is the row that its key finds.
  pub find?-key :
      (xs : List A) (x : A) → IsKeyed key xs → Memᴰ x xs → find? (has_key key (key x)) xs ≡ some x
  find?-key [] x _ m = elim m [ ]
  find?-key (y ∷ ys) x (new, rest) (Memᴰ.head e) = rw e (rw (str_eq_self (key y)))
  find?-key (y ∷ ys) x (new, rest) (Memᴰ.tail m) = elim (Bool-cases (str_eq (key y) (key x))) [
    | inl e ↦ absurd (key_clash ys y x new (eq_of_str_eq (key y) (key x) e) (find?-key ys x rest m))
    | inr e ↦ rw e (find?-key ys x rest m)
  ]

  -- Two rows of a keyed table with one key are one row.
  pub row_unique :
      (j : String) (xs : List A) (o r : A)
      → IsKeyed key xs
      → Memᴰ r xs
      → find? (has_key key j) xs ≡ some o
      → has_key key (key r) o ≡ true
      → o ≡ r
  row_unique j xs o r keyed m h hit = some-injective o r (
      sym h
      ∙ ap (λ k. find? (has_key key k) xs)
          (sym (eq_of_str_eq (key o) j (find?-holds (has_key key j) xs o h))
            ∙ eq_of_str_eq (key o) (key r) hit)
      ∙ find?-key xs r keyed m)

  key_kept :
      (p : A → Bool) (f : A → A) (x : A) → key (f x) ≡ key x → key (if p x then f x else x) ≡ key x
  key_kept p f x keep = ground arith

  -- An update that keeps the keys: what a key finds is the updated row.
  pub find?-update_where_key :
      (k : String) (p : A → Bool) (f : A → A) (xs : List A)
      → ((x : A) → key (f x) ≡ key x)
      → find? (has_key key k) (update_where p f xs)
        ≡ Option.map (λ x. if p x then f x else x) (find? (has_key key k) xs)
  find?-update_where_key k p f xs keep =
      find?-update_where (has_key key k) p f xs (λ x. ap (λ j. str_eq j k) (keep x))

  pub update_where-IsKeyed :
      (p : A → Bool) (f : A → A) (xs : List A)
      → ((x : A) → key (f x) ≡ key x)
      → IsKeyed key xs
      → IsKeyed key (update_where p f xs)
  update_where-IsKeyed p f [] keep h = tt
  update_where-IsKeyed p f (x ∷ xs) keep h = (
    rw (key_kept p f x (keep x), find?-update_where_key (key x) p f xs keep, h.0),
    update_where-IsKeyed p f xs keep h.1,
  )

  -- A new row with a fresh key.
  pub append-IsKeyed :
      (xs : List A) (x : A)
      → IsKeyed key xs
      → find? (has_key key (key x)) xs ≡ none
      → IsKeyed key (xs ++ x ∷ [])
  append-IsKeyed [] x h new = (refl, tt)
  append-IsKeyed (y ∷ ys) x h new = elim (Bool-cases (str_eq (key y) (key x))) [
    | inl e ↦ absurd (Option_clash (rw e at new))
    | inr e ↦ (
      rw (find?-append_none (has_key key (key y)) ys (x ∷ []) h.0)
          (rw (str_eq_comm_false (key y) (key x) e)),
      append-IsKeyed ys x h.1 (rw e at new),
    )
  ]

module _ {ℓ} {A : Type ℓ} where
  pub Memᴰ-cons : (x y : A) (ys : List A) → Memᴰ x (y ∷ ys) → (x ≡ y) ⊎ Memᴰ x ys
  Memᴰ-cons x y ys (Memᴰ.head e) = inl e
  Memᴰ-cons x y ys (Memᴰ.tail m) = inr m

  -- A selected row is a row that fits.
  pub select-mem :
      (p : A → Bool) (xs : List A) (x : A) → Memᴰ x (select p xs) → Memᴰ x xs × (p x ≡ true)
  select-mem p [] x m = elim m [ ]
  select-mem p (y ∷ ys) x m = elim (Bool-cases (p y)) [
    | inr miss ↦ let (old, fits) = select-mem p ys x (rw miss at m) in (Memᴰ.tail old, fits)
    | inl hit ↦ elim (Memᴰ-cons x y (select p ys) (rw hit at m)) [
      | inl e ↦ (Memᴰ.head e, rw e hit)
      | inr rest ↦ let (old, fits) = select-mem p ys x rest in (Memᴰ.tail old, fits)
    ]
  ]

  -- A row that fits is selected.
  pub mem-select :
      (p : A → Bool) (xs : List A) (x : A) → Memᴰ x xs → p x ≡ true → Memᴰ x (select p xs)
  mem-select p [] x m h = elim m [ ]
  mem-select p (y ∷ ys) x (Memᴰ.head e) h = rw (rw e at h) (Memᴰ.head e)
  mem-select p (y ∷ ys) x (Memᴰ.tail m) h = elim (Bool-cases (p y)) [
    | inl hit ↦ rw hit (Memᴰ.tail (mem-select p ys x m h))
    | inr miss ↦ rw miss (mem-select p ys x m h)
  ]

  pub find?-select-none :
      (q p : A → Bool) (xs : List A) → find? q xs ≡ none → find? q (select p xs) ≡ none
  find?-select-none q p [] h = refl
  find?-select-none q p (y ∷ ys) h = ground (arith, find?-select-none q p ys)

  -- A selection of a keyed table is keyed.
  pub select-IsKeyed :
      (key : A → String) (p : A → Bool) (xs : List A) → IsKeyed key xs → IsKeyed key (select p xs)
  select-IsKeyed key p [] h = tt
  select-IsKeyed key p (y ∷ ys) (new, rest) = elim (Bool-cases (p y)) [
    | inr miss ↦ rw miss (select-IsKeyed key p ys rest)
    | inl hit ↦
        rw hit (find?-select-none (has_key key (key y)) p ys new, select-IsKeyed key p ys rest)
  ]
