-- ===== src/Base/Rows.antt =====
-- Rows of a database table as a list: the queries and updates that the repositories write in SQL.
use Prim.Native.Nat.{ℕ, suc, ◌+◌, ◌<◌}
use mathlib.Core.Path.{◌≡◌, refl}
use mathlib.Core.Bool.{Bool, true, false, not}
use mathlib.Core.Option
use mathlib.Core.Option.{Option, none, some}
use mathlib.Core.List.{List, [], ◌∷◌, ◌++◌}
use native.Mathlib.Omega.{arith}
use chat_to_sales.Base.Tests.{if◌then◌else◌, ltb, Bool-cases, Option-cases}
use mathlib.Core.Logic.{◌≢◌, inl, inr}

-- A statement of every row.
abbrev pub All {ℓ κ} : {A : Type ℓ} → (A → Type κ) → List A → Type κ
All P [] = Unit
All P (x ∷ xs) = P x × All P xs

module _ {ℓ} {A : Type ℓ} where
  abbrev pub length : List A → ℕ
  length [] = 0
  length (x ∷ xs) = suc (length xs)

  -- `SELECT ... WHERE p LIMIT 1` where at most one row can fit, such as a primary key.
  abbrev pub find? : (A → Bool) → List A → Option A
  find? p [] = none
  find? p (x ∷ xs) = if p x then some x else find? p xs

  -- `SELECT ... WHERE p`
  abbrev pub select : (A → Bool) → List A → List A
  select p [] = []
  select p (x ∷ xs) = let rest = select p xs in if p x then x ∷ rest else rest

  -- `UPDATE ... WHERE p`
  abbrev pub update_where : (A → Bool) → (A → A) → List A → List A
  update_where p f [] = []
  update_where p f (x ∷ xs) = (if p x then f x else x) ∷ update_where p f xs

  -- The number of rows for which the test holds.
  abbrev pub count : (A → Bool) → List A → ℕ
  count p [] = 0
  count p (x ∷ xs) = (if p x then 1 else 0) + count p xs

  -- The better of a row and what was found: the row that is found first wins a tie.
  abbrev pub later : (A → ℕ) → A → Option A → Option A
  later at x none = some x
  later at x (some y) = if ltb (at x) (at y) then some y else some x

  -- `SELECT ... WHERE p ORDER BY at DESC LIMIT 1`
  abbrev pub latest : (A → Bool) → (A → ℕ) → List A → Option A
  latest p at [] = none
  latest p at (x ∷ xs) = let rest = latest p at xs in if p x then later at x rest else rest

module _ {ℓ} {A : Type ℓ} where
  later-some : (at : A → ℕ) (x : A) (o : Option A) → later at x o ≢ none
  later-some at x none h = cc
  later-some at x (some y) h = ground arith

  -- An update of rows that a query reads, where the update keeps the query's test.
  pub find?-update_where :
      (q p : A → Bool) (f : A → A) (xs : List A)
      → ((x : A) → q (f x) ≡ q x)
      → find? q (update_where p f xs) ≡ Option.map (λ x. if p x then f x else x) (find? q xs)
  find?-update_where q p f [] keep = refl
  find?-update_where q p f (x ∷ xs) keep = ground (arith, keep x, find?-update_where q p f xs keep)

  pub find?-append_none :
      (p : A → Bool) (xs ys : List A) → find? p xs ≡ none → find? p (xs ++ ys) ≡ find? p ys
  find?-append_none p [] ys h = refl
  find?-append_none p (x ∷ xs) ys h = ground (arith, find?-append_none p xs ys)

  pub find?-append_some :
      (p : A → Bool) (xs ys : List A) (x : A) → find? p xs ≡ some x → find? p (xs ++ ys) ≡ some x
  find?-append_some p [] ys x h = cc
  find?-append_some p (y ∷ xs) ys x h = ground (arith, find?-append_some p xs ys x)

  pub find?-holds : (p : A → Bool) (xs : List A) (x : A) → find? p xs ≡ some x → p x ≡ true
  find?-holds p [] x h = cc
  find?-holds p (y ∷ ys) x h = ground (arith, find?-holds p ys x)

  pub latest-holds :
      (p : A → Bool) (at : A → ℕ) (xs : List A) (x : A) → latest p at xs ≡ some x → p x ≡ true
  latest-holds p at [] x h = cc
  latest-holds p at (y ∷ ys) x h = elim (Bool-cases (p y)) [
    | inl e ↦ ground (arith, latest-holds p at ys x)
    | inr e ↦ latest-holds p at ys x (rw e at h)
  ]

  pub length-update_where :
      (p : A → Bool) (f : A → A) (xs : List A) → length (update_where p f xs) ≡ length xs
  length-update_where p f [] = refl
  length-update_where p f (x ∷ xs) = omega (arith, length-update_where p f xs)

  pub count-append : (p : A → Bool) (xs ys : List A) → count p (xs ++ ys) ≡ count p xs + count p ys
  count-append p [] ys = omega arith
  count-append p (x ∷ xs) ys = omega (arith, count-append p xs ys)

  pub latest-none :
      (p : A → Bool) (at : A → ℕ) (xs : List A) → latest p at xs ≡ none → count p xs ≡ 0
  latest-none p at [] h = refl
  latest-none p at (x ∷ xs) h = elim (Bool-cases (p x)) [
    | inl e ↦ absurd (later-some at x (latest p at xs) (rw e at h))
    | inr e ↦ rw e (omega (arith, latest-none p at xs (rw e at h)))
  ]

  pub latest-some :
      (p : A → Bool) (at : A → ℕ) (xs : List A)
      → 0 < count p xs
      → (x : A) × (latest p at xs ≡ some x)
  latest-some p at xs h = elim (Option-cases (latest p at xs)) [
    | inl none_found ↦ absurd (omega (arith, latest-none p at xs none_found))
    | inr found ↦ found
  ]

  pub length-append : (x : A) (xs : List A) → length (xs ++ x ∷ []) ≡ length xs + 1
  length-append x [] = refl
  length-append x (y ∷ xs) = omega (arith, length-append x xs)

  pub update_where-append :
      (p : A → Bool) (f : A → A) (xs ys : List A)
      → update_where p f (xs ++ ys) ≡ update_where p f xs ++ update_where p f ys
  update_where-append p f [] ys = refl
  update_where-append p f (x ∷ xs) ys = ground (arith, update_where-append p f xs ys)

  pub update_where-none :
      (p : A → Bool) (f : A → A) (xs : List A) → find? p xs ≡ none → update_where p f xs ≡ xs
  update_where-none p f [] h = refl
  update_where-none p f (x ∷ xs) h = ground (arith, update_where-none p f xs)

  pub count-none : (p : A → Bool) (xs : List A) → find? p xs ≡ none → count p xs ≡ 0
  count-none p [] h = refl
  count-none p (x ∷ xs) h = ground (arith, count-none p xs)

  pub count-some : (p : A → Bool) (xs : List A) (x : A) → find? p xs ≡ some x → 0 < count p xs
  count-some p [] x h = cc
  count-some p (y ∷ xs) x h = ground (arith, count-some p xs x)

  pub count-update_where :
      (p q : A → Bool) (f : A → A) (xs : List A)
      → ((x : A) → p (f x) ≡ p x)
      → count p (update_where q f xs) ≡ count p xs
  count-update_where p q f [] keep = refl
  count-update_where p q f (x ∷ xs) keep = ground (arith, keep x, count-update_where p q f xs keep)

  pub latest-append_none :
      (p : A → Bool) (at : A → ℕ) (xs : List A) (x : A)
      → latest p at xs ≡ none
      → p x ≡ true
      → latest p at (xs ++ x ∷ []) ≡ some x
  latest-append_none p at [] x h fits = rw fits refl
  latest-append_none p at (y ∷ ys) x h fits = elim (Bool-cases (p y)) [
    | inl e ↦ absurd (later-some at y (latest p at ys) (rw e at h))
    | inr e ↦ rw e (latest-append_none p at ys x (rw e at h) fits)
  ]

  later-map :
      (g : A → A) (at : A → ℕ) (x : A) (o : Option A)
      → ((y : A) → at (g y) ≡ at y)
      → later at (g x) (Option.map g o) ≡ Option.map g (later at x o)
  later-map g at x none keep = refl
  later-map g at x (some y) keep = elim (Bool-cases (ltb (at x) (at y))) [
    | inl e ↦ rw (keep x, keep y, e) refl
    | inr e ↦ rw (keep x, keep y, e) refl
  ]

  row_kept {κ} :
      {B : Type κ} (h : A → B) (q : A → Bool) (f : A → A) (x : A)
      → h (f x) ≡ h x
      → h (if q x then f x else x) ≡ h x
  row_kept h q f x keep = elim (Bool-cases (q x)) [ inl e ↦ rw e keep | inr e ↦ rw e refl ]

  -- An update that keeps the filter and the order: the row that is found is the updated row.
  pub latest-update_where :
      (p q : A → Bool) (f : A → A) (at : A → ℕ) (xs : List A)
      → ((x : A) → p (f x) ≡ p x)
      → ((x : A) → at (f x) ≡ at x)
      → latest p at (update_where q f xs)
        ≡ Option.map (λ x. if q x then f x else x) (latest p at xs)
  latest-update_where p q f at [] keep same = refl
  latest-update_where p q f at (x ∷ xs) keep same =
      let rest = latest-update_where p q f at xs keep same in
      elim (Bool-cases (p x)) [
        | inl e ↦
            rw (row_kept p q f x (keep x), e, rest)
              (later-map (λ y. if q y then f y else y) at x (latest p at xs)
                (λ y. row_kept at q f y (same y)))
        | inr e ↦ rw (row_kept p q f x (keep x), e) rest
      ]

  pub find?-delete : (p : A → Bool) (xs : List A) → find? p (select (λ x. not (p x)) xs) ≡ none
  find?-delete p [] = refl
  find?-delete p (x ∷ xs) = elim (Bool-cases (p x)) [
    | inl e ↦ rw e (find?-delete p xs)
    | inr e ↦ rw e (rw e (find?-delete p xs))
  ]

  -- A deletion leaves what other tests find.
  pub find?-delete_other :
      (q p : A → Bool) (xs : List A)
      → ((x : A) → q x ≡ true → p x ≡ false)
      → find? q (select (λ x. not (p x)) xs) ≡ find? q xs
  find?-delete_other q p [] apart = refl
  find?-delete_other q p (x ∷ xs) apart = elim (Bool-cases (q x)) [
    | inl e ↦ rw (apart x e, e) refl
    | inr e ↦ elim (Bool-cases (p x)) [
      | inl hit ↦ rw (hit, e) (find?-delete_other q p xs apart)
      | inr miss ↦ rw (miss, e) (find?-delete_other q p xs apart)
    ]
  ]
