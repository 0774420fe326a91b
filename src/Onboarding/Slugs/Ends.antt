-- ===== src/Onboarding/Slugs/Ends.antt =====
-- The loops end, and what they find is free.
use chat_to_sales.Models.{Trader, Db}
use chat_to_sales.Onboarding.Repository.{text_is, slug_exists}
use chat_to_sales.Base.{
  ◌∙◌, find?-delete_other, [], ◌==◌, ap, Option-cases, ◌∷◌, zero, arith, refl, not, inl, inr, ◌+◌,
  eq_of_str_eq, select, find?, length, ◌<◌, none, true, Bool-cases, false, some, is_some,
  append_text, ◌≤◌, suc, ◌≡◌, ◌≢◌, Bool, List, str_eq, String, ℕ, Option,
}
use chat_to_sales.Onboarding.Slugs.{
  enough_for, first_free, candidate, referral_code_taken, generate_unique_slug,
  ensure_unique_referral_code,
}
use text.Mathlib.TextLemmas.{append_cancel_left}
use mathlib.Core.Option.{some-injective}

-- Python writes different numbers differently.
abbrev pub IsInjective : (ℕ → String) → Type 0
IsInjective digits = (a b : ℕ) → digits a ≡ digits b → a ≡ b

module _ {A : Type 0} (column : A → Option String) where
  abbrev pub column_is : String → A → Bool
  column_is s x = text_is (column x) s

  abbrev pub is_taken : List A → String → Bool
  is_taken rows s = is_some (find? (column_is s) rows)

  column_differs :
      (s t : String) (x : A) → str_eq s t ≡ false → column_is s x ≡ true → column_is t x ≡ false
  column_differs s t x differ hit = by_column (column x) hit
    where
      by_column : (o : Option String) → text_is o s ≡ true → text_is o t ≡ false
      by_column none h = refl
      by_column (some v) h = rw (eq_of_str_eq v s h) differ

  shorter :
      (p : A → Bool) (rows : List A)
      → is_some (find? p rows) ≡ true
      → length (select (λ x. not (p x)) rows) < length rows
  shorter p [] h = cc
  shorter p (x ∷ xs) h = elim (Bool-cases (p x)) [
    | inl hit ↦ rw hit (omega (arith, not_longer p xs))
    | inr miss ↦ rw miss (omega (arith, shorter p xs (rw miss at h)))
  ]
    where
      not_longer : (p : A → Bool) (ys : List A) → length (select (λ y. not (p y)) ys) ≤ length ys
      not_longer p [] = omega arith
      not_longer p (y ∷ ys) = elim (Bool-cases (p y)) [
        | inl hit ↦ rw hit (omega (arith, not_longer p ys))
        | inr miss ↦ rw miss (omega (arith, not_longer p ys))
      ]

  module _ (digits : ℕ → String) (base : String) (injective : IsInjective digits) where
    candidate-injective : (a b : ℕ) → candidate digits base a ≡ candidate digits base b → a ≡ b
    candidate-injective a b same = injective a b (
        append_cancel_left "-" (digits a) (digits b)
          (append_cancel_left base (append_text "-" (digits a)) (append_text "-" (digits b)) same))

    candidate-differ :
        (a b : ℕ) → a ≢ b → str_eq (candidate digits base a) (candidate digits base b) ≡ false
    candidate-differ a b apart =
        elim (Bool-cases (str_eq (candidate digits base a) (candidate digits base b))) [
          | inr differ ↦ differ
          | inl same ↦ absurd (
              apart (
                candidate-injective a b
                  (eq_of_str_eq (candidate digits base a) (candidate digits base b) same)))
        ]

    -- As many candidates in a row as are all taken, so many rows are there.
    taken_rows :
        (n k : ℕ) (rows : List A)
        → ((i : ℕ) → k ≤ i → i < k + n → is_taken rows (candidate digits base i) ≡ true)
        → n ≤ length rows
    taken_rows zero k rows all = omega arith
    taken_rows (suc n) k rows all =
        let p = column_is (candidate digits base k) in
        let left = select (λ x. not (p x)) rows in
        let fewer = shorter p rows (all k (omega arith) (omega arith)) in
        let rest = taken_rows n (k + 1) left (λ i low high.
          ap is_some (
            find?-delete_other (column_is (candidate digits base i)) p rows (λ x.
              column_differs (candidate digits base i) (candidate digits base k) x
                (candidate-differ i k (λ e. omega (arith, e)))))
          ∙ all i (omega arith) (omega arith)) in
        omega (arith, fewer, rest)

    one_test :
        (taken : String → Bool) (n k : ℕ) (text : String)
        → first_free digits taken base (suc n) k text ≡ none
        → (taken text ≡ true)
          × (first_free digits taken base n (k + 1) (candidate digits base k) ≡ none)
    unfolding first_free
    one_test taken n k text ended = elim (Bool-cases (taken text)) [
      | inr free ↦ absurd (clash (rw free at ended))
      | inl hit ↦ (hit, rw hit at ended)
    ]
      where
        clash : some text ≢ none
        clash p = cc

    -- Where the loop runs out of fuel, every candidate it came to was taken.
    none_taken :
        (taken : String → Bool) (n k : ℕ) (text : String)
        → first_free digits taken base (suc n) k text ≡ none
        → (i : ℕ) → k ≤ i
        → i < k + n
        → taken (candidate digits base i) ≡ true
    none_taken taken zero k text ended i low high = absurd (omega arith)
    none_taken taken (suc n) k text ended i low high =
        let (hit, rest) = one_test taken (suc n) k text ended in
        elim (Bool-cases (i == k)) [
          | inl same ↦
              ap (λ j. taken (candidate digits base j)) (ground arith)
              ∙ (one_test taken n (k + 1) (candidate digits base k) rest).0
          | inr later_one ↦
              none_taken taken n (k + 1) (candidate digits base k) rest i (ground arith)
                (omega arith)
        ]

    found_free :
        (taken : String → Bool) (n k : ℕ) (text s : String)
        → first_free digits taken base n k text ≡ some s
        → taken s ≡ false
    unfolding first_free
    found_free taken zero k text s found = absurd (clash refl found)
      where
        clash : {r : Option String} → r ≡ none → r ≢ some s
        clash p q = cc
    found_free taken (suc n) k text s found = elim (Bool-cases (taken text)) [
      | inr free ↦ rw (← some-injective text s (rw free at found)) free
      | inl hit ↦ found_free taken n (k + 1) (candidate digits base k) s (rw hit at found)
    ]

    first_free_lem :
        (rows : List A)
        → (s : String) × (first_free digits (is_taken rows) base (enough_for rows) 2 base ≡ some s)
          × (is_taken rows s ≡ false)
    first_free_lem rows =
        elim (Option-cases (first_free digits (is_taken rows) base (enough_for rows) 2 base)) [
          | inr (s, found) ↦ (s, found, found_free (is_taken rows) (enough_for rows) 2 base s found)
          | inl ended ↦ absurd (
              omega (
                arith,
                taken_rows (length rows + 1) 2 rows
                    (none_taken (is_taken rows) (length rows + 1) 2 base (rw (fuel rows) at ended)),
              ))
        ]
      where
        fuel : (rows : List A) → enough_for rows ≡ suc (length rows + 1)
        fuel rows = omega arith

-- However many slugs are taken, the search for a slug ends within one test more than there are
-- traders, and two, and the slug that it returns is free.
pub generate_unique_slug_lem :
    (digits : ℕ → String) (base : String) (db : Db)
    → IsInjective digits
    → (s : String) × (generate_unique_slug digits base db ≡ some s) × (slug_exists db s ≡ false)
unfolding generate_unique_slug slug_exists
generate_unique_slug_lem digits base db injective =
    first_free_lem (λ (t : Trader). t.store_slug) digits base injective db.traders

-- The same of the search for a referral code.
pub ensure_unique_referral_code_lem :
    (digits : ℕ → String) (base : String) (db : Db)
    → IsInjective digits
    → (s : String) × (ensure_unique_referral_code digits base db ≡ some s)
      × (referral_code_taken db s ≡ false)
unfolding ensure_unique_referral_code referral_code_taken
ensure_unique_referral_code_lem digits base db injective =
    first_free_lem (λ (t : Trader). t.referral_code) digits base injective db.traders
