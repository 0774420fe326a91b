-- ===== src/Catalogue/Removals/Reports.antt =====
-- What the loop of a batch REMOVE reports: which name asked for what was removed, and that what was not
-- found is not there.
use chat_to_sales.Catalogue.Commands.{Removal, remove_found}
use mathlib.Core.List.{Memᴰ}
use chat_to_sales.Base.{
  Memᴰ-append, find?-none_at, find?-holds, eq_of_str_eq, subst, true, ◌⊎◌, inr, inl, none,
  Bool-cases, some, str_eq, [], ◌∷◌, ◌≡◌, false, ◌++◌, Option, ℕ, List, String,
}
use chat_to_sales.Catalogue.Dict.{same_name, matched, delete, Catalogue}

-- What holds of the loop's reports: who asked for what was removed, and that what was not found is
-- not there.
pub record AskedOf (lower : String → String) (names : List String) (r : Removal) : Type 0 where
  pub wanted :
      (k : String)
      → Memᴰ k r.removed
      → (n : String) × Memᴰ n names × (str_eq (lower k) (lower n) ≡ true)
  pub unknown :
      (n : String)
      → Memᴰ n r.not_found
      → Memᴰ n names
        × ((str_eq (lower "") (lower n) ≡ true)
            ⊎ ((e : String × ℕ) → Memᴰ e r.catalogue → str_eq (lower e.0) (lower n) ≡ false))

mem-delete : (k : String) (d : Catalogue) (e : String × ℕ) → Memᴰ e (delete k d) → Memᴰ e d
unfolding delete
mem-delete k [] e m = m
mem-delete k ((j, v) ∷ rest) e m = elim (Bool-cases (str_eq j k)) [
  | inl hit ↦ Memᴰ.tail (rw hit at m)
  | inr miss ↦ elim (rw miss at m) [
    | Memᴰ.head same ↦ Memᴰ.head same
    | Memᴰ.tail later ↦ Memᴰ.tail (mem-delete k rest e later)
  ]
]

missed-AskedOf :
    (lower : String → String) (names : List String) (name : String) (r : Removal)
    → AskedOf lower names r
    → Memᴰ name names
    → ((str_eq (lower "") (lower name) ≡ true)
        ⊎ ((e : String × ℕ) → Memᴰ e r.catalogue → str_eq (lower e.0) (lower name) ≡ false))
    → AskedOf lower names (record r { not_found = r.not_found ++ name ∷ [] })
missed-AskedOf lower names name r before m gone = record {
  wanted = before.wanted;
  unknown = λ n at. elim (Memᴰ-append n name r.not_found at) [
    | inl old ↦ before.unknown n old
    | inr e ↦ rw e (m, gone)
  ];
}

taken-AskedOf :
    (lower : String → String) (names : List String) (name key : String) (r : Removal)
    → AskedOf lower names r
    → Memᴰ name names
    → str_eq (lower key) (lower name) ≡ true
    → AskedOf lower names
        (record r { catalogue = delete key r.catalogue; removed = r.removed ++ key ∷ [] })
taken-AskedOf lower names name key r before m same = record {
  wanted = λ k at. elim (Memᴰ-append k key r.removed at) [
    | inl old ↦ before.wanted k old
    | inr e ↦ rw e (name, m, same)
  ];
  unknown = λ n at.
      let (asked, gone) = before.unknown n at in
      (
        asked,
        elim gone [
          | inl empty ↦ inl empty
          | inr none_left ↦ inr (λ e at_e. none_left e (mem-delete key r.catalogue e at_e))
        ],
      );
}

pub remove_found-AskedOf :
    (lower : String → String) (names : List String) (name : String) (found : Option (String × ℕ))
    (r : Removal)
    → AskedOf lower names r
    → Memᴰ name names
    → matched lower name r.catalogue ≡ found
    → AskedOf lower names (remove_found name found r)
unfolding remove_found
remove_found-AskedOf lower names name none r before m h =
    missed-AskedOf lower names name r before m
      (inr (find?-none_at (same_name lower name) r.catalogue h))
remove_found-AskedOf lower names name (some (key, val)) r before m h =
    let same = find?-holds (same_name lower name) r.catalogue (key, val) h in
    elim (Bool-cases (str_eq key "")) [
      | inl nameless ↦ rw nameless (
          missed-AskedOf lower names name r before m (
            inl (
              subst (λ k. str_eq (lower k) (lower name) ≡ true) (eq_of_str_eq key "" nameless)
                same)))
      | inr named ↦ rw named (taken-AskedOf lower names name key r before m same)
    ]
