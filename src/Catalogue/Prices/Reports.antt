-- ===== src/Catalogue/Prices/Reports.antt =====
-- What the loop of a batch PRICE reports: which item asked for a change, and that what was not found is
-- not there.
use chat_to_sales.Catalogue.Dict.{same_name, matched, name_of, Catalogue}
use chat_to_sales.Catalogue.Commands.{Pricing, Item, PriceChange, update_found}
use mathlib.Core.List.{Memᴰ}
use chat_to_sales.Base.{
  false, Option_clash, find?, Memᴰ-append, find?-holds, eq_of_str_eq, subst, true, ◌⊎◌, inr, inl,
  str_eq, refl, Bool-cases, map, ◌∷◌, [], ◌≡◌, none, some, ◌++◌, ℕ, String, List, Option,
}

-- A change is the one that an item asks for.
abbrev pub AsksFor : (String → String) → PriceChange → Item → Type 0
AsksFor lower c i = (str_eq (lower c.product) (lower i.name) ≡ true) × (c.new_price ≡ i.unit_price)

-- What holds of the loop's reports: which item asked for a change, and that what was not found is
-- not there.
pub record PricingAsked (lower : String → String) (items : List Item) (seen : Catalogue)
    (p : Pricing) : Type 0 where
  pub wanted : (c : PriceChange) → Memᴰ c p.updated → (i : Item) × Memᴰ i items × AsksFor lower c i
  pub unknown :
      (n : String)
      → Memᴰ n p.not_found
      → ((i : Item) × Memᴰ i items × (i.name ≡ n))
        × ((str_eq (lower "") (lower n) ≡ true) ⊎ (find? (same_name lower n) seen ≡ none))

-- Whether an entry is found by a name depends on the keys alone.
found_by_names :
    (lower : String → String) (n : String) (d d' : Catalogue)
    → map name_of d ≡ map name_of d'
    → find? (same_name lower n) d ≡ none
    → find? (same_name lower n) d' ≡ none
found_by_names lower n [] [] e h = refl
found_by_names lower n [] (x ∷ d') e h = cc
found_by_names lower n (x ∷ d) [] e h = cc
found_by_names lower n (x ∷ d) (y ∷ d') e h =
    let first : x.0 ≡ y.0 = cc in
    let later : map name_of d ≡ map name_of d' = cc in
    elim (Bool-cases (same_name lower n x)) [
      | inl hit ↦ absurd (Option_clash (rw hit at h))
      | inr miss ↦
          let other : same_name lower n y ≡ false =
            subst (λ k. str_eq (lower k) (lower n) ≡ false) first miss in
          rw other (found_by_names lower n d d' later (rw miss at h))
    ]

missed-PricingAsked :
    (lower : String → String) (items : List Item) (seen : Catalogue) (i : Item) (p : Pricing)
    → PricingAsked lower items seen p
    → Memᴰ i items
    → ((str_eq (lower "") (lower i.name) ≡ true) ⊎ (find? (same_name lower i.name) seen ≡ none))
    → PricingAsked lower items seen (record p { not_found = p.not_found ++ i.name ∷ [] })
missed-PricingAsked lower items seen i p before m gone = record {
  wanted = before.wanted;
  unknown = λ n at. elim (Memᴰ-append n i.name p.not_found at) [
    | inl old ↦ before.unknown n old
    | inr e ↦ rw e ((i, m, refl), gone)
  ];
}

pub update_found-PricingAsked :
    (lower : String → String) (items : List Item) (seen : Catalogue) (i : Item)
    (found : Option (String × ℕ)) (p : Pricing)
    → PricingAsked lower items seen p
    → map name_of p.catalogue ≡ map name_of seen
    → Memᴰ i items
    → matched lower i.name p.catalogue ≡ found
    → PricingAsked lower items seen (update_found i found p)
unfolding update_found
update_found-PricingAsked lower items seen i none p before names m h =
    missed-PricingAsked lower items seen i p before m
      (inr (found_by_names lower i.name p.catalogue seen names h))
update_found-PricingAsked lower items seen i (some (key, val)) p before names m h =
    let same = find?-holds (same_name lower i.name) p.catalogue (key, val) h in
    let change : PriceChange = record {
      product = key;
      old_price = val;
      new_price = i.unit_price;
    } in
    elim (Bool-cases (str_eq key "")) [
      | inl nameless ↦ rw nameless (
          missed-PricingAsked lower items seen i p before m (
            inl (
              subst (λ k. str_eq (lower k) (lower i.name) ≡ true) (eq_of_str_eq key "" nameless)
                same)))
      | inr named ↦ rw named (record {
        wanted = λ c at. elim (Memᴰ-append c change p.updated at) [
          | inl old ↦ before.wanted c old
          | inr e ↦ rw e (i, m, (same, refl))
        ];
        unknown = before.unknown;
      })
    ]
