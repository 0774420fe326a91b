-- ===== src/Catalogue/Prices.antt =====
-- What the ADD and PRICE commands do to the prices of the catalogue.
mod Reports
use chat_to_sales.Catalogue.Prices.Reports.{AsksFor, PricingAsked, update_found-PricingAsked}
use chat_to_sales.Catalogue.Removals.{matched-lookup}
use chat_to_sales.Catalogue.Dict.{
  same_name, put-IsDict, matched, name_of, lookup-put, IsDict, put, lookup, Catalogue,
}
use chat_to_sales.Catalogue.Commands.{
  prices_updated, product_not_found, CatalogueReply, Shop, Pricing, Item, do_update_prices,
  added_to, persist_catalogue, PriceChange, update_all, do_add_products, update_found,
  finish_pricing,
}
use mathlib.Core.List.{Memᴰ}
use chat_to_sales.Base.{
  false, Option_clash, find?, Memᴰ-append, find?-holds, eq_of_str_eq, subst, true, ◌⊎◌,
  length-append, ap, inr, inl, str_eq, ◌∙◌, if◌then◌else◌, refl, Bool-cases, map, ◌∷◌, arith, [],
  ◌≡◌, ◌+◌, none, some, ◌++◌, ℕ, length, String, List, Option,
}

-- The price that the last of some items gives to a name.
abbrev pub last_price : String → List Item → Option ℕ
last_price k [] = none
last_price k (i ∷ items) = elim (last_price k items) [
  | some p ↦ some p
  | none ↦ if str_eq i.name k then some i.unit_price else none
]

-- The price that the last of some changes gives to a name.
abbrev pub last_change : String → List PriceChange → Option ℕ
last_change k [] = none
last_change k (c ∷ cs) = elim (last_change k cs) [
  | some p ↦ some p
  | none ↦ if str_eq c.product k then some c.new_price else none
]

-- `new or old`
abbrev pub else_old : Option ℕ → Option ℕ → Option ℕ
else_old none old = old
else_old (some p) old = some p

-- After an ADD command every name that the items list has the price of the last item of that
-- name, and every other name has the price that it had in the catalogue the command was given;
-- the catalogue is still a dict.
pub do_add_products_lem :
    (items : List Item) (seen : Catalogue) (s : Shop)
    → let s' = (do_add_products items seen s).1 in
      ((k : String) → lookup k s'.stored ≡ else_old (last_price k items) (lookup k seen))
      × (IsDict seen → IsDict s'.stored)
unfolding do_add_products added_to persist_catalogue
do_add_products_lem [] seen s = ((λ k. refl), λ keyed. keyed)
do_add_products_lem (i ∷ items) seen s =
    let (prices, keyed) = do_add_products_lem items (put i.name i.unit_price seen) s in
    (
      (λ k. ground (arith, prices k, lookup-put k i.name i.unit_price seen)),
      λ h. keyed (put-IsDict i.name i.unit_price seen h),
    )

last_change-append :
    (k : String) (c : PriceChange) (cs : List PriceChange)
    → last_change k (cs ++ c ∷ [])
      ≡ (if str_eq c.product k then some c.new_price else last_change k cs)
last_change-append k c [] = refl
last_change-append k c (d ∷ cs) = ground (arith, last_change-append k c cs)

-- A key that is there keeps its place.
names-put :
    (k : String) (v price : ℕ) (d : Catalogue)
    → lookup k d ≡ some v
    → map name_of (put k price d) ≡ map name_of d
unfolding lookup put
names-put k v price [] h = cc
names-put k v price ((j, w) ∷ rest) h = elim (Bool-cases (str_eq j k)) [
  | inl hit ↦ ground arith
  | inr miss ↦ rw miss (ap (λ ns. j ∷ ns) (names-put k v price rest (rw miss at h)))
]

-- What holds of the loop's values on the catalogue that the command was handed.
pub record PricingOf (seen : Catalogue) (p : Pricing) : Type 0 where
  pub keyed : IsDict p.catalogue
  pub names : map name_of p.catalogue ≡ map name_of seen
  pub prices :
      (k : String) → lookup k p.catalogue ≡ else_old (last_change k p.updated) (lookup k seen)

repriced :
    (seen : Catalogue) (p : Pricing) (c : PriceChange)
    → PricingOf seen p
    → lookup c.product p.catalogue ≡ some c.old_price
    → PricingOf seen (record p {
      catalogue = put c.product c.new_price p.catalogue;
      updated = p.updated ++ c ∷ [];
    })
repriced seen p c inv here = record {
  keyed = put-IsDict c.product c.new_price p.catalogue inv.keyed;
  names = names-put c.product c.old_price c.new_price p.catalogue here ∙ inv.names;
  prices = λ k. ground (
    arith,
    lookup-put k c.product c.new_price p.catalogue,
    inv.prices k,
    last_change-append k c p.updated,
  );
}

update_found-PricingOf :
    (seen : Catalogue) (i : Item) (found : Option (String × ℕ)) (p : Pricing)
    → PricingOf seen p
    → ((e : String × ℕ) → found ≡ some e → lookup e.0 p.catalogue ≡ some e.1)
    → PricingOf seen (update_found i found p)
      × (length (update_found i found p).updated + length (update_found i found p).not_found
          ≡ length p.updated + length p.not_found + 1)
unfolding update_found
update_found-PricingOf seen i none p inv there = (
  record { keyed = inv.keyed; names = inv.names; prices = inv.prices },
  omega (arith, length-append i.name p.not_found),
)
update_found-PricingOf seen i (some (key, val)) p inv there =
    let change : PriceChange = record {
      product = key;
      old_price = val;
      new_price = i.unit_price;
    } in
    elim (Bool-cases (str_eq key "")) [
      | inl nameless ↦ rw nameless (
        record { keyed = inv.keyed; names = inv.names; prices = inv.prices },
        omega (arith, length-append i.name p.not_found),
      )
      | inr named ↦ rw named (
        repriced seen p change inv (there (key, val) refl),
        omega (arith, length-append change p.updated),
      )
    ]

-- What a batch has done: what it reports, and the catalogue that it leaves.
pub record Reprices (lower : String → String) (items : List Item) (s : Shop)
    (reply : CatalogueReply) (s' : Shop) : Type 0 where
  pub updated : List PriceChange
  pub not_found : List String
  pub report : reply ≡ elim updated [
    | [] ↦ product_not_found not_found
    | c ∷ cs ↦ prices_updated (c ∷ cs) not_found
  ]
  pub accounted : length updated + length not_found ≡ length items
  pub names : map name_of s'.stored ≡ map name_of s.stored
  pub prices :
      (k : String) → lookup k s'.stored ≡ else_old (last_change k updated) (lookup k s.stored)
  -- A change is of a key that is in small letters an item's name, to the price of that item.
  pub wanted : (c : PriceChange) → Memᴰ c updated → (i : Item) × Memᴰ i items × AsksFor lower c i
  -- What was not found is an item's name, and unless it is empty in small letters no key of the
  -- catalogue is that name in small letters.
  pub unknown :
      (n : String)
      → Memᴰ n not_found
      → ((i : Item) × Memᴰ i items × (i.name ≡ n))
        × ((str_eq (lower "") (lower n) ≡ true) ⊎ (find? (same_name lower n) s.stored ≡ none))

finish_pricing-Reprices :
    (lower : String → String) (items : List Item) (s : Shop) (p : Pricing)
    → length p.updated + length p.not_found ≡ length items
    → PricingOf s.stored p
    → PricingAsked lower items s.stored p
    → let (reply, s') = finish_pricing p s in Reprices lower items s reply s'
unfolding finish_pricing persist_catalogue
finish_pricing-Reprices lower items s p n inv reports = go p.updated refl
  where
    go :
        (cs : List PriceChange)
        → p.updated ≡ cs
        → let (reply, s') = finish_pricing p s in Reprices lower items s reply s'
    go [] e = rw e (record {
      updated = [];
      not_found = p.not_found;
      report = refl;
      accounted = rw e at n;
      names = refl;
      prices = λ k. refl;
      wanted = λ k m. elim m [ ];
      unknown = reports.unknown;
    })
    go (c ∷ cs) e = rw e (record {
      updated = c ∷ cs;
      not_found = p.not_found;
      report = refl;
      accounted = rw e at n;
      names = inv.names;
      prices = λ k. rw e at (inv.prices k);
      wanted = λ k m. reports.wanted k (rw e m);
      unknown = reports.unknown;
    })

module _ (lower : String → String) where
  update_all-PricingOf :
      (items : List Item) (seen : Catalogue) (p : Pricing)
      → PricingOf seen p
      → let p' = update_all lower items p in
        PricingOf seen p'
        × (length p'.updated + length p'.not_found
            ≡ length p.updated + length p.not_found + length items)
  unfolding update_all
  update_all-PricingOf [] seen p inv = (inv, omega arith)
  update_all-PricingOf (i ∷ items) seen p inv =
      let (inv₁, n₁) =
        update_found-PricingOf seen i (matched lower i.name p.catalogue) p inv
          (λ e h. matched-lookup lower i.name p.catalogue e inv.keyed h) in
      let (inv₂, n₂) = update_all-PricingOf items seen _ inv₁ in (inv₂, omega (arith, n₁, n₂))

  update_all-PricingAsked :
      (items asked : List Item) (seen : Catalogue) (p : Pricing)
      → ((i : Item) → Memᴰ i items → Memᴰ i asked)
      → PricingOf seen p
      → PricingAsked lower asked seen p
      → PricingAsked lower asked seen (update_all lower items p)
  unfolding update_all
  update_all-PricingAsked [] asked seen p within inv before = before
  update_all-PricingAsked (i ∷ items) asked seen p within inv before =
      let found = matched lower i.name p.catalogue in
      let (inv₁, n₁) =
        update_found-PricingOf seen i found p inv
          (λ e h. matched-lookup lower i.name p.catalogue e inv.keyed h) in
      update_all-PricingAsked items asked seen (update_found i found p)
        (λ j m. within j (Memᴰ.tail m)) inv₁
        (update_found-PricingAsked lower asked seen i found p before inv.names
          (within i (Memᴰ.head refl)) refl)

  pub update_all-IsDict :
      (items : List Item) (seen : Catalogue)
      → IsDict seen
      → IsDict
          (update_all lower items
            (record { catalogue = seen; updated = []; not_found = [] })).catalogue
  update_all-IsDict items seen keyed =
      (update_all-PricingOf items seen _
        (record { keyed = keyed; names = refl; prices = λ k. refl })).0.keyed

  -- The batch PRICE command on the stored catalogue, a dict: every item is reported once, as a change
  -- or as not found; the catalogue has the same names in the same order, each with the price of
  -- the last reported change of it or else the price it had; each change is of a key that is in small
  -- letters the name of an item, to that item's price, and where a name was not found, and is not
  -- empty in small letters, no key is that name in small letters; the reply says that nothing was found
  -- where nothing was changed.
  pub do_update_prices_lem :
      (items : List Item) (s : Shop)
      → IsDict s.stored
      → let (reply, s') = do_update_prices lower items s.stored s in Reprices lower items s reply s'
  unfolding do_update_prices
  do_update_prices_lem items s keyed =
      let start : Pricing = record { catalogue = s.stored; updated = []; not_found = [] } in
      let (inv, n) =
        update_all-PricingOf items s.stored start
          (record { keyed = keyed; names = refl; prices = λ k. refl }) in
      finish_pricing-Reprices lower items s (update_all lower items start) (omega (arith, n)) inv (
        update_all-PricingAsked items items s.stored start (λ i m. m)
          (record { keyed = keyed; names = refl; prices = λ k. refl })
          (record { wanted = λ c m. elim m [ ]; unknown = λ n m. elim m [ ] }))
