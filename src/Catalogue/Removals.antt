-- ===== src/Catalogue/Removals.antt =====
-- What the REMOVE commands do to the catalogue.
mod Reports
use chat_to_sales.Catalogue.Removals.Reports.{AskedOf, remove_found-AskedOf}
use chat_to_sales.Catalogue.Commands.{
  CatalogueReply, persist_catalogue, finish_removal, products_removed, product_not_found, Shop,
  Removal, do_remove_products, remove_all, remove_found,
}
use mathlib.Core.List.{Memᴰ}
use chat_to_sales.Base.{
  Memᴰ-append, find?-none_at, find?-holds, eq_of_str_eq, subst, true, ◌⊎◌, length-append, inr, inl,
  find?-mem, refl, ◌||◌, none, Bool-cases, some, arith, str_eq, [], if◌then◌else◌, ◌+◌, ◌∷◌, ◌≡◌,
  false, ◌++◌, Bool, length, Option, ℕ, List, String,
}
use chat_to_sales.Catalogue.Dict.{
  same_name, lookup-delete, delete-IsDict, lookup-mem, matched, IsDict, delete, Catalogue, lookup,
}

-- A name is among those of a list.
abbrev pub listed : String → List String → Bool
listed k [] = false
listed k (n ∷ ns) = str_eq n k || listed k ns

listed-append :
    (k n : String) (ns : List String) → listed k (ns ++ n ∷ []) ≡ (listed k ns || str_eq n k)
listed-append k n [] = ground arith
listed-append k n (m ∷ ns) = ground (arith, listed-append k n ns)

length-delete :
    (k : String) (v : ℕ) (d : Catalogue) → lookup k d ≡ some v → length (delete k d) + 1 ≡ length d
unfolding lookup delete
length-delete k v [] h = cc
length-delete k v ((j, w) ∷ rest) h = elim (Bool-cases (str_eq j k)) [
  | inl hit ↦ ground arith
  | inr miss ↦ ground (arith, length-delete k v rest)
]

-- What holds of the loop's values on the catalogue that the command was handed.
pub record RemovalOf (seen : Catalogue) (r : Removal) : Type 0 where
  pub keyed : IsDict r.catalogue
  pub untouched : r.removed ≡ [] → r.catalogue ≡ seen
  pub size : length r.catalogue + length r.removed ≡ length seen
  pub prices :
      (k : String) → lookup k r.catalogue ≡ (if listed k r.removed then none else lookup k seen)

no_empty_append : {A : Type 0} (k : String) (ks : List String) (x y : A) → ks ++ k ∷ [] ≡ [] → x ≡ y
no_empty_append k [] x y h = cc
no_empty_append k (j ∷ ks) x y h = cc

taken :
    (seen : Catalogue) (r : Removal) (key : String) (val : ℕ)
    → RemovalOf seen r
    → lookup key r.catalogue ≡ some val
    → RemovalOf seen
        (record r { catalogue = delete key r.catalogue; removed = r.removed ++ key ∷ [] })
taken seen r key val inv here = record {
  keyed = delete-IsDict key r.catalogue inv.keyed;
  untouched = no_empty_append key r.removed (delete key r.catalogue) seen;
  size =
      omega (arith, inv.size, length-delete key val r.catalogue here, length-append key r.removed);
  prices = λ k. ground (
    arith,
    lookup-delete k key r.catalogue inv.keyed,
    inv.prices k,
    listed-append k key r.removed,
  );
}

remove_found-RemovalOf :
    (seen : Catalogue) (name : String) (found : Option (String × ℕ)) (r : Removal)
    → RemovalOf seen r
    → ((e : String × ℕ) → found ≡ some e → lookup e.0 r.catalogue ≡ some e.1)
    → RemovalOf seen (remove_found name found r)
      × (length (remove_found name found r).removed + length (remove_found name found r).not_found
          ≡ length r.removed + length r.not_found + 1)
unfolding remove_found
remove_found-RemovalOf seen name none r inv there = (
  record { keyed = inv.keyed; untouched = inv.untouched; size = inv.size; prices = inv.prices },
  omega (arith, length-append name r.not_found),
)
remove_found-RemovalOf seen name (some (key, val)) r inv there = elim (Bool-cases (str_eq key "")) [
  | inl nameless ↦ rw nameless (
    record { keyed = inv.keyed; untouched = inv.untouched; size = inv.size; prices = inv.prices },
    omega (arith, length-append name r.not_found),
  )
  | inr named ↦
      rw named (
        taken seen r key val inv (there (key, val) refl),
        omega (arith, length-append key r.removed),
      )
]

-- What a batch has done: what it reports, and the catalogue that it leaves.
pub record Removes (lower : String → String) (names : List String) (s : Shop)
    (reply : CatalogueReply) (s' : Shop) : Type 0 where
  pub removed : List String
  pub not_found : List String
  pub report : reply ≡ elim removed [
    | [] ↦ product_not_found not_found
    | k ∷ ks ↦ products_removed (k ∷ ks) not_found
  ]
  pub accounted : length removed + length not_found ≡ length names
  pub size : length s'.stored + length removed ≡ length s.stored
  pub prices :
      (k : String) → lookup k s'.stored ≡ (if listed k removed then none else lookup k s.stored)
  -- A removed key is, in small letters, one of the names.
  pub wanted :
      (k : String)
      → Memᴰ k removed
      → (n : String) × Memᴰ n names × (str_eq (lower k) (lower n) ≡ true)
  -- What was not found is one of the names, and unless it is empty in small letters no key that is left
  -- is that name in small letters.
  pub unknown :
      (n : String)
      → Memᴰ n not_found
      → Memᴰ n names
        × ((str_eq (lower "") (lower n) ≡ true)
            ⊎ ((e : String × ℕ) → Memᴰ e s'.stored → str_eq (lower e.0) (lower n) ≡ false))

finish_removal-Removes :
    (lower : String → String) (names : List String) (s : Shop) (r : Removal)
    → length r.removed + length r.not_found ≡ length names
    → RemovalOf s.stored r
    → AskedOf lower names r
    → let (reply, s') = finish_removal r s in Removes lower names s reply s'
unfolding finish_removal persist_catalogue
finish_removal-Removes lower names s r n inv reports = go r.removed refl
  where
    go :
        (xs : List String)
        → r.removed ≡ xs
        → let (reply, s') = finish_removal r s in Removes lower names s reply s'
    go [] e = rw e (record {
      removed = [];
      not_found = r.not_found;
      report = refl;
      accounted = rw e at n;
      size = omega arith;
      prices = λ k. refl;
      wanted = λ k m. elim m [ ];
      unknown = λ k m.
          subst
            (λ (d : Catalogue).
              Memᴰ k names
              × ((str_eq (lower "") (lower k) ≡ true)
                  ⊎ ((x : String × ℕ) → Memᴰ x d → str_eq (lower x.0) (lower k) ≡ false)))
            (inv.untouched e) (reports.unknown k m);
    })
    go (x ∷ xs) e = rw e (record {
      removed = x ∷ xs;
      not_found = r.not_found;
      report = refl;
      accounted = rw e at n;
      size = rw e at inv.size;
      prices = λ k. rw e at (inv.prices k);
      wanted = λ k m. reports.wanted k (rw e m);
      unknown = reports.unknown;
    })

module _ (lower : String → String) where
  pub matched-lookup :
      (name : String) (d : Catalogue) (e : String × ℕ)
      → IsDict d
      → matched lower name d ≡ some e
      → lookup e.0 d ≡ some e.1
  matched-lookup name d e keyed h =
      lookup-mem e.0 e.1 d keyed (find?-mem (same_name lower name) d e h)

  remove_all-RemovalOf :
      (names : List String) (seen : Catalogue) (r : Removal)
      → RemovalOf seen r
      → let r' = remove_all lower names r in
        RemovalOf seen r'
        × (length r'.removed + length r'.not_found
            ≡ length r.removed + length r.not_found + length names)
  unfolding remove_all
  remove_all-RemovalOf [] seen r inv = (inv, omega arith)
  remove_all-RemovalOf (name ∷ names) seen r inv =
      let (inv₁, n₁) =
        remove_found-RemovalOf seen name (matched lower name r.catalogue) r inv
          (λ e h. matched-lookup name r.catalogue e inv.keyed h) in
      let (inv₂, n₂) = remove_all-RemovalOf names seen _ inv₁ in (inv₂, omega (arith, n₁, n₂))

  remove_all-AskedOf :
      (names asked : List String) (r : Removal)
      → ((n : String) → Memᴰ n names → Memᴰ n asked)
      → AskedOf lower asked r
      → AskedOf lower asked (remove_all lower names r)
  unfolding remove_all
  remove_all-AskedOf [] asked r within before = before
  remove_all-AskedOf (name ∷ names) asked r within before =
      remove_all-AskedOf names asked (remove_found name (matched lower name r.catalogue) r)
        (λ n m. within n (Memᴰ.tail m))
        (remove_found-AskedOf lower asked name (matched lower name r.catalogue) r before
          (within name (Memᴰ.head refl)) refl)

  pub remove_all-IsDict :
      (names : List String) (seen : Catalogue)
      → IsDict seen
      → IsDict
          (remove_all lower names
            (record { catalogue = seen; removed = []; not_found = [] })).catalogue
  remove_all-IsDict names seen keyed =
      (remove_all-RemovalOf names seen _ (record {
        keyed = keyed;
        untouched = λ h. refl;
        size = omega arith;
        prices = λ k. refl;
      })).0.keyed

  -- The batch REMOVE command on the stored catalogue, a dict: every name asked for is reported
  -- once, as removed or as not found; the catalogue has lost as many entries as were reported
  -- removed, those names have no price and every other name has the price it had; a removed key is in
  -- small letters one of the names asked for, and where a name was not found, and is not empty in small
  -- letters, no key that is left is that name in small letters; the reply says that nothing was found
  -- where nothing was removed.
  pub do_remove_products_lem :
      (names : List String) (s : Shop)
      → IsDict s.stored
      → let (reply, s') = do_remove_products lower names s.stored s in
        Removes lower names s reply s'
  unfolding do_remove_products
  do_remove_products_lem names s keyed =
      let start : Removal = record { catalogue = s.stored; removed = []; not_found = [] } in
      let (inv, n) =
        remove_all-RemovalOf names s.stored start (record {
          keyed = keyed;
          untouched = λ h. refl;
          size = omega arith;
          prices = λ k. refl;
        }) in
      finish_removal-Removes lower names s (remove_all lower names start) (omega (arith, n)) inv (
        remove_all-AskedOf names names start (λ n m. m)
          (record { wanted = λ k m. elim m [ ]; unknown = λ k m. elim m [ ] }))
