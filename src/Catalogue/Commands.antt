-- ===== src/Catalogue/Commands.antt =====
-- The catalogue commands of app/modules/orders/service.py. A command works on the catalogue of the
-- trader's record that it was handed, and persists the whole of what it has made of it. A reply
-- is kept as the template's name and its values, with the names that could not be found.
use chat_to_sales.Catalogue.Dict.{delete, put, matched, Catalogue}
use chat_to_sales.Base.{str_eq, if◌then◌else◌, ◌++◌, some, none, ℕ, ◌∷◌, Option, [], String, List}

-- An item of a parsed command; prices are whole naira.
pub record Item : Type 0 where
  pub name : String
  pub unit_price : ℕ

-- A product with its old and its new price.
pub record PriceChange : Type 0 where
  pub product : String
  pub old_price : ℕ
  pub new_price : ℕ

pub data CatalogueReply : Type 0 where
  product_added : String → ℕ → CatalogueReply
  products_added_batch : List Item → CatalogueReply
  product_not_found : List String → CatalogueReply
  products_removed : List String → List String → CatalogueReply
  prices_updated : List PriceChange → List String → CatalogueReply

-- The catalogue in the database, and in each record in Redis that carries the trader's catalogue, if
-- there is one: by the phone, by the tenant, by the slug, and as the route of a customer.
pub record Shop : Type 0 where
  pub stored : Catalogue
  pub cached : Option Catalogue
  pub by_tenant : Option Catalogue
  pub by_slug : Option Catalogue
  pub routed : List (String × Catalogue)

-- `_persist_catalogue`: of the records in Redis it knows the one by the phone alone.
unfoldable pub persist_catalogue : Catalogue → Shop → Shop
persist_catalogue catalogue s = record s {
  stored = catalogue;
  cached = elim s.cached [ none ↦ none | some old ↦ some catalogue ];
}

-- The loop of `_do_add_products`
unfoldable pub added_to : List Item → Catalogue → Catalogue
added_to [] catalogue = catalogue
added_to (i ∷ items) catalogue = added_to items (put i.name i.unit_price catalogue)

abbrev pub added_reply : List Item → CatalogueReply
added_reply (i ∷ []) = product_added i.name i.unit_price
added_reply items = products_added_batch items

-- `_do_add_products`
unfoldable pub do_add_products : List Item → Catalogue → Shop → CatalogueReply × Shop
unfolding added_to persist_catalogue
do_add_products items seen s = (added_reply items, persist_catalogue (added_to items seen) s)

-- What the loop of `_do_remove_products` keeps.
pub record Removal : Type 0 where
  pub catalogue : Catalogue
  pub removed : List String
  pub not_found : List String

-- What the loop of `_do_update_prices` keeps.
pub record Pricing : Type 0 where
  pub catalogue : Catalogue
  pub updated : List PriceChange
  pub not_found : List String

-- One round: a key that is the empty text counts as not found.
unfoldable pub remove_found : String → Option (String × ℕ) → Removal → Removal
remove_found name none r = record r { not_found = r.not_found ++ name ∷ [] }
remove_found name (some (key, val)) r =
    if str_eq key ""
    then record r { not_found = r.not_found ++ name ∷ [] }
    else record r { catalogue = delete key r.catalogue; removed = r.removed ++ key ∷ [] }

unfoldable pub update_found : Item → Option (String × ℕ) → Pricing → Pricing
update_found i none p = record p { not_found = p.not_found ++ i.name ∷ [] }
update_found i (some (key, val)) p =
    if str_eq key "" then record p { not_found = p.not_found ++ i.name ∷ [] } else record p {
      catalogue = put key i.unit_price p.catalogue;
      updated =
          p.updated ++ record { product = key; old_price = val; new_price = i.unit_price } ∷ [];
    }

-- The ends of the two batch commands: nothing is persisted where nothing was found.
unfoldable pub finish_removal : Removal → Shop → CatalogueReply × Shop
unfolding persist_catalogue
finish_removal r s = elim r.removed [
  | [] ↦ (product_not_found r.not_found, s)
  | k ∷ ks ↦ (products_removed (k ∷ ks) r.not_found, persist_catalogue r.catalogue s)
]

unfoldable pub finish_pricing : Pricing → Shop → CatalogueReply × Shop
unfolding persist_catalogue
finish_pricing p s = elim p.updated [
  | [] ↦ (product_not_found p.not_found, s)
  | c ∷ cs ↦ (prices_updated (c ∷ cs) p.not_found, persist_catalogue p.catalogue s)
]

-- The single commands' branches on the entry that was found.
unfoldable pub remove_one : String → Option (String × ℕ) → Catalogue → Shop → CatalogueReply × Shop
unfolding persist_catalogue
remove_one name none seen s = (product_not_found (name ∷ []), s)
remove_one name (some (key, val)) seen s =
    (products_removed (key ∷ []) [], persist_catalogue (delete key seen) s)

unfoldable pub update_one : Item → Option (String × ℕ) → Catalogue → Shop → CatalogueReply × Shop
unfolding persist_catalogue
update_one i none seen s = (product_not_found (i.name ∷ []), s)
update_one i (some (key, val)) seen s = (
  prices_updated (record { product = key; old_price = val; new_price = i.unit_price } ∷ []) [],
  persist_catalogue (put key i.unit_price seen) s,
)

-- `str.lower`
module _ (lower : String → String) where
  unfoldable pub remove_all : List String → Removal → Removal
  unfolding remove_found
  remove_all [] r = r
  remove_all (name ∷ names) r =
      remove_all names (remove_found name (matched lower name r.catalogue) r)

  unfoldable pub update_all : List Item → Pricing → Pricing
  unfolding update_found
  update_all [] p = p
  update_all (i ∷ items) p = update_all items (update_found i (matched lower i.name p.catalogue) p)

  -- `_do_remove_product`
  unfoldable pub do_remove_product : String → Catalogue → Shop → CatalogueReply × Shop
  unfolding remove_one
  do_remove_product name seen s = remove_one name (matched lower name seen) seen s

  -- `_do_remove_products`
  unfoldable pub do_remove_products : List String → Catalogue → Shop → CatalogueReply × Shop
  unfolding remove_all finish_removal
  do_remove_products names seen s =
      finish_removal (remove_all names (record { catalogue = seen; removed = []; not_found = [] }))
        s

  -- `_do_update_price`
  unfoldable pub do_update_price : String → ℕ → Catalogue → Shop → CatalogueReply × Shop
  unfolding update_one
  do_update_price name new_price seen s =
      update_one (record { name = name; unit_price = new_price }) (matched lower name seen) seen s

  -- `_do_update_prices`
  unfoldable pub do_update_prices : List Item → Catalogue → Shop → CatalogueReply × Shop
  unfolding update_all finish_pricing
  do_update_prices items seen s =
      finish_pricing (update_all items (record { catalogue = seen; updated = []; not_found = [] }))
        s
