-- ===== src/Catalogue/Tests.antt =====
-- The theorems on the catalogue at concrete inputs.
use chat_to_sales.Catalogue.Prices.{
  do_add_products_lem, last_price, else_old, do_update_prices_lem, Reprices,
}
use chat_to_sales.Catalogue.Removals.{do_remove_products_lem, Removes}
use chat_to_sales.Catalogue.Dict.{delete, put, lookup, IsDict}
use chat_to_sales.Catalogue.Commands.{
  remove_one, do_remove_product, Item, persist_catalogue, do_update_prices, do_remove_products,
  added_to, do_add_products, Shop,
}
use chat_to_sales.Base.{none, ◌≡◌, refl, some, ℕ, if◌then◌else◌, [], List, ◌∷◌, str_eq, String}

-- Lower case for the sample names.
abbrev small_letters : String → String
small_letters s = if str_eq s "Rice" then "rice" else s

abbrev sample_shop : Shop
sample_shop = record {
  stored = ("Rice", 500) ∷ ("beans", 300) ∷ [];
  cached = some (("Rice", 500) ∷ ("beans", 300) ∷ []);
  by_tenant = none;
  by_slug = some (("Rice", 500) ∷ ("beans", 300) ∷ []);
  routed = [];
}

abbrev item : String → ℕ → Item
item n p = record { name = n; unit_price = p }

sample_shop-IsDict : IsDict sample_shop.stored
unfolding str_eq
sample_shop-IsDict = (refl, (refl, tt))

do_remove_products_lem_example :
    let names : List String = "rice" ∷ "yam" ∷ [] in
    let (reply, s') = do_remove_products small_letters names sample_shop.stored sample_shop in
    Removes small_letters names sample_shop reply s'
do_remove_products_lem_example =
    do_remove_products_lem small_letters ("rice" ∷ "yam" ∷ []) sample_shop sample_shop-IsDict

do_update_prices_lem_example :
    let items = item "rice" 550 ∷ item "yam" 10 ∷ item "rice" 600 ∷ [] in
    let (reply, s') = do_update_prices small_letters items sample_shop.stored sample_shop in
    Reprices small_letters items sample_shop reply s'
do_update_prices_lem_example =
    do_update_prices_lem small_letters (item "rice" 550 ∷ item "yam" 10 ∷ item "rice" 600 ∷ [])
      sample_shop sample_shop-IsDict

do_add_products_lem_example :
    let items = item "yam" 10 ∷ item "yam" 20 ∷ [] in
    let s' = (do_add_products items sample_shop.stored sample_shop).1 in
    ((k : String)
      → lookup k s'.stored ≡ else_old (last_price k items) (lookup k sample_shop.stored))
    × (IsDict sample_shop.stored → IsDict s'.stored)
do_add_products_lem_example =
    do_add_products_lem (item "yam" 10 ∷ item "yam" 20 ∷ []) sample_shop.stored sample_shop

-- A product that was added in small letters beside the same name with a capital stays after the name is
-- removed.
add_then_remove_test :
    let s₁ = (do_add_products (item "rice" 900 ∷ []) sample_shop.stored sample_shop).1 in
    lookup "rice" (do_remove_product small_letters "rice" s₁.stored s₁).1.stored ≡ some 900
unfolding do_add_products added_to persist_catalogue put do_remove_product remove_one delete lookup
    str_eq
add_then_remove_test = refl
