-- ===== src/Catalogue/Sessions.antt =====
-- Any sequence of catalogue commands, each handed the catalogue that is stored when it is given.
use chat_to_sales.Catalogue.Prices.{update_all-IsDict}
use chat_to_sales.Catalogue.Removals.{remove_all-IsDict}
use chat_to_sales.Catalogue.Dict.{delete-IsDict, delete, put-IsDict, put, Catalogue, IsDict}
use chat_to_sales.Base.{none, [], some, ◌≡◌, arith, ℕ, Option, ◌∷◌, List, String}
use chat_to_sales.Catalogue.Commands.{
  do_update_prices, do_update_price, do_remove_products, do_remove_product, Item, do_add_products,
  Pricing, Removal, remove_one, update_one, added_to, finish_removal, Shop, persist_catalogue,
  finish_pricing,
}

-- A command with its arguments.
pub data Command : Type 0 where
  add_products : List Item → Command
  remove_product : String → Command
  remove_products : List String → Command
  update_price : String → ℕ → Command
  update_prices : List Item → Command

-- The record by phone has the stored catalogue, which is a dict.
abbrev pub Coherent : Shop → Type 0
Coherent s = IsDict s.stored × ((c : Catalogue) → s.cached ≡ some c → c ≡ s.stored)

persist_catalogue-Coherent :
    (c : Catalogue) (s : Shop) → IsDict c → Coherent (persist_catalogue c s)
unfolding persist_catalogue
persist_catalogue-Coherent c s keyed = (keyed, λ d h. ground arith)

added_to-IsDict : (items : List Item) (c : Catalogue) → IsDict c → IsDict (added_to items c)
unfolding added_to
added_to-IsDict [] c h = h
added_to-IsDict (i ∷ items) c h =
    added_to-IsDict items (put i.name i.unit_price c) (put-IsDict i.name i.unit_price c h)

remove_one-Coherent :
    (name : String) (found : Option (String × ℕ)) (s : Shop)
    → Coherent s
    → Coherent (remove_one name found s.stored s).1
unfolding remove_one
remove_one-Coherent name none s h = h
remove_one-Coherent name (some (key, val)) s h =
    persist_catalogue-Coherent (delete key s.stored) s (delete-IsDict key s.stored h.0)

update_one-Coherent :
    (i : Item) (found : Option (String × ℕ)) (s : Shop)
    → Coherent s
    → Coherent (update_one i found s.stored s).1
unfolding update_one
update_one-Coherent i none s h = h
update_one-Coherent i (some (key, val)) s h =
    persist_catalogue-Coherent (put key i.unit_price s.stored) s
      (put-IsDict key i.unit_price s.stored h.0)

finish_removal-Coherent :
    (r : Removal) (s : Shop) → IsDict r.catalogue → Coherent s → Coherent (finish_removal r s).1
unfolding finish_removal
finish_removal-Coherent r s keyed h = ground (arith, persist_catalogue-Coherent r.catalogue s keyed)

finish_pricing-Coherent :
    (p : Pricing) (s : Shop) → IsDict p.catalogue → Coherent s → Coherent (finish_pricing p s).1
unfolding finish_pricing
finish_pricing-Coherent p s keyed h = ground (arith, persist_catalogue-Coherent p.catalogue s keyed)

module _ (lower : String → String) where
  unfoldable pub command : Command → Shop → Shop
  command (add_products items) s = (do_add_products items s.stored s).1
  command (remove_product name) s = (do_remove_product lower name s.stored s).1
  command (remove_products names) s = (do_remove_products lower names s.stored s).1
  command (update_price name price) s = (do_update_price lower name price s.stored s).1
  command (update_prices items) s = (do_update_prices lower items s.stored s).1

  unfoldable pub commands : List Command → Shop → Shop
  commands [] s = s
  commands (c ∷ rest) s = commands rest (command c s)

  command-Coherent : (c : Command) (s : Shop) → Coherent s → Coherent (command c s)
  unfolding command do_add_products do_remove_product do_remove_products do_update_price
      do_update_prices
  command-Coherent (add_products items) s h =
      persist_catalogue-Coherent _ s (added_to-IsDict items s.stored h.0)
  command-Coherent (remove_product name) s h = remove_one-Coherent name _ s h
  command-Coherent (remove_products names) s h =
      finish_removal-Coherent _ s (remove_all-IsDict lower names s.stored h.0) h
  command-Coherent (update_price name price) s h = update_one-Coherent _ _ s h
  command-Coherent (update_prices items) s h =
      finish_pricing-Coherent _ s (update_all-IsDict lower items s.stored h.0) h

  -- Whatever commands follow, each handed the catalogue that is stored when it is given, the stored
  -- catalogue stays a dict and the trader's record that is cached by phone keeps having it. Of the other
  -- records in Redis this says nothing: the commands leave them as they are.
  pub commands-Coherent : (cs : List Command) (s : Shop) → Coherent s → Coherent (commands cs s)
  unfolding commands
  commands-Coherent [] s h = h
  commands-Coherent (c ∷ rest) s h = commands-Coherent rest (command c s) (command-Coherent c s h)
