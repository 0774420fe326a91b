-- ===== src/Orders/Dialogue/Prices.antt =====
-- The prices of an order: each line is an item at its own price or the catalogue's, and what a whole
-- order leaves behind with all prices or without.
use chat_to_sales.Redis.{Carries}
use chat_to_sales.Orders.Dialogue.Placed.{
  asked, place_priced-Unplaced, place_priced-Placed, Unplaced, Placed,
}
use chat_to_sales.Models.{Line}
use chat_to_sales.Orders.Dialogue.Customer.{order_items}
use chat_to_sales.Orders.Dialogue.Placing.{
  line_at, from_cart, note_line, place_priced, matched_price, line_from, handle_cart_order,
  fill_prices, priced_by,
}
use chat_to_sales.Orders.Dialogue.{Chat, ParsedItem, Incoming, Setting}
use mathlib.Core.Option.{some-injective}
use mathlib.Core.List.{Memᴰ}
use chat_to_sales.Base.{
  find?-none_at, Bool, true, find?, subst, ◌∙◌, ◌||◌, refl, none, inr, inl, sym, ◌==◌, Bool-cases,
  map, ◌∷◌, some, ℕ, [], ◌≡◌, String, Option, List, false,
}

module _ (S : Setting) (i : Incoming) where
  -- One of the two names, in small letters, contains the other.
  abbrev pub names_meet : String → String × ℕ → Bool
  names_meet name entry =
      S.is_in (S.lower name) (S.lower entry.0) || S.is_in (S.lower entry.0) (S.lower name)

  -- The entry is the first of the catalogue whose name meets the given one.
  pub data FirstMatch (name : String) (entry : String × ℕ) : List (String × ℕ) → Type 0 where
    here :
        {rest : List (String × ℕ)}
        → names_meet name entry ≡ true
        → FirstMatch name entry (entry ∷ rest)
    later :
        {other : String × ℕ} {rest : List (String × ℕ)}
        → names_meet name other ≡ false
        → FirstMatch name entry rest
        → FirstMatch name entry (other ∷ rest)

  -- The item comes without a price, or with 0.
  abbrev pub LacksOwn : ParsedItem → Type 0
  LacksOwn x = (p : ℕ) → x.unit_price ≡ some p → (p == 0) ≡ true

  -- It has no price of its own and meets no entry of the catalogue.
  pub record Priceless (x : ParsedItem) : Type 0 where
    pub own : LacksOwn x
    pub catalogue :
        (entry : String × ℕ) → Memᴰ entry i.trader.catalogue → names_meet x.name entry ≡ false

  -- An item and its line: the same name and quantity, at its own price, or else at the catalogue's.
  pub data Priced (x : ParsedItem) (l : Line) : Type 0 where
    own_price :
        (p : ℕ) → x.unit_price ≡ some p → (p == 0) ≡ false → l ≡ line_at S i x p → Priced x l
    catalogue_price :
        (entry : String × ℕ)
        → LacksOwn x
        → FirstMatch x.name entry i.trader.catalogue
        → l ≡ line_at S i x entry.1
        → Priced x l

  pub data AllPriced : List ParsedItem → List Line → Type 0 where
    none_left : AllPriced [] []
    next :
        {x : ParsedItem} {l : Line} {xs : List ParsedItem} {ls : List Line}
        → Priced x l
        → AllPriced xs ls
        → AllPriced (x ∷ xs) (l ∷ ls)

  find?-FirstMatch :
      (name : String) (entry : String × ℕ) (d : List (String × ℕ))
      → find? (names_meet name) d ≡ some entry
      → FirstMatch name entry d
  find?-FirstMatch name entry [] h = cc
  find?-FirstMatch name entry (e ∷ d) h = elim (Bool-cases (names_meet name e)) [
    | inl hit ↦
        subst (λ x. FirstMatch name x (e ∷ d)) (some-injective _ _ (rw hit at h))
          (FirstMatch.here hit)
    | inr miss ↦ FirstMatch.later miss (find?-FirstMatch name entry d (rw miss at h))
  ]

  -- What becomes of an item, as the line that is made of it or none.
  abbrev Judged : ParsedItem → Option Line → Type 0
  Judged x none = Priceless x
  Judged x (some l) = Priced x l

  line_from-Judged :
      (x : ParsedItem) → LacksOwn x → Judged x (line_from S i x (matched_price S i x.name))
  unfolding matched_price
  line_from-Judged x lacks = by_match (find? (names_meet x.name) i.trader.catalogue) refl
    where
      by_match :
          (found : Option (String × ℕ))
          → find? (names_meet x.name) i.trader.catalogue ≡ found
          → Judged x (line_from S i x found)
      by_match none e = record {
        own = lacks;
        catalogue = find?-none_at (names_meet x.name) i.trader.catalogue e;
      }
      by_match (some entry) e =
          Priced.catalogue_price entry lacks (find?-FirstMatch x.name entry i.trader.catalogue e)
            refl

  priced_by-Judged :
      (x : ParsedItem) (price : Option ℕ) → x.unit_price ≡ price → Judged x (priced_by S i x price)
  unfolding priced_by
  priced_by-Judged x none e = line_from-Judged x (λ p given. cc)
  priced_by-Judged x (some p) e = elim (Bool-cases (p == 0)) [
    | inl zero_price ↦
        rw zero_price
          (line_from-Judged x (λ q given. rw (some-injective _ _ (sym given ∙ e)) zero_price))
    | inr priced ↦ rw priced (Priced.own_price p e priced refl)
  ]

  -- What `fill_prices` finds: either each item has its line, or some item has no price.
  pub data Filled (items : List ParsedItem) (missing : List String) (lines : List Line)
      : Type 0 where
    all_there : missing ≡ [] → AllPriced items lines → Filled items missing lines
    lacking :
        (x : ParsedItem)
        → Memᴰ x items
        → Priceless x
        → (n : String) (ns : List String) → missing ≡ n ∷ ns
        → Filled items missing lines

  note_line-Filled :
      (x : ParsedItem) (xs : List ParsedItem) (l : Option Line) (seen : List String × List Line)
      → Judged x l
      → Filled xs seen.0 seen.1
      → Filled (x ∷ xs) (note_line S i x l seen).0 (note_line S i x l seen).1
  note_line-Filled x xs none seen judged rest =
      Filled.lacking x (Memᴰ.head refl) judged x.name seen.0 refl
  note_line-Filled x xs (some l) seen judged (Filled.all_there e priced) =
      Filled.all_there e (AllPriced.next judged priced)
  note_line-Filled x xs (some l) seen judged (Filled.lacking y m bare n ns e) =
      Filled.lacking y (Memᴰ.tail m) bare n ns e

  fill_prices-Filled :
      (items : List ParsedItem) → Filled items (fill_prices S i items).0 (fill_prices S i items).1
  unfolding fill_prices
  fill_prices-Filled [] = Filled.all_there refl AllPriced.none_left
  fill_prices-Filled (x ∷ xs) =
      note_line-Filled x xs (priced_by S i x x.unit_price) (fill_prices S i xs)
        (priced_by-Judged x x.unit_price refl) (fill_prices-Filled xs)

  -- What an order comes to, by the items and the catalogue alone.
  pub data Ordered (c : Chat S) (items : List ParsedItem) (c' : Chat S) : Type 0 where
    ordered :
        (lines : List Line) → AllPriced items lines → Placed S i c lines c' → Ordered c items c'
    turned_away :
        (x : ParsedItem) → Memᴰ x items → Priceless x → Unplaced S i c c' → Ordered c items c'

  place_priced-Ordered :
      (c : Chat S) (missing_event summary_event : String) (items : List ParsedItem)
      (missing : List String) (lines : List Line)
      → Carries S.session_json (asked S lines)
      → Filled items missing lines
      → Ordered c items (place_priced S i missing_event summary_event missing lines c)
  place_priced-Ordered c missing_event summary_event items missing lines carried
        (Filled.all_there e priced) =
      rw e (
        Ordered.ordered lines priced
          (place_priced-Placed S i c missing_event summary_event lines carried))
  place_priced-Ordered c missing_event summary_event items missing lines carried
        (Filled.lacking x m bare n ns e) =
      rw e (
        Ordered.turned_away x m bare
          (place_priced-Unplaced S i c missing_event summary_event n ns lines))

  -- An order that a customer writes and one from the cart of the store, where JSON carries the session: either each item has a price, its own
  -- where that is not zero or else that of the first entry of the catalogue whose name contains the item's or is contained in it, in small letters,
  -- and there is one new order, an inquiry of the customer, with a row for each
  -- item under the item's name and quantity and at that price, the amount is the sum of these rows, and for a day the
  -- session asks to confirm just this and afterwards there is none; or some item has no price of its own and meets no
  -- entry of the catalogue, and no order, no row and no session changes.
  pub orders_placed :
      (c : Chat S) (items : List ParsedItem) (cart : List (String × ℕ))
      → Carries S.session_json (asked S (fill_prices S i items).1)
      → Carries S.session_json (asked S (fill_prices S i (map (from_cart S i) cart)).1)
      → Ordered c items (order_items S i items c)
        × Ordered c (map (from_cart S i) cart) (handle_cart_order S i cart c)
  unfolding order_items handle_cart_order
  orders_placed c items cart carried carried' = (
    place_priced-Ordered c _ _ items _ _ carried (fill_prices-Filled items),
    place_priced-Ordered c _ _ (map (from_cart S i) cart) _ _ carried'
        (fill_prices-Filled (map (from_cart S i) cart)),
  )
