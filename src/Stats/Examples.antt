-- ===== src/Stats/Examples.antt =====
-- Runs of the statistics, and the theorems at concrete items.
use cryptofiend.Text.{to_upper}
use cryptofiend.Prelude.{
  ◌≡◌, refl, ◌≢◌, Bool, false, none, some, [], ◌∷◌, arith, if◌then◌else◌, Text, codes, text_eq,
  length, keep_if,
}
use cryptofiend.Float.{whole}
use cryptofiend.Pair.{CurrencyPair, equal}
use cryptofiend.Stats.{
  Item, Items, Sort, add, is_blank, matches, get_exchange_highest_price_by_currency_pair,
  get_exchange_lowest_price_by_currency_pair,
}
use cryptofiend.Stats.Keys.{IsKeyed, found, add-IsKeyed, found-add}
use cryptofiend.Stats.Queries.{SameItems, Permutes, price_queries_only}

abbrev xbt_usd : CurrencyPair
xbt_usd = record { delimiter = []; first_currency = codes "XBT"; second_currency = codes "USD" }

abbrev spot : Text
spot = codes "SPOT"

abbrev two_items : Items whole
two_items =
    record { exchange = codes "ITBIT"; pair = xbt_usd; asset_type = spot; price = 9; volume = 1 }
    ∷ record { exchange = codes "Kraken"; pair = xbt_usd; asset_type = spot; price = 7; volume = 2 }
    ∷ []

two_items-IsKeyed : IsKeyed two_items
unfolding equal text_eq
two_items-IsKeyed = ((refl, tt), (tt, tt))

no_blank : is_blank whole (codes "ITBIT") xbt_usd spot 8 3 ≡ false
no_blank = refl

add-IsKeyed_example : IsKeyed (add two_items (codes "ITBIT") xbt_usd spot 8 3)
add-IsKeyed_example = add-IsKeyed two_items (codes "ITBIT") xbt_usd spot 8 3 two_items-IsKeyed

found-add_example :
    found (codes "ITBIT") xbt_usd spot (add two_items (codes "ITBIT") xbt_usd spot 8 3)
    ≡ some (8, 3)
found-add_example = found-add two_items (codes "ITBIT") xbt_usd spot 8 3 no_blank

-- An insertion sort.
abbrev place : (Item whole → Item whole → Bool) → Item whole → Items whole → Items whole
place less x [] = x ∷ []
place less x (y ∷ r) = if less y x then y ∷ place less x r else x ∷ y ∷ r

abbrev insertion : Sort whole
insertion less [] = []
insertion less (x ∷ r) = place less x (insertion less r)

place-SameItems :
    (less : Item whole → Item whole → Bool) (x : Item whole) (l : Items whole)
    → SameItems (place less x l) (x ∷ l)
place-SameItems less x [] test = refl
place-SameItems less x (y ∷ r) test = ground (arith, place-SameItems less x r test)

insertion-Permutes : Permutes insertion
insertion-Permutes less [] test = refl
insertion-Permutes less (x ∷ r) test =
    ground (arith, place-SameItems less x (insertion less r) test, insertion-Permutes less r test)

price_queries_only_example :
    let shown = keep_if (matches xbt_usd spot) two_items in
    ((i : Item whole)
      → shown ≡ i ∷ []
      → (get_exchange_highest_price_by_currency_pair insertion two_items xbt_usd spot
          ≡ some i.exchange)
        × (get_exchange_lowest_price_by_currency_pair insertion two_items xbt_usd spot
            ≡ some i.exchange))
    × (length shown ≢ 1
        → (get_exchange_highest_price_by_currency_pair insertion two_items xbt_usd spot ≡ none)
          × (get_exchange_lowest_price_by_currency_pair insertion two_items xbt_usd spot ≡ none))
price_queries_only_example = price_queries_only insertion two_items xbt_usd spot insertion-Permutes

two_shown : length (keep_if (matches xbt_usd spot) two_items) ≢ 1
unfolding equal text_eq to_upper
two_shown = omega arith

two_prices : get_exchange_highest_price_by_currency_pair insertion two_items xbt_usd spot ≡ none
two_prices =
    ((price_queries_only insertion two_items xbt_usd spot insertion-Permutes).1 two_shown).0
