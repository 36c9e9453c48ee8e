-- ===== src/Stats.antt =====
-- exchanges/stats/stats.go, and the two queries of helpers.go that rest on it: the latest price and
-- volume of each exchange, currency pair and asset type. Go's `sort.Sort` is the argument `sort`, which is
-- given the comparison.
pub mod Keys
pub mod Queries
pub mod Examples
use cryptofiend.Prelude.{
  zero, Bool, true, false, ◌&&◌, ◌||◌, Option, none, some, List, [], ◌∷◌, ◌++◌, if◌then◌else◌, Text,
  codes, text_eq, is_empty, keep_if,
}
use cryptofiend.Float.{Float}
use cryptofiend.Pair.{CurrencyPair, new_currency_pair, equal}

pub record Item (F : Float) : Type 0 where
  pub exchange : Text
  pub pair : CurrencyPair
  pub asset_type : Text
  pub price : F.Num
  pub volume : F.Num

-- The package variable.
abbrev pub Items : Float → Type 0
Items F = List (Item F)

-- sort.Reverse
abbrev pub reversed {ℓ} : {A : Type ℓ} → (A → A → Bool) → A → A → Bool
reversed less x y = less y x

-- sort.Sort, by a comparison
abbrev pub Sort : Float → Type 0
Sort F = (Item F → Item F → Bool) → Items F → Items F

abbrev pub is_blank : (F : Float) → Text → CurrencyPair → Text → F.Num → F.Num → Bool
is_blank F exchange p asset_type price volume =
    is_empty exchange
    || (is_empty asset_type
        || (F.eq price F.zero
            || (F.eq volume F.zero || (is_empty p.first_currency || is_empty p.second_currency))))

module _ {F : Float} where
  abbrev pub matches : CurrencyPair → Text → Item F → Bool
  matches p asset_type i = equal i.pair p && text_eq i.asset_type asset_type

  abbrev pub has_key : Text → CurrencyPair → Text → Item F → Bool
  has_key exchange p asset_type i =
      text_eq i.exchange exchange && (equal i.pair p && text_eq i.asset_type asset_type)

  -- The items after the call, and its result.
  unfoldable pub already_exists :
      Items F → Text → CurrencyPair → Text → F.Num → F.Num → Items F × Bool
  already_exists [] exchange p asset_type price volume = ([], false)
  already_exists (i ∷ r) exchange p asset_type price volume =
      let rest = already_exists r exchange p asset_type price volume in
      if has_key exchange p asset_type i
      then (record i { price = price; volume = volume } ∷ r, true)
      else (i ∷ rest.0, rest.1)

  unfoldable pub append : Items F → Text → CurrencyPair → Text → F.Num → F.Num → Items F
  unfolding already_exists
  append items exchange p asset_type price volume =
      let (items', found) = already_exists items exchange p asset_type price volume in
      if found
      then items'
      else items'
        ++ record {
          exchange = exchange;
          pair = p;
          asset_type = asset_type;
          price = price;
          volume = volume;
        }
          ∷ []

  unfoldable pub add : Items F → Text → CurrencyPair → Text → F.Num → F.Num → Items F
  unfolding append
  add items exchange p asset_type price volume =
      let with_btc =
        if text_eq p.first_currency (codes "XBT")
        then append items exchange (new_currency_pair (codes "BTC") p.second_currency) asset_type
            price volume
        else items in
      let with_usd =
        if text_eq p.second_currency (codes "USDT")
        then append with_btc exchange (new_currency_pair p.first_currency (codes "USD")) asset_type
            price volume
        else with_btc in
      if is_blank F exchange p asset_type price volume
      then items
      else append with_usd exchange p asset_type price volume

  abbrev pub less_price : Item F → Item F → Bool
  less_price i j = F.lt i.price j.price

  abbrev pub less_volume : Item F → Item F → Bool
  less_volume i j = F.lt i.volume j.volume

  unfoldable pub sort_exchanges_by_volume : Sort F → Items F → CurrencyPair → Text → Bool → Items F
  sort_exchanges_by_volume sort items p asset_type reverse =
      let result = keep_if (matches p asset_type) items in
      if reverse then sort (reversed less_volume) result else sort less_volume result

  unfoldable pub sort_exchanges_by_price : Sort F → Items F → CurrencyPair → Text → Bool → Items F
  sort_exchanges_by_price sort items p asset_type reverse =
      let result = keep_if (matches p asset_type) items in
      if reverse then sort (reversed less_price) result else sort less_price result

  -- `if len(result) != 1 { return error }; return result[0].Exchange`
  abbrev pub only_exchange : Items F → Option Text
  only_exchange [] = none
  only_exchange (i ∷ []) = some i.exchange
  only_exchange (i ∷ j ∷ r) = none

  unfoldable pub get_exchange_highest_price_by_currency_pair :
      Sort F → Items F → CurrencyPair → Text → Option Text
  unfolding sort_exchanges_by_price
  get_exchange_highest_price_by_currency_pair sort items p asset_type =
      only_exchange (sort_exchanges_by_price sort items p asset_type true)

  unfoldable pub get_exchange_lowest_price_by_currency_pair :
      Sort F → Items F → CurrencyPair → Text → Option Text
  unfolding sort_exchanges_by_price
  get_exchange_lowest_price_by_currency_pair sort items p asset_type =
      only_exchange (sort_exchanges_by_price sort items p asset_type false)
