-- ===== src/Ticker.antt =====
-- exchanges/ticker/ticker.go: the list of exchanges' tickers, by currency pair and type. A `Ticker`
-- that `GetTickerByExchange` returns is a copy that shares its map with the list, so a write through
-- it is a write to the first ticker of that name. A write to a nil map panics, `none`.
pub mod View
pub mod Process
pub mod Kept
pub mod Examples
use cryptofiend.Prelude.{
  zero, Bool, not, ◌&&◌, Option, none, some, List, [], ◌∷◌, ◌++◌, if◌then◌else◌, Text, codes,
  text_eq, is_empty, is_some, any_of, find_first, ◌>>=◌,
}
use cryptofiend.GoMap.{GoMap, lookup, insert}
use cryptofiend.GoMap.Nested.{Nested, or_nil, entry}
use cryptofiend.Float.{Float}
use cryptofiend.Pair.{CurrencyPair, CurrencyItem, pair}
use cryptofiend.Text.{to_lower}

pub data TickerError : Type 0 where
  ticker_for_exchange_not_found primary_currency_not_found secondary_currency_not_found :
      TickerError

pub data Result {ℓ} (A : Type ℓ) : Type ℓ where
  ok : A → Result A
  err : TickerError → Result A

pub record Price (F : Float) : Type 0 where
  pub pair : CurrencyPair
  pub currency_pair : Text
  pub last : F.Num
  pub high : F.Num
  pub low : F.Num
  pub bid : F.Num
  pub ask : F.Num
  pub volume : F.Num
  pub price_ath : F.Num

-- `Price{}`
abbrev pub zero_price : (F : Float) → Price F
zero_price F = record {
  pair = record { delimiter = []; first_currency = []; second_currency = [] };
  currency_pair = [];
  last = F.zero;
  high = F.zero;
  low = F.zero;
  bid = F.zero;
  ask = F.zero;
  volume = F.zero;
  price_ath = F.zero;
}

abbrev pub or_zero : (F : Float) → Option (Price F) → Price F
or_zero F none = zero_price F
or_zero F (some x) = x

pub record Ticker (F : Float) : Type 0 where
  pub price : Nested (Price F)
  pub exchange_name : Text

-- The package variable.
abbrev pub Tickers : Float → Type 0
Tickers F = List (Ticker F)

module _ {F : Float} where
  abbrev pub named : Text → Ticker F → Bool
  named exchange y = text_eq y.exchange_name exchange

  -- The switch over the price's name; `format_float` is strconv.FormatFloat with 'f', -1 and 64.
  unfoldable pub price_to_string : (F.Num → Text) → Ticker F → CurrencyPair → Text → Text → Text
  price_to_string format_float t p price_type ticker_type =
      let name = to_lower price_type in
      let price = or_zero F (entry p.first_currency p.second_currency ticker_type t.price) in
      if text_eq name (codes "last")
      then format_float price.last
      else if text_eq name (codes "high")
      then format_float price.high
      else if text_eq name (codes "low")
      then format_float price.low
      else if text_eq name (codes "bid")
      then format_float price.bid
      else if text_eq name (codes "ask")
      then format_float price.ask
      else if text_eq name (codes "volume")
      then format_float price.volume
      else if text_eq name (codes "ath")
      then format_float price.price_ath
      else []

  unfoldable pub get_ticker_by_exchange : Tickers F → Text → Option (Ticker F)
  get_ticker_by_exchange tickers exchange = find_first (named exchange) tickers

  unfoldable pub first_currency_exists : Tickers F → Text → CurrencyItem → Bool
  first_currency_exists tickers exchange currency =
      any_of (λ y. named exchange y && is_some (lookup currency y.price)) tickers

  unfoldable pub second_currency_exists : Tickers F → Text → CurrencyPair → Bool
  second_currency_exists tickers exchange p =
      any_of
        (λ y.
          named exchange y
          && (is_some (lookup p.first_currency y.price)
              && is_some (lookup p.second_currency (or_nil (lookup p.first_currency y.price)))))
        tickers

  unfoldable pub get_ticker : Tickers F → Text → CurrencyPair → Text → Result (Price F)
  unfolding get_ticker_by_exchange first_currency_exists second_currency_exists
  get_ticker tickers exchange p ticker_type = elim (get_ticker_by_exchange tickers exchange) [
    | none ↦ err ticker_for_exchange_not_found
    | some ticker ↦
        if not (first_currency_exists tickers exchange p.first_currency)
        then err primary_currency_not_found
        else if not (second_currency_exists tickers exchange p)
        then err secondary_currency_not_found
        else ok (or_zero F (entry p.first_currency p.second_currency ticker_type ticker.price))
  ]

  unfoldable pub create_new_ticker : Tickers F → Text → CurrencyPair → Price F → Text → Tickers F
  create_new_ticker tickers exchange_name p ticker_new ticker_type =
      tickers
      ++ record {
        price =
            insert p.first_currency (insert p.second_currency (insert ticker_type ticker_new []) [])
              [];
        exchange_name = exchange_name;
      }
        ∷ []

  -- `ticker.Price[first] = seconds`, seen through the list.
  unfoldable pub set_first : Tickers F → Text → CurrencyItem → GoMap (GoMap (Price F)) → Tickers F
  set_first [] exchange first seconds = []
  set_first (y ∷ r) exchange first seconds =
      if named exchange y
      then record y { price = insert first seconds y.price } ∷ r
      else y ∷ set_first r exchange first seconds

  unfoldable pub process_ticker :
      Tickers F → Text → CurrencyPair → Price F → Text → Option (Tickers F)
  unfolding get_ticker_by_exchange first_currency_exists second_currency_exists create_new_ticker
  process_ticker tickers exchange_name p ticker_new ticker_type =
      let new : Price F = record ticker_new { currency_pair = pair p } in
      if is_empty tickers
      then some (create_new_ticker tickers exchange_name p new ticker_type)
      else (elim (get_ticker_by_exchange tickers exchange_name) [
        | none ↦ some (create_new_ticker tickers exchange_name p new ticker_type)
        | some ticker ↦
            if first_currency_exists tickers exchange_name p.first_currency
              && not (second_currency_exists tickers exchange_name p)
            then (do
              a ← lookup p.first_currency ticker.price
              some (
                  set_first tickers exchange_name p.first_currency
                    (insert p.second_currency (insert ticker_type new []) a)))
            else some (
                set_first tickers exchange_name p.first_currency
                  (insert p.second_currency (insert ticker_type new []) []))
      ])
