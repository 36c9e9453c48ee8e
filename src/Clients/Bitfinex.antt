-- ===== src/Clients/Bitfinex.antt =====
-- exchanges/bitfinex/bitfinex.go, SetDefaults and Setup, and
-- exchanges/bitfinex/bitfinex_wrapper.go: the client of Bitfinex, but for its orders, its caches
-- and its web socket.
use cryptofiend.Prelude.{ℕ, true, false, Option, none, some, List, [], map, Text, codes}
use cryptofiend.Float.{Float}
use cryptofiend.Clients.{
  Client, TickerUpdate, BookUpdate, SetupResult, item_of, with_defaults, setup_with, update_one,
  price_or_update, update_book, book_or_update,
}
use cryptofiend.Config.{ExchangeConfig}
use cryptofiend.Pair.{CurrencyPair, pair, display}
use cryptofiend.Ticker.{Tickers, Price, zero_price}
use cryptofiend.Orderbook.{Item, spot}

pub record Ticker (F : Float) : Type 0 where
  pub bid : F.Num
  pub ask : F.Num
  pub last : F.Num
  pub low : F.Num
  pub high : F.Num
  pub volume : F.Num

pub record Book (F : Float) : Type 0 where
  pub price : F.Num
  pub amount : F.Num

pub record Orderbook (F : Float) : Type 0 where
  pub bids : List (Book F)
  pub asks : List (Book F)

module _ {F : Float} where
  unfoldable pub currency_pair_to_symbol : Client F → CurrencyPair → Text
  currency_pair_to_symbol c p =
      let format = c.base.request_currency_pair_format in
      display p format.delimiter format.uppercase

  unfoldable pub set_defaults : Client F → Client F
  set_defaults c = record (with_defaults (codes "Bitfinex") [] true [] true c) {
    orderbooks = some [];
  }

  unfoldable pub setup :
      (Text → Option Text) → Client F → ExchangeConfig → List ExchangeConfig → SetupResult F
  setup base64_decode c exch exchanges = setup_with base64_decode [] false none c exch exchanges

  -- The price that is set from the ticker.
  abbrev pub price_of : CurrencyPair → Ticker F → Price F
  price_of p tick = record (zero_price F) {
    pair = p;
    ask = tick.ask;
    bid = tick.bid;
    low = tick.low;
    last = tick.last;
    volume = tick.volume;
    high = tick.high;
  }

  unfoldable pub update_ticker :
      (Text → Option (Ticker F)) → Client F → Tickers F → CurrencyPair → Text → TickerUpdate F
  update_ticker request c tickers p asset_type =
      update_one c tickers p asset_type (price_of p) (request (pair p))

  unfoldable pub get_ticker_price :
      (Text → Option (Ticker F)) → Client F → Tickers F → CurrencyPair → Text → TickerUpdate F
  unfolding update_ticker
  get_ticker_price request c tickers p asset_type =
      price_or_update c tickers p spot (update_ticker request c tickers p asset_type)

  abbrev pub items_in : Orderbook F → Option (List (Item F) × List (Item F))
  items_in orderbook_new = some (
    map (λ x. item_of {F = F} x.amount x.price) orderbook_new.bids,
    map (λ x. item_of {F = F} x.amount x.price) orderbook_new.asks,
  )

  unfoldable pub update_orderbook :
      (Text → Option (Orderbook F)) → Client F → CurrencyPair → Text → ℕ → BookUpdate F
  update_orderbook request c p asset_type now =
      update_book c p asset_type now items_in (request (currency_pair_to_symbol c p))

  unfoldable pub get_orderbook_ex :
      (Text → Option (Orderbook F)) → Client F → CurrencyPair → Text → ℕ → BookUpdate F
  unfolding update_orderbook
  get_orderbook_ex request c p asset_type now =
      book_or_update c p asset_type (update_orderbook request c p asset_type now)
