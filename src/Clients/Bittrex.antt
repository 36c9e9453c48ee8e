-- ===== src/Clients/Bittrex.antt =====
-- exchanges/bittrex/bittrex.go, SetDefaults and Setup, and exchanges/bittrex/bittrex_wrapper.go:
-- the client of Bittrex, but for its trading.
use cryptofiend.Prelude.{ℕ, true, false, Option, none, some, List, [], ◌∷◌, map, Text, codes, ◌>>=◌}
use cryptofiend.Float.{Float}
use cryptofiend.Clients.{
  Client, request_failed, TickerUpdate, BookUpdate, SetupResult, item_of, with_defaults, setup_with,
  symbol_of, update_one, price_or_update, update_book, book_or_update,
}
use cryptofiend.Config.{ExchangeConfig}
use cryptofiend.Pair.{CurrencyPair, display, invert}
use cryptofiend.Ticker.{Tickers, Price, zero_price}
use cryptofiend.Orderbook.{Item, spot}
use cryptofiend.Exchange.{
  get_enabled_currencies as base_enabled_currencies,
  get_available_currencies as base_available_currencies,
}

pub record MarketSummary (F : Float) : Type 0 where
  pub volume : F.Num
  pub last : F.Num
  pub bid : F.Num
  pub ask : F.Num

pub record OrderBook (F : Float) : Type 0 where
  pub quantity : F.Num
  pub rate : F.Num

pub record OrderBooks (F : Float) : Type 0 where
  pub buy : List (OrderBook F)
  pub sell : List (OrderBook F)

module _ {F : Float} where
  unfoldable pub currency_pair_to_symbol : Client F → CurrencyPair → Text
  currency_pair_to_symbol c p =
      let format = c.base.request_currency_pair_format in
      display (invert p) format.delimiter format.uppercase

  -- The pairs are configured as the exchange has them, and inverted here.
  unfoldable pub get_enabled_currencies : Client F → Option (List CurrencyPair)
  get_enabled_currencies c = do pairs ← base_enabled_currencies c.base; some (map invert pairs)

  unfoldable pub get_available_currencies : Client F → Option (List CurrencyPair)
  get_available_currencies c = do pairs ← base_available_currencies c.base; some (map invert pairs)

  unfoldable pub set_defaults : Client F → Client F
  set_defaults c = record (with_defaults (codes "Bittrex") (codes "-") true (codes "-") true c) {
    orderbooks = some [];
  }

  unfoldable pub setup :
      (Text → Option Text) → Client F → ExchangeConfig → List ExchangeConfig → SetupResult F
  setup base64_decode c exch exchanges =
      setup_with base64_decode exch.client_id false none c exch exchanges

  abbrev pub items_in : OrderBooks F → Option (List (Item F) × List (Item F))
  items_in orderbook_new = some (
    map (λ x. item_of {F = F} x.quantity x.rate) orderbook_new.buy,
    map (λ x. item_of {F = F} x.quantity x.rate) orderbook_new.sell,
  )

  unfoldable pub update_orderbook :
      (Text → Option (OrderBooks F)) → Client F → CurrencyPair → Text → ℕ → BookUpdate F
  update_orderbook request c p asset_type now =
      update_book c p asset_type now items_in (request (currency_pair_to_symbol c p))

  unfoldable pub get_orderbook_ex :
      (Text → Option (OrderBooks F)) → Client F → CurrencyPair → Text → ℕ → BookUpdate F
  unfolding update_orderbook
  get_orderbook_ex request c p asset_type now =
      book_or_update c p asset_type (update_orderbook request c p asset_type now)

  abbrev pub price_of : CurrencyPair → MarketSummary F → Price F
  price_of p tick = record (zero_price F) {
    pair = p;
    ask = tick.ask;
    bid = tick.bid;
    last = tick.last;
    volume = tick.volume;
  }

  -- The first of the summaries; an answer with none panics.
  unfoldable pub update_ticker :
      List ExchangeConfig
      → (Text → Option (List (MarketSummary F)))
      → Client F
      → Tickers F
      → CurrencyPair
      → Text
      → TickerUpdate F
  update_ticker exchanges request c tickers p asset_type = do
    symbol ← symbol_of exchanges c p
    elim (request symbol) [
      | none ↦ some (tickers, request_failed)
      | some [] ↦ none
      | some (tick ∷ r) ↦ update_one c tickers p asset_type (price_of p) (some tick)
    ]

  unfoldable pub get_ticker_price :
      List ExchangeConfig
      → (Text → Option (List (MarketSummary F)))
      → Client F
      → Tickers F
      → CurrencyPair
      → Text
      → TickerUpdate F
  unfolding update_ticker
  get_ticker_price exchanges request c tickers p asset_type =
      price_or_update c tickers p spot (update_ticker exchanges request c tickers p asset_type)
