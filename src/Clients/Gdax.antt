-- ===== src/Clients/Gdax.antt =====
-- exchanges/gdax/gdax.go, SetDefaults and Setup, and exchanges/gdax/gdax_wrapper.go: the client of
-- GDAX. The items of the book are read at the same index of both sides.
use cryptofiend.Prelude.{ℕ, true, Option, none, some, List, [], ◌∷◌, map, Text, codes, ◌>>=◌}
use cryptofiend.Float.{Float}
use cryptofiend.Clients.{
  Client, TickerUpdate, BookUpdate, SetupResult, fraction, item_of, with_defaults, setup_with,
  symbol_of, update_one, price_or_update, update_book, book_or_update,
}
use cryptofiend.Config.{ExchangeConfig}
use cryptofiend.Pair.{CurrencyPair}
use cryptofiend.Ticker.{Tickers, Price, zero_price}
use cryptofiend.Orderbook.{Item}

pub record Ticker (F : Float) : Type 0 where
  pub price : F.Num

pub record Stats (F : Float) : Type 0 where
  pub high : F.Num
  pub low : F.Num
  pub volume : F.Num

pub record OrderL1L2 (F : Float) : Type 0 where
  pub price : F.Num
  pub amount : F.Num

pub record OrderbookL1L2 (F : Float) : Type 0 where
  pub bids : List (OrderL1L2 F)
  pub asks : List (OrderL1L2 F)

abbrev pub gdax_api_url : Text
gdax_api_url = codes "https://api.gdax.com/"

abbrev pub gdax_sandbox_api_url : Text
gdax_sandbox_api_url = codes "https://public.sandbox.gdax.com"

module _ {F : Float} where
  -- The loop over the indices of the asks, which appends the bid at each index.
  abbrev pub bids_at : List (OrderL1L2 F) → List (OrderL1L2 F) → Option (List (Item F))
  bids_at bids [] = some []
  bids_at [] (x ∷ asks) = none
  bids_at (b ∷ bids) (x ∷ asks) = do
    items ← bids_at bids asks
    some (item_of {F = F} b.amount b.price ∷ items)

  unfoldable pub set_defaults : Client F → Client F
  set_defaults c = record (with_defaults (codes "GDAX") (codes "-") true [] true c) {
    taker_fee = fraction F 25 100;
    maker_fee = F.zero;
    api_url = gdax_api_url;
  }

  unfoldable pub setup :
      (Text → Option Text) → Client F → ExchangeConfig → List ExchangeConfig → SetupResult F
  setup base64_decode c exch exchanges =
      setup_with base64_decode exch.client_id true (some gdax_sandbox_api_url) c exch exchanges

  abbrev pub items_in : OrderbookL1L2 F → Option (List (Item F) × List (Item F))
  items_in orderbook_new = do
    asks ← bids_at orderbook_new.bids orderbook_new.asks
    some (map (λ x. item_of {F = F} x.amount x.price) orderbook_new.bids, asks)

  unfoldable pub update_orderbook :
      List ExchangeConfig
      → (Text → Option (OrderbookL1L2 F))
      → Client F
      → CurrencyPair
      → Text
      → ℕ
      → BookUpdate F
  update_orderbook exchanges request c p asset_type now = do
    symbol ← symbol_of exchanges c p
    update_book c p asset_type now items_in (request symbol)

  unfoldable pub get_orderbook_ex :
      List ExchangeConfig
      → (Text → Option (OrderbookL1L2 F))
      → Client F
      → CurrencyPair
      → Text
      → ℕ
      → BookUpdate F
  unfolding update_orderbook
  get_orderbook_ex exchanges request c p asset_type now =
      book_or_update c p asset_type (update_orderbook exchanges request c p asset_type now)

  abbrev pub price_of : CurrencyPair → Ticker F × Stats F → Price F
  price_of p (tick, stats) = record (zero_price F) {
    pair = p;
    volume = stats.volume;
    last = tick.price;
    high = stats.high;
    low = stats.low;
  }

  -- The two requests of a ticker, the second only after the first has not failed.
  abbrev pub both_answers :
      (Text → Option (Ticker F)) → (Text → Option (Stats F)) → Text → Option (Ticker F × Stats F)
  both_answers request request_stats symbol = do
    tick ← request symbol
    stats ← request_stats symbol
    some (tick, stats)

  unfoldable pub update_ticker :
      List ExchangeConfig
      → (Text → Option (Ticker F))
      → (Text → Option (Stats F))
      → Client F
      → Tickers F
      → CurrencyPair
      → Text
      → TickerUpdate F
  update_ticker exchanges request request_stats c tickers p asset_type = do
    symbol ← symbol_of exchanges c p
    update_one c tickers p asset_type (price_of p) (both_answers request request_stats symbol)

  unfoldable pub get_ticker_price :
      List ExchangeConfig
      → (Text → Option (Ticker F))
      → (Text → Option (Stats F))
      → Client F
      → Tickers F
      → CurrencyPair
      → Text
      → TickerUpdate F
  unfolding update_ticker
  get_ticker_price exchanges request request_stats c tickers p asset_type =
      price_or_update c tickers p asset_type
        (update_ticker exchanges request request_stats c tickers p asset_type)
