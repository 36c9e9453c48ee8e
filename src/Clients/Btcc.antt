-- ===== src/Clients/Btcc.antt =====
-- exchanges/btcc/btcc.go, SetDefaults and Setup, and exchanges/btcc/btcc_wrapper.go: the client of
-- BTCC.
use cryptofiend.Prelude.{ℕ, true, false, Option, none, List, [], Text, codes, ◌>>=◌}
use cryptofiend.Float.{Float}
use cryptofiend.Clients.{
  Client, TickerUpdate, BookUpdate, SetupResult, both_items_of, with_defaults, setup_with,
  symbol_of, update_one, price_or_update, update_book, book_or_update, blank_info,
}
use cryptofiend.Config.{ExchangeConfig}
use cryptofiend.Pair.{CurrencyPair}
use cryptofiend.Ticker.{Tickers, Price, zero_price}
use cryptofiend.Orderbook.{Item}
use cryptofiend.Exchange.Accounts.{AccountInfo}

pub record Ticker (F : Float) : Type 0 where
  pub high : F.Num
  pub low : F.Num
  pub buy : F.Num
  pub sell : F.Num
  pub last : F.Num
  pub vol : F.Num

pub record Orderbook (F : Float) : Type 0 where
  pub bids : List (List F.Num)
  pub asks : List (List F.Num)

module _ {F : Float} where
  unfoldable pub set_defaults : Client F → Client F
  set_defaults c = record (with_defaults (codes "BTCC") [] false [] true c) { fee = F.zero }

  unfoldable pub setup :
      (Text → Option Text) → Client F → ExchangeConfig → List ExchangeConfig → SetupResult F
  setup base64_decode c exch exchanges = setup_with base64_decode [] false none c exch exchanges

  -- The price that is set from the ticker.
  abbrev pub price_of : CurrencyPair → Ticker F → Price F
  price_of p tick = record (zero_price F) {
    pair = p;
    ask = tick.sell;
    bid = tick.buy;
    low = tick.low;
    last = tick.last;
    volume = tick.vol;
    high = tick.high;
  }

  unfoldable pub update_ticker :
      List ExchangeConfig
      → (Text → Option (Ticker F))
      → Client F
      → Tickers F
      → CurrencyPair
      → Text
      → TickerUpdate F
  update_ticker exchanges request c tickers p asset_type = do
    symbol ← symbol_of exchanges c p
    update_one c tickers p asset_type (price_of p) (request symbol)

  unfoldable pub get_ticker_price :
      List ExchangeConfig
      → (Text → Option (Ticker F))
      → Client F
      → Tickers F
      → CurrencyPair
      → Text
      → TickerUpdate F
  unfolding update_ticker
  get_ticker_price exchanges request c tickers p asset_type =
      price_or_update c tickers p asset_type
        (update_ticker exchanges request c tickers p asset_type)

  abbrev pub items_in : Orderbook F → Option (List (Item F) × List (Item F))
  items_in orderbook_new = both_items_of {F = F} orderbook_new.bids orderbook_new.asks

  unfoldable pub update_orderbook :
      List ExchangeConfig
      → (Text → Option (Orderbook F))
      → Client F
      → CurrencyPair
      → Text
      → ℕ
      → BookUpdate F
  update_orderbook exchanges request c p asset_type now = do
    symbol ← symbol_of exchanges c p
    update_book c p asset_type now items_in (request symbol)

  unfoldable pub get_orderbook_ex :
      List ExchangeConfig
      → (Text → Option (Orderbook F))
      → Client F
      → CurrencyPair
      → Text
      → ℕ
      → BookUpdate F
  unfolding update_orderbook
  get_orderbook_ex exchanges request c p asset_type now =
      book_or_update c p asset_type (update_orderbook exchanges request c p asset_type now)

  unfoldable pub get_exchange_account_info : Client F → AccountInfo F
  get_exchange_account_info c = blank_info c
