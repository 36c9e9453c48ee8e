-- ===== src/Clients/Itbit.antt =====
-- exchanges/itbit/itbit.go, SetDefaults and Setup, and exchanges/itbit/itbit_wrapper.go: the client
-- of itBit. `parse_float` is strconv.ParseFloat's number, whose error is only logged.
use cryptofiend.Prelude.{
  ℕ, true, false, Option, none, some, List, [], ◌∷◌, Text, codes, get_elem?, ◌>>=◌,
}
use cryptofiend.Float.{Float}
use cryptofiend.Clients.{
  Client, TickerUpdate, BookUpdate, SetupResult, fraction, item_of, with_defaults, setup_with,
  symbol_of, update_one, price_or_update, update_book, book_or_update, blank_info,
}
use cryptofiend.Config.{ExchangeConfig}
use cryptofiend.Pair.{CurrencyPair}
use cryptofiend.Ticker.{Tickers, Price, zero_price}
use cryptofiend.Orderbook.{Item}
use cryptofiend.Exchange.Accounts.{AccountInfo}

pub record Ticker (F : Float) : Type 0 where
  pub bid : F.Num
  pub ask : F.Num
  pub last_price : F.Num
  pub volume24h : F.Num
  pub high24h : F.Num
  pub low24h : F.Num

pub record OrderbookResponse : Type 0 where
  pub bids : List (List Text)
  pub asks : List (List Text)

module _ {F : Float} where
  -- The loop over the levels of a side.
  unfoldable pub parse_items : (Text → F.Num) → List (List Text) → Option (List (Item F))
  parse_items parse_float [] = some []
  parse_items parse_float (data' ∷ r) = do
    price ← get_elem? data' 0
    amount ← get_elem? data' 1
    items ← parse_items parse_float r
    some (item_of {F = F} (parse_float amount) (parse_float price) ∷ items)

  unfoldable pub set_defaults : Client F → Client F
  set_defaults c = record (with_defaults (codes "ITBIT") [] true [] true c) {
    maker_fee = F.sub F.zero (fraction F 10 100);
    taker_fee = fraction F 50 100;
  }

  unfoldable pub setup :
      (Text → Option Text) → Client F → ExchangeConfig → List ExchangeConfig → SetupResult F
  setup base64_decode c exch exchanges =
      setup_with base64_decode exch.client_id false none c exch exchanges

  -- The price that is set from the ticker.
  abbrev pub price_of : CurrencyPair → Ticker F → Price F
  price_of p tick = record (zero_price F) {
    pair = p;
    ask = tick.ask;
    bid = tick.bid;
    last = tick.last_price;
    high = tick.high24h;
    low = tick.low24h;
    volume = tick.volume24h;
  }

  unfoldable pub update_ticker :
      List ExchangeConfig
      → (Text → Option (Ticker F))
      → Client F
      → Tickers F
      → CurrencyPair
      → Text
      → TickerUpdate F
  update_ticker exchanges request c tickers p asset_type = do
    symbol ← symbol_of exchanges c p
    update_one c tickers p asset_type (price_of p) (request symbol)

  unfoldable pub get_ticker_price :
      List ExchangeConfig
      → (Text → Option (Ticker F))
      → Client F
      → Tickers F
      → CurrencyPair
      → Text
      → TickerUpdate F
  unfolding update_ticker
  get_ticker_price exchanges request c tickers p asset_type =
      price_or_update c tickers p asset_type
        (update_ticker exchanges request c tickers p asset_type)

  unfoldable pub get_exchange_account_info : Client F → AccountInfo F
  get_exchange_account_info c = blank_info c

  abbrev pub items_in : (Text → F.Num) → OrderbookResponse → Option (List (Item F) × List (Item F))
  items_in parse_float orderbook_new = do
    bids ← parse_items parse_float orderbook_new.bids
    asks ← parse_items parse_float orderbook_new.asks
    some (bids, asks)

  unfoldable pub update_orderbook :
      (Text → F.Num)
      → List ExchangeConfig
      → (Text → Option OrderbookResponse)
      → Client F
      → CurrencyPair
      → Text
      → ℕ
      → BookUpdate F
  update_orderbook parse_float exchanges request c p asset_type now = do
    symbol ← symbol_of exchanges c p
    update_book c p asset_type now (items_in parse_float) (request symbol)

  unfoldable pub get_orderbook_ex :
      (Text → F.Num)
      → List ExchangeConfig
      → (Text → Option OrderbookResponse)
      → Client F
      → CurrencyPair
      → Text
      → ℕ
      → BookUpdate F
  unfolding update_orderbook
  get_orderbook_ex parse_float exchanges request c p asset_type now =
      book_or_update c p asset_type
        (update_orderbook parse_float exchanges request c p asset_type now)
