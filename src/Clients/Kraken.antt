-- ===== src/Clients/Kraken.antt =====
-- exchanges/kraken/kraken.go, SetDefaults and Setup, and exchanges/kraken/kraken_wrapper.go: the
-- client of Kraken, but for its trading. `parse_float` is strconv.ParseFloat's number, whose error
-- is dropped.
use cryptofiend.Prelude.{
  ℕ, Bool, true, false, Option, none, some, List, [], ◌∷◌, ◌++◌, map, ltb, if◌then◌else◌, Text,
  codes, length, get_elem?, take, drop, ◌>>=◌,
}
use cryptofiend.Float.{Float}
use cryptofiend.Clients.{
  fraction, with_defaults, with_separator, Client, Reply, reply, request_failed, BookUpdate,
  SetupResult, item_of, setup_with, symbol_of, update_all, update_book, book_or_update, blank_info,
}
use cryptofiend.Config.{ExchangeConfig}
use cryptofiend.Pair.{CurrencyPair, pair}
use cryptofiend.Ticker.{Tickers, Price, zero_price, get_ticker, ok, err}
use cryptofiend.Orderbook.{Item}
use cryptofiend.Exchange.Accounts.{AccountInfo}
use cryptofiend.GoMap.{GoMap, lookup, insert}
use cryptofiend.Exchange.Formats.{get_and_format_exchange_currencies}
use cryptofiend.Exchange.{comma, get_enabled_currencies, get_name}

pub record KrakenTicker (F : Float) : Type 0 where
  pub ask : F.Num
  pub bid : F.Num
  pub last : F.Num
  pub volume : F.Num
  pub vwap : F.Num
  pub trades : ℕ
  pub low : F.Num
  pub high : F.Num
  pub opening : F.Num

pub record KrakenTickerResponse : Type 0 where
  pub ask : List Text
  pub bid : List Text
  pub last : List Text
  pub volume : List Text
  pub vwap : List Text
  pub trades : List ℕ
  pub low : List Text
  pub high : List Text
  pub opening : Text

pub record OrderbookBase (F : Float) : Type 0 where
  pub price : F.Num
  pub amount : F.Num

pub record Orderbook (F : Float) : Type 0 where
  pub bids : List (OrderbookBase F)
  pub asks : List (OrderbookBase F)

-- The client with the fields of its own that are modelled.
pub record Kraken (F : Float) : Type 0 where
  pub client : Client F
  pub fiat_fee : F.Num
  pub crypto_fee : F.Num
  pub ticker : GoMap (KrakenTicker F)

-- `x[1:4] + x[5:]`; a slice past the end panics.
unfoldable pub ticker_key : Text → Option Text
ticker_key x = if ltb (length x) 5 then none else some (take 3 (drop 1 x) ++ drop 5 x)

module _ {F : Float} where
  unfoldable pub parse_ticker : (Text → F.Num) → KrakenTickerResponse → Option (KrakenTicker F)
  parse_ticker parse_float y = do
    ask ← get_elem? y.ask 0
    bid ← get_elem? y.bid 0
    last ← get_elem? y.last 0
    volume ← get_elem? y.volume 1
    vwap ← get_elem? y.vwap 1
    trades ← get_elem? y.trades 1
    low ← get_elem? y.low 1
    high ← get_elem? y.high 1
    some (record {
      ask = parse_float ask;
      bid = parse_float bid;
      last = parse_float last;
      volume = parse_float volume;
      vwap = parse_float vwap;
      trades = trades;
      low = parse_float low;
      high = parse_float high;
      opening = parse_float y.opening;
    })

  -- The loop over the answer, in the order in which the map is looped over; a panic is `none`.
  unfoldable pub put_tickers :
      (Text → F.Num)
      → List (Text × KrakenTickerResponse)
      → GoMap (KrakenTicker F)
      → Option (GoMap (KrakenTicker F))
  unfolding ticker_key parse_ticker
  put_tickers parse_float [] ticker = some ticker
  put_tickers parse_float ((x, y) ∷ r) ticker = do
    key ← ticker_key x
    tick ← parse_ticker parse_float y
    put_tickers parse_float r (insert key tick ticker)

  -- The answer of the request is the error list with the data; the result is whether there is no error.
  unfoldable pub get_kraken_ticker :
      (Text → F.Num)
      → Kraken F
      → Option (List Text × List (Text × KrakenTickerResponse))
      → Option (Kraken F × Bool)
  unfolding put_tickers
  get_kraken_ticker parse_float k none = some (k, false)
  get_kraken_ticker parse_float k (some (error ∷ errors, data')) = some (k, false)
  get_kraken_ticker parse_float k (some ([], data')) = do
    ticker ← put_tickers parse_float data' k.ticker
    some (record k { ticker = ticker }, true)

  unfoldable pub set_defaults : Kraken F → Kraken F
  set_defaults k = record k {
    client =
        record (with_separator comma (with_defaults (codes "Kraken") [] true [] true k.client)) {
          orderbooks = some [];
        };
    fiat_fee = fraction F 35 100;
    crypto_fee = fraction F 10 100;
    ticker = [];
  }

  unfoldable pub setup :
      (Text → Option Text) → Client F → ExchangeConfig → List ExchangeConfig → SetupResult F
  setup base64_decode c exch exchanges = setup_with base64_decode [] false none c exch exchanges

  abbrev pub items_in : Orderbook F → Option (List (Item F) × List (Item F))
  items_in orderbook_new = some (
    map (λ x. item_of {F = F} x.amount x.price) orderbook_new.bids,
    map (λ x. item_of {F = F} x.amount x.price) orderbook_new.asks,
  )

  unfoldable pub update_orderbook :
      List ExchangeConfig
      → (Text → Option (Orderbook F))
      → Client F
      → CurrencyPair
      → Text
      → ℕ
      → BookUpdate F
  update_orderbook exchanges request c p asset_type now = do
    symbol ← symbol_of exchanges c p
    update_book c p asset_type now items_in (request symbol)

  unfoldable pub get_orderbook_ex :
      List ExchangeConfig
      → (Text → Option (Orderbook F))
      → Client F
      → CurrencyPair
      → Text
      → ℕ
      → BookUpdate F
  unfolding update_orderbook
  get_orderbook_ex exchanges request c p asset_type now =
      book_or_update c p asset_type (update_orderbook exchanges request c p asset_type now)

  unfoldable pub get_exchange_account_info : Client F → AccountInfo F
  get_exchange_account_info c = blank_info c

  abbrev pub price_at : CurrencyPair → KrakenTicker F → Price F
  price_at x tick = record (zero_price F) {
    pair = x;
    last = tick.last;
    ask = tick.ask;
    bid = tick.bid;
    high = tick.high;
    low = tick.low;
    volume = tick.volume;
  }

  -- A pair with no ticker is skipped.
  abbrev pub price_of_pair : Kraken F → CurrencyPair → Option (Price F)
  price_of_pair k x = elim (lookup (pair x) k.ticker) [
    | none ↦ none
    | some tick ↦ some (price_at x tick)
  ]

  unfoldable pub update_ticker :
      (Text → F.Num)
      → List ExchangeConfig
      → (Text → Option (List Text × List (Text × KrakenTickerResponse)))
      → Kraken F
      → Tickers F
      → CurrencyPair
      → Text
      → Option (Kraken F × Tickers F × Reply (Price F))
  unfolding get_kraken_ticker
  update_ticker parse_float exchanges request k tickers p asset_type = do
    let c = k.client
    pairs ← get_enabled_currencies c.base
    elim (get_and_format_exchange_currencies exchanges (get_name c.base) pairs) [
      | none ↦ some (k, tickers, request_failed)
      | some collated ↦ (do
        symbols ← collated
        (k', succeeds) ← get_kraken_ticker parse_float k (request symbols)
        let failed = some (k', tickers, request_failed)
        let update = (do
          (tickers', answer) ←
              update_all c tickers p asset_type pairs (λ x. some (price_of_pair k' x))
          some (k', tickers', answer))
        if succeeds then update else failed)
    ]

  unfoldable pub get_ticker_price :
      (Text → F.Num)
      → List ExchangeConfig
      → (Text → Option (List Text × List (Text × KrakenTickerResponse)))
      → Kraken F
      → Tickers F
      → CurrencyPair
      → Text
      → Option (Kraken F × Tickers F × Reply (Price F))
  unfolding update_ticker
  get_ticker_price parse_float exchanges request k tickers p asset_type =
      elim (get_ticker tickers (get_name k.client.base) p asset_type) [
        | ok price ↦ some (k, tickers, reply price)
        | err e ↦ update_ticker parse_float exchanges request k tickers p asset_type
      ]
