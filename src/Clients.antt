-- ===== src/Clients.antt =====
-- What the clients of the exchanges share: the fields of exchanges/exchange.go's Base, the lines that
-- every SetDefaults, Setup and wrapper has, and what a wrapper answers. A request to an exchange is a
-- function that gives its answer, or `none` for its error; what a method returns beside an error is
-- left out, and so are log lines.
pub mod Btcc
pub mod Bitstamp
pub mod Btcmarkets
pub mod Huobi
pub mod Gemini
pub mod Gdax
pub mod Bitfinex
pub mod Anx
pub mod Itbit
pub mod Poloniex
pub mod Lakebtc
pub mod Liqui
pub mod Wex
pub mod Localbitcoins
pub mod Bittrex
pub mod Coinut
pub mod Okcoin
pub mod Kraken
pub mod Prices
pub mod Blank
pub mod Books
pub mod Starts
pub mod Unmade
pub mod Examples
use cryptofiend.Prelude.{
  ℕ, Bool, true, false, not, Option, none, some, List, [], ◌∷◌, if◌then◌else◌, Text, get_elem?,
  ◌>>=◌,
}
use cryptofiend.Float.{Float}
use cryptofiend.Exchange.{
  Base, common_setup, set_api_keys, set_asset_types, set_currency_pair_format, set_enabled,
  get_name,
}
use cryptofiend.Exchange.Formats.{format_exchange_currency}
use cryptofiend.Exchange.Accounts.{AccountInfo, AccountCurrencyInfo}
use cryptofiend.Config.{ExchangeConfig, CurrencyPairFormatConfig}
use cryptofiend.Pair.{CurrencyPair}
use cryptofiend.Ticker
use cryptofiend.Ticker.{Tickers, Price, TickerError, get_ticker, process_ticker}
use cryptofiend.Orderbook
use cryptofiend.Orderbook.{
  Item, Orderbooks, OrderbookError, zero_base, spot, get_orderbook, process_orderbook,
}

-- The fields of `Base` that a client sets beside those of `Exchange.Base`.
pub record Client (F : Float) : Type 0 where
  pub base : Base
  pub verbose : Bool
  pub websocket : Bool
  pub rest_polling_delay : ℕ
  pub taker_fee : F.Num
  pub maker_fee : F.Num
  pub fee : F.Num
  pub websocket_url : Text
  pub api_url : Text
  pub orderbooks : Orderbooks F

-- What a wrapper's method returns: a value, the error of a request, or the error of a lookup.
pub data Reply {ℓ} (A : Type ℓ) : Type ℓ where
  reply : A → Reply A
  request_failed : Reply A
  no_ticker : TickerError → Reply A
  no_orderbook : OrderbookError → Reply A

-- The types of the methods: the package's tickers, or the client, with the answer.
abbrev pub Book : Float → Type 0
Book F = Orderbook.Base F

abbrev pub TickerUpdate : Float → Type 0
TickerUpdate F = Option (Tickers F × Reply (Price F))

abbrev pub BookUpdate : Float → Type 0
BookUpdate F = Option (Client F × Reply (Book F))

abbrev pub SetupResult : Float → Type 0
SetupResult F = Option (Client F × List ExchangeConfig)

-- The constant `numerator / denominator` of the code.
abbrev pub fraction : (F : Float) → ℕ → ℕ → F.Num
fraction F numerator denominator = F.div (F.of_ℕ numerator) (F.of_ℕ denominator)

abbrev pub item_of : {F : Float} → F.Num → F.Num → Item F
item_of amount price = record { amount = amount; price = price }

-- `data := levels[x]` with the price `data[0]` and the amount `data[1]`, for each level.
abbrev pub items_of : {F : Float} → List (List F.Num) → Option (List (Item F))
items_of [] = some []
items_of {F} (data' ∷ r) = do
  price ← get_elem? data' 0
  amount ← get_elem? data' 1
  items ← items_of {F = F} r
  some (item_of {F = F} amount price ∷ items)

-- Both sides of a book of levels.
abbrev pub both_items_of :
    {F : Float} → List (List F.Num) → List (List F.Num) → Option (List (Item F) × List (Item F))
both_items_of {F} bids asks = do
  bids' ← items_of {F = F} bids
  asks' ← items_of {F = F} asks
  some (bids', asks')

module _ {F : Float} where
  -- The lines that are in every SetDefaults: the name, what is off, the delay, the formats of the pairs
  -- and the asset types.
  abbrev pub with_defaults : Text → Text → Bool → Text → Bool → Client F → Client F
  with_defaults name request_delimiter request_uppercase config_delimiter config_uppercase c =
      let request : CurrencyPairFormatConfig = record c.base.request_currency_pair_format {
        delimiter = request_delimiter;
        uppercase = request_uppercase;
      } in
      let config : CurrencyPairFormatConfig = record c.base.config_currency_pair_format {
        delimiter = config_delimiter;
        uppercase = config_uppercase;
      } in
      let base : Base = record c.base {
        name = name;
        enabled = false;
        request_currency_pair_format = request;
        config_currency_pair_format = config;
        asset_types = spot ∷ [];
      } in
      record c { base = base; verbose = false; websocket = false; rest_polling_delay = 10 }

  abbrev pub with_separator : Text → Client F → Client F
  with_separator separator c =
      let format : CurrencyPairFormatConfig = record c.base.request_currency_pair_format {
        separator = separator;
      } in
      record c { base = record c.base { request_currency_pair_format = format } }

  -- The fields that Setup copies before it looks at the configuration again.
  abbrev pub copy_config : (Text → Option Text) → Text → Bool → Client F → ExchangeConfig → Client F
  copy_config base64_decode client_id b64_decode c exch =
      let supported : Base = record c.base {
        enabled = true;
        authenticated_api_support = exch.authenticated_api_support;
      } in
      let keyed =
        set_api_keys base64_decode supported exch.api_key exch.api_secret client_id b64_decode in
      record c {
        base = common_setup keyed exch;
        verbose = exch.verbose;
        websocket = exch.websocket;
        rest_polling_delay = exch.rest_polling_delay;
      }

  -- `err := SetCurrencyPairFormat()` and `err = SetAssetTypes()`; an error of either ends the program,
  -- `none`.
  abbrev pub set_formats_and_types : Client F → List ExchangeConfig → SetupResult F
  set_formats_and_types c exchanges =
      let formats = set_currency_pair_format c.base exchanges in
      let types = set_asset_types formats.base formats.exchanges in
      if not formats.succeeds
      then none
      else if not types.succeeds
      then none
      else some (record c { base = types.base }, types.exchanges)

  -- Setup, but for what an exchange gives: its client ID, whether its secret is decoded, and the URL of
  -- its sandbox where it has one.
  abbrev pub setup_with :
      (Text → Option Text)
      → Text
      → Bool
      → Option Text
      → Client F
      → ExchangeConfig
      → List ExchangeConfig
      → SetupResult F
  setup_with base64_decode client_id b64_decode sandbox c exch exchanges =
      let c' = copy_config base64_decode client_id b64_decode c exch in
      if not exch.enabled
      then some (record c { base = set_enabled c.base false }, exchanges)
      else (elim sandbox [
        | none ↦ set_formats_and_types c' exchanges
        | some url ↦
            set_formats_and_types (if exch.use_sandbox then record c' { api_url = url } else c')
              exchanges
      ])

  -- `exchange.FormatExchangeCurrency(GetName(), p).String()`
  abbrev pub symbol_of : List ExchangeConfig → Client F → CurrencyPair → Option Text
  symbol_of exchanges c p = format_exchange_currency exchanges (get_name c.base) p

  abbrev pub ticker_reply : Ticker.Result (Price F) → Reply (Price F)
  ticker_reply (Ticker.ok price) = reply price
  ticker_reply (Ticker.err e) = no_ticker e

  abbrev pub orderbook_reply : Orderbook.Result (Book F) → Reply (Book F)
  orderbook_reply (Orderbook.ok book) = reply book
  orderbook_reply (Orderbook.err e) = no_orderbook e

  -- An UpdateTicker of one pair, from the answer of its request: the price is processed under the pair
  -- and looked up again. `none` is a panic.
  abbrev pub update_one :
      {T : Type 0}
      → Client F
      → Tickers F
      → CurrencyPair
      → Text
      → (T → Price F)
      → Option T
      → TickerUpdate F
  update_one c tickers p asset_type price_of none = some (tickers, request_failed)
  update_one c tickers p asset_type price_of (some tick) = do
    tickers' ← process_ticker tickers (get_name c.base) p (price_of tick) asset_type
    some (tickers', ticker_reply (get_ticker tickers' (get_name c.base) p asset_type))

  -- The loop of an UpdateTicker of all enabled pairs: `price_at` gives the price of a pair, nothing for a
  -- pair that is skipped, and `none` where it panics.
  abbrev pub process_pairs :
      Client F
      → Text
      → (CurrencyPair → Option (Option (Price F)))
      → Tickers F
      → List CurrencyPair
      → Option (Tickers F)
  process_pairs c asset_type price_at tickers [] = some tickers
  process_pairs c asset_type price_at tickers (x ∷ r) = do
    found ← price_at x
    tickers' ← (elim found [
      | none ↦ some tickers
      | some price ↦ process_ticker tickers (get_name c.base) x price asset_type
    ])
    process_pairs c asset_type price_at tickers' r

  -- An UpdateTicker of all enabled pairs, once the request is answered.
  abbrev pub update_all :
      Client F
      → Tickers F
      → CurrencyPair
      → Text
      → List CurrencyPair
      → (CurrencyPair → Option (Option (Price F)))
      → TickerUpdate F
  update_all c tickers p asset_type pairs price_at = do
    tickers' ← process_pairs c asset_type price_at tickers pairs
    some (tickers', ticker_reply (get_ticker tickers' (get_name c.base) p asset_type))

  -- GetTickerPrice: the ticker that is there, or else what `update` gives.
  abbrev pub price_or_update :
      Client F → Tickers F → CurrencyPair → Text → TickerUpdate F → TickerUpdate F
  price_or_update c tickers p asset_type update =
      elim (get_ticker tickers (get_name c.base) p asset_type) [
        | Ticker.ok price ↦ some (tickers, reply price)
        | Ticker.err e ↦ update
      ]

  abbrev pub get_book : Client F → CurrencyPair → Text → Orderbook.Result (Book F)
  get_book c p asset_type = get_orderbook c.orderbooks p asset_type

  -- An UpdateOrderbook, from the answer of its request: the book with the bids and asks of the answer is
  -- processed at the time `now` and looked up again.
  abbrev pub update_book :
      {B : Type 0}
      → Client F
      → CurrencyPair
      → Text
      → ℕ
      → (B → Option (List (Item F) × List (Item F)))
      → Option B
      → BookUpdate F
  update_book c p asset_type now items_in none = some (c, request_failed)
  update_book c p asset_type now items_in (some orderbook_new) = do
    (bids, asks) ← items_in orderbook_new
    let book : Book F = record (zero_base F) { bids = bids; asks = asks }
    books ← process_orderbook c.orderbooks p book asset_type now
    let c' : Client F = record c { orderbooks = books }
    some (c', orderbook_reply (get_book c' p asset_type))

  -- GetOrderbookEx: with a book that is there `update` is run; one that is not is answered with the blank
  -- book that the failed lookup returned.
  abbrev pub book_or_update : Client F → CurrencyPair → Text → BookUpdate F → BookUpdate F
  book_or_update c p asset_type update = elim (get_book c p asset_type) [
    | Orderbook.ok book ↦ update
    | Orderbook.err e ↦ some (c, reply (zero_base F))
  ]

  -- `response.ExchangeName = GetName()`, with nothing else.
  abbrev pub blank_info : Client F → AccountInfo F
  blank_info c = record { exchange_name = get_name c.base; currencies = [] }

  -- A GetExchangeAccountInfo, from the answer of its request.
  abbrev pub info_of :
      {A : Type 0}
      → Client F
      → (A → List (AccountCurrencyInfo F))
      → Option A
      → Reply (AccountInfo F)
  info_of c currencies_of none = request_failed
  info_of c currencies_of (some answer) =
      reply (record (blank_info c) { currencies = currencies_of answer })

  -- An entry with no available amount set.
  abbrev pub currency_info : Text → F.Num → F.Num → AccountCurrencyInfo F
  currency_info currency_name total_value hold = record {
    currency_name = currency_name;
    total_value = total_value;
    hold = hold;
    available = F.zero;
  }
