-- ===== src/Clients/Okcoin.antt =====
-- exchanges/okcoin/okcoin.go, SetDefaults and Setup, and exchanges/okcoin/okcoin_wrapper.go: the
-- clients of OKCoin, of which the first that is set up is the international one. The tables of
-- error texts that SetDefaults fills are left out.
use cryptofiend.Prelude.{
  ℕ, Bool, true, false, not, ◌&&◌, Option, none, some, List, [], ◌∷◌, if◌then◌else◌, Text, codes,
  text_eq, ◌>>=◌,
}
use cryptofiend.Float.{Float}
use cryptofiend.Clients.{
  Client, Reply, request_failed, TickerUpdate, BookUpdate, SetupResult, both_items_of, setup_with,
  symbol_of, update_one, price_or_update, update_book, book_or_update, info_of, currency_info,
  ticker_reply,
}
use cryptofiend.Config.{ExchangeConfig, CurrencyPairFormatConfig}
use cryptofiend.Pair.{CurrencyPair}
use cryptofiend.Ticker.{Tickers, process_ticker, Price, zero_price, get_ticker}
use cryptofiend.Orderbook.{Item, spot}
use cryptofiend.Exchange.Accounts.{AccountInfo, AccountCurrencyInfo}
use cryptofiend.Exchange.{get_name}

pub record OkcoinTicker (F : Float) : Type 0 where
  pub buy : F.Num
  pub high : F.Num
  pub last : F.Num
  pub low : F.Num
  pub sell : F.Num
  pub vol : F.Num

pub record OkcoinFuturesTicker (F : Float) : Type 0 where
  pub last : F.Num
  pub buy : F.Num
  pub sell : F.Num
  pub high : F.Num
  pub low : F.Num
  pub vol : F.Num

pub record OkcoinOrderbook (F : Float) : Type 0 where
  pub asks : List (List F.Num)
  pub bids : List (List F.Num)

pub record Funds (F : Float) : Type 0 where
  pub btc : F.Num
  pub ltc : F.Num
  pub usd : F.Num
  pub cny : F.Num

pub record OkcoinUserInfo (F : Float) : Type 0 where
  pub free : Funds F
  pub freezed : Funds F

abbrev pub okcoin_api_url : Text
okcoin_api_url = codes "https://www.okcoin.com/api/v1/"

abbrev pub okcoin_api_url_china : Text
okcoin_api_url_china = codes "https://www.okcoin.cn/api/v1/"

abbrev pub okcoin_websocket_url : Text
okcoin_websocket_url = codes "wss://real.okcoin.com:10440/websocket/okcoinapi"

abbrev pub okcoin_websocket_url_china : Text
okcoin_websocket_url_china = codes "wss://real.okcoin.cn:10440/websocket/okcoinapi"

abbrev pub futures_values : List Text
futures_values = codes "this_week" ∷ codes "next_week" ∷ codes "quarter" ∷ []

module _ {F : Float} where
  abbrev pub set_currency_pair_formats : Client F → Client F
  set_currency_pair_formats c =
      let request : CurrencyPairFormatConfig = record c.base.request_currency_pair_format {
        delimiter = codes "_";
        uppercase = false;
      } in
      let config : CurrencyPairFormatConfig = record c.base.config_currency_pair_format {
        delimiter = [];
        uppercase = true;
      } in
      record c {
        base = record c.base {
          request_currency_pair_format = request;
          config_currency_pair_format = config;
        };
      }

  -- What SetDefaults sets of both clients, with the name, the URLs and the asset types that differ.
  abbrev pub named_defaults : Text → Text → Text → List Text → Client F → Client F
  named_defaults name api_url websocket_url asset_types c = set_currency_pair_formats (record c {
    base = record c.base { name = name; enabled = false; asset_types = asset_types };
    verbose = false;
    websocket = false;
    rest_polling_delay = 10;
    api_url = api_url;
    websocket_url = websocket_url;
    orderbooks = some [];
  })

  -- The flag is the package variable okcoinDefaultsSet.
  unfoldable pub set_defaults : Bool → Client F → Bool × Client F
  set_defaults okcoin_defaults_set c =
      if not okcoin_defaults_set
      then (
        true,
        named_defaults (codes "OKCOIN International") okcoin_api_url okcoin_websocket_url
            (spot ∷ futures_values) c,
      )
      else (
        okcoin_defaults_set,
        named_defaults (codes "OKCOIN China") okcoin_api_url_china okcoin_websocket_url_china
            (spot ∷ []) c,
      )

  unfoldable pub setup :
      (Text → Option Text) → Client F → ExchangeConfig → List ExchangeConfig → SetupResult F
  setup base64_decode c exch exchanges = setup_with base64_decode [] false none c exch exchanges

  abbrev pub items_in : OkcoinOrderbook F → Option (List (Item F) × List (Item F))
  items_in orderbook_new = both_items_of {F = F} orderbook_new.bids orderbook_new.asks

  unfoldable pub update_orderbook :
      List ExchangeConfig
      → (Text → Option (OkcoinOrderbook F))
      → Client F
      → CurrencyPair
      → Text
      → ℕ
      → BookUpdate F
  update_orderbook exchanges request c p asset_type now = do
    symbol ← symbol_of exchanges c p
    update_book c p asset_type now items_in (request symbol)

  unfoldable pub get_orderbook_ex :
      List ExchangeConfig
      → (Text → Option (OkcoinOrderbook F))
      → Client F
      → CurrencyPair
      → Text
      → ℕ
      → BookUpdate F
  unfolding update_orderbook
  get_orderbook_ex exchanges request c p asset_type now =
      book_or_update c p asset_type (update_orderbook exchanges request c p asset_type now)

  abbrev pub currencies_of : OkcoinUserInfo F → List (AccountCurrencyInfo F)
  currencies_of assets =
      currency_info (codes "BTC") assets.free.btc assets.freezed.btc
      ∷ currency_info (codes "LTC") assets.free.ltc assets.freezed.ltc
      ∷ currency_info (codes "USD") assets.free.usd assets.freezed.usd
      ∷ currency_info (codes "CNY") assets.free.cny assets.freezed.cny
      ∷ []

  unfoldable pub get_exchange_account_info :
      Client F → Option (OkcoinUserInfo F) → Reply (AccountInfo F)
  get_exchange_account_info c answer = info_of c currencies_of answer

  abbrev pub price_of : CurrencyPair → OkcoinTicker F → Price F
  price_of p tick = record (zero_price F) {
    pair = p;
    ask = tick.sell;
    bid = tick.buy;
    low = tick.low;
    last = tick.last;
    volume = tick.vol;
    high = tick.high;
  }

  abbrev pub futures_price_of : CurrencyPair → OkcoinFuturesTicker F → Price F
  futures_price_of p tick = record (zero_price F) {
    pair = p;
    ask = tick.sell;
    bid = tick.buy;
    low = tick.low;
    last = tick.last;
    volume = tick.vol;
    high = tick.high;
  }

  -- A price that is not of a future is processed as a spot price, and looked up as what was asked for.
  abbrev pub update_spot :
      Client F → Tickers F → CurrencyPair → Text → Option (OkcoinTicker F) → TickerUpdate F
  update_spot c tickers p asset_type none = some (tickers, request_failed)
  update_spot c tickers p asset_type (some tick) = do
    tickers' ← process_ticker tickers (get_name c.base) p (price_of p tick) spot
    some (tickers', ticker_reply (get_ticker tickers' (get_name c.base) p asset_type))

  unfoldable pub update_ticker :
      List ExchangeConfig
      → (Text → Option (OkcoinTicker F))
      → (Text → Text → Option (OkcoinFuturesTicker F))
      → Client F
      → Tickers F
      → CurrencyPair
      → Text
      → TickerUpdate F
  update_ticker exchanges request request_futures c tickers p asset_type = do
    currency ← symbol_of exchanges c p
    let futures =
        update_one c tickers p asset_type (futures_price_of p) (request_futures currency asset_type)
    let spot_price = update_spot c tickers p asset_type (request currency)
    let is_futures = not (text_eq asset_type spot) && text_eq c.api_url okcoin_api_url
    if is_futures then futures else spot_price

  unfoldable pub get_ticker_price :
      List ExchangeConfig
      → (Text → Option (OkcoinTicker F))
      → (Text → Text → Option (OkcoinFuturesTicker F))
      → Client F
      → Tickers F
      → CurrencyPair
      → Text
      → TickerUpdate F
  unfolding update_ticker
  get_ticker_price exchanges request request_futures c tickers p asset_type =
      price_or_update c tickers p asset_type
        (update_ticker exchanges request request_futures c tickers p asset_type)
