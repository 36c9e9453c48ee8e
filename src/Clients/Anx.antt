-- ===== src/Clients/Anx.antt =====
-- exchanges/anx/anx.go, SetDefaults and Setup, and exchanges/anx/anx_wrapper.go: the client of ANX.
-- `parse_float` is strconv.ParseFloat, with `none` for its error.
use cryptofiend.Prelude.{
  true, Option, none, some, List, [], if◌then◌else◌, Text, codes, is_empty, ◌>>=◌,
}
use cryptofiend.Float.{Float}
use cryptofiend.Clients.{
  Client, reply, TickerUpdate, BookUpdate, SetupResult, fraction, with_defaults, setup_with,
  symbol_of, update_one, price_or_update, blank_info,
}
use cryptofiend.Config.{ExchangeConfig}
use cryptofiend.Pair.{CurrencyPair}
use cryptofiend.Ticker.{Tickers, Price, zero_price}
use cryptofiend.Orderbook.{zero_base}
use cryptofiend.Exchange.Accounts.{AccountInfo}
use cryptofiend.Exchange

-- A blank value is zero.
abbrev pub parse_value : (F : Float) → (Text → Option F.Num) → Text → Option F.Num
parse_value F parse_float value = if is_empty value then some F.zero else parse_float value

pub record AnxTicker (F : Float) : Type 0 where
  pub high : Text
  pub low : Text
  pub last : Text
  pub vol : Text
  pub buy : Text
  pub sell : Text

module _ {F : Float} where
  unfoldable pub set_defaults : Client F → Client F
  set_defaults c =
      let named = with_defaults (codes "ANX") [] true [] true c in
      let indexed : Exchange.Base = record named.base {
        request_currency_pair_format = record named.base.request_currency_pair_format {
          index = codes "BTC";
        };
        config_currency_pair_format = record named.base.config_currency_pair_format {
          index = codes "BTC";
        };
      } in
      record named { base = indexed; taker_fee = fraction F 6 10; maker_fee = fraction F 3 10 }

  unfoldable pub setup :
      (Text → Option Text) → Client F → ExchangeConfig → List ExchangeConfig → SetupResult F
  setup base64_decode c exch exchanges = setup_with base64_decode [] true none c exch exchanges

  unfoldable pub get_exchange_account_info : Client F → AccountInfo F
  get_exchange_account_info c = blank_info c

  -- The price of a ticker, in the order in which its values are parsed.
  abbrev pub parse_price : (Text → Option F.Num) → CurrencyPair → AnxTicker F → Option (Price F)
  parse_price parse_float p tick = do
    ask ← parse_value F parse_float tick.sell
    bid ← parse_value F parse_float tick.buy
    low ← parse_value F parse_float tick.low
    last ← parse_value F parse_float tick.last
    volume ← parse_value F parse_float tick.vol
    high ← parse_value F parse_float tick.high
    some (record (zero_price F) {
      pair = p;
      ask = ask;
      bid = bid;
      low = low;
      last = last;
      volume = volume;
      high = high;
    })

  -- The error of a value that is not parsed is answered like that of the request.
  unfoldable pub update_ticker :
      (Text → Option F.Num)
      → List ExchangeConfig
      → (Text → Option (AnxTicker F))
      → Client F
      → Tickers F
      → CurrencyPair
      → Text
      → TickerUpdate F
  update_ticker parse_float exchanges request c tickers p asset_type = do
    symbol ← symbol_of exchanges c p
    let parsed = (do tick ← request symbol; parse_price parse_float p tick)
    update_one c tickers p asset_type (λ price. price) parsed

  unfoldable pub get_ticker_price :
      (Text → Option F.Num)
      → List ExchangeConfig
      → (Text → Option (AnxTicker F))
      → Client F
      → Tickers F
      → CurrencyPair
      → Text
      → TickerUpdate F
  unfolding update_ticker
  get_ticker_price parse_float exchanges request c tickers p asset_type =
      price_or_update c tickers p asset_type
        (update_ticker parse_float exchanges request c tickers p asset_type)

  unfoldable pub update_orderbook : Client F → CurrencyPair → Text → BookUpdate F
  update_orderbook c p asset_type = some (c, reply (zero_base F))
