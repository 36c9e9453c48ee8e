-- ===== src/Clients/Poloniex.antt =====
-- exchanges/poloniex/poloniex.go, SetDefaults and Setup, and
-- exchanges/poloniex/poloniex_wrapper.go: the client of Poloniex, but for its trading and its web
-- socket.
use cryptofiend.Prelude.{ℕ, true, false, Option, none, some, List, [], ◌∷◌, map, Text, codes, ◌>>=◌}
use cryptofiend.Float.{Float}
use cryptofiend.Clients.{
  Client, Reply, request_failed, TickerUpdate, BookUpdate, SetupResult, item_of, with_defaults,
  setup_with, symbol_of, update_all, price_or_update, update_book, book_or_update, info_of,
}
use cryptofiend.Config.{ExchangeConfig}
use cryptofiend.Pair.{CurrencyPair, display, invert}
use cryptofiend.Ticker.{Tickers, Price, zero_price}
use cryptofiend.Orderbook.{Item}
use cryptofiend.Exchange.Accounts.{AccountInfo, AccountCurrencyInfo}
use cryptofiend.GoMap.{GoMap, lookup}
use cryptofiend.Exchange.{
  get_enabled_currencies as base_enabled_currencies,
  get_available_currencies as base_available_currencies,
}

pub record PoloniexTicker (F : Float) : Type 0 where
  pub last : F.Num
  pub lowest_ask : F.Num
  pub highest_bid : F.Num
  pub base_volume : F.Num
  pub high24_hr : F.Num
  pub low24_hr : F.Num

-- A missing key of the map reads as this.
abbrev pub or_zero : (F : Float) → Option (PoloniexTicker F) → PoloniexTicker F
or_zero F (some tick) = tick
or_zero F none = record {
  last = F.zero;
  lowest_ask = F.zero;
  highest_bid = F.zero;
  base_volume = F.zero;
  high24_hr = F.zero;
  low24_hr = F.zero;
}

pub record PoloniexOrderbookItem (F : Float) : Type 0 where
  pub price : F.Num
  pub amount : F.Num

pub record PoloniexOrderbook (F : Float) : Type 0 where
  pub asks : List (PoloniexOrderbookItem F)
  pub bids : List (PoloniexOrderbookItem F)

module _ {F : Float} where
  unfoldable pub currency_pair_to_symbol : Client F → CurrencyPair → Text
  currency_pair_to_symbol c p =
      let format = c.base.request_currency_pair_format in
      display (invert p) format.delimiter format.uppercase

  -- The pairs are configured as the exchange has them, and inverted here.
  unfoldable pub get_enabled_currencies : Client F → Option (List CurrencyPair)
  get_enabled_currencies c = do pairs ← base_enabled_currencies c.base; some (map invert pairs)

  unfoldable pub get_available_currencies : Client F → Option (List CurrencyPair)
  get_available_currencies c = do pairs ← base_available_currencies c.base; some (map invert pairs)

  unfoldable pub set_defaults : Client F → Client F
  set_defaults c = record (with_defaults (codes "Poloniex") (codes "_") true (codes "_") true c) {
    fee = F.zero;
    orderbooks = some [];
  }

  unfoldable pub setup :
      (Text → Option Text) → Client F → ExchangeConfig → List ExchangeConfig → SetupResult F
  setup base64_decode c exch exchanges = setup_with base64_decode [] false none c exch exchanges

  abbrev pub items_in : PoloniexOrderbook F → Option (List (Item F) × List (Item F))
  items_in orderbook_new = some (
    map (λ x. item_of {F = F} x.amount x.price) orderbook_new.bids,
    map (λ x. item_of {F = F} x.amount x.price) orderbook_new.asks,
  )

  unfoldable pub update_orderbook :
      (Text → Option (PoloniexOrderbook F)) → Client F → CurrencyPair → Text → ℕ → BookUpdate F
  update_orderbook request c p asset_type now =
      update_book c p asset_type now items_in (request (currency_pair_to_symbol c p))

  unfoldable pub get_orderbook_ex :
      (Text → Option (PoloniexOrderbook F)) → Client F → CurrencyPair → Text → ℕ → BookUpdate F
  unfolding update_orderbook
  get_orderbook_ex request c p asset_type now =
      book_or_update c p asset_type (update_orderbook request c p asset_type now)

  abbrev pub currencies_of : GoMap F.Num → List (AccountCurrencyInfo F)
  currencies_of [] = []
  currencies_of ((currency, available_amount) ∷ r) =
      record {
        currency_name = currency;
        total_value = available_amount;
        available = available_amount;
        hold = F.zero;
      }
      ∷ currencies_of r

  unfoldable pub get_exchange_account_info : Client F → Option (GoMap F.Num) → Reply (AccountInfo F)
  get_exchange_account_info c answer = info_of c currencies_of answer

  abbrev pub price_at : CurrencyPair → PoloniexTicker F → Price F
  price_at x tick = record (zero_price F) {
    pair = x;
    ask = tick.lowest_ask;
    bid = tick.highest_bid;
    high = tick.high24_hr;
    last = tick.last;
    low = tick.low24_hr;
    volume = tick.base_volume;
  }

  unfoldable pub update_ticker :
      List ExchangeConfig
      → Option (GoMap (PoloniexTicker F))
      → Client F
      → Tickers F
      → CurrencyPair
      → Text
      → TickerUpdate F
  unfolding get_enabled_currencies
  update_ticker exchanges none c tickers p asset_type = some (tickers, request_failed)
  update_ticker exchanges (some tick) c tickers p asset_type = do
    pairs ← get_enabled_currencies c
    update_all c tickers p asset_type pairs (λ x. do
      curr ← symbol_of exchanges c x
      some (some (price_at x (or_zero F (lookup curr tick)))))

  unfoldable pub get_ticker_price :
      List ExchangeConfig
      → Option (GoMap (PoloniexTicker F))
      → Client F
      → Tickers F
      → CurrencyPair
      → Text
      → TickerUpdate F
  unfolding update_ticker
  get_ticker_price exchanges request c tickers p asset_type =
      price_or_update c tickers p asset_type
        (update_ticker exchanges request c tickers p asset_type)
