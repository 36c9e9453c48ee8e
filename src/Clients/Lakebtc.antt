-- ===== src/Clients/Lakebtc.antt =====
-- exchanges/lakebtc/lakebtc.go, SetDefaults and Setup, and exchanges/lakebtc/lakebtc_wrapper.go:
-- the client of LakeBTC. `parse_float` is strconv.ParseFloat's number, whose error is dropped.
use cryptofiend.Prelude.{
  ℕ, true, false, Option, none, some, List, [], ◌∷◌, ◌++◌, map, if◌then◌else◌, Text, codes, text_eq,
  ◌>>=◌,
}
use cryptofiend.Float.{Float}
use cryptofiend.Clients.{
  Client, Reply, request_failed, TickerUpdate, BookUpdate, SetupResult, fraction, item_of,
  with_defaults, setup_with, symbol_of, update_all, price_or_update, update_book, book_or_update,
  info_of, currency_info,
}
use cryptofiend.Config.{ExchangeConfig}
use cryptofiend.Pair.{CurrencyPair, pair}
use cryptofiend.Ticker.{Tickers, Price, zero_price}
use cryptofiend.Orderbook.{Item}
use cryptofiend.Exchange.Accounts.{AccountInfo, AccountCurrencyInfo}
use cryptofiend.GoMap.{GoMap, lookup}
use cryptofiend.Text.{to_upper}
use cryptofiend.Exchange.{get_enabled_currencies}

pub record LakeBtcTicker (F : Float) : Type 0 where
  pub last : F.Num
  pub bid : F.Num
  pub ask : F.Num
  pub high : F.Num
  pub low : F.Num
  pub volume : F.Num

-- A missing key of the map reads as this.
abbrev pub or_zero : (F : Float) → Option (LakeBtcTicker F) → LakeBtcTicker F
or_zero F (some tick) = tick
or_zero F none = record {
  last = F.zero;
  bid = F.zero;
  ask = F.zero;
  high = F.zero;
  low = F.zero;
  volume = F.zero;
}

pub record LakeBtcOrderbookStructure (F : Float) : Type 0 where
  pub price : F.Num
  pub amount : F.Num

pub record LakeBtcOrderbook (F : Float) : Type 0 where
  pub bids : List (LakeBtcOrderbookStructure F)
  pub asks : List (LakeBtcOrderbookStructure F)

pub record LakeBtcAccountInfo : Type 0 where
  pub balance : GoMap Text
  pub locked : GoMap Text

module _ {F : Float} where
  unfoldable pub set_defaults : Client F → Client F
  set_defaults c = record (with_defaults (codes "LakeBTC") [] true [] true c) {
    taker_fee = fraction F 2 10;
    maker_fee = fraction F 15 100;
  }

  unfoldable pub setup :
      (Text → Option Text) → Client F → ExchangeConfig → List ExchangeConfig → SetupResult F
  setup base64_decode c exch exchanges = setup_with base64_decode [] false none c exch exchanges

  abbrev pub items_in : LakeBtcOrderbook F → Option (List (Item F) × List (Item F))
  items_in orderbook_new = some (
    map (λ x. item_of {F = F} x.amount x.price) orderbook_new.bids,
    map (λ x. item_of {F = F} x.amount x.price) orderbook_new.asks,
  )

  unfoldable pub update_orderbook :
      (Text → Option (LakeBtcOrderbook F)) → Client F → CurrencyPair → Text → ℕ → BookUpdate F
  update_orderbook request c p asset_type now =
      update_book c p asset_type now items_in (request (pair p))

  unfoldable pub get_orderbook_ex :
      (Text → Option (LakeBtcOrderbook F)) → Client F → CurrencyPair → Text → ℕ → BookUpdate F
  unfolding update_orderbook
  get_orderbook_ex request c p asset_type now =
      book_or_update c p asset_type (update_orderbook request c p asset_type now)

  abbrev pub price_at : CurrencyPair → LakeBtcTicker F → Price F
  price_at x tick = record (zero_price F) {
    pair = x;
    ask = tick.ask;
    bid = tick.bid;
    volume = tick.volume;
    high = tick.high;
    low = tick.low;
    last = tick.last;
  }

  unfoldable pub update_ticker :
      List ExchangeConfig
      → Option (GoMap (LakeBtcTicker F))
      → Client F
      → Tickers F
      → CurrencyPair
      → Text
      → TickerUpdate F
  update_ticker exchanges none c tickers p asset_type = some (tickers, request_failed)
  update_ticker exchanges (some tick) c tickers p asset_type = do
    pairs ← get_enabled_currencies c.base
    update_all c tickers p asset_type pairs (λ x. do
      currency ← symbol_of exchanges c x
      some (some (price_at x (or_zero F (lookup currency tick)))))

  unfoldable pub get_ticker_price :
      List ExchangeConfig
      → Option (GoMap (LakeBtcTicker F))
      → Client F
      → Tickers F
      → CurrencyPair
      → Text
      → TickerUpdate F
  unfolding update_ticker
  get_ticker_price exchanges request c tickers p asset_type =
      price_or_update c tickers p asset_type
        (update_ticker exchanges request c tickers p asset_type)

  -- The inner loop, over the locked amounts.
  abbrev pub locked_of : (Text → F.Num) → Text → Text → GoMap Text → List (AccountCurrencyInfo F)
  locked_of parse_float x y [] = []
  locked_of parse_float x y ((z, w) ∷ r) =
      if text_eq z x
      then currency_info (to_upper x) (parse_float y) (parse_float w) ∷ locked_of parse_float x y r
      else locked_of parse_float x y r

  abbrev pub currencies_of : (Text → F.Num) → GoMap Text → GoMap Text → List (AccountCurrencyInfo F)
  currencies_of parse_float locked [] = []
  currencies_of parse_float locked ((x, y) ∷ r) =
      locked_of parse_float x y locked ++ currencies_of parse_float locked r

  unfoldable pub get_exchange_account_info :
      (Text → F.Num) → Client F → Option LakeBtcAccountInfo → Reply (AccountInfo F)
  get_exchange_account_info parse_float c answer =
      info_of c (λ info. currencies_of parse_float info.locked info.balance) answer
