-- ===== src/Clients/Bitstamp.antt =====
-- exchanges/bitstamp/bitstamp.go, SetDefaults and Setup, and
-- exchanges/bitstamp/bitstamp_wrapper.go: the client of Bitstamp.
use cryptofiend.Prelude.{ℕ, true, false, Option, none, some, List, [], ◌∷◌, map, Text, codes}
use cryptofiend.Float.{Float}
use cryptofiend.Clients.{
  Client, Reply, TickerUpdate, BookUpdate, SetupResult, item_of, with_defaults, setup_with,
  update_one, price_or_update, update_book, book_or_update, info_of, currency_info,
}
use cryptofiend.Config.{ExchangeConfig}
use cryptofiend.Pair.{CurrencyPair, pair}
use cryptofiend.Ticker.{Tickers, Price, zero_price}
use cryptofiend.Orderbook.{Item}
use cryptofiend.Exchange.Accounts.{AccountInfo, AccountCurrencyInfo}

pub record Ticker (F : Float) : Type 0 where
  pub last : F.Num
  pub high : F.Num
  pub low : F.Num
  pub volume : F.Num
  pub bid : F.Num
  pub ask : F.Num

pub record OrderbookBase (F : Float) : Type 0 where
  pub price : F.Num
  pub amount : F.Num

pub record Orderbook (F : Float) : Type 0 where
  pub bids : List (OrderbookBase F)
  pub asks : List (OrderbookBase F)

pub record Balances (F : Float) : Type 0 where
  pub usd_reserved : F.Num
  pub btc_reserved : F.Num
  pub eur_reserved : F.Num
  pub xrp_reserved : F.Num
  pub usd_available : F.Num
  pub btc_available : F.Num
  pub eur_available : F.Num
  pub xrp_available : F.Num

module _ {F : Float} where
  unfoldable pub set_defaults : Client F → Client F
  set_defaults c = with_defaults (codes "Bitstamp") [] true [] true c

  unfoldable pub setup :
      (Text → Option Text) → Client F → ExchangeConfig → List ExchangeConfig → SetupResult F
  setup base64_decode c exch exchanges =
      setup_with base64_decode exch.client_id false none c exch exchanges

  -- The price that is set from the ticker.
  abbrev pub price_of : CurrencyPair → Ticker F → Price F
  price_of p tick = record (zero_price F) {
    pair = p;
    ask = tick.ask;
    bid = tick.bid;
    low = tick.low;
    last = tick.last;
    volume = tick.volume;
    high = tick.high;
  }

  unfoldable pub update_ticker :
      (Text → Option (Ticker F)) → Client F → Tickers F → CurrencyPair → Text → TickerUpdate F
  update_ticker request c tickers p asset_type =
      update_one c tickers p asset_type (price_of p) (request (pair p))

  unfoldable pub get_ticker_price :
      (Text → Option (Ticker F)) → Client F → Tickers F → CurrencyPair → Text → TickerUpdate F
  unfolding update_ticker
  get_ticker_price request c tickers p asset_type =
      price_or_update c tickers p asset_type (update_ticker request c tickers p asset_type)

  abbrev pub items_in : Orderbook F → Option (List (Item F) × List (Item F))
  items_in orderbook_new = some (
    map (λ x. item_of {F = F} x.amount x.price) orderbook_new.bids,
    map (λ x. item_of {F = F} x.amount x.price) orderbook_new.asks,
  )

  unfoldable pub update_orderbook :
      (Text → Option (Orderbook F)) → Client F → CurrencyPair → Text → ℕ → BookUpdate F
  update_orderbook request c p asset_type now =
      update_book c p asset_type now items_in (request (pair p))

  unfoldable pub get_orderbook_ex :
      (Text → Option (Orderbook F)) → Client F → CurrencyPair → Text → ℕ → BookUpdate F
  unfolding update_orderbook
  get_orderbook_ex request c p asset_type now =
      book_or_update c p asset_type (update_orderbook request c p asset_type now)

  abbrev pub currencies_of : Balances F → List (AccountCurrencyInfo F)
  currencies_of b =
      currency_info (codes "BTC") b.btc_available b.btc_reserved
      ∷ currency_info (codes "XRP") b.xrp_available b.xrp_reserved
      ∷ currency_info (codes "USD") b.usd_available b.usd_reserved
      ∷ currency_info (codes "EUR") b.eur_available b.eur_reserved
      ∷ []

  unfoldable pub get_exchange_account_info : Client F → Option (Balances F) → Reply (AccountInfo F)
  get_exchange_account_info c answer = info_of c currencies_of answer
