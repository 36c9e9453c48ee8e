-- ===== src/Clients/Btcmarkets.antt =====
-- exchanges/btcmarkets/btcmarkets.go, SetDefaults and Setup, and
-- exchanges/btcmarkets/btcmarkets_wrapper.go: the client of BTC Markets.
use cryptofiend.Prelude.{ℕ, true, Option, none, List, [], map, Text, codes}
use cryptofiend.Float.{Float}
use cryptofiend.Clients.{
  Client, Reply, TickerUpdate, BookUpdate, SetupResult, fraction, both_items_of, with_defaults,
  setup_with, update_one, price_or_update, update_book, book_or_update, info_of, currency_info,
}
use cryptofiend.Config.{ExchangeConfig}
use cryptofiend.Pair.{CurrencyPair}
use cryptofiend.Ticker.{Tickers, Price, zero_price}
use cryptofiend.Orderbook.{Item}
use cryptofiend.Exchange.Accounts.{AccountInfo, AccountCurrencyInfo}

pub record Ticker (F : Float) : Type 0 where
  pub best_bid : F.Num
  pub best_ask : F.Num
  pub last_price : F.Num

pub record Orderbook (F : Float) : Type 0 where
  pub bids : List (List F.Num)
  pub asks : List (List F.Num)

pub record AccountBalance (F : Float) : Type 0 where
  pub balance : F.Num
  pub pending_funds : F.Num
  pub currency : Text

module _ {F : Float} where
  unfoldable pub set_defaults : Client F → Client F
  set_defaults c = record (with_defaults (codes "BTC Markets") [] true [] true c) {
    fee = fraction F 85 100;
  }

  unfoldable pub setup :
      (Text → Option Text) → Client F → ExchangeConfig → List ExchangeConfig → SetupResult F
  setup base64_decode c exch exchanges = setup_with base64_decode [] true none c exch exchanges

  -- The price that is set from the ticker.
  abbrev pub price_of : CurrencyPair → Ticker F → Price F
  price_of p tick = record (zero_price F) {
    pair = p;
    ask = tick.best_ask;
    bid = tick.best_bid;
    last = tick.last_price;
  }

  unfoldable pub update_ticker :
      (Text → Option (Ticker F)) → Client F → Tickers F → CurrencyPair → Text → TickerUpdate F
  update_ticker request c tickers p asset_type =
      update_one c tickers p asset_type (price_of p) (request (p.first_currency))

  unfoldable pub get_ticker_price :
      (Text → Option (Ticker F)) → Client F → Tickers F → CurrencyPair → Text → TickerUpdate F
  unfolding update_ticker
  get_ticker_price request c tickers p asset_type =
      price_or_update c tickers p asset_type (update_ticker request c tickers p asset_type)

  abbrev pub items_in : Orderbook F → Option (List (Item F) × List (Item F))
  items_in orderbook_new = both_items_of {F = F} orderbook_new.bids orderbook_new.asks

  unfoldable pub update_orderbook :
      (Text → Option (Orderbook F)) → Client F → CurrencyPair → Text → ℕ → BookUpdate F
  update_orderbook request c p asset_type now =
      update_book c p asset_type now items_in (request (p.first_currency))

  unfoldable pub get_orderbook_ex :
      (Text → Option (Orderbook F)) → Client F → CurrencyPair → Text → ℕ → BookUpdate F
  unfolding update_orderbook
  get_orderbook_ex request c p asset_type now =
      book_or_update c p asset_type (update_orderbook request c p asset_type now)

  abbrev pub currencies_of : List (AccountBalance F) → List (AccountCurrencyInfo F)
  currencies_of balances =
      map (λ (b : AccountBalance F). currency_info b.currency b.balance b.pending_funds) balances

  unfoldable pub get_exchange_account_info :
      Client F → Option (List (AccountBalance F)) → Reply (AccountInfo F)
  get_exchange_account_info c answer = info_of c currencies_of answer
