-- ===== src/Clients/Huobi.antt =====
-- exchanges/huobi/huobi.go, SetDefaults and Setup, and exchanges/huobi/huobi_wrapper.go: the client
-- of Huobi.
use cryptofiend.Prelude.{ℕ, true, false, Option, none, List, [], Text, codes}
use cryptofiend.Float.{Float}
use cryptofiend.Clients.{
  Client, TickerUpdate, BookUpdate, SetupResult, both_items_of, with_defaults, setup_with,
  update_one, price_or_update, update_book, book_or_update, blank_info,
}
use cryptofiend.Config.{ExchangeConfig}
use cryptofiend.Pair.{CurrencyPair, lower}
use cryptofiend.Ticker.{Tickers, Price, zero_price}
use cryptofiend.Orderbook.{Item}
use cryptofiend.Exchange.Accounts.{AccountInfo}

pub record HuobiTicker (F : Float) : Type 0 where
  pub high : F.Num
  pub low : F.Num
  pub last : F.Num
  pub vol : F.Num
  pub buy : F.Num
  pub sell : F.Num

pub record HuobiOrderbook (F : Float) : Type 0 where
  pub bids : List (List F.Num)
  pub asks : List (List F.Num)

module _ {F : Float} where
  unfoldable pub set_defaults : Client F → Client F
  set_defaults c = record (with_defaults (codes "Huobi") [] false [] true c) { fee = F.zero }

  unfoldable pub setup :
      (Text → Option Text) → Client F → ExchangeConfig → List ExchangeConfig → SetupResult F
  setup base64_decode c exch exchanges = setup_with base64_decode [] false none c exch exchanges

  -- The price that is set from the ticker.
  abbrev pub price_of : CurrencyPair → HuobiTicker F → Price F
  price_of p tick = record (zero_price F) {
    pair = p;
    ask = tick.sell;
    bid = tick.buy;
    low = tick.low;
    last = tick.last;
    volume = tick.vol;
    high = tick.high;
  }

  unfoldable pub update_ticker :
      (Text → Option (HuobiTicker F)) → Client F → Tickers F → CurrencyPair → Text → TickerUpdate F
  update_ticker request c tickers p asset_type =
      update_one c tickers p asset_type (price_of p) (request (lower p.first_currency))

  unfoldable pub get_ticker_price :
      (Text → Option (HuobiTicker F)) → Client F → Tickers F → CurrencyPair → Text → TickerUpdate F
  unfolding update_ticker
  get_ticker_price request c tickers p asset_type =
      price_or_update c tickers p asset_type (update_ticker request c tickers p asset_type)

  abbrev pub items_in : HuobiOrderbook F → Option (List (Item F) × List (Item F))
  items_in orderbook_new = both_items_of {F = F} orderbook_new.bids orderbook_new.asks

  unfoldable pub update_orderbook :
      (Text → Option (HuobiOrderbook F)) → Client F → CurrencyPair → Text → ℕ → BookUpdate F
  update_orderbook request c p asset_type now =
      update_book c p asset_type now items_in (request (lower p.first_currency))

  unfoldable pub get_orderbook_ex :
      (Text → Option (HuobiOrderbook F)) → Client F → CurrencyPair → Text → ℕ → BookUpdate F
  unfolding update_orderbook
  get_orderbook_ex request c p asset_type now =
      book_or_update c p asset_type (update_orderbook request c p asset_type now)

  unfoldable pub get_exchange_account_info : Client F → AccountInfo F
  get_exchange_account_info c = blank_info c
