-- ===== src/Clients/Liqui.antt =====
-- exchanges/liqui/liqui.go, SetDefaults and Setup, and exchanges/liqui/liqui_wrapper.go: the client
-- of Liqui, but for its trading. A map is a list in the order in which it is looped over.
use cryptofiend.Prelude.{ℕ, true, false, Option, none, some, List, [], ◌∷◌, Text, codes, ◌>>=◌}
use cryptofiend.Float.{Float}
use cryptofiend.Clients.{
  Client, Reply, request_failed, TickerUpdate, BookUpdate, SetupResult, fraction, both_items_of,
  with_defaults, with_separator, setup_with, symbol_of, update_all, price_or_update, update_book,
  book_or_update, info_of,
}
use cryptofiend.Config.{ExchangeConfig}
use cryptofiend.Pair.{CurrencyPair}
use cryptofiend.Ticker.{Tickers, Price, zero_price}
use cryptofiend.Orderbook.{Item}
use cryptofiend.Exchange.Accounts.{AccountInfo, AccountCurrencyInfo}
use cryptofiend.GoMap.{GoMap, lookup}
use cryptofiend.Text.{to_upper}
use cryptofiend.Exchange.Formats.{get_and_format_exchange_currencies}
use cryptofiend.Exchange.{get_enabled_currencies, get_name}

pub record Ticker (F : Float) : Type 0 where
  pub low : F.Num
  pub vol_cur : F.Num
  pub last : F.Num
  pub buy : F.Num
  pub sell : F.Num

-- A missing key of the map reads as this.
abbrev pub or_zero : (F : Float) → Option (Ticker F) → Ticker F
or_zero F (some tick) = tick
or_zero F none = record {
  low = F.zero;
  vol_cur = F.zero;
  last = F.zero;
  buy = F.zero;
  sell = F.zero;
}

pub record Orderbook (F : Float) : Type 0 where
  pub asks : List (List F.Num)
  pub bids : List (List F.Num)

module _ {F : Float} where
  unfoldable pub set_defaults : Client F → Client F
  set_defaults c =
      record (with_separator (codes "-")
        (with_defaults (codes "Liqui") (codes "_") false (codes "_") true c)) {
          fee = fraction F 25 100;
          orderbooks = some [];
        }

  unfoldable pub setup :
      (Text → Option Text) → Client F → ExchangeConfig → List ExchangeConfig → SetupResult F
  setup base64_decode c exch exchanges = setup_with base64_decode [] false none c exch exchanges

  abbrev pub items_in : Orderbook F → Option (List (Item F) × List (Item F))
  items_in orderbook_new = both_items_of {F = F} orderbook_new.bids orderbook_new.asks

  unfoldable pub update_orderbook :
      List ExchangeConfig
      → (Text → Option (Orderbook F))
      → Client F
      → CurrencyPair
      → Text
      → ℕ
      → BookUpdate F
  update_orderbook exchanges request c p asset_type now = do
    symbol ← symbol_of exchanges c p
    update_book c p asset_type now items_in (request symbol)

  unfoldable pub get_orderbook_ex :
      List ExchangeConfig
      → (Text → Option (Orderbook F))
      → Client F
      → CurrencyPair
      → Text
      → ℕ
      → BookUpdate F
  unfolding update_orderbook
  get_orderbook_ex exchanges request c p asset_type now =
      book_or_update c p asset_type (update_orderbook exchanges request c p asset_type now)

  abbrev pub currencies_of : GoMap F.Num → List (AccountCurrencyInfo F)
  currencies_of [] = []
  currencies_of ((currency, available_amount) ∷ r) =
      record {
        currency_name = to_upper currency;
        total_value = available_amount;
        available = available_amount;
        hold = F.zero;
      }
      ∷ currencies_of r

  unfoldable pub get_exchange_account_info : Client F → Option (GoMap F.Num) → Reply (AccountInfo F)
  get_exchange_account_info c answer = info_of c currencies_of answer

  abbrev pub price_at : CurrencyPair → Ticker F → Price F
  price_at x tick = record (zero_price F) {
    pair = x;
    last = tick.last;
    ask = tick.sell;
    bid = tick.buy;
    low = tick.low;
    volume = tick.vol_cur;
  }

  -- What is done with the answer of the request.
  abbrev pub update_listed :
      List ExchangeConfig
      → Option (GoMap (Ticker F))
      → Client F
      → Tickers F
      → CurrencyPair
      → Text
      → List CurrencyPair
      → TickerUpdate F
  update_listed exchanges none c tickers p asset_type pairs = some (tickers, request_failed)
  update_listed exchanges (some result) c tickers p asset_type pairs =
      update_all c tickers p asset_type pairs (λ x. do
        currency ← symbol_of exchanges c x
        some (some (price_at x (or_zero F (lookup currency result)))))

  unfoldable pub update_ticker :
      List ExchangeConfig
      → (Text → Option (GoMap (Ticker F)))
      → Client F
      → Tickers F
      → CurrencyPair
      → Text
      → TickerUpdate F
  update_ticker exchanges request c tickers p asset_type = do
    pairs ← get_enabled_currencies c.base
    elim (get_and_format_exchange_currencies exchanges (get_name c.base) pairs) [
      | none ↦ some (tickers, request_failed)
      | some collated ↦ (do
        symbols ← collated
        update_listed exchanges (request symbols) c tickers p asset_type pairs)
    ]

  unfoldable pub get_ticker_price :
      List ExchangeConfig
      → (Text → Option (GoMap (Ticker F)))
      → Client F
      → Tickers F
      → CurrencyPair
      → Text
      → TickerUpdate F
  unfolding update_ticker
  get_ticker_price exchanges request c tickers p asset_type =
      price_or_update c tickers p asset_type
        (update_ticker exchanges request c tickers p asset_type)
