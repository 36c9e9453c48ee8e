-- ===== src/Clients/Localbitcoins.antt =====
-- exchanges/localbitcoins/localbitcoins.go, SetDefaults and Setup, and
-- exchanges/localbitcoins/localbitcoins_wrapper.go: the client of LocalBitcoins, but for its
-- trading.
use cryptofiend.Prelude.{ℕ, true, false, Option, none, some, List, [], ◌∷◌, map, Text, codes, ◌>>=◌}
use cryptofiend.Float.{Float}
use cryptofiend.Clients.{
  Client, Reply, reply, request_failed, TickerUpdate, BookUpdate, SetupResult, item_of,
  with_defaults, setup_with, update_all, update_book, book_or_update, info_of, currency_info,
}
use cryptofiend.Config.{ExchangeConfig}
use cryptofiend.Pair.{CurrencyPair}
use cryptofiend.Ticker.{Tickers, Price, zero_price, get_ticker, ok, err}
use cryptofiend.Orderbook.{Item}
use cryptofiend.Exchange.Accounts.{AccountInfo, AccountCurrencyInfo}
use cryptofiend.GoMap.{GoMap, lookup}
use cryptofiend.Exchange.{get_enabled_currencies, get_name}

pub record LocalBitcoinsTicker (F : Float) : Type 0 where
  pub volume_btc : F.Num
  pub rates_last : F.Num

-- A missing key of the map reads as this.
abbrev pub or_zero : (F : Float) → Option (LocalBitcoinsTicker F) → LocalBitcoinsTicker F
or_zero F (some tick) = tick
or_zero F none = record { volume_btc = F.zero; rates_last = F.zero }

pub record LocalBitcoinsOrderbookStructure (F : Float) : Type 0 where
  pub price : F.Num
  pub amount : F.Num

pub record LocalBitcoinsOrderbook (F : Float) : Type 0 where
  pub bids : List (LocalBitcoinsOrderbookStructure F)
  pub asks : List (LocalBitcoinsOrderbookStructure F)

module _ {F : Float} where
  unfoldable pub set_defaults : Client F → Client F
  set_defaults c = record (with_defaults (codes "LocalBitcoins") [] true [] true c) {
    orderbooks = some [];
  }

  unfoldable pub setup :
      (Text → Option Text) → Client F → ExchangeConfig → List ExchangeConfig → SetupResult F
  setup base64_decode c exch exchanges = setup_with base64_decode [] false none c exch exchanges

  abbrev pub items_in : LocalBitcoinsOrderbook F → Option (List (Item F) × List (Item F))
  items_in orderbook_new = some (
    map (λ x. item_of {F = F} x.amount x.price) orderbook_new.bids,
    map (λ x. item_of {F = F} x.amount x.price) orderbook_new.asks,
  )

  unfoldable pub update_orderbook :
      (Text → Option (LocalBitcoinsOrderbook F)) → Client F → CurrencyPair → Text → ℕ → BookUpdate F
  update_orderbook request c p asset_type now =
      update_book c p asset_type now items_in (request (p.second_currency))

  unfoldable pub get_orderbook_ex :
      (Text → Option (LocalBitcoinsOrderbook F)) → Client F → CurrencyPair → Text → ℕ → BookUpdate F
  unfolding update_orderbook
  get_orderbook_ex request c p asset_type now =
      book_or_update c p asset_type (update_orderbook request c p asset_type now)

  abbrev pub currencies_of : F.Num → List (AccountCurrencyInfo F)
  currencies_of balance = currency_info (codes "BTC") balance F.zero ∷ []

  unfoldable pub get_exchange_account_info : Client F → Option (F.Num) → Reply (AccountInfo F)
  get_exchange_account_info c answer = info_of c currencies_of answer

  abbrev pub price_at : CurrencyPair → LocalBitcoinsTicker F → Price F
  price_at x tick = record (zero_price F) {
    pair = x;
    last = tick.rates_last;
    volume = tick.volume_btc;
  }

  unfoldable pub update_ticker :
      Option (GoMap (LocalBitcoinsTicker F))
      → Client F
      → Tickers F
      → CurrencyPair
      → Text
      → TickerUpdate F
  update_ticker none c tickers p asset_type = some (tickers, request_failed)
  update_ticker (some tick) c tickers p asset_type = do
    pairs ← get_enabled_currencies c.base
    update_all c tickers p asset_type pairs
        (λ x. some (some (price_at x (or_zero F (lookup x.second_currency tick)))))

  unfoldable pub get_ticker_price :
      Option (GoMap (LocalBitcoinsTicker F))
      → Client F
      → Tickers F
      → CurrencyPair
      → Text
      → TickerUpdate F
  unfolding update_ticker
  get_ticker_price request c tickers p asset_type =
      elim (get_ticker tickers (get_name c.base) p asset_type) [
        | ok price ↦ update_ticker request c tickers p asset_type
        | err e ↦ some (tickers, reply (zero_price F))
      ]
