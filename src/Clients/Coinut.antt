-- ===== src/Clients/Coinut.antt =====
-- exchanges/coinut/coinut.go, SetDefaults and Setup, and exchanges/coinut/coinut_wrapper.go: the
-- client of COINUT, whose map of instruments is a parameter; a missing one is the instrument 0.
use cryptofiend.Prelude.{ℕ, true, Option, none, some, List, [], map, Text, codes}
use cryptofiend.Float.{Float}
use cryptofiend.Clients.{
  Client, TickerUpdate, BookUpdate, SetupResult, fraction, item_of, with_defaults, setup_with,
  update_one, price_or_update, update_book, book_or_update,
}
use cryptofiend.Config.{ExchangeConfig}
use cryptofiend.Pair.{CurrencyPair, pair}
use cryptofiend.Ticker.{Tickers, Price, zero_price}
use cryptofiend.Orderbook.{Item}
use cryptofiend.GoMap.{GoMap, lookup}

pub record CoinutTicker (F : Float) : Type 0 where
  pub highest_buy : F.Num
  pub last : F.Num
  pub lowest_sell : F.Num
  pub volume : F.Num

pub record CoinutOrderbookBase (F : Float) : Type 0 where
  pub price : F.Num
  pub quantity : F.Num

pub record CoinutOrderbook (F : Float) : Type 0 where
  pub buy : List (CoinutOrderbookBase F)
  pub sell : List (CoinutOrderbookBase F)

abbrev pub instrument : GoMap ℕ → Text → ℕ
instrument instrument_map name = elim (lookup name instrument_map) [ none ↦ 0 | some id ↦ id ]

module _ {F : Float} where
  unfoldable pub set_defaults : Client F → Client F
  set_defaults c = record (with_defaults (codes "COINUT") [] true [] true c) {
    taker_fee = fraction F 1 10;
    maker_fee = F.zero;
  }

  unfoldable pub setup :
      (Text → Option Text) → Client F → ExchangeConfig → List ExchangeConfig → SetupResult F
  setup base64_decode c exch exchanges =
      setup_with base64_decode exch.client_id true none c exch exchanges

  abbrev pub price_of : CurrencyPair → CoinutTicker F → Price F
  price_of p tick = record (zero_price F) {
    pair = p;
    volume = tick.volume;
    last = tick.last;
    high = tick.highest_buy;
    low = tick.lowest_sell;
  }

  unfoldable pub update_ticker :
      GoMap ℕ
      → (ℕ → Option (CoinutTicker F))
      → Client F
      → Tickers F
      → CurrencyPair
      → Text
      → TickerUpdate F
  update_ticker instrument_map request c tickers p asset_type =
      update_one c tickers p asset_type (price_of p) (request (instrument instrument_map (pair p)))

  unfoldable pub get_ticker_price :
      GoMap ℕ
      → (ℕ → Option (CoinutTicker F))
      → Client F
      → Tickers F
      → CurrencyPair
      → Text
      → TickerUpdate F
  unfolding update_ticker
  get_ticker_price instrument_map request c tickers p asset_type =
      price_or_update c tickers p asset_type
        (update_ticker instrument_map request c tickers p asset_type)

  abbrev pub items_in : CoinutOrderbook F → Option (List (Item F) × List (Item F))
  items_in orderbook_new = some (
    map (λ x. item_of {F = F} x.quantity x.price) orderbook_new.buy,
    map (λ x. item_of {F = F} x.quantity x.price) orderbook_new.sell,
  )

  unfoldable pub update_orderbook :
      GoMap ℕ → (ℕ → Option (CoinutOrderbook F)) → Client F → CurrencyPair → Text → ℕ → BookUpdate F
  update_orderbook instrument_map request c p asset_type now =
      update_book c p asset_type now items_in (request (instrument instrument_map (pair p)))

  unfoldable pub get_orderbook_ex :
      GoMap ℕ → (ℕ → Option (CoinutOrderbook F)) → Client F → CurrencyPair → Text → ℕ → BookUpdate F
  unfolding update_orderbook
  get_orderbook_ex instrument_map request c p asset_type now =
      book_or_update c p asset_type (update_orderbook instrument_map request c p asset_type now)
