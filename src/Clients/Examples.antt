-- ===== src/Clients/Examples.antt =====
-- Clients of concrete exchanges, run on concrete answers, and the theorems at them.
use cryptofiend.Exchange.Formats.{format_exchange_currency, format_exchange_currency}
use cryptofiend.Clients.Bitstamp.{Orderbook}
use cryptofiend.Prelude.{
  ℕ, ◌≡◌, refl, true, false, Option, none, some, List, [], ◌∷◌, Text, codes, text_eq, All,
}
use cryptofiend.Float.{whole}
use cryptofiend.Pair.{
  display, invert, new_currency_pair_delimiter, display, display, CurrencyPair, pair,
}
use cryptofiend.Config.{ExchangeConfig, CurrencyPairFormatConfig, get_exchange_config}
use cryptofiend.Exchange.{Base, or_format, comma}
use cryptofiend.Exchange
use cryptofiend.Text.{to_upper, to_upper, to_upper, split}
use cryptofiend.GoMap.{lookup, GoMap}
use cryptofiend.Orderbook.{spot, zero_base, Item}
use cryptofiend.Orderbook.Books.{stored as book_stored}
use cryptofiend.Ticker.{
  second_currency_exists, second_currency_exists, Price, Tickers, zero_price, get_ticker, ok,
}
use cryptofiend.Ticker.View.{IsDistinct}
use cryptofiend.Ticker.Process.{stored}
use cryptofiend.Clients.{
  Client, reply, TickerUpdate, BookUpdate, update_one, update_all, ticker_reply, price_or_update,
  update_book, book_or_update, setup_with,
}
use cryptofiend.Clients.Starts.{IsConfigured, or_types, setup_starts}
use cryptofiend.Clients.Prices.{
  Update, process_updates, is_elsewhere, update_one-price_or_update, update_all_reads,
}
use cryptofiend.Clients.Books.{update_book_runs}
use cryptofiend.Clients.Blank.{okcoin_china_blank, poloniex_blank}
use cryptofiend.Clients.Unmade.{bitstamp_books_unmade}
use cryptofiend.Clients.Btcc
use cryptofiend.Clients.Okcoin
use cryptofiend.Clients.Poloniex
use cryptofiend.Clients.Bitstamp

abbrev no_format : CurrencyPairFormatConfig
no_format = record { uppercase = false; delimiter = []; separator = []; index = [] }

abbrev new_base : Base
new_base = record {
  name = [];
  enabled = false;
  authenticated_api_support = false;
  api_secret = [];
  api_key = [];
  client_id = [];
  base_currencies = [];
  available_pairs = [];
  enabled_pairs = [];
  asset_types = [];
  request_currency_pair_format = no_format;
  config_currency_pair_format = no_format;
}

abbrev new_client : Client whole
new_client = record {
  base = new_base;
  verbose = false;
  websocket = false;
  rest_polling_delay = 0;
  taker_fee = 0;
  maker_fee = 0;
  fee = 0;
  websocket_url = [];
  api_url = [];
  orderbooks = none;
}

abbrev underlined : CurrencyPairFormatConfig
underlined = record { uppercase = true; delimiter = codes "_"; separator = []; index = [] }

abbrev configured : Text → Option CurrencyPairFormatConfig → ExchangeConfig
configured name format = record {
  name = name;
  enabled = true;
  verbose = false;
  websocket = false;
  use_sandbox = true;
  rest_polling_delay = 10;
  authenticated_api_support = false;
  api_key = [];
  api_secret = [];
  client_id = [];
  available_pairs = codes "BTC_LTC,BTC_ETH";
  enabled_pairs = codes "BTC_LTC";
  base_currencies = codes "USD";
  asset_types = [];
  config_currency_pair_format = format;
  request_currency_pair_format = format;
}

abbrev no_decode : Text → Option Text
no_decode secret = none

abbrev btc_usd : CurrencyPair
btc_usd = record { delimiter = []; first_currency = codes "BTC"; second_currency = codes "USD" }

abbrev btc_eur : CurrencyPair
btc_eur = record { delimiter = []; first_currency = codes "BTC"; second_currency = codes "EUR" }

abbrev ltc_btc : CurrencyPair
ltc_btc = record {
  delimiter = codes "_";
  first_currency = codes "LTC";
  second_currency = codes "BTC";
}

abbrev tick : Btcc.Ticker whole
tick = record { high = 9; low = 5; buy = 6; sell = 7; last = 8; vol = 100 }

-- Another client's update of the pair, and an update of a pair with another first currency.
abbrev updates : List (Update whole)
updates =
    record { name = codes "BTCC"; pair = btc_usd; price = zero_price whole; type = spot }
    ∷ record { name = []; pair = ltc_btc; price = zero_price whole; type = spot }
    ∷ []

elsewhere : All (λ x. is_elsewhere [] btc_usd x ≡ true) updates
unfolding text_eq
elsewhere = (refl, (refl, tt))

update_one-price_or_update_example :
    (after : Tickers whole) × (later : Tickers whole) × (update_one new_client [] btc_usd spot
        (Btcc.price_of btc_usd)
        (some tick)
      ≡ some (after, reply (stored btc_usd (Btcc.price_of btc_usd tick))))
    × (process_updates after updates ≡ some later)
    × ((update : TickerUpdate whole)
        → price_or_update new_client later btc_usd spot update
          ≡ some (later, reply (stored btc_usd (Btcc.price_of btc_usd tick))))
unfolding Exchange.get_name
update_one-price_or_update_example =
    update_one-price_or_update new_client [] btc_usd spot (Btcc.price_of btc_usd) tick updates tt
      elsewhere

abbrev priced : CurrencyPair → Price whole
priced x = Btcc.price_of x tick

abbrev all_priced : CurrencyPair → Option (Option (Price whole))
all_priced x = some (some (priced x))

update_all_reads_example :
    (after : Tickers whole) × (update_all new_client [] btc_eur spot
        (btc_usd ∷ btc_eur ∷ [])
        all_priced
      ≡ some (after, ticker_reply (get_ticker after [] btc_eur spot)))
    × IsDistinct after
    × All (λ x. get_ticker after [] x spot ≡ ok (stored x (priced x))) (btc_usd ∷ btc_eur ∷ [])
    × ((q : CurrencyPair) (u : Text) (old : Price whole)
        → get_ticker {F = whole} [] [] q u ≡ ok old
        → get_ticker after [] q u ≡ ok old)
unfolding Exchange.get_name second_currency_exists text_eq
update_all_reads_example =
    update_all_reads new_client [] btc_eur spot (btc_usd ∷ btc_eur ∷ []) priced all_priced
      (refl, (refl, tt)) tt ((refl, tt), (tt, tt)) (refl, (refl, tt))

abbrev item : ℕ → ℕ → Item whole
item amount price = record { amount = amount; price = price }

abbrev with_books : Client whole
with_books = record new_client { orderbooks = some [] }

abbrev levels : Btcc.Orderbook whole
levels = record { bids = (5 ∷ 2 ∷ []) ∷ []; asks = (6 ∷ 3 ∷ []) ∷ [] }

update_book_runs_example :
    let book =
      book_stored btc_usd
        (record (zero_base whole) { bids = item 2 5 ∷ []; asks = item 3 6 ∷ [] })
        7 in
    (after : Client whole) × (update_book with_books btc_usd spot 7 Btcc.items_in (some levels)
      ≡ some (after, reply book))
    × ((update : BookUpdate whole) → book_or_update after btc_usd spot update ≡ update)
update_book_runs_example =
    update_book_runs with_books [] btc_usd spot 7 Btcc.items_in levels (item 2 5 ∷ [])
      (item 3 6 ∷ []) refl refl

abbrev some_config : List ExchangeConfig
some_config = configured [] (some underlined) ∷ []

abbrev china : Client whole
china = record new_client { api_url = Okcoin.okcoin_api_url_china }

abbrev ok_tick : Okcoin.OkcoinTicker whole
ok_tick = record { buy = 6; high = 9; last = 8; low = 5; sell = 7; vol = 100 }

okcoin_china_blank_example :
    (after : Tickers whole) × (Okcoin.update_ticker some_config
        (λ s. some ok_tick)
        (λ s t. none)
        china
        []
        btc_usd
        (codes "quarter")
      ≡ some (after, reply (zero_price whole)))
    × (get_ticker after [] btc_usd spot ≡ ok (stored btc_usd (Okcoin.price_of btc_usd ok_tick)))
unfolding Exchange.get_name text_eq format_exchange_currency get_exchange_config display to_upper
okcoin_china_blank_example =
    okcoin_china_blank some_config (λ s. some ok_tick) (λ s t. none) china [] btc_usd
      (codes "quarter") (codes "BTC_USD") ok_tick tt refl refl refl refl

abbrev poloniex : Client whole
poloniex = record new_client {
  base = record new_base {
    name = codes "Poloniex";
    enabled_pairs = codes "BTC_LTC" ∷ [];
    request_currency_pair_format = underlined;
    config_currency_pair_format = underlined;
  };
}

abbrev poloniex_config : ExchangeConfig
poloniex_config = configured (codes "Poloniex") (some underlined)

abbrev poloniex_answer : GoMap (Poloniex.PoloniexTicker whole)
poloniex_answer =
    (
      codes "BTC_LTC",
      record {
        last = 8;
        lowest_ask = 7;
        highest_bid = 6;
        base_volume = 100;
        high24_hr = 9;
        low24_hr = 5;
      },
    )
    ∷ []

poloniex_blank_example :
    (after : Tickers whole) × (Poloniex.update_ticker
        (poloniex_config ∷ [])
        (some poloniex_answer)
        poloniex
        []
        ltc_btc
        spot
      ≡ some (after, reply (stored ltc_btc (record (zero_price whole) { pair = ltc_btc }))))
unfolding get_exchange_config text_eq Exchange.get_name Poloniex.get_enabled_currencies
    Exchange.get_enabled_currencies new_currency_pair_delimiter split invert lookup
    Poloniex.currency_pair_to_symbol display to_upper
poloniex_blank_example =
    poloniex_blank (poloniex_config ∷ []) poloniex_answer poloniex poloniex_config [] ltc_btc spot
      tt refl refl refl refl

abbrev bitstamp_config : ExchangeConfig
bitstamp_config = configured (codes "Bitstamp") none

bitstamp_books_unmade_example :
    (c' : Client whole) × (after : List ExchangeConfig) × (Bitstamp.setup no_decode
        (Bitstamp.set_defaults new_client)
        bitstamp_config
        (bitstamp_config ∷ [])
      ≡ some (c', after))
    × ((request : Text → Option (Bitstamp.Orderbook whole)) (p : CurrencyPair) (t : Text) (now : ℕ)
        → (Bitstamp.get_orderbook_ex request c' p t now ≡ some (c', reply (zero_base whole)))
          × ((book : Bitstamp.Orderbook whole)
              → request (pair p) ≡ some book
              → Bitstamp.update_orderbook request c' p t now ≡ none))
unfolding get_exchange_config text_eq
bitstamp_books_unmade_example =
    bitstamp_books_unmade no_decode new_client bitstamp_config bitstamp_config
      (bitstamp_config ∷ []) refl refl refl

setup_starts_example :
    (get_exchange_config (poloniex_config ∷ []) (codes "Poloniex") ≡ none
      → setup_with no_decode [] false none poloniex poloniex_config (poloniex_config ∷ []) ≡ none)
    × ((known : ExchangeConfig)
        → get_exchange_config (poloniex_config ∷ []) (codes "Poloniex") ≡ some known
        → (c' : Client whole) × (after : List ExchangeConfig) × (setup_with no_decode [] false none
              poloniex poloniex_config
              (poloniex_config ∷ [])
            ≡ some (c', after))
          × IsConfigured poloniex_config c'
          × (c'.base.request_currency_pair_format
              ≡ or_format known.request_currency_pair_format underlined)
          × (c'.base.asset_types ≡ or_types known.asset_types [])
          × (c'.orderbooks ≡ none)
          × ((known' : ExchangeConfig) × (get_exchange_config after (codes "Poloniex")
                ≡ some known')
              × (known'.request_currency_pair_format ≡ some c'.base.request_currency_pair_format)))
setup_starts_example =
    setup_starts no_decode [] false none poloniex poloniex_config (poloniex_config ∷ []) refl
