-- ===== src/Ticker/Examples.antt =====
-- Runs of the tickers, and the theorems at concrete lists.
use cryptofiend.GoMap.Nested.{entry}
use cryptofiend.GoMap.{lookup, lookup, lookup}
use cryptofiend.Prelude.{◌≡◌, refl, true, false, some, [], ◌∷◌, Text, codes, text_eq}
use cryptofiend.Float.{whole}
use cryptofiend.Pair.{CurrencyPair}
use cryptofiend.Ticker.{
  Price, Tickers, ok, err, zero_price, secondary_currency_not_found, get_ticker, process_ticker,
  second_currency_exists,
}
use cryptofiend.Ticker.View.{IsDistinct}
use cryptofiend.Ticker.Process.{
  stored, get_ticker-process_ticker, get_ticker-process_other, process_ticker_forgets,
}

abbrev spot : Text
spot = codes "SPOT"

abbrev btc_usd : CurrencyPair
btc_usd = record {
  delimiter = codes "-";
  first_currency = codes "BTC";
  second_currency = codes "USD";
}

abbrev btc_aud : CurrencyPair
btc_aud = record {
  delimiter = codes "-";
  first_currency = codes "BTC";
  second_currency = codes "AUD";
}

abbrev btc_eur : CurrencyPair
btc_eur = record {
  delimiter = codes "-";
  first_currency = codes "BTC";
  second_currency = codes "EUR";
}

abbrev price : Price whole
price = record (zero_price whole) { last = 7 }

abbrev anx : Text
anx = codes "ANX"

abbrev tickers : Tickers whole
tickers =
    record {
      price =
          (codes "BTC", (codes "USD", (spot, price) ∷ []) ∷ (codes "AUD", (spot, price) ∷ []) ∷ [])
          ∷ [];
      exchange_name = anx;
    }
    ∷ record { price = []; exchange_name = codes "Kraken" }
    ∷ []

tickers-IsDistinct : IsDistinct tickers
unfolding text_eq
tickers-IsDistinct = ((refl, tt), (tt, tt))

usd_there : second_currency_exists tickers anx btc_usd ≡ true
unfolding second_currency_exists text_eq lookup
usd_there = refl

eur_missing : second_currency_exists tickers anx btc_eur ≡ false
unfolding second_currency_exists text_eq lookup
eur_missing = refl

aud_read : get_ticker tickers anx btc_aud spot ≡ ok price
unfolding get_ticker text_eq lookup entry
aud_read = refl

currencies_differ : text_eq (codes "USD") (codes "AUD") ≡ false
unfolding text_eq
currencies_differ = refl

names_differ : text_eq anx (codes "Kraken") ≡ false
unfolding text_eq
names_differ = refl

get_ticker-process_ticker_example :
    (ts' : Tickers whole) × (process_ticker tickers anx btc_usd price spot ≡ some ts')
    × IsDistinct ts'
    × (get_ticker ts' anx btc_usd spot ≡ ok (stored btc_usd price))
get_ticker-process_ticker_example =
    get_ticker-process_ticker tickers anx btc_usd price spot tickers-IsDistinct

get_ticker-process_other_example :
    (ts' : Tickers whole) × (process_ticker tickers anx btc_usd price spot ≡ some ts')
    × (get_ticker ts' (codes "Kraken") btc_aud spot
        ≡ get_ticker tickers (codes "Kraken") btc_aud spot)
get_ticker-process_other_example =
    get_ticker-process_other tickers anx (codes "Kraken") btc_usd btc_aud price spot spot
      tickers-IsDistinct names_differ

process_ticker_forgets_example :
    (ts' : Tickers whole) × (process_ticker tickers anx btc_usd price spot ≡ some ts')
    × (get_ticker ts' anx btc_aud spot ≡ err secondary_currency_not_found)
process_ticker_forgets_example =
    process_ticker_forgets tickers anx btc_usd btc_aud price spot spot tickers-IsDistinct usd_there
      refl currencies_differ
