-- ===== src/Pair/Examples.antt =====
-- Runs of the pair functions, and the theorems at concrete pairs.
use cryptofiend.Text.{contains, split, contains, index, to_lower}
use cryptofiend.Prelude.{◌≡◌, refl, false, none, some, [], arith, codes}
use cryptofiend.Pair.{
  contains, CurrencyPair, pair, display, equal, invert, new_currency_pair_delimiter,
  new_currency_pair_from_index, new_currency_pair_from_string,
}
use cryptofiend.Pair.Equality.{equal-invert}
use cryptofiend.Pair.Parse.{new_currency_pair_delimiter-pair}

abbrev btc_usd : CurrencyPair
btc_usd = record {
  delimiter = codes "-";
  first_currency = codes "BTC";
  second_currency = codes "USD";
}

abbrev btc_usd_lower : CurrencyPair
btc_usd_lower = record {
  delimiter = codes "/";
  first_currency = codes "btc";
  second_currency = codes "usd";
}

displayed : display btc_usd (codes "/") false ≡ codes "btc/usd"
unfolding display to_lower
displayed = refl

from_index_run :
    new_currency_pair_from_index (codes "BTCUSD") (codes "BTC")
    ≡ some (record { delimiter = []; first_currency = codes "BTC"; second_currency = codes "USD" })
unfolding new_currency_pair_from_index index
from_index_run = refl

from_string_run :
    new_currency_pair_from_string (codes "btc-usd")
    ≡ some (record btc_usd_lower { delimiter = codes "-" })
unfolding new_currency_pair_from_string contains split
from_string_run = refl

from_string_panics : new_currency_pair_from_string (codes "us") ≡ none
unfolding new_currency_pair_from_string contains
from_string_panics = refl

new_currency_pair_delimiter-pair_example :
    new_currency_pair_delimiter (pair btc_usd) (codes "-") ≡ some btc_usd
new_currency_pair_delimiter-pair_example =
    new_currency_pair_delimiter-pair btc_usd b'-' refl (omega arith) (omega arith)

equal-invert_example :
    (invert (invert btc_usd) ≡ btc_usd)
    × (equal (invert btc_usd) (invert btc_usd_lower) ≡ equal btc_usd btc_usd_lower)
equal-invert_example = equal-invert btc_usd btc_usd_lower
