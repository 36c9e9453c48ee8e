-- ===== src/Orderbook/Examples.antt =====
-- Runs of the order books, and the theorems at concrete books.
use cryptofiend.GoMap.Nested.{entry}
use cryptofiend.GoMap.{lookup, lookup}
use cryptofiend.Text.{to_upper, to_lower, to_upper}
use cryptofiend.Prelude.{◌≡◌, refl, true, false, ◌&&◌, none, some, List, [], ◌∷◌, codes, text_eq}
use cryptofiend.Float.{whole}
use cryptofiend.Pair.{CurrencyPair, equal}
use cryptofiend.Orderbook.{
  Item, Base, Books, Orderbooks, ok, err, spot, zero_base, primary_currency_not_found,
  get_orderbook, process_orderbook, init,
}
use cryptofiend.Orderbook.Books.{
  stored, get_orderbook-process_orderbook, get_orderbook-process_other,
}

abbrev btc_usd : CurrencyPair
btc_usd = record { delimiter = []; first_currency = codes "BTC"; second_currency = codes "USD" }

abbrev btc_usd_lower : CurrencyPair
btc_usd_lower = record {
  delimiter = codes "-";
  first_currency = codes "btc";
  second_currency = codes "usd";
}

abbrev ltc_usd : CurrencyPair
ltc_usd = record { delimiter = []; first_currency = codes "LTC"; second_currency = codes "USD" }

abbrev items : List (Item whole)
items = record { amount = 2; price = 10 } ∷ record { amount = 3; price = 20 } ∷ []

abbrev book : Base whole
book = record (zero_base whole) { bids = items }

same_pair : equal btc_usd btc_usd_lower ≡ true
unfolding equal text_eq to_upper
same_pair = refl

empty_books : get_orderbook {F = whole} init btc_usd spot ≡ err primary_currency_not_found
unfolding get_orderbook init lookup
empty_books = refl

get_orderbook-process_orderbook_example :
    ((o' : Books whole) × (process_orderbook (some []) btc_usd book spot 7 ≡ some (some o'))
      × (get_orderbook (some o') btc_usd_lower spot ≡ ok (stored btc_usd book 7)))
    × (process_orderbook {F = whole} none btc_usd book spot 7 ≡ none)
get_orderbook-process_orderbook_example =
    get_orderbook-process_orderbook [] btc_usd btc_usd_lower book spot 7 same_pair

abbrev one_book : Orderbooks whole
one_book = some ((codes "ltc", (codes "usd", (spot, book) ∷ []) ∷ []) ∷ [])

read_one : get_orderbook one_book ltc_usd spot ≡ ok book
unfolding get_orderbook text_eq lookup to_lower entry
read_one = refl

other_pair : (equal btc_usd ltc_usd && text_eq spot spot) ≡ false
unfolding equal text_eq to_upper
other_pair = refl

get_orderbook-process_other_example :
    (o' : Orderbooks whole) × (process_orderbook one_book btc_usd book spot 7 ≡ some o')
    × (get_orderbook o' ltc_usd spot ≡ ok book)
get_orderbook-process_other_example =
    get_orderbook-process_other one_book btc_usd ltc_usd book book spot spot 7 other_pair read_one
