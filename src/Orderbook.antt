-- ===== src/Orderbook.antt =====
-- exchanges/orderbook/orderbook.go: the order books of an exchange, by currency pair and type. The
-- mutex makes each method one step on the map. `time.Now()` is the argument `now`.
pub mod Totals
pub mod Books
pub mod Examples
use cryptofiend.Prelude.{
  ℕ, Bool, true, false, not, List, [], ◌∷◌, Option, none, some, Text, codes, if◌then◌else◌, ◌>>=◌,
  is_some,
}
use cryptofiend.GoMap.{GoMap, lookup, insert}
use cryptofiend.GoMap.Nested.{Nested, or_nil, put, entry}
use cryptofiend.Float.{Float}
use cryptofiend.Pair.{CurrencyPair, CurrencyItem, format_pair, pair, lower}

abbrev pub spot : Text
spot = codes "SPOT"

-- The error texts; the second ends in the currencies of the pair.
pub data OrderbookError : Type 0 where
  primary_currency_not_found : OrderbookError
  secondary_currency_not_found : CurrencyItem → CurrencyItem → OrderbookError

pub data Result {ℓ} (A : Type ℓ) : Type ℓ where
  ok : A → Result A
  err : OrderbookError → Result A

pub record Item (F : Float) : Type 0 where
  pub amount : F.Num
  pub price : F.Num

pub record Base (F : Float) : Type 0 where
  pub pair : CurrencyPair
  pub currency_pair : Text
  pub bids : List (Item F)
  pub asks : List (Item F)
  pub last_updated : ℕ

abbrev pub zero_pair : CurrencyPair
zero_pair = record { delimiter = []; first_currency = []; second_currency = [] }

-- `Base{}`, which a missing key reads as too.
abbrev pub zero_base : (F : Float) → Base F
zero_base F = record {
  pair = zero_pair;
  currency_pair = [];
  bids = [];
  asks = [];
  last_updated = 0;
}

abbrev pub or_zero : (F : Float) → Option (Base F) → Base F
or_zero F none = zero_base F
or_zero F (some b) = b

-- The map that `Init` makes.
abbrev pub Books : Float → Type 0
Books F = Nested (Base F)

-- `none` is the nil map of the zero value: it is read as an empty one, and a write to it panics.
abbrev pub Orderbooks : Float → Type 0
Orderbooks F = Option (Books F)

module _ (F : Float) where
  -- The loop of both totals: the amount and the value so far.
  collate : List (Item F) → F.Num → F.Num → F.Num × F.Num
  collate [] amount_collated total = (amount_collated, total)
  collate (x ∷ xs) amount_collated total =
      collate xs (F.add amount_collated x.amount) (F.add total (F.mul x.amount x.price))

  unfoldable pub calculate_total_bids : Base F → F.Num × F.Num
  unfolding collate
  calculate_total_bids o = collate o.bids F.zero F.zero

  unfoldable pub calculate_total_asks : Base F → F.Num × F.Num
  unfolding collate
  calculate_total_asks o = collate o.asks F.zero F.zero

  unfoldable pub update : Base F → List (Item F) → List (Item F) → ℕ → Base F
  update o bids asks now = record o { bids = bids; asks = asks; last_updated = now }

unfoldable pub format_currency_pair : CurrencyPair → CurrencyPair
unfolding format_pair
format_currency_pair p = format_pair p (codes "/") false

unfoldable pub format_currency : CurrencyItem → CurrencyItem
format_currency c = lower c

module _ {F : Float} where
  unfoldable pub first_currency_exists : Orderbooks F → CurrencyItem → Bool
  unfolding format_currency
  first_currency_exists o c = is_some (lookup (format_currency c) (or_nil o))

  unfoldable pub second_currency_exists : Orderbooks F → CurrencyPair → Bool
  unfolding format_currency_pair
  second_currency_exists o p =
      let fp = format_currency_pair p in
      if is_some (lookup fp.first_currency (or_nil o))
      then is_some (lookup fp.second_currency (or_nil (lookup fp.first_currency (or_nil o))))
      else false

  unfoldable pub get_orderbook : Orderbooks F → CurrencyPair → Text → Result (Base F)
  unfolding first_currency_exists second_currency_exists format_currency_pair
  get_orderbook o p orderbook_type =
      let fp = format_currency_pair p in
      if not (first_currency_exists o fp.first_currency)
      then err primary_currency_not_found
      else if not (second_currency_exists o fp)
      then err (secondary_currency_not_found fp.first_currency fp.second_currency)
      else ok (or_zero F (entry fp.first_currency fp.second_currency orderbook_type (or_nil o)))

  -- A write to the map of a key that is missing is a write to a nil map, and panics; so does the last
  -- write of all where the books are not made.
  unfoldable pub process_orderbook :
      Orderbooks F → CurrencyPair → Base F → Text → ℕ → Option (Orderbooks F)
  unfolding first_currency_exists second_currency_exists format_currency_pair
  process_orderbook o p orderbook_new orderbook_type now =
      let fp = format_currency_pair p in
      let new : Base F = record orderbook_new { currency_pair = pair fp; last_updated = now } in
      if first_currency_exists o fp.first_currency
      then if not (second_currency_exists o fp)
        then (do
          books ← o
          seconds ← lookup fp.first_currency books
          some (
              some (
                insert fp.first_currency
                  (insert fp.second_currency (insert orderbook_type new []) seconds) books)))
        else (do
          books ← o
          seconds ← lookup fp.first_currency books
          types ← lookup fp.second_currency seconds
          some (
              some (
                insert fp.first_currency
                  (insert fp.second_currency (insert orderbook_type new types) seconds) books)))
      else (do
        books ← o
        some (
            some (
              insert fp.first_currency (insert fp.second_currency (insert orderbook_type new []) [])
                books)))

  -- `Init`
  unfoldable pub init : Orderbooks F
  init = some []
