-- ===== src/Pair.antt =====
-- currency/pair/pair.go: currency items and currency pairs. A method whose slice or index can be out
-- of range returns an `Option`; `none` is the panic.
pub mod Equality
pub mod Parse
pub mod Examples
use cryptofiend.Prelude.{
  ℕ, Bool, ◌&&◌, Option, none, some, [], ◌++◌, leb, ◌==◌, if◌then◌else◌, Text, codes, text_eq,
  is_empty, length, get_elem?, take, drop, ◌>>=◌,
}
use cryptofiend.Text.{to_upper, to_lower, contains, index, split}

-- CurrencyItem is a string.
abbrev pub CurrencyItem : Type 0
CurrencyItem = Text

abbrev pub lower : CurrencyItem → CurrencyItem
lower c = to_lower c

abbrev pub upper : CurrencyItem → CurrencyItem
upper c = to_upper c

pub record CurrencyPair : Type 0 where
  pub delimiter : Text
  pub first_currency : CurrencyItem
  pub second_currency : CurrencyItem

unfoldable pub pair : CurrencyPair → CurrencyItem
pair c = c.first_currency ++ (c.delimiter ++ c.second_currency)

unfoldable pub display : CurrencyPair → Text → Bool → CurrencyItem
display c delimiter uppercase =
    let p =
      if is_empty delimiter
      then c.first_currency ++ c.second_currency
      else c.first_currency ++ (delimiter ++ c.second_currency) in
    if uppercase then upper p else lower p

unfoldable pub format_pair : CurrencyPair → Text → Bool → CurrencyPair
format_pair c delimiter uppercase =
    if uppercase
    then record {
      delimiter = delimiter;
      first_currency = upper c.first_currency;
      second_currency = upper c.second_currency;
    }
    else record {
      delimiter = delimiter;
      first_currency = lower c.first_currency;
      second_currency = lower c.second_currency;
    }

unfoldable pub equal : CurrencyPair → CurrencyPair → Bool
equal c p =
    text_eq (upper c.first_currency) (upper p.first_currency)
    && text_eq (upper c.second_currency) (upper p.second_currency)

unfoldable pub invert : CurrencyPair → CurrencyPair
invert c = record c { first_currency = c.second_currency; second_currency = c.first_currency }

unfoldable pub new_currency_pair : Text → Text → CurrencyPair
new_currency_pair first second = record {
  delimiter = [];
  first_currency = first;
  second_currency = second;
}

unfoldable pub new_currency_pair_delimiter : Text → Text → Option CurrencyPair
new_currency_pair_delimiter currency delimiter = do
  let result = split currency delimiter
  first ← get_elem? result 0
  second ← get_elem? result 1
  some (record { delimiter = delimiter; first_currency = first; second_currency = second })

-- `currency[0:i]` with `currency[i:]`
unfoldable pub cut_at : Text → ℕ → Option CurrencyPair
unfolding new_currency_pair
cut_at currency i =
    if leb i (length currency)
    then some (new_currency_pair (take i currency) (drop i currency))
    else none

unfoldable pub new_currency_pair_from_index : Text → Text → Option CurrencyPair
unfolding cut_at
new_currency_pair_from_index currency idx = do
  i ← index currency idx
  if i == 0 then cut_at currency (length idx) else cut_at currency i

abbrev pub underscore : Text
underscore = codes "_"

abbrev pub hyphen : Text
hyphen = codes "-"

unfoldable pub new_currency_pair_from_string : Text → Option CurrencyPair
unfolding new_currency_pair_delimiter cut_at
new_currency_pair_from_string currency =
    if contains currency underscore
    then new_currency_pair_delimiter currency underscore
    else if contains currency hyphen
    then new_currency_pair_delimiter currency hyphen
    else cut_at currency 3

unfoldable pub get_first_currency : CurrencyPair → CurrencyItem
get_first_currency c = c.first_currency

unfoldable pub get_second_currency : CurrencyPair → CurrencyItem
get_second_currency c = c.second_currency
