-- ===== src/Exchange/Formats.antt =====
-- exchanges/exchange.go: how pairs are written for an exchange that is looked up by its name. A missing
-- format is a nil pointer, and reading a field of it a panic, `none`; an exchange that is not configured
-- reads as one with no format.
use cryptofiend.Prelude.{
  ◌≡◌, refl, Bool, false, not, Option, none, some, List, [], ◌∷◌, ◌++◌, map, Text, is_empty, ◌>>=◌,
}
use cryptofiend.Text.{join}
use cryptofiend.Pair.{CurrencyPair, CurrencyItem, display, format_pair}
use cryptofiend.Config.{CurrencyPairFormatConfig, ExchangeConfig, get_exchange_config}

-- The format behind the pointer of `exch, _ := cfg.GetExchangeConfig(exchName)`.
abbrev pub request_format : List ExchangeConfig → Text → Option CurrencyPairFormatConfig
request_format exchanges exch_name = do
  exch ← get_exchange_config exchanges exch_name
  exch.request_currency_pair_format

unfoldable pub get_exchange_format_currency_seperator : List ExchangeConfig → Text → Option Bool
get_exchange_format_currency_seperator exchanges exch_name =
    elim (get_exchange_config exchanges exch_name) [
      | none ↦ some false
      | some exch ↦ (do f ← exch.request_currency_pair_format; some (not (is_empty f.separator)))
    ]

unfoldable pub format_exchange_currency :
    List ExchangeConfig → Text → CurrencyPair → Option CurrencyItem
format_exchange_currency exchanges exch_name p = do
  f ← request_format exchanges exch_name
  some (display p f.delimiter f.uppercase)

unfoldable pub format_named_exchange_currency_pair :
    List ExchangeConfig → Text → CurrencyPair → Option CurrencyPair
format_named_exchange_currency_pair exchanges exch_name p = do
  f ← request_format exchanges exch_name
  some (format_pair p f.delimiter f.uppercase)

-- The loop over the pairs, with a separator behind each but the last.
unfoldable pub format_all :
    List ExchangeConfig → Text → ExchangeConfig → List CurrencyPair → Option CurrencyItem
unfolding format_exchange_currency
format_all exchanges exch_name exch [] = some []
format_all exchanges exch_name exch (p ∷ []) = format_exchange_currency exchanges exch_name p
format_all exchanges exch_name exch (p ∷ q ∷ r) = do
  item ← format_exchange_currency exchanges exch_name p
  f ← exch.request_currency_pair_format
  items ← format_all exchanges exch_name exch (q ∷ r)
  some (item ++ (f.separator ++ items))

-- `none` is the error that the exchange is not found, `some none` a panic.
unfoldable pub get_and_format_exchange_currencies :
    List ExchangeConfig → Text → List CurrencyPair → Option (Option CurrencyItem)
unfolding format_all
get_and_format_exchange_currencies exchanges exch_name pairs = do
  exch ← get_exchange_config exchanges exch_name
  some (format_all exchanges exch_name exch pairs)

-- `display_format` is the configuration's CurrencyPairFormat.
unfoldable pub format_currency :
    Option CurrencyPairFormatConfig → CurrencyPair → Option CurrencyItem
format_currency display_format p = do f ← display_format; some (display p f.delimiter f.uppercase)

format_exchange_currency-found :
    (exchanges : List ExchangeConfig) (exch_name : Text) (exch : ExchangeConfig)
    (f : CurrencyPairFormatConfig) (p : CurrencyPair)
    → get_exchange_config exchanges exch_name ≡ some exch
    → exch.request_currency_pair_format ≡ some f
    → format_exchange_currency exchanges exch_name p ≡ some (display p f.delimiter f.uppercase)
unfolding format_exchange_currency
format_exchange_currency-found exchanges exch_name exch f p h k = rw (h, k) refl

format_all-join :
    (exchanges : List ExchangeConfig) (exch_name : Text) (exch : ExchangeConfig)
    (f : CurrencyPairFormatConfig) (pairs : List CurrencyPair)
    → get_exchange_config exchanges exch_name ≡ some exch
    → exch.request_currency_pair_format ≡ some f
    → format_all exchanges exch_name exch pairs
      ≡ some (join (map (λ p. display p f.delimiter f.uppercase) pairs) f.separator)
unfolding format_all join
format_all-join exchanges exch_name exch f [] h k = refl
format_all-join exchanges exch_name exch f (p ∷ []) h k =
    format_exchange_currency-found exchanges exch_name exch f p h k
format_all-join exchanges exch_name exch f (p ∷ q ∷ r) h k =
    rw
      (
        format_exchange_currency-found exchanges exch_name exch f p h k,
        k,
        format_all-join exchanges exch_name exch f (q ∷ r) h k,
      )
      refl

-- For an exchange that is configured with a request format GetAndFormatExchangeCurrencies neither fails
-- nor panics: it returns the pairs, each displayed in that format, joined by the format's separator.
pub get_and_format_exchange_currencies-join :
    (exchanges : List ExchangeConfig) (exch_name : Text) (exch : ExchangeConfig)
    (f : CurrencyPairFormatConfig) (pairs : List CurrencyPair)
    → get_exchange_config exchanges exch_name ≡ some exch
    → exch.request_currency_pair_format ≡ some f
    → get_and_format_exchange_currencies exchanges exch_name pairs
      ≡ some (some (join (map (λ p. display p f.delimiter f.uppercase) pairs) f.separator))
unfolding get_and_format_exchange_currencies
get_and_format_exchange_currencies-join exchanges exch_name exch f pairs h k =
    rw (h, format_all-join exchanges exch_name exch f pairs h k) refl
