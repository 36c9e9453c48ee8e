-- ===== src/Exchange.antt =====
-- exchanges/exchange.go: the base that the exchanges share: the currency pairs that it enables and
-- makes available, their formats, and its API keys. The configuration's list of exchanges is passed in
-- and out; log lines are left out.
pub mod Accounts
pub mod Formats
pub mod Pairs
pub mod Examples
use cryptofiend.Prelude.{
  Bool, true, false, not, ◌&&◌, ◌||◌, Option, none, some, List, [], ◌∷◌, ◌++◌, ltb, if◌then◌else◌,
  Text, codes, text_eq, is_empty, is_some, length, keep_if, any_of, ◌>>=◌,
}
use cryptofiend.Text.{split, join, to_upper}
use cryptofiend.Pair.{
  CurrencyPair, CurrencyItem, display, format_pair, cut_at, new_currency_pair_delimiter,
  new_currency_pair_from_index,
}
use cryptofiend.Config.{
  CurrencyPairFormatConfig, ExchangeConfig, get_exchange_config, update_exchange_config,
}

abbrev pub comma : Text
comma = codes ","

-- The fields of `Base` that the modelled methods read or write.
pub record Base : Type 0 where
  pub name : Text
  pub enabled : Bool
  pub authenticated_api_support : Bool
  pub api_secret : Text
  pub api_key : Text
  pub client_id : Text
  pub base_currencies : List Text
  pub available_pairs : List Text
  pub enabled_pairs : List Text
  pub asset_types : List Text
  pub request_currency_pair_format : CurrencyPairFormatConfig
  pub config_currency_pair_format : CurrencyPairFormatConfig

-- What a method leaves: the base, the configured exchanges, and whether it returned no error.
pub record Outcome : Type 0 where
  pub base : Base
  pub exchanges : List ExchangeConfig
  pub succeeds : Bool

-- `return cfg.UpdateExchangeConfig(exch)`
abbrev pub write_config : Base → List ExchangeConfig → ExchangeConfig → Outcome
write_config e exchanges exch = elim (update_exchange_config exchanges exch) [
  | none ↦ record { base = e; exchanges = exchanges; succeeds = false }
  | some exchanges' ↦ record { base = e; exchanges = exchanges'; succeeds = true }
]

unfoldable pub set_asset_types : Base → List ExchangeConfig → Outcome
set_asset_types e exchanges = elim (get_exchange_config exchanges e.name) [
  | none ↦ record { base = e; exchanges = exchanges; succeeds = false }
  | some exch ↦
      if is_empty exch.asset_types
      then write_config e exchanges (record exch { asset_types = join e.asset_types comma })
      else record {
        base = record e { asset_types = split exch.asset_types comma };
        exchanges = exchanges;
        succeeds = true;
      }
]

unfoldable pub get_exchange_asset_types : List ExchangeConfig → Text → Option (List Text)
get_exchange_asset_types exchanges exch_name = do
  exch ← get_exchange_config exchanges exch_name
  some (split exch.asset_types comma)

abbrev pub or_format :
    Option CurrencyPairFormatConfig → CurrencyPairFormatConfig → CurrencyPairFormatConfig
or_format none format = format
or_format (some f) format = f

unfoldable pub set_currency_pair_format : Base → List ExchangeConfig → Outcome
set_currency_pair_format e exchanges = elim (get_exchange_config exchanges e.name) [
  | none ↦ record { base = e; exchanges = exchanges; succeeds = false }
  | some exch ↦
      let request = or_format exch.request_currency_pair_format e.request_currency_pair_format in
      let config = or_format exch.config_currency_pair_format e.config_currency_pair_format in
      let e' : Base = record e {
        request_currency_pair_format = request;
        config_currency_pair_format = config;
      } in
      let exch' : ExchangeConfig = record exch {
        request_currency_pair_format = some request;
        config_currency_pair_format = some config;
      } in
      if is_some exch.request_currency_pair_format && is_some exch.config_currency_pair_format
      then record { base = e'; exchanges = exchanges; succeeds = true }
      else write_config e' exchanges exch'
]

unfoldable pub common_setup : Base → ExchangeConfig → Base
common_setup e exch = record e {
  base_currencies = split exch.base_currencies comma;
  available_pairs = split exch.available_pairs comma;
  enabled_pairs = split exch.enabled_pairs comma;
}

-- The body of both loops over pairs; `none` is a panic of a slice or an index.
unfoldable pub parse_pair : Base → Text → Option CurrencyPair
parse_pair e text =
    let request = e.request_currency_pair_format in
    let config = e.config_currency_pair_format in
    let undelimited =
      if not (is_empty config.index)
      then new_currency_pair_from_index text config.index
      else cut_at text 3 in
    if not (is_empty request.delimiter)
    then if not (is_empty config.delimiter)
      then if text_eq config.delimiter request.delimiter
        then new_currency_pair_delimiter text request.delimiter
        else (do
          p ← new_currency_pair_delimiter text config.delimiter
          some (record p { delimiter = codes "-" }))
      else undelimited
    else if not (is_empty config.delimiter)
    then new_currency_pair_delimiter text config.delimiter
    else undelimited

unfoldable pub parse_pairs : Base → List Text → Option (List CurrencyPair)
unfolding parse_pair
parse_pairs e [] = some []
parse_pairs e (text ∷ r) = do p ← parse_pair e text; ps ← parse_pairs e r; some (p ∷ ps)

unfoldable pub get_enabled_currencies : Base → Option (List CurrencyPair)
unfolding parse_pairs
get_enabled_currencies e = parse_pairs e e.enabled_pairs

unfoldable pub get_available_currencies : Base → Option (List CurrencyPair)
unfolding parse_pairs
get_available_currencies e = parse_pairs e e.available_pairs

unfoldable pub format_exchange_currency_pair : Base → CurrencyPair → CurrencyPair
format_exchange_currency_pair e p =
    format_pair p e.request_currency_pair_format.delimiter e.request_currency_pair_format.uppercase

unfoldable pub set_enabled : Base → Bool → Base
set_enabled e enabled = record e { enabled = enabled }

unfoldable pub is_enabled : Base → Bool
is_enabled e = e.enabled

unfoldable pub get_name : Base → Text
get_name e = e.name

unfoldable pub get_authenticated_api_support : Base → Bool
get_authenticated_api_support e = e.authenticated_api_support

-- `base64_decode` is the library's decoder; a failure decodes to nothing.
unfoldable pub set_api_keys : (Text → Option Text) → Base → Text → Text → Text → Bool → Base
set_api_keys base64_decode e api_key api_secret client_id b64_decode =
    let keyed : Base = record e { api_key = api_key; client_id = client_id } in
    if not e.authenticated_api_support
    then e
    else if b64_decode
    then (elim (base64_decode api_secret) [
      | none ↦ record keyed { authenticated_api_support = false; api_secret = [] }
      | some result ↦ record keyed { api_secret = result }
    ])
    else record keyed { api_secret = api_secret }

-- common.StringSliceDifference: what is in the first slice alone, then what is in the second alone.
abbrev pub is_in : List Text → Text → Bool
is_in l x = any_of (λ y. text_eq x y) l

unfoldable pub string_slice_difference : List Text → List Text → List Text
string_slice_difference slice1 slice2 =
    keep_if (λ x. not (is_in slice2 x)) slice1 ++ keep_if (λ x. not (is_in slice1 x)) slice2

-- The products as they are stored: joined, put in upper case and split again.
abbrev pub upper_products : List Text → List Text
upper_products exchange_products = split (to_upper (join exchange_products comma)) comma

unfoldable pub update_enabled_currencies : Base → List ExchangeConfig → List Text → Bool → Outcome
unfolding string_slice_difference
update_enabled_currencies e exchanges exchange_products force =
    let products = upper_products exchange_products in
    if force || ltb 0 (length (string_slice_difference e.enabled_pairs products))
    then (elim (get_exchange_config exchanges e.name) [
      | none ↦ record { base = e; exchanges = exchanges; succeeds = false }
      | some exch ↦
          write_config (record e { enabled_pairs = products }) exchanges
            (record exch { enabled_pairs = join products comma })
    ])
    else record { base = e; exchanges = exchanges; succeeds = true }

unfoldable pub update_available_currencies : Base → List ExchangeConfig → List Text → Bool → Outcome
unfolding string_slice_difference
update_available_currencies e exchanges exchange_products force =
    let products = upper_products exchange_products in
    if force || ltb 0 (length (string_slice_difference e.available_pairs products))
    then (elim (get_exchange_config exchanges e.name) [
      | none ↦ record { base = e; exchanges = exchanges; succeeds = false }
      | some exch ↦
          write_config (record e { available_pairs = products }) exchanges
            (record exch { available_pairs = join products comma })
    ])
    else record { base = e; exchanges = exchanges; succeeds = true }
