-- ===== src/Config.antt =====
-- config/config.go: the configuration, the checks that run when it is loaded, and the lookups of an
-- exchange. A pointer that may be nil is an `Option`; a warning that is only logged is left out.
pub mod Exchanges
pub mod Webserver
pub mod Examples
use cryptofiend.Prelude.{
  ℕ, suc, ◌+◌, ◌-◌, ◌*◌, ◌^◌, Bool, true, false, not, ◌&&◌, ◌||◌, Option, none, some, List, [], ◌∷◌,
  ltb, leb, ◌==◌, if◌then◌else◌, Text, codes, text_eq, is_empty, length, get_elem?, keep_if,
  find_first, ◌>>=◌,
}
use cryptofiend.Text.{contains, split}
use cryptofiend.Sms.{Contact}

pub record CurrencyPairFormatConfig : Type 0 where
  pub uppercase : Bool
  pub delimiter : Text
  pub separator : Text
  pub index : Text

pub record ExchangeConfig : Type 0 where
  pub name : Text
  pub enabled : Bool
  pub verbose : Bool
  pub websocket : Bool
  pub use_sandbox : Bool
  pub rest_polling_delay : ℕ
  pub authenticated_api_support : Bool
  pub api_key : Text
  pub api_secret : Text
  pub client_id : Text
  pub available_pairs : Text
  pub enabled_pairs : Text
  pub base_currencies : Text
  pub asset_types : Text
  pub config_currency_pair_format : Option CurrencyPairFormatConfig
  pub request_currency_pair_format : Option CurrencyPairFormatConfig

pub record WebserverConfig : Type 0 where
  pub enabled : Bool
  pub admin_username : Text
  pub admin_password : Text
  pub listen_address : Text
  -- a limit below 0 is treated like 0 wherever it is read, and is 0 here
  pub websocket_connection_limit : ℕ
  pub websocket_allow_insecure_origin : Bool

pub record SmsGlobalConfig : Type 0 where
  pub enabled : Bool
  pub username : Text
  pub password : Text
  pub contacts : List Contact

pub data ConfigError : Type 0 where
  cryptocurrencies_empty no_enabled_exchanges : ConfigError
  exchange_name_empty : ℕ → ConfigError
  available_pairs_empty enabled_pairs_empty base_currencies_empty : Text → ConfigError
  exchange_not_found : Text → ConfigError
  sms_default_or_empty_values sms_no_contacts : ConfigError
  webserver_credential_values_empty webserver_listen_address_invalid : ConfigError

abbrev pub is_named : Text → ExchangeConfig → Bool
is_named name e = text_eq e.name name

unfoldable pub get_config_enabled_exchanges : List ExchangeConfig → ℕ
get_config_enabled_exchanges [] = 0
get_config_enabled_exchanges (e ∷ r) =
    if e.enabled then suc (get_config_enabled_exchanges r) else get_config_enabled_exchanges r

unfoldable pub get_exchange_config : List ExchangeConfig → Text → Option ExchangeConfig
get_exchange_config exchanges name = find_first (is_named name) exchanges

-- The exchanges after the call; `none` is the error that the exchange is not found.
unfoldable pub update_exchange_config :
    List ExchangeConfig → ExchangeConfig → Option (List ExchangeConfig)
update_exchange_config [] e = none
update_exchange_config (x ∷ r) e =
    let rest = update_exchange_config r e in
    if is_named e.name x then some (e ∷ r) else (do r' ← rest; some (x ∷ r'))

-- A contact that counts: enabled, and neither blank nor the example of the default file.
abbrev pub is_good_contact : Contact → Bool
is_good_contact c =
    c.enabled
    && not (
        is_empty c.name
        || (is_empty c.number
            || (text_eq c.name (codes "Bob") && text_eq c.number (codes "12345"))))

unfoldable pub check_sms_global_config_values : SmsGlobalConfig → Option ConfigError
check_sms_global_config_values sms =
    if is_empty sms.username
      || (text_eq sms.username (codes "Username")
          || (is_empty sms.password || text_eq sms.password (codes "Password")))
    then some sms_default_or_empty_values
    else if length (keep_if is_good_contact sms.contacts) == 0
    then some sms_no_contacts
    else none

-- The API key or the secret is blank or the default.
abbrev pub has_default_keys : ExchangeConfig → Bool
has_default_keys e =
    is_empty e.api_key
    || (is_empty e.api_secret
        || (text_eq e.api_key (codes "Key") || text_eq e.api_secret (codes "Secret")))

abbrev pub needs_client_id : Text → Bool
needs_client_id name =
    text_eq name (codes "ITBIT")
    || (text_eq name (codes "Bitstamp")
        || (text_eq name (codes "COINUT") || text_eq name (codes "GDAX")))

abbrev pub has_default_client_id : ExchangeConfig → Bool
has_default_client_id e = is_empty e.client_id || text_eq e.client_id (codes "ClientID")

-- One round of the loop over the exchanges, for one that is enabled: an error that ends the check, or the
-- exchange with its authenticated support, and whether it is counted.
pub data Round : Type 0 where
  stop : ConfigError → Round
  pass : ExchangeConfig → Bool → Round

unfoldable pub check_exchange : ℕ → ExchangeConfig → Round
check_exchange i e =
    if is_empty e.name
    then stop (exchange_name_empty i)
    else if is_empty e.available_pairs
    then stop (available_pairs_empty e.name)
    else if is_empty e.enabled_pairs
    then stop (enabled_pairs_empty e.name)
    else if is_empty e.base_currencies
    then stop (base_currencies_empty e.name)
    else if e.authenticated_api_support
        && (has_default_keys e || (needs_client_id e.name && has_default_client_id e))
    then pass (record e { authenticated_api_support = false }) false
    else pass e true

-- The loop from the exchange `i` on, with the number counted so far.
unfoldable pub check_exchanges :
    ℕ → ℕ → List ExchangeConfig → List ExchangeConfig × Option ConfigError × ℕ
check_exchanges i exchanges [] = ([], none, exchanges)
check_exchanges i exchanges (e ∷ r) = elim e.enabled [
  | false ↦ let rest = check_exchanges (i + 1) exchanges r in (e ∷ rest.0, rest.1, rest.2)
  | true ↦ elim (check_exchange i e) [
    | stop error ↦ (e ∷ r, some error, exchanges)
    | pass e' counted ↦
        let rest = check_exchanges (i + 1) (if counted then exchanges + 1 else exchanges) r in
        (e' ∷ rest.0, rest.1, rest.2)
  ]
]

abbrev pub or_no_exchanges : Option ConfigError → ℕ → Option ConfigError
or_no_exchanges (some error) exchanges = some error
or_no_exchanges none exchanges = if exchanges == 0 then some no_enabled_exchanges else none

-- The exchanges after the check, and its error.
unfoldable pub check_exchange_config_values :
    Text → List ExchangeConfig → List ExchangeConfig × Option ConfigError
unfolding check_exchanges
check_exchange_config_values cryptocurrencies exchanges =
    let checked = check_exchanges 0 0 exchanges in
    if is_empty cryptocurrencies
    then (exchanges, some cryptocurrencies_empty)
    else (checked.0, or_no_exchanges checked.1 checked.2)

-- strconv.Atoi: an optional sign and decimal digits, within an int64. The value is its size and whether it
-- is negative.
unfoldable pub digits_value : ℕ → Text → Option ℕ
digits_value acc [] = some acc
digits_value acc (c ∷ s) =
    let rest = digits_value (acc * 10 + (c - b'0')) s in
    if leb b'0' c && leb c b'9' then rest else none

abbrev pub decimal : Text → Option ℕ
decimal [] = none
decimal (c ∷ s) = digits_value 0 (c ∷ s)

abbrev pub in_int64 : Bool → Option ℕ → Option (Bool × ℕ)
in_int64 negative none = none
in_int64 negative (some n) =
    if leb n (if negative then 2 ^ 63 else 2 ^ 63 - 1) then some (negative, n) else none

unfoldable pub atoi : Text → Option (Bool × ℕ)
unfolding digits_value
atoi [] = none
atoi (c ∷ s) =
    if c == b'-'
    then in_int64 true (decimal s)
    else if c == b'+'
    then in_int64 false (decimal s)
    else in_int64 false (decimal (c ∷ s))

-- `port < 1 || port > 65355`
abbrev pub is_bad_port : Bool × ℕ → Bool
is_bad_port (negative, n) = negative || (ltb n 1 || ltb 65355 n)

-- The settings after the check, and its error. The part behind the colon is there where a colon is.
unfoldable pub check_webserver_config_values :
    WebserverConfig → WebserverConfig × Option ConfigError
check_webserver_config_values w =
    if is_empty w.admin_username || is_empty w.admin_password
    then (w, some webserver_credential_values_empty)
    else if not (contains w.listen_address (codes ":"))
    then (w, some webserver_listen_address_invalid)
    else (elim (get_elem? (split w.listen_address (codes ":")) 1) [
      | none ↦ (w, some webserver_listen_address_invalid)
      | some port_str ↦ elim (atoi port_str) [
        | none ↦ (w, some webserver_listen_address_invalid)
        | some port ↦
            if is_bad_port port
            then (w, some webserver_listen_address_invalid)
            else if w.websocket_connection_limit == 0
            then (record w { websocket_connection_limit = 1 }, none)
            else (w, none)
      ]
    ])
