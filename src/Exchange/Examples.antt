-- ===== src/Exchange/Examples.antt =====
-- Updates of pairs on concrete exchanges, and the theorems at them.
use cryptofiend.Prelude.{
  ◌≡◌, refl, true, false, none, some, List, [], ◌∷◌, map, arith, Text, codes, text_eq,
}
use cryptofiend.Config.{
  update_exchange_config, update_exchange_config, CurrencyPairFormatConfig, ExchangeConfig,
  get_exchange_config,
}
use cryptofiend.Exchange.{Base, is_in, update_enabled_currencies, update_available_currencies}
use cryptofiend.Pair.{CurrencyPair, display}
use cryptofiend.GoMap.{lookup, insert}
use cryptofiend.Float.{whole}
use cryptofiend.Exchange.Accounts.{
  AccountInfo, values_of, sums, all_currencies, get_collated_exchange_account_info_by_coin,
  get_collated_exchange_account_info_by_coin-sums,
}
use cryptofiend.Exchange.Pairs.{update_enabled_currencies_sets}
use cryptofiend.Text.{join, split, to_upper}

abbrev plain : CurrencyPairFormatConfig
plain = record { uppercase = true; delimiter = []; separator = []; index = [] }

abbrev anx : Base
anx = record {
  name = codes "ANX";
  enabled = true;
  authenticated_api_support = false;
  api_secret = [];
  api_key = [];
  client_id = [];
  base_currencies = codes "USD" ∷ [];
  available_pairs = codes "BTCUSD" ∷ [];
  enabled_pairs = codes "BTCUSD" ∷ [];
  asset_types = codes "SPOT" ∷ [];
  request_currency_pair_format = plain;
  config_currency_pair_format = plain;
}

abbrev anx_config : ExchangeConfig
anx_config = record {
  name = codes "ANX";
  enabled = true;
  verbose = false;
  websocket = false;
  use_sandbox = false;
  rest_polling_delay = 10;
  authenticated_api_support = false;
  api_key = [];
  api_secret = [];
  client_id = [];
  available_pairs = codes "BTCUSD";
  enabled_pairs = codes "BTCUSD";
  base_currencies = codes "USD";
  asset_types = codes "SPOT";
  config_currency_pair_format = none;
  request_currency_pair_format = none;
}

abbrev products : List Text
products = codes "ltcusd" ∷ codes "BTCUSD" ∷ []

enabled_succeeds : (update_enabled_currencies anx (anx_config ∷ []) products false).succeeds ≡ true
unfolding update_enabled_currencies split to_upper join text_eq get_exchange_config
    update_exchange_config
enabled_succeeds = refl

available_succeeds :
    (update_available_currencies anx (anx_config ∷ []) products false).succeeds ≡ true
unfolding update_available_currencies split to_upper join text_eq get_exchange_config
    update_exchange_config
available_succeeds = refl

update_enabled_currencies_sets_example :
    is_in
      (update_enabled_currencies anx (anx_config ∷ []) products false).base.enabled_pairs
      (codes "LTCUSD")
    ≡ is_in (map to_upper products) (codes "LTCUSD")
update_enabled_currencies_sets_example =
    update_enabled_currencies_sets anx (anx_config ∷ []) products false (codes "LTCUSD") (λ e. cc)
      (omega arith) enabled_succeeds

abbrev spaced : CurrencyPairFormatConfig
spaced = record { uppercase = true; delimiter = codes "_"; separator = codes "-"; index = [] }

abbrev wex_config : ExchangeConfig
wex_config = record anx_config { name = codes "WEX"; request_currency_pair_format = some spaced }

abbrev two_pairs : List CurrencyPair
two_pairs =
    record { delimiter = []; first_currency = codes "btc"; second_currency = codes "usd" }
    ∷ record { delimiter = []; first_currency = codes "ltc"; second_currency = codes "usd" }
    ∷ []

wex_found : get_exchange_config (anx_config ∷ wex_config ∷ []) (codes "WEX") ≡ some wex_config
unfolding get_exchange_config text_eq
wex_found = refl

joined_run :
    join (map (λ p. display p (codes "_") true) two_pairs) (codes "-") ≡ codes "BTC_USD-LTC_USD"
unfolding join display to_upper
joined_run = refl

abbrev accounts : List (AccountInfo whole)
accounts =
    record {
      exchange_name = codes "ANX";
      currencies =
          record { currency_name = codes "BTC"; total_value = 3; hold = 1; available = 2 } ∷ [];
    }
    ∷ record {
      exchange_name = codes "WEX";
      currencies =
          record { currency_name = codes "BTC"; total_value = 4; hold = 2; available = 2 } ∷ [];
    }
    ∷ []

collated_run :
    values_of (lookup (codes "BTC") (get_collated_exchange_account_info_by_coin accounts))
    ≡ some (7, 3)
unfolding get_collated_exchange_account_info_by_coin lookup insert text_eq
collated_run = refl

get_collated_exchange_account_info_by_coin-sums_example :
    values_of (lookup (codes "BTC") (get_collated_exchange_account_info_by_coin accounts))
    ≡ sums (codes "BTC") (all_currencies accounts) none
get_collated_exchange_account_info_by_coin-sums_example =
    get_collated_exchange_account_info_by_coin-sums accounts (codes "BTC")
