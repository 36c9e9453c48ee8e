-- ===== src/Config/Examples.antt =====
-- Runs of the configuration's checks, and the theorems at concrete settings.
use cryptofiend.Prelude.{
  ◌<◌, ◌≡◌, refl, ◌⊎◌, true, false, none, some, List, [], ◌∷◌, if◌then◌else◌, Text, codes, text_eq,
  get_elem?, All,
}
use cryptofiend.Text.{contains, split}
use cryptofiend.Config.{
  ExchangeConfig, WebserverConfig, get_exchange_config, update_exchange_config,
  check_exchange_config_values, get_config_enabled_exchanges, check_exchange, atoi,
  check_webserver_config_values,
}
use cryptofiend.Config.Exchanges.{
  get-update_exchange_config, is_complete, check_exchange_config_values-is_complete,
}

abbrev anx : ExchangeConfig
anx = record {
  name = codes "ANX";
  enabled = true;
  verbose = false;
  websocket = false;
  use_sandbox = false;
  rest_polling_delay = 10;
  authenticated_api_support = true;
  api_key = codes "Key";
  api_secret = codes "Secret";
  client_id = [];
  available_pairs = codes "BTCUSD";
  enabled_pairs = codes "BTCUSD";
  base_currencies = codes "USD";
  asset_types = codes "SPOT";
  config_currency_pair_format = none;
  request_currency_pair_format = none;
}

abbrev itbit : ExchangeConfig
itbit = record anx { name = codes "ITBIT"; authenticated_api_support = false }

abbrev exchanges : List ExchangeConfig
exchanges = anx ∷ itbit ∷ []

abbrev server : WebserverConfig
server = record {
  enabled = true;
  admin_username = codes "admin";
  admin_password = codes "Password";
  listen_address = codes "localhost:9050";
  websocket_connection_limit = 0;
  websocket_allow_insecure_origin = false;
}

abbrev high_server : WebserverConfig
high_server = record server { listen_address = codes "localhost:65500" }

passed_check : (check_exchange_config_values (codes "BTC") exchanges).1 ≡ none
unfolding check_exchange_config_values check_exchange text_eq
passed_check = refl

server_passes : (check_webserver_config_values server).1 ≡ none
unfolding check_webserver_config_values split atoi contains
server_passes = refl

high_port_str : get_elem? (split high_server.listen_address (codes ":")) 1 ≡ some (codes "65500")
unfolding split
high_port_str = refl

high_port : atoi (codes "65500") ≡ some (false, 65500)
unfolding atoi
high_port = refl

get-update_exchange_config_example :
    ((get_exchange_config exchanges (codes "ITBIT") ≡ none)
      × (update_exchange_config exchanges itbit ≡ none))
    ⊎ ((after : List ExchangeConfig) × (update_exchange_config exchanges itbit ≡ some after)
        × ((name : Text)
            → get_exchange_config after name ≡ (
                if text_eq (codes "ITBIT") name
                then some itbit
                else get_exchange_config exchanges name)))
get-update_exchange_config_example = get-update_exchange_config exchanges itbit

check_exchange_config_values-is_complete_example :
    All (λ e. is_complete e ≡ true) (check_exchange_config_values (codes "BTC") exchanges).0
    × (0 < get_config_enabled_exchanges (check_exchange_config_values (codes "BTC") exchanges).0)
check_exchange_config_values-is_complete_example =
    check_exchange_config_values-is_complete (codes "BTC") exchanges passed_check
