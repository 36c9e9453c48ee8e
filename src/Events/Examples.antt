-- ===== src/Events/Examples.antt =====
-- Runs of the events, and the theorems at concrete events.
use cryptofiend.Prelude.{
  ℕ, ◌-◌, ◌≡◌, refl, true, false, Option, none, some, List, [], ◌∷◌, ◌++◌, map, Text, codes,
  text_eq, if◌then◌else◌, any_of,
}
use cryptofiend.Float.{whole}
use cryptofiend.Text.{to_lower, split, to_upper, contains}
use cryptofiend.Pair.{CurrencyPair}
use cryptofiend.Config.{ExchangeConfig}
use cryptofiend.GoMap.{lookup}
use cryptofiend.GoMap.Nested.{entry}
use cryptofiend.Ticker.{Tickers, zero_price, get_ticker}
use cryptofiend.Sms.{get_contact_by_name, Base as Contacts}
use cryptofiend.Events.{
  is_valid_condition, is_valid_item, is_valid_exchange, Event, Added, added, add_event,
  remove_event, is_valid_event,
}
use cryptofiend.Events.Check.{Notice, to_string, check_events_round}
use cryptofiend.Events.Rounds.{checked, is_stuck}
use cryptofiend.Events.History.{History, start, grow, check_events_round_runs}
use cryptofiend.Events.Ids.{has_id, add_event-remove_event_clash}

abbrev anx : ExchangeConfig
anx = record {
  name = codes "ANX";
  enabled = true;
  verbose = false;
  websocket = false;
  use_sandbox = false;
  rest_polling_delay = 10;
  authenticated_api_support = false;
  api_key = [];
  api_secret = [];
  client_id = [];
  available_pairs = codes "BTCUSD";
  enabled_pairs = codes "BTCUSD";
  base_currencies = codes "USD";
  asset_types = codes "SPOT";
  config_currency_pair_format = none;
  request_currency_pair_format = none;
}

abbrev exchanges : List ExchangeConfig
exchanges = anx ∷ []

abbrev contacts : Contacts
contacts = record {
  username = [];
  password = [];
  send_from = [];
  contacts = record { name = codes "Bob"; number = codes "12345"; enabled = true } ∷ [];
}

abbrev sms : Option Contacts
sms = some contacts

abbrev btc_usd : CurrencyPair
btc_usd = record { delimiter = []; first_currency = codes "BTC"; second_currency = codes "USD" }

abbrev event : ℕ → Text → Event
event id action = record {
  id = id;
  exchange = codes "ANX";
  item = codes "PRICE";
  condition = codes ">,5";
  pair = btc_usd;
  asset = codes "SPOT";
  action = action;
  executed = false;
}

-- The value of a first digit.
abbrev first_digit : Text → ℕ
first_digit [] = 0
first_digit (c ∷ r) = c - b'0'

abbrev tickers : Tickers whole
tickers =
    record {
      exchange_name = codes "ANX";
      price =
          (
            codes "BTC",
            (codes "USD", (codes "SPOT", record (zero_price whole) { last = 7 }) ∷ []) ∷ [],
          )
          ∷ [];
    }
    ∷ []

abbrev add_it : List Event → Text → Option Added
add_it events action =
    add_event exchanges sms events (codes "ANX") (codes "PRICE") (codes ">,5") btc_usd
      (codes "SPOT") action

first_added : add_it [] (codes "SMS,Bob") ≡ some (added (event 0 (codes "SMS,Bob") ∷ []) 0)
unfolding add_event is_valid_event is_valid_exchange text_eq to_upper is_valid_item contains
    is_valid_condition split get_contact_by_name to_lower
first_added = refl

abbrev one_event : List Event
one_event = event 0 (codes "SMS,Bob") ∷ []

history : History whole first_digit one_event
history =
    grow start exchanges sms (codes "ANX") (codes "PRICE") (codes ">,5") btc_usd (codes "SPOT")
      (codes "SMS,Bob") one_event 0 first_added

check_events_round_runs_example :
    (notices : List Notice) × (check_events_round first_digit tickers sms one_event ≡ (
      if any_of (is_stuck whole first_digit tickers sms) one_event
      then none
      else some (map (checked whole first_digit tickers) one_event, notices)))
check_events_round_runs_example =
    check_events_round_runs whole first_digit one_event tickers sms history

abbrev three : List Event
three = event 0 (codes "ACTION_TEST") ∷ event 2 (codes "ACTION_TEST") ∷ []

accepted :
    is_valid_event exchanges sms (codes "ANX") (codes "PRICE") (codes ">,5") (codes "SMS,Bob")
    ≡ some none
unfolding is_valid_event is_valid_exchange text_eq to_upper is_valid_item contains
    is_valid_condition split get_contact_by_name to_lower
accepted = refl

add_event-remove_event_clash_example :
    let left = (remove_event (three ++ event 3 (codes "ACTION_TEST") ∷ []) 0).0 in
    (has_id 3 left ≡ true)
    × ((after : List Event) × (add_event exchanges sms left
            (codes "ANX")
            (codes "PRICE")
            (codes ">,5")
            btc_usd
            (codes "SPOT")
            (codes "SMS,Bob")
          ≡ some (added after 3)))
add_event-remove_event_clash_example =
    add_event-remove_event_clash exchanges sms three (event 3 (codes "ACTION_TEST")) 0 (codes "ANX")
      (codes "PRICE") (codes ">,5") btc_usd (codes "SPOT") (codes "SMS,Bob") refl refl accepted

condition_parts : contains (codes ">,5") (codes ",") ≡ true
unfolding contains
condition_parts = refl

-- With no SMS set up, the event, whose condition holds, makes the round panic.
no_sms_panics : check_events_round first_digit tickers none one_event ≡ none
unfolding check_events_round get_ticker entry lookup split contains text_eq to_string
no_sms_panics = refl
