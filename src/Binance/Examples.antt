-- ===== src/Binance/Examples.antt =====
-- Runs of the client, and the theorems at concrete calls.
use cryptofiend.Prelude.{
  ℕ, ◌/◌, ◌≡◌, refl, true, false, Option, List, [], ◌∷◌, Text, codes, text_eq,
}
use cryptofiend.Float.{whole}
use cryptofiend.Config.{CurrencyPairFormatConfig}
use cryptofiend.GoMap.{lookup, insert}
use cryptofiend.Binance.{
  CurrencyPair, Binance, Limiter, MarketData, received, refused, or_zero, skip_request,
  fetch_market_data, no_market_data, depth_key, send_rate_limited_http_request,
}
use cryptofiend.Binance.{RequestError, currency_pair_to_symbol}
use cryptofiend.Orderbook.{Books}
use cryptofiend.Binance.Rates.{Call, IsSpaced, successes, successes-IsSpaced}
use cryptofiend.Binance.Caches.{fetch_market_data_forgets}
use cryptofiend.Binance.Orders.{convert_status, OrderStatus}

abbrev twenty : Text → ℕ
twenty key = 20

abbrev idle : Limiter
idle = record { rate_limits = []; ip_ban_start_time = 0 }

abbrev call : ℕ → Call ℕ
call now = record { key = codes "GETx"; now = now; answer = received now; default_value = 0 }

-- The call in between comes too early.
abbrev calls : List (Call ℕ)
calls = call 10_000 ∷ call 12_000 ∷ call 13_000 ∷ []

successes_run : successes twenty (codes "GETx") idle calls ≡ 10_000 ∷ 13_000 ∷ []
unfolding send_rate_limited_http_request skip_request lookup insert text_eq
successes_run = refl

successes-IsSpaced_example :
    IsSpaced
      (60_000 / 20)
      (or_zero (lookup (codes "GETx") idle.rate_limits))
      (successes twenty (codes "GETx") idle calls)
successes-IsSpaced_example = successes-IsSpaced twenty (codes "GETx") idle calls

abbrev banned : Limiter
banned = record { rate_limits = []; ip_ban_start_time = 9_000 }

abbrev plain : CurrencyPairFormatConfig
plain = record { uppercase = true; delimiter = []; separator = []; index = [] }

abbrev some_data : MarketData whole
some_data = record { bids = record { price = 7; quantity = 2 } ∷ []; asks = [] }

abbrev client : Binance whole
client = record {
  name = codes "Binance";
  enabled = true;
  request_currency_pair_format = plain;
  limiter = idle;
  currency_pairs = [];
  symbol_details_map = [];
  last_account_info = [];
  last_open_orders = [];
  last_market_data = (codes "BTCUSDT", some_data) ∷ [];
}

abbrev after_failure : Binance whole
after_failure =
    (fetch_market_data client (codes "BTCUSDT") 10_000 (refused false (no_market_data whole))).0

abbrev after_other : Binance whole
after_other = (fetch_market_data after_failure (codes "ETHUSDT") 11_000 (received some_data)).0

free : skip_request idle 20 depth_key 10_000 ≡ false
unfolding skip_request lookup
free = refl

different : text_eq (codes "ETHUSDT") (codes "BTCUSDT") ≡ false
unfolding text_eq
different = refl

used_up : skip_request after_other.limiter 20 depth_key 12_000 ≡ true
unfolding skip_request lookup insert fetch_market_data send_rate_limited_http_request text_eq
used_up = refl

fetch_market_data_forgets_example :
    (fetch_market_data after_other (codes "BTCUSDT") 12_000 (received some_data)).1
    ≡ no_market_data whole
fetch_market_data_forgets_example =
    fetch_market_data_forgets client (codes "BTCUSDT") (codes "ETHUSDT") 10_000 11_000 12_000
      (no_market_data whole) (received some_data) (received some_data) free different used_up

expired : convert_status (codes "EXPIRED") ≡ OrderStatus.aborted
unfolding convert_status text_eq
expired = refl

abbrev btc_usdt : CurrencyPair
btc_usdt = record { delimiter = []; first_currency = codes "BTC"; second_currency = codes "USDT" }

abbrev fetched : Binance whole × MarketData whole × Option RequestError
fetched =
    fetch_market_data client (currency_pair_to_symbol client btc_usdt) 10_000 (received some_data)
