-- ===== src/Binance.antt =====
-- exchanges/binance/binance.go and binance_wrapper.go: the client of one exchange, with its limit on the
-- rate of requests and what it keeps for when a request is not sent. Times are in milliseconds. What the
-- exchange answers to a request is an argument.
pub mod Limits
pub mod Orders
pub mod Books
pub mod Update
pub mod Rates
pub mod Caches
pub mod Examples
use cryptofiend.Prelude.{
  ℕ, ◌+◌, ◌/◌, Bool, not, ◌&&◌, ◌||◌, Option, none, some, List, [], ltb, ◌==◌, if◌then◌else◌, Text,
  codes, is_some, ◌>>=◌,
}
use cryptofiend.GoMap.{GoMap, lookup, insert}
use cryptofiend.Float.{Float}
use cryptofiend.Pair.{CurrencyPair, CurrencyItem, display, format_pair}
use cryptofiend.Config.{CurrencyPairFormatConfig}

-- `rateLimits`, by method and path, and `ipBanStartTime`.
pub record Limiter : Type 0 where
  pub rate_limits : GoMap ℕ
  pub ip_ban_start_time : ℕ

-- The answer to a request that is sent: a result, or an error, with whether its code is that for too many
-- requests, and what the result is left as.
pub data Answer {ℓ} (R : Type ℓ) : Type ℓ where
  received : R → Answer R
  refused : Bool → R → Answer R

pub data RequestError : Type 0 where
  rate_limited failed : RequestError

abbrev pub or_zero : Option ℕ → ℕ
or_zero none = 0
or_zero (some t) = t

-- Whether the request is not sent: for a ban of less than 5 minutes ago, or for a request with the same
-- method and path less than the delay ago.
unfoldable pub skip_request : Limiter → ℕ → Text → ℕ → Bool
skip_request s requests_per_min key now =
    (not (s.ip_ban_start_time == 0) && ltb now (s.ip_ban_start_time + 300_000))
    || ltb now (or_zero (lookup key s.rate_limits) + 60_000 / requests_per_min)

-- `key` is `method+path`.
unfoldable pub send_rate_limited_http_request {ℓ} :
    {R : Type ℓ} → Limiter → ℕ → Text → ℕ → Answer R → R → Limiter × R × Option RequestError
unfolding skip_request
send_rate_limited_http_request s requests_per_min key now answer default_value =
    if skip_request s requests_per_min key now
    then (s, default_value, some rate_limited)
    else (elim answer [
      | received result ↦ (
        record s { ip_ban_start_time = 0; rate_limits = insert key now s.rate_limits },
        result,
        none,
      )
      | refused too_many result ↦
          if too_many
          then (record s { ip_ban_start_time = now }, default_value, some rate_limited)
          else (s, result, some failed)
    ])

pub record Order (F : Float) : Type 0 where
  pub symbol : Text
  pub order_id : ℕ
  pub price : F.Num
  pub orig_qty : F.Num
  pub executed_qty : F.Num
  pub status : Text
  pub type : Text
  pub side : Text
  pub time : ℕ

pub record DepthItem (F : Float) : Type 0 where
  pub price : F.Num
  pub quantity : F.Num

pub record MarketData (F : Float) : Type 0 where
  pub bids : List (DepthItem F)
  pub asks : List (DepthItem F)

pub record Balance (F : Float) : Type 0 where
  pub asset : Text
  pub free : F.Num
  pub locked : F.Num

pub record SymbolDetails (F : Float) : Type 0 where
  pub price_decimal_places : ℕ
  pub amount_decimal_places : ℕ
  pub min_amount : F.Num
  pub min_total : F.Num

-- The fields that the modelled methods use; an account's balances are all that is read of it.
pub record Binance (F : Float) : Type 0 where
  pub name : Text
  pub enabled : Bool
  pub request_currency_pair_format : CurrencyPairFormatConfig
  pub limiter : Limiter
  pub currency_pairs : GoMap CurrencyPair
  pub symbol_details_map : GoMap (SymbolDetails F)
  pub last_account_info : List (Balance F)
  pub last_open_orders : GoMap (List (Order F))
  pub last_market_data : GoMap (MarketData F)

abbrev pub account_key : Text
account_key = codes "GETapi/v3/account"

abbrev pub open_orders_key : Text
open_orders_key = codes "GETapi/v3/openOrders"

abbrev pub depth_key : Text
depth_key = codes "GETapi/v1/depth"

-- `MarketData{}`
abbrev pub no_market_data : (F : Float) → MarketData F
no_market_data F = record { bids = []; asks = [] }

abbrev pub or_empty : (F : Float) → Option (MarketData F) → MarketData F
or_empty F none = no_market_data F
or_empty F (some m) = m

abbrev pub or_none {ℓ} : {A : Type ℓ} → Option (List A) → List A
or_none none = []
or_none (some l) = l

module _ {F : Float} where
  unfoldable pub currency_pair_to_symbol : Binance F → CurrencyPair → Text
  currency_pair_to_symbol b p =
      display p b.request_currency_pair_format.delimiter b.request_currency_pair_format.uppercase

  -- `none` is the error that no pair is found.
  unfoldable pub symbol_to_currency_pair : Binance F → Text → Option CurrencyPair
  symbol_to_currency_pair b symbol = do
    p ← lookup symbol b.currency_pairs
    some (
        format_pair p b.request_currency_pair_format.delimiter
          b.request_currency_pair_format.uppercase)

  unfoldable pub fetch_account_info :
      Binance F → ℕ → Answer (List (Balance F)) → Binance F × List (Balance F) × Option RequestError
  fetch_account_info b now answer =
      let (limiter, response, error) =
        send_rate_limited_http_request b.limiter 20 account_key now answer b.last_account_info in
      if is_some error
      then (record b { limiter = limiter }, response, error)
      else (record b { limiter = limiter; last_account_info = response }, response, none)

  unfoldable pub fetch_open_orders :
      Binance F
      → Text
      → ℕ
      → Answer (List (Order F))
      → Binance F × List (Order F) × Option RequestError
  fetch_open_orders b symbol now answer =
      let (limiter, response, error) =
        send_rate_limited_http_request b.limiter 10 open_orders_key now answer
          (or_none (lookup symbol b.last_open_orders)) in
      if is_some error then (record b { limiter = limiter }, response, error) else (
        record b {
          limiter = limiter;
          last_open_orders = insert symbol response b.last_open_orders;
        },
        response,
        none,
      )

  -- The response is kept, whether or not there was an error.
  unfoldable pub fetch_market_data :
      Binance F → Text → ℕ → Answer (MarketData F) → Binance F × MarketData F × Option RequestError
  fetch_market_data b symbol now answer =
      let (limiter, response, error) =
        send_rate_limited_http_request b.limiter 20 depth_key now answer
          (or_empty F (lookup symbol b.last_market_data)) in
      (
        record b {
          limiter = limiter;
          last_market_data = insert symbol response b.last_market_data;
        },
        response,
        error,
      )
