-- ===== src/Binance/Orders.antt =====
-- exchanges/binance/binance_wrapper.go: the orders of the account, in the terms that all exchanges share.
use cryptofiend.Prelude.{
  ℕ, ◌+◌, ◌/◌, Bool, Option, none, some, List, [], ◌∷◌, ◌++◌, map, ◌==◌, if◌then◌else◌, Text, codes,
  text_eq, length, any_of,
}
use cryptofiend.Text.{to_lower}
use cryptofiend.Float.{Float}
use cryptofiend.Pair.{CurrencyPair}
use cryptofiend.Binance.{
  Binance, Answer, RequestError, rate_limited, failed, currency_pair_to_symbol,
  symbol_to_currency_pair, fetch_open_orders,
}
use cryptofiend.Binance.{Order as BinanceOrder}

pub data OrderStatus : Type 0 where
  active filled aborted unknown : OrderStatus

-- The exchange's Order; a type that is not set is empty.
pub record Order (F : Float) : Type 0 where
  pub currency_pair : CurrencyPair
  pub type : Text
  pub side : Text
  pub amount : F.Num
  pub filled_amount : F.Num
  pub remaining_amount : F.Num
  pub rate : F.Num
  pub created_at : ℕ
  pub status : OrderStatus
  pub order_id : Text

abbrev pub is_any : List Text → Text → Bool
is_any names status = any_of (text_eq status) names

-- The switch over the status.
unfoldable pub convert_status : Text → OrderStatus
convert_status status =
    if is_any (codes "CANCELED" ∷ codes "PENDING_CANCEL" ∷ codes "EXPIRED" ∷ codes "REJECTED" ∷ [])
      status
    then aborted
    else if is_any (codes "FILLED" ∷ []) status
    then filled
    else if is_any (codes "NEW" ∷ codes "PARTIALLY_FILLED" ∷ []) status
    then active
    else unknown

abbrev pub zero_pair : CurrencyPair
zero_pair = record { delimiter = []; first_currency = []; second_currency = [] }

abbrev pub or_zero_pair : Option CurrencyPair → CurrencyPair
or_zero_pair none = zero_pair
or_zero_pair (some p) = p

-- `decimal_sub` is the difference of the library's decimals, `format_int` strconv.FormatInt in base 10.
module _ {F : Float} (decimal_sub : F.Num → F.Num → F.Num) (format_int : ℕ → Text) where
  unfoldable pub convert_order_to_exchange_order : Binance F → BinanceOrder F → Order F
  unfolding convert_status
  convert_order_to_exchange_order b order =
      let remaining = decimal_sub order.orig_qty order.executed_qty in
      record {
        currency_pair = or_zero_pair (symbol_to_currency_pair b order.symbol);
        type = if text_eq order.type (codes "LIMIT") then codes "exchange limit" else [];
        side = to_lower order.side;
        amount = order.orig_qty;
        filled_amount = order.executed_qty;
        remaining_amount = remaining;
        rate = order.price;
        created_at = order.time / 1000;
        status = if F.eq remaining F.zero then filled else convert_status order.status;
        order_id = format_int order.order_id;
      }

  -- The loop over the pairs, with the time and the answer for each, and what it has so far: the orders and
  -- the number of pairs that were limited. `none` is an error that ends it.
  abbrev pub orders_of_pairs :
      Binance F
      → List (CurrencyPair × ℕ × Answer (List (BinanceOrder F)))
      → List (Order F)
      → ℕ
      → Binance F × Option (List (Order F) × ℕ)
  orders_of_pairs b [] ret limited = (b, some (ret, limited))
  orders_of_pairs b ((p, now, answer) ∷ r) ret limited =
      let fetched = fetch_open_orders b (currency_pair_to_symbol b p) now answer in
      let found = ret ++ map (convert_order_to_exchange_order b) fetched.1 in
      elim fetched.2 [
        | none ↦ orders_of_pairs fetched.0 r found limited
        | some rate_limited ↦ orders_of_pairs fetched.0 r found (limited + 1)
        | some failed ↦ (fetched.0, none)
      ]

  abbrev pub pairs_result : ℕ → Option (List (Order F) × ℕ) → List (Order F) × Option RequestError
  pairs_result n none = ([], some failed)
  pairs_result n (some (ret, limited)) = (ret, if limited == n then some rate_limited else none)

  -- With pairs; the second component is the error. A call that fails returns no orders.
  unfoldable pub get_orders_of :
      Binance F
      → List (CurrencyPair × ℕ × Answer (List (BinanceOrder F)))
      → Binance F × List (Order F) × Option RequestError
  get_orders_of b pairs =
      let run = orders_of_pairs b pairs [] 0 in
      let result = pairs_result (length pairs) run.1 in (run.0, result.0, result.1)

  -- Without pairs, all open orders are asked for.
  unfoldable pub get_all_orders :
      Binance F
      → ℕ
      → Answer (List (BinanceOrder F))
      → Binance F × List (Order F) × Option RequestError
  get_all_orders b now answer =
      let fetched = fetch_open_orders b [] now answer in
      elim fetched.2 [
        | some failed ↦ (fetched.0, [], some failed)
        | error ↦ (fetched.0, map (convert_order_to_exchange_order b) fetched.1, error)
      ]
