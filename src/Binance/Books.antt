-- ===== src/Binance/Books.antt =====
-- exchanges/binance/binance_wrapper.go: order books and account information.
use cryptofiend.Prelude.{
  ℕ, Bool, true, false, not, Option, none, some, List, [], map, if◌then◌else◌, Text, ◌>>=◌,
}
use cryptofiend.Exchange.Accounts.{AccountInfo}
use cryptofiend.Float.{Float}
use cryptofiend.Pair.{CurrencyPair}
use cryptofiend.Orderbook.{
  Item, Base, Orderbooks, Result, ok, err, process_orderbook, get_orderbook, zero_base,
}
use cryptofiend.Binance.{
  Binance, Answer, MarketData, DepthItem, Balance, RequestError, rate_limited, failed,
  currency_pair_to_symbol, fetch_market_data, fetch_account_info,
}

abbrev pub to_item : {F : Float} → DepthItem F → Item F
to_item d = record { amount = d.quantity; price = d.price }

-- The book with the items of the data.
abbrev pub book_of : {F : Float} → MarketData F → Base F
book_of {F} market_data = record (zero_base F) {
  asks = map to_item market_data.asks;
  bids = map to_item market_data.bids;
}

abbrev pub is_failed : Option RequestError → Bool
is_failed none = false
is_failed (some rate_limited) = false
is_failed (some failed) = true

-- The errors of the client and of the order books.
pub data BookResult (F : Float) : Type 0 where
  request_failed : BookResult F
  looked_up : Result (Base F) → BookResult F

module _ {F : Float} where
  -- The times of the request and of the book are `now` and `updated`; `none` is a panic.
  unfoldable pub update_orderbook :
      Binance F
      → Orderbooks F
      → CurrencyPair
      → Text
      → ℕ
      → ℕ
      → Answer (MarketData F)
      → Option (Binance F × Orderbooks F × BookResult F)
  update_orderbook b orderbooks p asset_type now updated answer =
      let symbol = currency_pair_to_symbol b p in
      let (b', market_data, error) = fetch_market_data b symbol now answer in
      if is_failed error then some (b', orderbooks, request_failed) else (do
        orderbooks' ← process_orderbook orderbooks p (book_of market_data) asset_type updated
        some (b', orderbooks', looked_up (get_orderbook orderbooks' p asset_type)))

  -- A book that is there is fetched again; for one that is not the answer is the blank book.
  unfoldable pub get_orderbook_ex :
      Binance F
      → Orderbooks F
      → CurrencyPair
      → Text
      → ℕ
      → ℕ
      → Answer (MarketData F)
      → Option (Binance F × Orderbooks F × BookResult F)
  unfolding update_orderbook
  get_orderbook_ex b orderbooks p asset_type now updated answer =
      elim (get_orderbook orderbooks p asset_type) [
        | ok ob ↦ update_orderbook b orderbooks p asset_type now updated answer
        | err e ↦ some (b, orderbooks, looked_up (ok (zero_base F)))
      ]

  -- `decimal_add` is the sum of the library's decimals.
  unfoldable pub get_exchange_account_info :
      (F.Num → F.Num → F.Num)
      → Binance F
      → ℕ
      → Answer (List (Balance F))
      → Binance F × AccountInfo F × Bool
  get_exchange_account_info decimal_add b now answer =
      let blank : AccountInfo F = record { exchange_name = b.name; currencies = [] } in
      let (b', balances, error) = fetch_account_info b now answer in
      if not b.enabled then (b, blank, true) else if is_failed error then (b', blank, false) else (
        b',
        record blank {
          currencies =
              map
                (λ (src : Balance F). record {
                  currency_name = src.asset;
                  total_value = decimal_add src.free src.locked;
                  hold = src.locked;
                  available = src.free;
                })
                balances;
        },
        true,
      )
