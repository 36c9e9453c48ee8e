-- ===== src/Binance/Caches.antt =====
-- What is kept for when a request is not sent.
use cryptofiend.Prelude.{
  ℕ, ◌≡◌, refl, ◌⊎◌, inl, inr, true, false, not, ◌&&◌, some, List, arith, if◌then◌else◌, Bool-cases,
  Text, text_eq, text_eq_refl, is_some,
}
use cryptofiend.GoMap.{lookup, lookup-insert}
use cryptofiend.Float.{Float}
use cryptofiend.Binance.{
  Binance, Order, MarketData, Answer, received, refused, or_none, or_empty, skip_request,
  send_rate_limited_http_request, fetch_open_orders, fetch_market_data, depth_key, open_orders_key,
}

module _ {F : Float} where
  market_data-failed :
      (b : Binance F) (symbol : Text) (now : ℕ) (left : MarketData F)
      → skip_request b.limiter 20 depth_key now ≡ false
      → lookup symbol (fetch_market_data b symbol now (refused false left)).0.last_market_data
        ≡ some left
  unfolding fetch_market_data send_rate_limited_http_request
  market_data-failed b symbol now left h =
      rw (h, lookup-insert symbol symbol left b.last_market_data, text_eq_refl symbol) refl

  market_data-other :
      (b : Binance F) (symbol other : Text) (now : ℕ) (answer : Answer (MarketData F))
      → text_eq other symbol ≡ false
      → lookup symbol (fetch_market_data b other now answer).0.last_market_data
        ≡ lookup symbol b.last_market_data
  unfolding fetch_market_data
  market_data-other b symbol other now answer h = simp (lookup-insert, h)

  market_data-skipped :
      (b : Binance F) (symbol : Text) (now : ℕ) (answer : Answer (MarketData F))
      → skip_request b.limiter 20 depth_key now ≡ true
      → (fetch_market_data b symbol now answer).1 ≡ or_empty F (lookup symbol b.last_market_data)
  unfolding fetch_market_data send_rate_limited_http_request
  market_data-skipped b symbol now answer h = rw h refl

  -- Where a request for the market data of a symbol fails, and not for too many requests, what it left of
  -- the result replaces the data that was kept of the symbol: once other requests, for other symbols, have
  -- used up the rate, a call for the symbol returns that, not the data of the last success.
  pub fetch_market_data_forgets :
      (b : Binance F) (symbol other : Text) (now next later : ℕ) (left : MarketData F)
      (answer answer' : Answer (MarketData F))
      → skip_request b.limiter 20 depth_key now ≡ false
      → text_eq other symbol ≡ false
      → let b1 = (fetch_market_data b symbol now (refused false left)).0 in
        let b2 = (fetch_market_data b1 other next answer).0 in
        skip_request b2.limiter 20 depth_key later ≡ true
        → (fetch_market_data b2 symbol later answer').1 ≡ left
  fetch_market_data_forgets b symbol other now next later left answer answer' f o s =
      let b1 = (fetch_market_data b symbol now (refused false left)).0 in
      let b2 = (fetch_market_data b1 other next answer).0 in
      ground (
        arith,
        market_data-failed b symbol now left,
        market_data-other b1 symbol other next answer,
        market_data-skipped b2 symbol later answer',
      )

  -- The orders that are kept of a symbol change only by a request for it that has a result, and then are
  -- that result; where no request is sent, they are what FetchOpenOrders returns.
  pub fetch_open_orders_keeps :
      (b : Binance F) (symbol kept : Text) (now : ℕ) (answer : Answer (List (Order F)))
      → let result = fetch_open_orders b symbol now answer in
        (lookup kept result.0.last_open_orders ≡ (
          if not (is_some result.2) && text_eq symbol kept
          then some result.1
          else lookup kept b.last_open_orders))
        × ((skip_request b.limiter 10 open_orders_key now ≡ false)
            ⊎ (result.1 ≡ or_none (lookup symbol b.last_open_orders)))
  unfolding fetch_open_orders send_rate_limited_http_request
  fetch_open_orders_keeps b symbol kept now (received r) =
      elim (Bool-cases (skip_request b.limiter 10 open_orders_key now)) [
        | inl skip ↦ rw skip (refl, inr refl)
        | inr send ↦ rw (send, lookup-insert symbol kept r b.last_open_orders) (refl, inl refl)
      ]
  fetch_open_orders_keeps b symbol kept now (refused true r) =
      elim (Bool-cases (skip_request b.limiter 10 open_orders_key now)) [
        | inl skip ↦ rw skip (refl, inr refl)
        | inr send ↦ rw send (refl, inl refl)
      ]
  fetch_open_orders_keeps b symbol kept now (refused false r) =
      elim (Bool-cases (skip_request b.limiter 10 open_orders_key now)) [
        | inl skip ↦ rw skip (refl, inr refl)
        | inr send ↦ rw send (refl, inl refl)
      ]
