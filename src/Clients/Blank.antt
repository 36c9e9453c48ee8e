-- ===== src/Clients/Blank.antt =====
-- Where an update answers with blank prices: OKCoin's of a type that it does not fetch, and Poloniex's,
-- which are looked up under the symbol of the inverse pair.
use cryptofiend.Prelude.{
  ◌≡◌, refl, false, not, ◌&&◌, Option, none, some, List, [], ◌∷◌, arith, Text, text_eq,
}
use cryptofiend.Float.{Float}
use cryptofiend.Pair.{CurrencyPair, invert}
use cryptofiend.Config.{ExchangeConfig, get_exchange_config}
use cryptofiend.Exchange.{get_name}
use cryptofiend.Exchange.Formats.{format_exchange_currency}
use cryptofiend.GoMap.{GoMap, lookup}
use cryptofiend.Ticker.{Tickers, zero_price, get_ticker, ok}
use cryptofiend.Ticker.View.{IsDistinct}
use cryptofiend.Ticker.Process.{processed, stored}
use cryptofiend.Ticker.Kept.{get_ticker-process_same, get_ticker-process_type}
use cryptofiend.Orderbook.{spot}
use cryptofiend.Clients.{Client, reply, symbol_of}
use cryptofiend.Clients.Okcoin.{
  OkcoinTicker, OkcoinFuturesTicker, okcoin_api_url, price_of, update_spot,
}
use cryptofiend.Clients.Okcoin
use cryptofiend.Clients.Poloniex.{PoloniexTicker, get_enabled_currencies, currency_pair_to_symbol}
use cryptofiend.Clients.Poloniex

module _ {F : Float} where
  -- In a list of tickers with no exchange twice: asked for a type other than SPOT, an OKCoin client
  -- whose
  -- URL is not the international one, and whose request is answered, does not panic and answers with a
  -- blank price and no error; the price it was sent is kept under SPOT.
  pub okcoin_china_blank :
      (exchanges : List ExchangeConfig) (request : Text → Option (OkcoinTicker F))
      (request_futures : Text → Text → Option (OkcoinFuturesTicker F)) (c : Client F)
      (tickers : Tickers F) (p : CurrencyPair) (t symbol : Text) (tick : OkcoinTicker F)
      → IsDistinct tickers
      → text_eq spot t ≡ false
      → text_eq c.api_url okcoin_api_url ≡ false
      → symbol_of exchanges c p ≡ some symbol
      → request symbol ≡ some tick
      → (after : Tickers F) × (Okcoin.update_ticker exchanges request request_futures c tickers p t
          ≡ some (after, reply (zero_price F)))
        × (get_ticker after (get_name c.base) p spot ≡ ok (stored p (price_of p tick)))
  unfolding Okcoin.update_ticker
  okcoin_china_blank exchanges request request_futures c tickers p t symbol tick d k u s q =
      let n = get_name c.base in
      let r = processed tickers n p (price_of p tick) spot d in
      let blank = get_ticker-process_type tickers n p (price_of p tick) spot t d k in
      let runs : update_spot c tickers p t (some tick) ≡ some (r.tickers, reply (zero_price F)) =
        rw (update_spot, r.runs, blank) refl in
      let other : (not (text_eq t spot) && false) ≡ false = ground arith in
      (
        r.tickers,
        rw (s, q, u, other) runs,
        get_ticker-process_same tickers n p (price_of p tick) spot d,
      )

  symbol_of-inverse :
      (exchanges : List ExchangeConfig) (c : Client F) (exch : ExchangeConfig) (x : CurrencyPair)
      → get_exchange_config exchanges (get_name c.base) ≡ some exch
      → exch.request_currency_pair_format ≡ some c.base.request_currency_pair_format
      → symbol_of exchanges c x ≡ some (currency_pair_to_symbol c (invert x))
  unfolding format_exchange_currency currency_pair_to_symbol invert
  symbol_of-inverse exchanges c exch x g f = rw (g, f) refl

  -- In a list of tickers with no exchange twice, for a Poloniex client that is configured with its
  -- own format: asked for its one enabled pair, where the answer has no price under the symbol of
  -- the inverse pair, whatever it has under the symbol of the pair, UpdateTicker answers with no
  -- error and a price in which only the pair and its name are set.
  pub poloniex_blank :
      (exchanges : List ExchangeConfig) (tick : GoMap (PoloniexTicker F)) (c : Client F)
      (exch : ExchangeConfig) (tickers : Tickers F) (p : CurrencyPair) (t : Text)
      → IsDistinct tickers
      → get_exchange_config exchanges (get_name c.base) ≡ some exch
      → exch.request_currency_pair_format ≡ some c.base.request_currency_pair_format
      → get_enabled_currencies c ≡ some (p ∷ [])
      → lookup (currency_pair_to_symbol c (invert p)) tick ≡ none
      → (after : Tickers F) × (Poloniex.update_ticker exchanges (some tick) c tickers p t
          ≡ some (after, reply (stored p (record (zero_price F) { pair = p }))))
  unfolding Poloniex.update_ticker
  poloniex_blank exchanges tick c exch tickers p t d g f e m =
      let n = get_name c.base in
      let r = processed tickers n p (record (zero_price F) { pair = p }) t d in
      let read = get_ticker-process_same tickers n p (record (zero_price F) { pair = p }) t d in
      (r.tickers, rw (e, symbol_of-inverse exchanges c exch p g f, m) (rw (r.runs, read) refl))
