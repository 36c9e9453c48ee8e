-- ===== src/Clients/Prices.antt =====
-- What an update of the prices does, of one pair or of all enabled pairs, and what is read after it.
use cryptofiend.Prelude.{
  ◌≡◌, refl, Bool, true, false, not, ◌&&◌, Option, some, List, [], ◌∷◌, arith, Text, text_eq, All,
  ◌>>=◌,
}
use cryptofiend.Float.{Float}
use cryptofiend.Pair.{CurrencyPair}
use cryptofiend.Exchange.{get_name}
use cryptofiend.Ticker.{Price, Tickers, get_ticker, ok, second_currency_exists, process_ticker}
use cryptofiend.Ticker.View.{IsDistinct}
use cryptofiend.Ticker.Process.{processed, stored}
use cryptofiend.Ticker.Kept.{
  is_same_key, second_currency_exists-process_ticker, get_ticker-process_same,
  get_ticker-process_new, get_ticker-process_elsewhere,
}
use cryptofiend.Clients.{
  Client, reply, TickerUpdate, update_one, process_pairs, update_all, ticker_reply, price_or_update,
}

-- No two pairs are kept under one key.
abbrev pub IsApart : List CurrencyPair → Type 0
IsApart [] = Unit
IsApart (x ∷ r) = All (λ y. is_same_key x y ≡ false) r × IsApart r

-- An answered update of one pair by a client: its name, the pair, the price and the type.
pub record Update (F : Float) : Type 0 where
  pub name : Text
  pub pair : CurrencyPair
  pub price : Price F
  pub type : Text

module _ {F : Float} where
  -- The tickers after the updates, one after the other; `none` is a panic.
  abbrev pub process_updates : Tickers F → List (Update F) → Option (Tickers F)
  process_updates ts [] = some ts
  process_updates ts (x ∷ r) = do
    ts' ← process_ticker ts x.name x.pair x.price x.type
    process_updates ts' r

  -- The update is of another exchange, or of a pair with another first currency.
  abbrev pub is_elsewhere : Text → CurrencyPair → Update F → Bool
  is_elsewhere n p x = not (text_eq x.name n && text_eq x.pair.first_currency p.first_currency)

  -- What the updates left of a price.
  pub record Later (ts : Tickers F) (n : Text) (p : CurrencyPair) (t : Text) (old : Price F)
      (updates : List (Update F)) : Type 0 where
    pub tickers : Tickers F
    pub runs : process_updates ts updates ≡ some tickers
    pub reads : get_ticker tickers n p t ≡ ok old

  later :
      (ts : Tickers F) (n : Text) (p : CurrencyPair) (t : Text) (old : Price F)
      (updates : List (Update F))
      → IsDistinct ts
      → get_ticker ts n p t ≡ ok old
      → All (λ x. is_elsewhere n p x ≡ true) updates
      → Later ts n p t old updates
  later ts n p t old [] d g h = record { tickers = ts; runs = refl; reads = g }
  later ts n p t old (x ∷ r) d g h =
      let first = processed ts x.name x.pair x.price x.type d in
      let kept =
        get_ticker-process_elsewhere ts x.name n x.pair p x.price old x.type t d
          (ground (arith, h.0)) g in
      let rest = later first.tickers n p t old r first.distinct kept h.1 in
      record { tickers = rest.tickers; runs = rw first.runs rest.runs; reads = rest.reads }

  -- In a list of tickers with no exchange twice, an update of one pair whose request is answered does not
  -- panic and returns the price of the answer, with its name set. After any further updates, each of
  -- another exchange or of a pair with another first currency, which do not panic either, a GetTickerPrice
  -- that looks up the pair and the type of the update returns that price without a request.
  pub update_one-price_or_update :
      {T : Type 0} (c : Client F) (tickers : Tickers F) (p : CurrencyPair) (t : Text)
      (price_of : T → Price F) (tick : T) (updates : List (Update F))
      → IsDistinct tickers
      → All (λ x. is_elsewhere (get_name c.base) p x ≡ true) updates
      → let price = stored p (price_of tick) in
        (after : Tickers F) × (later : Tickers F) × (update_one c tickers p t price_of (some tick)
          ≡ some (after, reply price))
        × (process_updates after updates ≡ some later)
        × ((update : TickerUpdate F)
            → price_or_update c later p t update ≡ some (later, reply price))
  update_one-price_or_update c tickers p t price_of tick updates d h =
      let n = get_name c.base in
      let r = processed tickers n p (price_of tick) t d in
      let read = get_ticker-process_same tickers n p (price_of tick) t d in
      let l = later r.tickers n p t (stored p (price_of tick)) updates r.distinct read h in
      (
        r.tickers,
        l.tickers,
        rw (r.runs, read) refl,
        l.runs,
        λ update. rw (price_or_update, l.reads) refl,
      )

  -- No pair of the list is known yet.
  abbrev pub IsFresh : Tickers F → Text → List CurrencyPair → Type 0
  IsFresh tickers n pairs = All (λ x. second_currency_exists tickers n x ≡ false) pairs

  processed-IsFresh :
      (ts : Tickers F) (n : Text) (x : CurrencyPair) (new : Price F) (t : Text) (d : IsDistinct ts)
      (pairs : List CurrencyPair)
      → All (λ y. is_same_key x y ≡ false) pairs
      → IsFresh ts n pairs
      → IsFresh (processed ts n x new t d).tickers n pairs
  processed-IsFresh ts n x new t d [] a f = f
  processed-IsFresh ts n x new t d (y ∷ r) a f = (
    second_currency_exists-process_ticker ts n x y new t d a.0 f.0,
    processed-IsFresh ts n x new t d r a.1 f.1,
  )

  -- What the loop over the pairs comes to.
  pub record Updated (c : Client F) (t : Text) (price : CurrencyPair → Price F)
      (price_at : CurrencyPair → Option (Option (Price F))) (ts : Tickers F)
      (pairs : List CurrencyPair) : Type 0 where
    pub tickers : Tickers F
    pub runs : process_pairs c t price_at ts pairs ≡ some tickers
    pub distinct : IsDistinct tickers
    pub reads : All (λ x. get_ticker tickers (get_name c.base) x t ≡ ok (stored x (price x))) pairs
    pub keeps :
        (q : CurrencyPair) (u : Text) (old : Price F)
        → get_ticker ts (get_name c.base) q u ≡ ok old
        → get_ticker tickers (get_name c.base) q u ≡ ok old

  pub updated :
      (c : Client F) (t : Text) (price : CurrencyPair → Price F)
      (price_at : CurrencyPair → Option (Option (Price F))) (ts : Tickers F)
      (pairs : List CurrencyPair)
      → All (λ x. price_at x ≡ some (some (price x))) pairs
      → IsDistinct ts
      → IsApart pairs
      → IsFresh ts (get_name c.base) pairs
      → Updated c t price price_at ts pairs
  updated c t price price_at ts [] h d a f = record {
    tickers = ts;
    runs = refl;
    distinct = d;
    reads = f;
    keeps = λ q u old g. g;
  }
  updated c t price price_at ts (x ∷ r) h d a f =
      let n = get_name c.base in
      let first = processed ts n x (price x) t d in
      let rest =
        updated c t price price_at first.tickers r h.1 first.distinct a.1
          (processed-IsFresh ts n x (price x) t d r a.0 f.1) in
      record {
        tickers = rest.tickers;
        runs = rw (h.0, first.runs) rest.runs;
        distinct = rest.distinct;
        reads = (
          rest.keeps x t (stored x (price x)) (get_ticker-process_same ts n x (price x) t d),
          rest.reads,
        );
        keeps = λ q u old g.
            rest.keeps q u old (get_ticker-process_new ts n x q (price x) old t u d f.0 g);
      }

  -- In a list of tickers with no exchange twice, where no ticker is known of the enabled pairs, no two of
  -- which have one key, an update of all of them whose prices can all be found does not panic: each pair's
  -- price is then read as it was found, with its name set, what could be read of the exchange before, of
  -- any pair and type, is still read, and the answer is what is read under the pair that was asked for.
  pub update_all_reads :
      (c : Client F) (ts : Tickers F) (p : CurrencyPair) (t : Text) (pairs : List CurrencyPair)
      (price : CurrencyPair → Price F) (price_at : CurrencyPair → Option (Option (Price F)))
      → All (λ x. price_at x ≡ some (some (price x))) pairs
      → IsDistinct ts
      → IsApart pairs
      → IsFresh ts (get_name c.base) pairs
      → (after : Tickers F) × (update_all c ts p t pairs price_at
          ≡ some (after, ticker_reply (get_ticker after (get_name c.base) p t)))
        × IsDistinct after
        × All (λ x. get_ticker after (get_name c.base) x t ≡ ok (stored x (price x))) pairs
        × ((q : CurrencyPair) (u : Text) (old : Price F)
            → get_ticker ts (get_name c.base) q u ≡ ok old
            → get_ticker after (get_name c.base) q u ≡ ok old)
  update_all_reads c ts p t pairs price price_at h d a f =
      let u = updated c t price price_at ts pairs h d a f in
      (u.tickers, rw u.runs refl, u.distinct, u.reads, u.keeps)
