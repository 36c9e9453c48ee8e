-- ===== src/Ticker/Process.antt =====
-- What `ProcessTicker` does to the tickers: it is read back, leaves other exchanges alone, and drops
-- the rest of the first currency's prices when the pair was there already.
use cryptofiend.Prelude.{
  ◌≡◌, refl, sym, ◌∙◌, inl, inr, true, false, not, ◌&&◌, Option, none, some, [], arith,
  if◌then◌else◌, Bool-cases, Text, text_eq, text_eq_iff, text_eq_refl, is_some,
}
use cryptofiend.GoMap.{GoMap, lookup, insert, lookup-insert, lookup-insert_self, lookup-nil}
use cryptofiend.GoMap.Nested.{Nested, or_nil}
use cryptofiend.Float.{Float}
use cryptofiend.Pair.{CurrencyPair, pair}
use cryptofiend.Ticker.{
  primary_currency_not_found, Result, ok, err, secondary_currency_not_found, Price, Ticker, Tickers,
  get_ticker_by_exchange, second_currency_exists, get_ticker, set_first, create_new_ticker,
  process_ticker,
}
use cryptofiend.Ticker.View.{
  from_types, IsDistinct, view, on_price, has_first, has_second, get_ticker_by_exchange-view,
  first_currency_exists-view, second_currency_exists-view, from_view, get_ticker-view,
  view-set_first, view-append, set_first-IsDistinct, append-IsDistinct,
}

module _ {F : Float} where
  -- A price as it is stored.
  unfoldable pub stored : CurrencyPair → Price F → Price F
  stored p new = record new { currency_pair = pair p }

  -- The prices of the first currency after a price is processed: they are kept only where the second
  -- currency is new.
  unfoldable pub seconds_after :
      CurrencyPair → Text → Price F → Nested (Price F) → GoMap (GoMap (Price F))
  seconds_after p t new m =
      insert p.second_currency (insert t new [])
        (if has_first p m && not (has_second p m) then or_nil (lookup p.first_currency m) else [])

  -- The prices of an exchange after a price is processed.
  unfoldable pub prices_after :
      CurrencyPair → Text → Price F → Option (Nested (Price F)) → Nested (Price F)
  prices_after p t new none = insert p.first_currency (seconds_after p t new []) []
  prices_after p t new (some m) = insert p.first_currency (seconds_after p t new m) m

  -- What `ProcessTicker` comes to.
  pub record Processed (ts : Tickers F) (n : Text) (p : CurrencyPair) (new : Price F) (t : Text)
      : Type 0 where
    pub tickers : Tickers F
    pub runs : process_ticker ts n p new t ≡ some tickers
    pub distinct : IsDistinct tickers
    pub seen :
        (k : Text)
        → view k tickers
          ≡ (if text_eq n k then some (prices_after p t (stored p new) (view n ts)) else view k ts)

  no_view : (ts : Tickers F) (n : Text) → get_ticker_by_exchange ts n ≡ none → view n ts ≡ none
  no_view ts n e = get_ticker_by_exchange-view ts n ∙ rw e refl

  some-view :
      (ts : Tickers F) (n : Text) (y : Ticker F)
      → get_ticker_by_exchange ts n ≡ some y
      → view n ts ≡ some y.price
  some-view ts n y e = get_ticker_by_exchange-view ts n ∙ rw e refl

  module _ (ts : Tickers F) (n : Text) (p : CurrencyPair) (new : Price F) (t : Text)
      (d : IsDistinct ts) where
    created_runs :
        get_ticker_by_exchange ts n ≡ none
        → process_ticker ts n p new t ≡ some (create_new_ticker ts n p (stored p new) t)
    unfolding process_ticker stored
    created_runs e = rw e (ground arith)

    created_seen :
        (k : Text)
        → view n ts ≡ none
        → view k (create_new_ticker ts n p (stored p new) t)
          ≡ (if text_eq n k then some (prices_after p t (stored p new) (view n ts)) else view k ts)
    unfolding create_new_ticker prices_after seconds_after has_first has_second
    created_seen k e = ground (
      arith,
      text_eq_iff n k,
      view-append ts
          (record {
            price =
                insert p.first_currency (insert p.second_currency (insert t (stored p new) []) [])
                  [];
            exchange_name = n;
          })
          k,
      lookup-nil {V = GoMap (GoMap (Price F))} p.first_currency,
    )

    created-IsDistinct : view n ts ≡ none → IsDistinct (create_new_ticker ts n p (stored p new) t)
    unfolding create_new_ticker
    created-IsDistinct e = append-IsDistinct ts _ d e

    created : get_ticker_by_exchange ts n ≡ none → Processed ts n p new t
    created e = record {
      tickers = create_new_ticker ts n p (stored p new) t;
      runs = created_runs e;
      distinct = created-IsDistinct (no_view ts n e);
      seen = λ k. created_seen k (no_view ts n e);
    }

    updated_runs :
        (y : Ticker F)
        → get_ticker_by_exchange ts n ≡ some y
        → view n ts ≡ some y.price
        → process_ticker ts n p new t
          ≡ some (set_first ts n p.first_currency (seconds_after p t (stored p new) y.price))
    unfolding process_ticker stored seconds_after has_first has_second
    updated_runs y e v =
        ground (arith, first_currency_exists-view ts n p d, second_currency_exists-view ts n p d)

    updated_seen :
        (k : Text) (m : Nested (Price F))
        → view n ts ≡ some m
        → view k (set_first ts n p.first_currency (seconds_after p t (stored p new) m))
          ≡ (if text_eq n k then some (prices_after p t (stored p new) (view n ts)) else view k ts)
    unfolding prices_after
    updated_seen k m v = rw v (
        ground
          (arith, v, view-set_first ts n k p.first_currency (seconds_after p t (stored p new) m)))

    updated : (y : Ticker F) → get_ticker_by_exchange ts n ≡ some y → Processed ts n p new t
    updated y e = record {
      tickers = set_first ts n p.first_currency (seconds_after p t (stored p new) y.price);
      runs = updated_runs y e (some-view ts n y e);
      distinct = set_first-IsDistinct ts n p.first_currency _ d;
      seen = λ k. updated_seen k y.price (some-view ts n y e);
    }

    pub processed : Processed ts n p new t
    processed = go (get_ticker_by_exchange ts n) refl
      where
        go : (o : Option (Ticker F)) → get_ticker_by_exchange ts n ≡ o → Processed ts n p new t
        go none e = created e
        go (some y) e = updated y e

  pub read_back :
      (p : CurrencyPair) (t : Text) (v : Price F) (o : Option (Nested (Price F)))
      → from_view p t (some (prices_after p t v o)) ≡ ok v
  unfolding prices_after seconds_after
  read_back p t v none = simp lookup-insert_self
  read_back p t v (some m) = simp lookup-insert_self

  forgotten :
      (p q : CurrencyPair) (t u : Text) (v : Price F) (o : Option (Nested (Price F)))
      → q.first_currency ≡ p.first_currency
      → text_eq p.second_currency q.second_currency ≡ false
      → on_price (has_second p) o ≡ true
      → from_view q u (some (prices_after p t v o)) ≡ err secondary_currency_not_found
  unfolding prices_after seconds_after
  forgotten p q t u v none f s h = cc
  forgotten p q t u v (some m) f s h =
      rw (f, h, lookup-insert_self)
        (let e : (has_first p m && false) ≡ false = ground arith in
          rw e (
            ground (
              arith,
              s,
              lookup-insert p.second_currency q.second_currency (insert t v []) [],
              lookup-nil {V = GoMap (Price F)} q.second_currency,
            )))

  abbrev from_at : Text → Text → Option (GoMap (GoMap (Price F))) → Result (Price F)
  from_at s u none = err primary_currency_not_found
  from_at s u (some a) = from_types u (lookup s a)

  added_second :
      (s s' u : Text) (b : GoMap (Price F)) (old : Price F) (a : Option (GoMap (GoMap (Price F))))
      → (is_some a && is_some (lookup s (or_nil a))) ≡ false
      → from_at s' u a ≡ ok old
      → from_types u (
          lookup s' (
            insert s b (
              if is_some a && not (is_some a && is_some (lookup s (or_nil a)))
              then or_nil a
              else [])))
        ≡ ok old
  added_second s s' u b old none h g = cc
  added_second s s' u b old (some a) h g =
      rw h (ground (arith, lookup-insert s s' b a, text_eq_iff s s'))

  pub added :
      (p q : CurrencyPair) (t u : Text) (v old : Price F) (o : Option (Nested (Price F)))
      → on_price (has_second p) o ≡ false
      → from_view q u o ≡ ok old
      → from_view q u (some (prices_after p t v o)) ≡ ok old
  unfolding prices_after seconds_after has_first has_second
  added p q t u v old none h g = cc
  added p q t u v old (some m) h g = elim (Bool-cases (text_eq p.first_currency q.first_currency)) [
    | inl same ↦
        rw (← (text_eq_iff p.first_currency q.first_currency).0 same, lookup-insert_self)
          (added_second p.second_currency q.second_currency u (insert t v []) old
            (lookup p.first_currency m) h
            (rw (← (text_eq_iff p.first_currency q.first_currency).0 same) at g))
    | inr other ↦ rw (lookup-insert, other) g
  ]

  -- In a list with no exchange twice `ProcessTicker` does not panic, keeps it so, and `GetTicker` then
  -- returns the price that was given, with its name set.
  pub get_ticker-process_ticker :
      (ts : Tickers F) (n : Text) (p : CurrencyPair) (new : Price F) (t : Text)
      → IsDistinct ts
      → (ts' : Tickers F) × (process_ticker ts n p new t ≡ some ts')
        × IsDistinct ts'
        × (get_ticker ts' n p t ≡ ok (stored p new))
  get_ticker-process_ticker ts n p new t d =
      let r = processed ts n p new t d in
      (
        r.tickers,
        r.runs,
        r.distinct,
        get_ticker-view r.tickers n p t r.distinct
            ∙ rw (r.seen n, text_eq_refl n) (read_back p t (stored p new) (view n ts)),
      )

  -- In a list with no exchange twice, what `GetTicker` answers for other exchanges does not change when a
  -- price is processed.
  pub get_ticker-process_other :
      (ts : Tickers F) (n k : Text) (p q : CurrencyPair) (new : Price F) (t u : Text)
      → IsDistinct ts
      → text_eq n k ≡ false
      → (ts' : Tickers F) × (process_ticker ts n p new t ≡ some ts')
        × (get_ticker ts' k q u ≡ get_ticker ts k q u)
  get_ticker-process_other ts n k p q new t u d h =
      let r = processed ts n p new t d in
      (
        r.tickers,
        r.runs,
        get_ticker-view r.tickers k q u r.distinct
            ∙ rw (r.seen k, h) (sym (get_ticker-view ts k q u d)),
      )

  -- In a list with no exchange twice: when a pair that the tickers have already is processed, `GetTicker`
  -- no longer finds any other second currency of its first currency.
  pub process_ticker_forgets :
      (ts : Tickers F) (n : Text) (p q : CurrencyPair) (new : Price F) (t u : Text)
      → IsDistinct ts
      → second_currency_exists ts n p ≡ true
      → q.first_currency ≡ p.first_currency
      → text_eq p.second_currency q.second_currency ≡ false
      → (ts' : Tickers F) × (process_ticker ts n p new t ≡ some ts')
        × (get_ticker ts' n q u ≡ err secondary_currency_not_found)
  process_ticker_forgets ts n p q new t u d h f s =
      let r = processed ts n p new t d in
      (
        r.tickers,
        r.runs,
        get_ticker-view r.tickers n q u r.distinct
            ∙ rw (r.seen n, text_eq_refl n)
                (forgotten p q t u (stored p new) (view n ts) f s
                  (sym (second_currency_exists-view ts n p d) ∙ h)),
      )

  -- A second currency that is new is added to those of its first currency: what `GetTicker` returned for
  -- the others it still returns.
  pub process_ticker_adds :
      (ts : Tickers F) (n : Text) (p q : CurrencyPair) (new old : Price F) (t u : Text)
      → IsDistinct ts
      → second_currency_exists ts n p ≡ false
      → get_ticker ts n q u ≡ ok old
      → (ts' : Tickers F) × (process_ticker ts n p new t ≡ some ts')
        × (get_ticker ts' n q u ≡ ok old)
  process_ticker_adds ts n p q new old t u d h g =
      let r = processed ts n p new t d in
      (
        r.tickers,
        r.runs,
        get_ticker-view r.tickers n q u r.distinct
            ∙ rw (r.seen n, text_eq_refl n)
                (added p q t u (stored p new) old (view n ts)
                  (sym (second_currency_exists-view ts n p d) ∙ h)
                  (sym (get_ticker-view ts n q u d) ∙ g)),
      )
