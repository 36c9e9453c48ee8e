-- ===== src/Ticker/Kept.antt =====
-- What `ProcessTicker` does not bring into the tickers: other pairs, and other types of the pair.
use cryptofiend.Prelude.{
  ◌≡◌, refl, sym, ap, ◌∙◌, inl, inr, Bool, false, not, ◌&&◌, Option, none, some, [], arith,
  if◌then◌else◌, Bool-cases, Text, text_eq, text_eq_iff, text_eq_refl, is_some,
}
use cryptofiend.Float.{Float}
use cryptofiend.Pair.{CurrencyPair}
use cryptofiend.GoMap.{lookup, insert, lookup-insert, lookup-insert_self, lookup-nil, GoMap}
use cryptofiend.GoMap.Nested.{Nested, or_nil}
use cryptofiend.Ticker.{Price, Tickers, zero_price, second_currency_exists, get_ticker, ok}
use cryptofiend.Ticker.View.{
  IsDistinct, view, on_price, has_first, has_second, from_view, second_currency_exists-view,
  get_ticker-view,
}
use cryptofiend.Ticker.Process.{read_back, added, processed, stored, prices_after, seconds_after}

-- The pairs are kept under one key.
abbrev pub is_same_key : CurrencyPair → CurrencyPair → Bool
is_same_key x y =
    text_eq x.first_currency y.first_currency && text_eq x.second_currency y.second_currency

module _ {F : Float} where
  unknown_second :
      (s s' : Text) (b : GoMap (Price F)) (a : Option (GoMap (GoMap (Price F))))
      → text_eq s s' ≡ false
      → (is_some a && is_some (lookup s' (or_nil a))) ≡ false
      → is_some (
          lookup s' (
            insert s b (
              if is_some a && not (is_some a && is_some (lookup s (or_nil a)))
              then or_nil a
              else [])))
        ≡ false
  unknown_second s s' b none d h =
      ground (arith, d, lookup-insert s s' b [], lookup-nil {V = GoMap (Price F)} s')
  unknown_second s s' b (some a) d h = ground (
    arith,
    d,
    lookup-insert s s' b [],
    lookup-insert s s' b a,
    lookup-nil {V = GoMap (Price F)} s',
  )

  unknown_kept :
      (x y : CurrencyPair) (t : Text) (v : Price F) (o : Option (Nested (Price F)))
      → is_same_key x y ≡ false
      → on_price (has_second y) o ≡ false
      → on_price (has_second y) (some (prices_after x t v o)) ≡ false
  unfolding prices_after seconds_after has_first has_second
  unknown_kept x y t v none s b = ground (
    arith,
    s,
    lookup-insert x.first_currency y.first_currency (insert x.second_currency (insert t v []) [])
        [],
    lookup-insert x.second_currency y.second_currency (insert t v []) [],
    lookup-nil {V = GoMap (GoMap (Price F))} x.first_currency,
    lookup-nil {V = GoMap (GoMap (Price F))} y.first_currency,
    lookup-nil {V = GoMap (Price F)} y.second_currency,
  )
  unknown_kept x y t v (some m) s b =
      elim (Bool-cases (text_eq x.first_currency y.first_currency)) [
        | inl same ↦
            rw (← (text_eq_iff x.first_currency y.first_currency).0 same, lookup-insert_self)
              (unknown_second x.second_currency y.second_currency (insert t v [])
                (lookup x.first_currency m) (ground (arith, s, same))
                (rw (← (text_eq_iff x.first_currency y.first_currency).0 same) at b))
        | inr other ↦ rw (lookup-insert, other) b
      ]

  other_type :
      (p : CurrencyPair) (t u : Text) (v : Price F) (o : Option (Nested (Price F)))
      → text_eq t u ≡ false
      → from_view p u (some (prices_after p t v o)) ≡ ok (zero_price F)
  unfolding prices_after seconds_after
  other_type p t u v none h =
      rw (lookup-insert_self, lookup-insert_self)
        (ground (arith, h, lookup-insert t u v [], lookup-nil {V = Price F} u))
  other_type p t u v (some m) h =
      rw (lookup-insert_self, lookup-insert_self)
        (ground (arith, h, lookup-insert t u v [], lookup-nil {V = Price F} u))

  -- A pair that was not known is not known after a price of a pair with another key is processed.
  pub second_currency_exists-process_ticker :
      (ts : Tickers F) (n : Text) (x y : CurrencyPair) (new : Price F) (t : Text)
      (d : IsDistinct ts)
      → is_same_key x y ≡ false
      → second_currency_exists ts n y ≡ false
      → second_currency_exists (processed ts n x new t d).tickers n y ≡ false
  second_currency_exists-process_ticker ts n x y new t d s h =
      let r = processed ts n x new t d in
      let h' : on_price (has_second y) (view n ts) ≡ false =
        sym (second_currency_exists-view ts n y d) ∙ h in
      second_currency_exists-view r.tickers n y r.distinct
      ∙ rw (r.seen n, text_eq_refl) (unknown_kept x y t (stored x new) (view n ts) s h')

  -- After a price of one type is processed, that of another type of the pair is blank.
  pub get_ticker-process_type :
      (ts : Tickers F) (n : Text) (p : CurrencyPair) (new : Price F) (t u : Text)
      (d : IsDistinct ts)
      → text_eq t u ≡ false
      → get_ticker (processed ts n p new t d).tickers n p u ≡ ok (zero_price F)
  get_ticker-process_type ts n p new t u d h =
      let r = processed ts n p new t d in
      get_ticker-view r.tickers n p u r.distinct
      ∙ rw (r.seen n, text_eq_refl) (other_type p t u (stored p new) (view n ts) h)

  -- The price that is processed is read back.
  pub get_ticker-process_same :
      (ts : Tickers F) (n : Text) (p : CurrencyPair) (new : Price F) (t : Text) (d : IsDistinct ts)
      → get_ticker (processed ts n p new t d).tickers n p t ≡ ok (stored p new)
  get_ticker-process_same ts n p new t d =
      let r = processed ts n p new t d in
      get_ticker-view r.tickers n p t r.distinct
      ∙ rw (r.seen n, text_eq_refl) (read_back p t (stored p new) (view n ts))

  -- A price that could be read is read unchanged after a pair that was not known is processed.
  pub get_ticker-process_new :
      (ts : Tickers F) (n : Text) (p q : CurrencyPair) (new old : Price F) (t u : Text)
      (d : IsDistinct ts)
      → second_currency_exists ts n p ≡ false
      → get_ticker ts n q u ≡ ok old
      → get_ticker (processed ts n p new t d).tickers n q u ≡ ok old
  get_ticker-process_new ts n p q new old t u d h g =
      let r = processed ts n p new t d in
      get_ticker-view r.tickers n q u r.distinct
      ∙ rw (r.seen n, text_eq_refl)
          (added p q t u (stored p new) old (view n ts)
            (sym (second_currency_exists-view ts n p d) ∙ h) (sym (get_ticker-view ts n q u d) ∙ g))

  other_first :
      (p q : CurrencyPair) (t u : Text) (v : Price F) (o : Option (Nested (Price F)))
      → text_eq p.first_currency q.first_currency ≡ false
      → from_view q u (some (prices_after p t v o)) ≡ from_view q u (some (or_nil o))
  unfolding prices_after seconds_after
  other_first p q t u v none h = rw (lookup-insert, h) refl
  other_first p q t u v (some m) h = rw (lookup-insert, h) refl

  known :
      (q : CurrencyPair) (u : Text) (old : Price F) (o : Option (Nested (Price F)))
      → from_view q u o ≡ ok old
      → from_view q u (some (or_nil o)) ≡ ok old
  known q u old none h = cc
  known q u old (some m) h = h

  -- A price that could be read is read unchanged after a price of another exchange, or of a pair with
  -- another first currency, is processed.
  pub get_ticker-process_elsewhere :
      (ts : Tickers F) (n k : Text) (p q : CurrencyPair) (new old : Price F) (t u : Text)
      (d : IsDistinct ts)
      → (text_eq n k && text_eq p.first_currency q.first_currency) ≡ false
      → get_ticker ts k q u ≡ ok old
      → get_ticker (processed ts n p new t d).tickers k q u ≡ ok old
  get_ticker-process_elsewhere ts n k p q new old t u d h g =
      let r = processed ts n p new t d in
      let g' : from_view q u (view k ts) ≡ ok old = sym (get_ticker-view ts k q u d) ∙ g in
      elim (Bool-cases (text_eq n k)) [
        | inl same ↦
            let e : view n ts ≡ view k ts = ap (λ l. view l ts) ((text_eq_iff n k).0 same) in
            get_ticker-view r.tickers k q u r.distinct
            ∙ rw (r.seen k, same)
                (other_first p q t u (stored p new) (view n ts) (rw same at h)
                  ∙ rw e (known q u old (view k ts) g'))
        | inr other ↦ get_ticker-view r.tickers k q u r.distinct ∙ rw (r.seen k, other) g'
      ]
