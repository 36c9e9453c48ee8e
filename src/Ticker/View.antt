-- ===== src/Ticker/View.antt =====
-- The list of tickers as a map from the exchange's name, where no name stands twice, and the lookups
-- of the code in terms of that map.
use cryptofiend.Prelude.{
  ◌≡◌, refl, Bool, true, false, ◌&&◌, Option, none, some, [], ◌∷◌, ◌++◌, arith, if◌then◌else◌, Text,
  text_eq, text_eq_iff, text_eq_comm, is_some, any_of, All, All-append,
}
use cryptofiend.GoMap.{GoMap, lookup, insert}
use cryptofiend.GoMap.Nested.{Nested, or_nil, entry}
use cryptofiend.Float.{Float}
use cryptofiend.Pair.{CurrencyPair, CurrencyItem}
use cryptofiend.Ticker.{
  Result, ok, err, ticker_for_exchange_not_found, primary_currency_not_found,
  secondary_currency_not_found, Price, or_zero, Ticker, Tickers, named, get_ticker_by_exchange,
  first_currency_exists, second_currency_exists, get_ticker, set_first,
}

module _ {F : Float} where
  -- No two tickers are of one exchange.
  abbrev pub IsDistinct : Tickers F → Type 0
  IsDistinct [] = Unit
  IsDistinct (y ∷ r) = All (λ z. text_eq z.exchange_name y.exchange_name ≡ false) r × IsDistinct r

  -- The prices of an exchange.
  abbrev pub view : Text → Tickers F → Option (Nested (Price F))
  view n [] = none
  view n (y ∷ r) = if named n y then some y.price else view n r

  pub get_ticker_by_exchange-view :
      (ts : Tickers F) (n : Text)
      → view n ts ≡ (elim (get_ticker_by_exchange ts n) [ none ↦ none | some y ↦ some y.price ])
  unfolding get_ticker_by_exchange
  get_ticker_by_exchange-view [] n = refl
  get_ticker_by_exchange-view (y ∷ r) n = ground (arith, get_ticker_by_exchange-view r n)

  -- A test of the ticker of an exchange, by a loop over all tickers.
  any_of-absent :
      (test : Ticker F → Bool) (r : Tickers F) (y : Ticker F) (n : Text)
      → All (λ z. text_eq z.exchange_name y.exchange_name ≡ false) r
      → named n y ≡ true
      → any_of (λ z. named n z && test z) r ≡ false
  any_of-absent test [] y n h e = refl
  any_of-absent test (z ∷ r) y n h e = ground (
    arith,
    any_of-absent test r y n h.1,
    text_eq_iff y.exchange_name n,
    text_eq_iff z.exchange_name n,
    text_eq_iff z.exchange_name y.exchange_name,
  )

  abbrev pub on_price : (Nested (Price F) → Bool) → Option (Nested (Price F)) → Bool
  on_price test none = false
  on_price test (some m) = test m

  any_of-view :
      (test : Nested (Price F) → Bool) (ts : Tickers F) (n : Text)
      → IsDistinct ts
      → any_of (λ z. named n z && test z.price) ts ≡ on_price test (view n ts)
  any_of-view test [] n d = refl
  any_of-view test (y ∷ r) n d =
      ground (arith, any_of-absent (λ z. test z.price) r y n d.0, any_of-view test r n d.1)

  unfoldable pub has_first : CurrencyPair → Nested (Price F) → Bool
  has_first p m = is_some (lookup p.first_currency m)

  unfoldable pub has_second : CurrencyPair → Nested (Price F) → Bool
  has_second p m =
      is_some (lookup p.first_currency m)
      && is_some (lookup p.second_currency (or_nil (lookup p.first_currency m)))

  pub first_currency_exists-view :
      (ts : Tickers F) (n : Text) (p : CurrencyPair)
      → IsDistinct ts
      → first_currency_exists ts n p.first_currency ≡ on_price (has_first p) (view n ts)
  unfolding first_currency_exists has_first
  first_currency_exists-view ts n p d = any_of-view (has_first p) ts n d

  pub second_currency_exists-view :
      (ts : Tickers F) (n : Text) (p : CurrencyPair)
      → IsDistinct ts
      → second_currency_exists ts n p ≡ on_price (has_second p) (view n ts)
  unfolding second_currency_exists has_second
  second_currency_exists-view ts n p d = any_of-view (has_second p) ts n d

  -- The answer of `GetTicker` from the prices of the exchange.
  abbrev pub from_types : Text → Option (GoMap (Price F)) → Result (Price F)
  from_types t none = err secondary_currency_not_found
  from_types t (some b) = ok (or_zero F (lookup t b))

  abbrev pub from_seconds :
      CurrencyPair → Text → Option (GoMap (GoMap (Price F))) → Result (Price F)
  from_seconds p t none = err primary_currency_not_found
  from_seconds p t (some a) = from_types t (lookup p.second_currency a)

  abbrev pub from_view : CurrencyPair → Text → Option (Nested (Price F)) → Result (Price F)
  from_view p t none = err ticker_for_exchange_not_found
  from_view p t (some m) = from_seconds p t (lookup p.first_currency m)

  pub get_ticker-view :
      (ts : Tickers F) (n : Text) (p : CurrencyPair) (t : Text)
      → IsDistinct ts
      → get_ticker ts n p t ≡ from_view p t (view n ts)
  unfolding get_ticker entry has_first has_second
  get_ticker-view ts n p t d = ground (
    arith,
    get_ticker_by_exchange-view ts n,
    first_currency_exists-view ts n p d,
    second_currency_exists-view ts n p d,
  )

  -- A write to the ticker of a name, seen in the map of names.
  pub view-set_first :
      (ts : Tickers F) (n k : Text) (c : CurrencyItem) (a : GoMap (GoMap (Price F)))
      → view k (set_first ts n c a) ≡ (
          if text_eq n k
          then (elim (view n ts) [ none ↦ none | some m ↦ some (insert c a m) ])
          else view k ts)
  unfolding set_first
  view-set_first [] n k c a = ground arith
  view-set_first (y ∷ r) n k c a = ground (
    arith,
    view-set_first r n k c a,
    text_eq_iff n k,
    text_eq_iff y.exchange_name n,
    text_eq_iff y.exchange_name k,
  )

  pub view-append :
      (ts : Tickers F) (y : Ticker F) (k : Text)
      → view k (ts ++ y ∷ [])
        ≡ (elim (view k ts) [ none ↦ if named k y then some y.price else none | some m ↦ some m ])
  view-append [] y k = ground arith
  view-append (z ∷ r) y k = ground (arith, view-append r y k)

  -- A write keeps the names.
  names-set_first :
      (ts : Tickers F) (n m : Text) (c : CurrencyItem) (a : GoMap (GoMap (Price F)))
      → All (λ z. text_eq z.exchange_name m ≡ false) ts
      → All (λ z. text_eq z.exchange_name m ≡ false) (set_first ts n c a)
  unfolding set_first
  names-set_first [] n m c a h = tt
  names-set_first (y ∷ r) n m c a h = ground (arith, names-set_first r n m c a h.1)

  pub set_first-IsDistinct :
      (ts : Tickers F) (n : Text) (c : CurrencyItem) (a : GoMap (GoMap (Price F)))
      → IsDistinct ts
      → IsDistinct (set_first ts n c a)
  unfolding set_first
  set_first-IsDistinct [] n c a d = tt
  set_first-IsDistinct (y ∷ r) n c a d =
      ground (arith, names-set_first r n y.exchange_name c a d.0, set_first-IsDistinct r n c a d.1)

  names-append :
      (ts : Tickers F) (y : Ticker F) (m : Text)
      → All (λ z. text_eq z.exchange_name m ≡ false) ts
      → text_eq y.exchange_name m ≡ false
      → All (λ z. text_eq z.exchange_name m ≡ false) (ts ++ y ∷ [])
  names-append ts y m h e = All-append _ ts (y ∷ []) h (e, tt)

  pub append-IsDistinct :
      (ts : Tickers F) (y : Ticker F)
      → IsDistinct ts
      → view y.exchange_name ts ≡ none
      → IsDistinct (ts ++ y ∷ [])
  append-IsDistinct [] y d e = (tt, tt)
  append-IsDistinct (z ∷ r) y d e = (
    names-append r y z.exchange_name d.0
        (ground (arith, text_eq_comm z.exchange_name y.exchange_name)),
    append-IsDistinct r y d.1 (ground arith),
  )
