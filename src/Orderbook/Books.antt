-- ===== src/Orderbook/Books.antt =====
-- The store of order books: it implements a map from pairs, up to case and delimiter, and types.
use cryptofiend.Prelude.{
  ℕ, ◌≡◌, refl, sym, ap, ◌∙◌, inl, inr, true, false, ◌&&◌, Option, none, some, arith, Bool-cases,
  Text, text_eq, text_eq_iff, text_eq_refl,
}
use cryptofiend.Text.{to_upper, to_lower}
use cryptofiend.Text.Case.{to_lower-to_upper, to_upper-to_lower, to_lower_idem}
use cryptofiend.GoMap.{lookup-insert, insert, lookup, GoMap, lookup-nil}
use cryptofiend.GoMap.Nested.{or_nil, lookup-put, entry-put, put, entry}
use cryptofiend.Float.{Float}
use cryptofiend.Pair.{equal, CurrencyPair, pair}
use cryptofiend.Orderbook.{
  or_zero, primary_currency_not_found, secondary_currency_not_found, err, Result, Base, Books,
  Orderbooks, ok, format_currency_pair, get_orderbook, process_orderbook,
}

-- What a book is stored as.
unfoldable pub stored : {F : Float} → CurrencyPair → Base F → ℕ → Base F
stored p b now = record b { currency_pair = pair (format_currency_pair p); last_updated = now }

module _ {F : Float} (o : Books F) (p : CurrencyPair) where
  -- Once the books are made `ProcessOrderbook` does not panic, and puts the book at the pair's lower-case currencies.
  pub process_orderbook-put :
      (b : Base F) (t : Text) (now : ℕ)
      → process_orderbook (some o) p b t now
        ≡ some (
            some
              (put (to_lower p.first_currency) (to_lower p.second_currency) t (stored p b now) o))
  unfolding process_orderbook put stored
  process_orderbook-put b t now = ground (
    arith,
    to_lower_idem p.first_currency,
    to_lower_idem p.second_currency,
    lookup-nil {V = GoMap (Base F)} (to_lower p.second_currency),
    lookup-nil {V = Base F} t,
  )

  -- A book is found under its pair's lower-case currencies.
  get_orderbook-entry :
      (t : Text) (b : Base F)
      → entry (to_lower p.first_currency) (to_lower p.second_currency) t o ≡ some b
      → get_orderbook (some o) p t ≡ ok b
  unfolding get_orderbook entry
  get_orderbook-entry t b h = ground (
    arith,
    to_lower_idem p.first_currency,
    to_lower_idem p.second_currency,
    lookup-nil {V = GoMap (Base F)} (to_lower p.second_currency),
    lookup-nil {V = Base F} t,
  )

-- Books that are not made have no currency, and cannot be written.
pub process_orderbook-unmade :
    {F : Float} (p : CurrencyPair) (b : Base F) (t : Text) (now : ℕ)
    → process_orderbook none p b t now ≡ none
unfolding process_orderbook
process_orderbook-unmade {F} p b t now =
    ground (arith, lookup-nil {V = GoMap (GoMap (Base F))} (to_lower (to_lower p.first_currency)))

pub get_orderbook-unmade :
    {F : Float} (p : CurrencyPair) (t : Text)
    → get_orderbook {F = F} none p t ≡ err primary_currency_not_found
unfolding get_orderbook
get_orderbook-unmade {F} p t =
    ground (arith, lookup-nil {V = GoMap (GoMap (Base F))} (to_lower (to_lower p.first_currency)))

-- The answer of `GetOrderbook`, level by level.
abbrev from_types : {F : Float} → Text → Text → Text → Option (GoMap (Base F)) → Result (Base F)
from_types f s t none = err (secondary_currency_not_found f s)
from_types {F} f s t (some b) = ok (or_zero F (lookup t b))

abbrev from_seconds :
    {F : Float} → Text → Text → Text → Option (GoMap (GoMap (Base F))) → Result (Base F)
from_seconds f s t none = err primary_currency_not_found
from_seconds f s t (some a) = from_types f s t (lookup s a)

-- `GetOrderbook` reads the maps at the pair's lower-case currencies: an error names the first level
-- that lacks the currency, and a type that is missing reads as the zero book.
get_orderbook-levels :
    {F : Float} (o : Books F) (p : CurrencyPair) (t : Text)
    → get_orderbook (some o) p t
      ≡ from_seconds
          (to_lower p.first_currency)
          (to_lower p.second_currency)
          t
          (lookup (to_lower p.first_currency) o)
unfolding get_orderbook entry
get_orderbook-levels {F} o p t = ground (
  arith,
  to_lower_idem p.first_currency,
  to_lower_idem p.second_currency,
  lookup-nil {V = GoMap (Base F)} (to_lower p.second_currency),
)

-- `Equal` compares the keys of the maps.
equal-keys :
    (p q : CurrencyPair)
    → equal p q ≡ (
        text_eq (to_lower p.first_currency) (to_lower q.first_currency)
        && text_eq (to_lower p.second_currency) (to_lower q.second_currency))
unfolding equal
equal-keys p q = ground (
  arith,
  text_eq_iff (to_upper p.first_currency) (to_upper q.first_currency),
  text_eq_iff (to_upper p.second_currency) (to_upper q.second_currency),
  text_eq_iff (to_lower p.first_currency) (to_lower q.first_currency),
  text_eq_iff (to_lower p.second_currency) (to_lower q.second_currency),
  to_upper-to_lower p.first_currency,
  to_upper-to_lower q.first_currency,
  to_upper-to_lower p.second_currency,
  to_upper-to_lower q.second_currency,
  to_lower-to_upper p.first_currency,
  to_lower-to_upper q.first_currency,
  to_lower-to_upper p.second_currency,
  to_lower-to_upper q.second_currency,
)

-- Once the books are made, by `Init`: after `ProcessOrderbook`, which then does not panic,
-- `GetOrderbook` returns the book that was given, with its name and time set, for every pair that
-- `Equal` does not tell from the one given. On books that are not made every `ProcessOrderbook` panics.
pub get_orderbook-process_orderbook :
    {F : Float} (o : Books F) (p q : CurrencyPair) (b : Base F) (t : Text) (now : ℕ)
    → equal p q ≡ true
    → ((o' : Books F) × (process_orderbook (some o) p b t now ≡ some (some o'))
        × (get_orderbook (some o') q t ≡ ok (stored p b now)))
      × (process_orderbook {F = F} none p b t now ≡ none)
get_orderbook-process_orderbook o p q b t now h = (
  (
    put (to_lower p.first_currency) (to_lower p.second_currency) t (stored p b now) o,
    process_orderbook-put o p b t now,
    get_orderbook-entry _ q t (stored p b now)
        (rw (entry-put, text_eq_refl t) (ground (arith, equal-keys p q))),
  ),
  process_orderbook-unmade p b t now,
)

module _ {F : Float} (f f' s s' t u : Text) (v c : Base F) where
  -- A write of another type, or under another second currency, leaves the book.
  other_second :
      (a : GoMap (GoMap (Base F)))
      → (text_eq s s' && text_eq t u) ≡ false
      → from_types f' s' u (lookup s' a) ≡ ok c
      → from_types f' s' u (lookup s' (insert s (insert t v (or_nil (lookup s a))) a)) ≡ ok c
  other_second a h found = elim (Bool-cases (text_eq s s')) [
    | inl same ↦
        let e : lookup s' a ≡ lookup s a = ap (λ k. lookup k a) (sym ((text_eq_iff s s').0 same)) in
        let e' : lookup s' (insert s (insert t v (or_nil (lookup s a))) a)
            ≡ some (insert t v (or_nil (lookup s a))) =
          lookup-insert s s' (insert t v (or_nil (lookup s a))) a ∙ rw same refl in
        rw e' (ground (arith, e, lookup-insert t u v (or_nil (lookup s a))))
    | inr other ↦ rw (lookup-insert, other) found
  ]

  in_types :
      (x : Option (GoMap (GoMap (Base F))))
      → from_seconds f' s' u x ≡ ok c
      → from_types f' s' u (lookup s' (or_nil x)) ≡ ok c
  in_types none h = cc
  in_types (some a) h = h

  -- So does one under another first currency.
  other_first :
      (o : Books F)
      → (text_eq f f' && (text_eq s s' && text_eq t u)) ≡ false
      → from_seconds f' s' u (lookup f' o) ≡ ok c
      → from_seconds f' s' u (lookup f' (put f s t v o)) ≡ ok c
  other_first o h found = elim (Bool-cases (text_eq f f')) [
    | inl same ↦
        let e : lookup f' o ≡ lookup f o = ap (λ k. lookup k o) (sym ((text_eq_iff f f').0 same)) in
        rw (lookup-put, same)
          (other_second (or_nil (lookup f o)) (rw same at h)
            (in_types (lookup f o) (rw e at found)))
    | inr other ↦ rw (lookup-put, other) found
  ]

-- A book that could be read is read unchanged after a book for another pair or of another type is
-- processed.
pub get_orderbook-process_other :
    {F : Float} (o : Orderbooks F) (p q : CurrencyPair) (b c : Base F) (t u : Text) (now : ℕ)
    → (equal p q && text_eq t u) ≡ false
    → get_orderbook o q u ≡ ok c
    → (o' : Orderbooks F) × (process_orderbook o p b t now ≡ some o')
      × (get_orderbook o' q u ≡ ok c)
get_orderbook-process_other {F} none p q b c t u now h found =
    let unmade : get_orderbook {F = F} none q u ≡ err primary_currency_not_found =
      get_orderbook-unmade q u in
    cc
get_orderbook-process_other {F} (some o) p q b c t u now h found = (
  some (put (to_lower p.first_currency) (to_lower p.second_currency) t (stored p b now) o),
  process_orderbook-put o p b t now,
  rw get_orderbook-levels (
      other_first (to_lower p.first_currency) (to_lower q.first_currency)
        (to_lower p.second_currency) (to_lower q.second_currency) t u (stored p b now) c o
        (ground (arith, equal-keys p q)) (rw get_orderbook-levels at found)),
)
