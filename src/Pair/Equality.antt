-- ===== src/Pair/Equality.antt =====
-- Equality, formatting and inversion of currency pairs.
use cryptofiend.Prelude.{
  ◌≡◌, refl, ◌↔◌, Bool, true, false, [], arith, Text, text_eq_iff, text_eq_comm,
}
use cryptofiend.Text.{to_upper}
use cryptofiend.Text.Case.{to_upper_idem, to_lower_idem, to_upper-to_lower, to_lower-to_upper}
use cryptofiend.Pair.{CurrencyPair, format_pair, equal, invert}

-- Two pairs are equal for `Equal` exactly when they format to one pair, in upper case with any
-- delimiter: the spelling's case and the pairs' own delimiters do not count.
pub equal-iff-format_pair :
    (p q : CurrencyPair) (d : Text)
    → (equal p q ≡ true) ↔ (format_pair p d true ≡ format_pair q d true)
unfolding equal format_pair
equal-iff-format_pair p q d = ground (
  arith,
  text_eq_iff (to_upper p.first_currency) (to_upper q.first_currency),
  text_eq_iff (to_upper p.second_currency) (to_upper q.second_currency),
)

-- The same in lower case, the format of the order books.
pub equal-iff-format_pair_lower :
    (p q : CurrencyPair) (d : Text)
    → (equal p q ≡ true) ↔ (format_pair p d false ≡ format_pair q d false)
unfolding equal format_pair
equal-iff-format_pair_lower p q d = ground (
  arith,
  text_eq_iff (to_upper p.first_currency) (to_upper q.first_currency),
  text_eq_iff (to_upper p.second_currency) (to_upper q.second_currency),
  to_upper-to_lower p.first_currency,
  to_upper-to_lower q.first_currency,
  to_upper-to_lower p.second_currency,
  to_upper-to_lower q.second_currency,
  to_lower-to_upper p.first_currency,
  to_lower-to_upper q.first_currency,
  to_lower-to_upper p.second_currency,
  to_lower-to_upper q.second_currency,
)

-- Formatting again replaces the first format: only the last delimiter and case count.
pub format_pair-format_pair :
    (p : CurrencyPair) (d e : Text) (u v : Bool)
    → format_pair (format_pair p d u) e v ≡ format_pair p e v
unfolding format_pair
format_pair-format_pair p d e u v = ground (
  arith,
  to_upper_idem p.first_currency,
  to_upper_idem p.second_currency,
  to_lower_idem p.first_currency,
  to_lower_idem p.second_currency,
  to_upper-to_lower p.first_currency,
  to_upper-to_lower p.second_currency,
  to_lower-to_upper p.first_currency,
  to_lower-to_upper p.second_currency,
)

-- A format of a pair is a pair that `Equal` does not tell from it.
pub equal-format_pair :
    (p : CurrencyPair) (d : Text) (u : Bool) → equal (format_pair p d u) p ≡ true
equal-format_pair p d u =
    (equal-iff-format_pair (format_pair p d u) p d).1 (format_pair-format_pair p d d u true)

-- `Invert` is its own inverse, and keeps what `Equal` sees.
pub equal-invert :
    (p q : CurrencyPair) → (invert (invert p) ≡ p) × (equal (invert p) (invert q) ≡ equal p q)
unfolding invert equal
equal-invert p q = ground arith

pub equal_refl : (p : CurrencyPair) → equal p p ≡ true
equal_refl p = (equal-iff-format_pair p p []).1 refl

pub equal_comm : (p q : CurrencyPair) → equal p q ≡ equal q p
unfolding equal
equal_comm p q = ground (
  arith,
  text_eq_comm (to_upper p.first_currency) (to_upper q.first_currency),
  text_eq_comm (to_upper p.second_currency) (to_upper q.second_currency),
)

pub equal_trans : (p q r : CurrencyPair) → equal p q ≡ true → equal q r ≡ equal p r
unfolding equal
equal_trans p q r h = ground (
  arith,
  text_eq_iff (to_upper p.first_currency) (to_upper q.first_currency),
  text_eq_iff (to_upper p.second_currency) (to_upper q.second_currency),
  text_eq_iff (to_upper q.first_currency) (to_upper r.first_currency),
  text_eq_iff (to_upper q.second_currency) (to_upper r.second_currency),
  text_eq_iff (to_upper p.first_currency) (to_upper r.first_currency),
  text_eq_iff (to_upper p.second_currency) (to_upper r.second_currency),
)
