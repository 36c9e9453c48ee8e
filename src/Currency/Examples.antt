-- ===== src/Currency/Examples.antt =====
-- Runs of the conversion and of the lists, and the theorems at concrete currencies.
use cryptofiend.Prelude.{
  ℕ, ◌*◌, ◌/◌, ◌≡◌, refl, ◌⊎◌, true, false, Option, none, some, List, [], ◌∷◌, arith, Text, codes,
  text_eq, is_some, All,
}
use cryptofiend.Text.{join, join, to_upper, split}
use cryptofiend.GoMap.{lookup}
use cryptofiend.Float.{whole}
use cryptofiend.Currency.{
  Currencies, YahooResponse, ok, err, request_failed, usd, convert_at, convert_currency,
  make_currency_pairs, check_and_add_currency, contains_separator, is_default_currency,
}
use cryptofiend.Currency.Lists.{IsDistinct, SameKind, check_and_add_currency-IsDistinct}
use cryptofiend.Currency.Convert.{
  through_usd, convert_currency-through_usd, convert_currency_forgets,
}

abbrev no_yahoo : List Text → Option (YahooResponse whole)
no_yahoo pairs = none

abbrev stored : Currencies whole
stored = record {
  currency_store = none;
  currency_store_fixer = (codes "JPY", 4) ∷ (codes "AUD", 2) ∷ [];
  base_currencies = codes "USD,AUD";
  crypto_currencies = codes "BTC";
  yahoo_enabled = false;
}

aud_to_jpy :
    convert_currency no_yahoo none stored 6 (codes "aud") (codes "JPY") ≡ some (stored, ok 12)
unfolding convert_currency to_upper lookup text_eq
aud_to_jpy = refl

pairs_run : make_currency_pairs (codes "USD,AUD") ≡ codes "USDAUD,AUDUSD"
unfolding make_currency_pairs split text_eq join
pairs_run = refl

added_run : check_and_add_currency (codes "USD" ∷ []) (codes "AUD") ≡ codes "USD" ∷ codes "AUD" ∷ []
unfolding check_and_add_currency is_default_currency text_eq
added_run = refl

-- A part of a currency, and even an empty text, counts as a default currency.
part_run : is_default_currency (codes "D,A") ≡ true
unfolding is_default_currency
part_run = refl

separators_run : contains_separator (codes "a_b-c") ≡ (true, codes "-,_")
unfolding contains_separator join
separators_run = refl

check_and_add_currency-IsDistinct_example :
    IsDistinct (check_and_add_currency (codes "USD" ∷ []) (codes "AUD"))
    × ((check_and_add_currency (codes "USD" ∷ []) (codes "AUD") ≡ codes "USD" ∷ [])
        ⊎ ((check_and_add_currency (codes "USD" ∷ []) (codes "AUD")
              ≡ codes "USD" ∷ codes "AUD" ∷ [])
            × All (SameKind (codes "AUD")) (codes "USD" ∷ [])))
check_and_add_currency-IsDistinct_example =
    check_and_add_currency-IsDistinct (codes "USD" ∷ []) (codes "AUD") (refl, tt)

mul-one : (a : ℕ) → a * 1 ≡ a
mul-one a = omega arith

div-one : (a : ℕ) → a / 1 ≡ a
div-one a = omega arith

mul_comm : (a b : ℕ) → a * b ≡ b * a
mul_comm a b = grind arith

convert_currency-through_usd_example :
    convert_currency no_yahoo (some []) stored 6 (codes "AUD") (codes "JPY")
    ≡ some (stored, through_usd whole stored.currency_store_fixer 6 (codes "AUD") (codes "JPY"))
unfolding to_upper lookup text_eq
convert_currency-through_usd_example =
    convert_currency-through_usd whole mul-one div-one mul_comm no_yahoo [] stored 6 (codes "AUD")
      (codes "JPY") refl refl

usd_absent : lookup usd stored.currency_store_fixer ≡ none
unfolding lookup text_eq
usd_absent = refl

other_currency : text_eq usd (to_upper (codes "JPY")) ≡ false
unfolding text_eq to_upper
other_currency = refl

usd_upper : to_upper (codes "usd") ≡ usd
unfolding to_upper
usd_upper = refl

two_currencies : text_eq (to_upper (codes "AUD")) (to_upper (codes "JPY")) ≡ false
unfolding text_eq to_upper
two_currencies = refl

aud_known : is_some (lookup (to_upper (codes "AUD")) stored.currency_store_fixer) ≡ true
unfolding lookup text_eq to_upper
aud_known = refl

abbrev nothing_stored : Currencies whole
nothing_stored = record stored { currency_store_fixer = [] }

convert_currency_forgets_example :
    (convert_currency no_yahoo none stored 8 (codes "AUD") (codes "JPY")
      ≡ some (
        stored,
        convert_at whole stored.currency_store_fixer 8
            (to_upper (codes "AUD"))
            (to_upper (codes "JPY")),
      ))
    × (convert_currency no_yahoo none stored 6 (codes "usd") (codes "JPY")
        ≡ some (nothing_stored, err request_failed))
    × (convert_currency no_yahoo none nothing_stored 8 (codes "AUD") (codes "JPY")
        ≡ some (nothing_stored, err request_failed))
convert_currency_forgets_example =
    convert_currency_forgets no_yahoo stored 6 8 (codes "usd") (codes "JPY") (codes "AUD")
      (codes "JPY") refl usd_upper other_currency usd_absent two_currencies aud_known
