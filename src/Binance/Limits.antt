-- ===== src/Binance/Limits.antt =====
-- exchanges/exchange_limits.go, and the limits in exchanges/binance/binance_wrapper.go.
use cryptofiend.Prelude.{ℕ, false, Option, none, some, codes}
use cryptofiend.GoMap.{GoMap, lookup}
use cryptofiend.Float.{Float}
use cryptofiend.Pair.{CurrencyPair, display}
use cryptofiend.Binance.{SymbolDetails, Binance}

-- What the interface ILimits gives for a pair; 0.00000001 is `smallest`.
pub record Limits (F : Float) : Type 0 where
  pub price_decimal_places : CurrencyPair → ℕ
  pub amount_decimal_places : CurrencyPair → ℕ
  pub min_amount : CurrencyPair → F.Num
  pub min_total : CurrencyPair → F.Num

unfoldable pub default_exchange_limits : (F : Float) → F.Num → Limits F
default_exchange_limits F smallest = record {
  price_decimal_places = λ p. 8;
  amount_decimal_places = λ p. 8;
  min_amount = λ p. smallest;
  min_total = λ p. F.zero;
}

module _ {F : Float} where
  abbrev pub details : GoMap (SymbolDetails F) → CurrencyPair → Option (SymbolDetails F)
  details table p = lookup (display p (codes "/") false) table

  unfoldable pub get_price_decimal_places : GoMap (SymbolDetails F) → CurrencyPair → ℕ
  get_price_decimal_places table p = elim (details table p) [
    | none ↦ 0
    | some v ↦ v.price_decimal_places
  ]

  unfoldable pub get_amount_decimal_places : GoMap (SymbolDetails F) → CurrencyPair → ℕ
  get_amount_decimal_places table p = elim (details table p) [
    | none ↦ 0
    | some v ↦ v.amount_decimal_places
  ]

  unfoldable pub get_min_amount : GoMap (SymbolDetails F) → CurrencyPair → F.Num
  get_min_amount table p = elim (details table p) [ none ↦ F.zero | some v ↦ v.min_amount ]

  unfoldable pub get_min_total : GoMap (SymbolDetails F) → CurrencyPair → F.Num
  get_min_total table p = elim (details table p) [ none ↦ F.zero | some v ↦ v.min_total ]

  unfoldable pub get_limits : Binance F → Limits F
  unfolding get_price_decimal_places get_amount_decimal_places get_min_amount get_min_total
  get_limits b = record {
    price_decimal_places = get_price_decimal_places b.symbol_details_map;
    amount_decimal_places = get_amount_decimal_places b.symbol_details_map;
    min_amount = get_min_amount b.symbol_details_map;
    min_total = get_min_total b.symbol_details_map;
  }
