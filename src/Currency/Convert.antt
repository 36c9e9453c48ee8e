-- ===== src/Currency/Convert.antt =====
-- Conversions at the rates against the US dollar.
use cryptofiend.Prelude.{
  ◌≡◌, refl, inl, inr, true, false, Option, none, some, List, [], arith, if◌then◌else◌, Bool-cases,
  Text, text_eq, text_eq_iff, is_some, ◌>>=◌,
}
use cryptofiend.Text.{to_upper}
use cryptofiend.GoMap.{GoMap, lookup, lookup-nil}
use cryptofiend.Float.{Float}
use cryptofiend.Currency.{
  Currencies, YahooResponse, Result, err, request_failed, usd, found, convert_at, convert_fixer,
  convert_currency, fetch_fixer_currency_data,
}

-- The rate of a currency against the dollar, which is one for the dollar itself.
abbrev pub rate_in : (F : Float) → GoMap F.Num → Text → Option F.Num
rate_in F rates currency = if text_eq currency usd then some (F.of_ℕ 1) else lookup currency rates

-- By way of the dollar, for all currencies alike.
abbrev pub through_usd : (F : Float) → GoMap F.Num → F.Num → Text → Text → Result F.Num
through_usd F rates amount from to = found (do
  result_from ← rate_in F rates from
  result_to ← rate_in F rates to
  some (F.mul (F.div amount result_from) result_to))

module _ (F : Float) (mul-one : (a : F.Num) → F.mul a (F.of_ℕ 1) ≡ a)
    (div-one : (a : F.Num) → F.div a (F.of_ℕ 1) ≡ a)
    (mul_comm : (a b : F.Num) → F.mul a b ≡ F.mul b a) where
  convert_at-through :
      (rates : GoMap F.Num) (amount : F.Num) (from to : Text) (rf rt : Option F.Num)
      → lookup from rates ≡ rf
      → lookup to rates ≡ rt
      → text_eq from to ≡ false
      → convert_at F rates amount from to ≡ through_usd F rates amount from to
  unfolding convert_at
  convert_at-through rates amount from to none none f t n =
      ground (arith, text_eq_iff from usd, text_eq_iff to usd, text_eq_iff from to)
  convert_at-through rates amount from to none (some b) f t n = ground (
    arith,
    text_eq_iff from usd,
    text_eq_iff to usd,
    text_eq_iff from to,
    div-one amount,
    mul_comm b amount,
  )
  convert_at-through rates amount from to (some a) none f t n = ground (
    arith,
    text_eq_iff from usd,
    text_eq_iff to usd,
    text_eq_iff from to,
    mul-one (F.div amount a),
  )
  convert_at-through rates amount from to (some a) (some b) f t n = ground (
    arith,
    text_eq_iff from usd,
    text_eq_iff to usd,
    text_eq_iff from to,
    mul-one (F.div amount a),
    div-one amount,
    mul_comm b amount,
  )

  convert_at-through_usd :
      (rates : GoMap F.Num) (amount : F.Num) (from to : Text)
      → text_eq from to ≡ false
      → convert_at F rates amount from to ≡ through_usd F rates amount from to
  convert_at-through_usd rates amount from to n =
      convert_at-through rates amount from to (lookup from rates) (lookup to rates) refl refl n

  -- If dividing by one and multiplying by one change nothing, and products commute: the conversion of two
  -- different currencies at the rates of Fixer, where it can fetch them, is that by way of the dollar, at
  -- the stored rates if they have the first currency, else at the fetched ones, which are then stored.
  pub convert_currency-through_usd :
      (yahoo : List Text → Option (YahooResponse F)) (rates : GoMap F.Num) (s : Currencies F)
      (amount : F.Num) (from to : Text)
      → s.yahoo_enabled ≡ false
      → text_eq (to_upper from) (to_upper to) ≡ false
      → let used =
          if is_some (lookup (to_upper from) s.currency_store_fixer)
          then s.currency_store_fixer
          else rates in
        convert_currency yahoo (some rates) s amount from to
        ≡ some (
          record s { currency_store_fixer = used },
          through_usd F used amount (to_upper from) (to_upper to),
        )
  unfolding convert_currency convert_fixer fetch_fixer_currency_data
  convert_currency-through_usd yahoo rates s amount from to y n =
      elim (Bool-cases (is_some (lookup (to_upper from) s.currency_store_fixer))) [
        | inl stored ↦
            rw
              (
                n,
                y,
                stored,
                convert_at-through_usd s.currency_store_fixer amount (to_upper from) (to_upper to)
                    n,
              )
              refl
        | inr missing ↦
            rw (n, y, missing, convert_at-through_usd rates amount (to_upper from) (to_upper to) n)
              refl
      ]

-- Where Fixer is used, no rate of the dollar is stored, and a conversion of two different currencies needs
-- no request, since the rate of the first is stored: after a conversion from US dollars to another
-- currency that cannot fetch the rates, which fails and leaves no stored rate, the same conversion fails
-- too, as long as the rates cannot be fetched.
pub convert_currency_forgets :
    {F : Float} (yahoo : List Text → Option (YahooResponse F)) (s : Currencies F) (a b : F.Num)
    (dollar other from to : Text)
    → s.yahoo_enabled ≡ false
    → to_upper dollar ≡ usd
    → text_eq usd (to_upper other) ≡ false
    → lookup usd s.currency_store_fixer ≡ none
    → text_eq (to_upper from) (to_upper to) ≡ false
    → is_some (lookup (to_upper from) s.currency_store_fixer) ≡ true
    → let left : Currencies F = record s { currency_store_fixer = [] } in
      (convert_currency yahoo none s b from to
        ≡ some (s, convert_at F s.currency_store_fixer b (to_upper from) (to_upper to)))
      × (convert_currency yahoo none s a dollar other ≡ some (left, err request_failed))
      × (convert_currency yahoo none left b from to ≡ some (left, err request_failed))
unfolding convert_currency convert_fixer fetch_fixer_currency_data
convert_currency_forgets {F} yahoo s a b dollar other from to y f n m d k = (
  rw (d, y, k) refl,
  rw (f, n, y, m) refl,
  rw (d, y, lookup-nil {V = F.Num} (to_upper from)) refl,
)
