-- ===== src/Currency.antt =====
-- currency/currency.go: the lists of currencies, and the conversion at the rates of one of two services.
-- The package variables are a record that is passed in and out. What a service answers is an argument,
-- `none` where the request or its JSON fails. A write to a nil map or an index out of range is `none`.
pub mod Lists
pub mod Convert
pub mod Examples
use cryptofiend.Prelude.{
  ℕ, zero, suc, Bool, true, false, not, Option, none, some, List, [], ◌∷◌, ◌++◌, ◌==◌,
  if◌then◌else◌, Text, codes, text_eq, is_empty, is_some, length, take, drop, keep_if, any_of,
  ◌>>=◌,
}
use cryptofiend.Text.{to_upper, contains, split, join}
use cryptofiend.GoMap.{GoMap, lookup, insert}
use cryptofiend.Float.{Float}

abbrev pub comma : Text
comma = codes ","

abbrev pub usd : Text
usd = codes "USD"

-- The rate's other fields are not read.
pub record Rate (F : Float) : Type 0 where
  pub id : Text
  pub rate : F.Num

-- The count and the rates of a YahooJSONResponse.
pub record YahooResponse (F : Float) : Type 0 where
  pub count : ℕ
  pub rates : List (Rate F)

-- The package variables; `currency_store` is `none` while it is nil. `currency_store_fixer` is never
-- written by key, so that there a nil map is an empty one.
pub record Currencies (F : Float) : Type 0 where
  pub currency_store : Option (GoMap (Rate F))
  pub currency_store_fixer : GoMap F.Num
  pub base_currencies : Text
  pub crypto_currencies : Text
  pub yahoo_enabled : Bool

pub data CurrencyError : Type 0 where
  request_failed zero_count currency_not_found : CurrencyError

pub data Result {ℓ} (A : Type ℓ) : Type ℓ where
  ok : A → Result A
  err : CurrencyError → Result A

abbrev pub default_currencies : Text
default_currencies = codes "USD,AUD,EUR,CNY"

abbrev pub default_crypto_currencies : Text
default_crypto_currencies = codes "BTC,LTC,ETH,DOGE,DASH,XRP,XMR"

unfoldable pub is_default_currency : Text → Bool
unfolding contains to_upper
is_default_currency currency = contains default_currencies (to_upper currency)

unfoldable pub is_default_cryptocurrency : Text → Bool
unfolding contains to_upper
is_default_cryptocurrency currency = contains default_crypto_currencies (to_upper currency)

-- The separators that a text contains, joined by commas.
unfoldable pub contains_separator : Text → Bool × Text
unfolding contains
contains_separator input =
    let found = keep_if (λ x. contains input x) (codes "-" ∷ codes "_" ∷ []) in
    if is_empty found then (false, []) else (true, join found comma)

unfoldable pub contains_base_currency_index : List Text → Text → Bool × Text
unfolding contains
contains_base_currency_index [] currency = (false, [])
contains_base_currency_index (x ∷ r) currency =
    if contains currency x then (true, x) else contains_base_currency_index r currency

unfoldable pub contains_base_currency : List Text → Text → Bool
unfolding contains
contains_base_currency base_currencies currency = any_of (λ x. contains currency x) base_currencies

-- The loop of `CheckAndAddCurrency`: whether it ends without a return.
unfoldable pub passes : List Text → Text → Bool
passes [] check = true
passes (x ∷ r) check =
    let rest = passes r check in
    if is_default_currency x
    then if is_default_currency check then if text_eq check x then false else rest else false
    else if is_default_cryptocurrency x
    then if is_default_cryptocurrency check then if text_eq check x then false else rest else false
    else false

unfoldable pub check_and_add_currency : List Text → Text → List Text
unfolding passes
check_and_add_currency input check = if passes input check then input ++ check ∷ [] else input

-- The inner loop of `MakecurrencyPairs`.
abbrev pub pairs_of : List Text → Text → List Text
pairs_of [] currency = []
pairs_of (x ∷ r) currency =
    if not (text_eq currency x) then (currency ++ x) ∷ pairs_of r currency else pairs_of r currency

abbrev pub all_pairs : List Text → List Text → List Text
all_pairs [] currencies = []
all_pairs (x ∷ r) currencies = pairs_of currencies x ++ all_pairs r currencies

unfoldable pub make_currency_pairs : Text → Text
make_currency_pairs supported_currencies =
    let currencies = split supported_currencies comma in
    join (all_pairs currencies currencies) comma

-- A missing key is the error.
abbrev pub found {ℓ} : {A : Type ℓ} → Option A → Result A
found none = err currency_not_found
found (some x) = ok x

module _ (F : Float) where
  -- The conversion at stored rates against the US dollar, which is not stored itself.
  unfoldable pub convert_at : GoMap F.Num → F.Num → Text → Text → Result F.Num
  convert_at rates amount from to =
      if text_eq to usd
      then found (do rate ← lookup from rates; some (F.div amount rate))
      else if text_eq from usd
      then found (do rate ← lookup to rates; some (F.mul rate amount))
      else found (do
        result_from ← lookup from rates
        result_to ← lookup to rates
        some (F.mul (F.div amount result_from) result_to))

module _ {F : Float} where
  unfoldable pub set_provider : Currencies F → Bool → Currencies F
  set_provider s yahoo_enabled =
      if yahoo_enabled
      then record s { yahoo_enabled = true }
      else record s { yahoo_enabled = false }

  unfoldable pub swap_provider : Currencies F → Currencies F
  swap_provider s =
      if s.yahoo_enabled
      then record s { yahoo_enabled = false }
      else record s { yahoo_enabled = true }

  unfoldable pub get_provider : Currencies F → Text
  get_provider s = if s.yahoo_enabled then codes "yahoo" else codes "fixer"

  unfoldable pub is_fiat_currency : Currencies F → Text → Bool
  unfolding contains to_upper
  is_fiat_currency s currency =
      if is_empty s.base_currencies then false else contains s.base_currencies (to_upper currency)

  unfoldable pub is_cryptocurrency : Currencies F → Text → Bool
  unfolding contains to_upper
  is_cryptocurrency s currency =
      if is_empty s.crypto_currencies
      then false
      else contains s.crypto_currencies (to_upper currency)

  -- The loop over the rates; the second argument is the number of rounds.
  abbrev pub store_rates : GoMap (Rate F) → ℕ → List (Rate F) → Option (GoMap (Rate F))
  store_rates store zero rates = some store
  store_rates store (suc n) [] = none
  store_rates store (suc n) (r ∷ rates) = store_rates (insert r.id r store) n rates

  -- The second component of the results says whether there was no error.
  unfoldable pub fetch_fixer_currency_data :
      Option (GoMap F.Num) → Currencies F → Currencies F × Bool
  fetch_fixer_currency_data none s = (record s { currency_store_fixer = [] }, false)
  fetch_fixer_currency_data (some rates) s = (record s { currency_store_fixer = rates }, true)

  unfoldable pub fetch_yahoo_currency_data :
      (List Text → Option (YahooResponse F))
      → Currencies F
      → List Text
      → Option (Currencies F × Option CurrencyError)
  fetch_yahoo_currency_data yahoo s currency_pairs = elim (yahoo currency_pairs) [
    | none ↦ some (s, some request_failed)
    | some resp ↦ if resp.count == 0 then some (s, some zero_count) else (do
      store ← s.currency_store
      store' ← store_rates store resp.count resp.rates
      some (record s { currency_store = some store' }, none))
  ]

  unfoldable pub query_yahoo_currency_values :
      (List Text → Option (YahooResponse F))
      → Currencies F
      → Text
      → Option (Currencies F × Option CurrencyError)
  unfolding fetch_yahoo_currency_data
  query_yahoo_currency_values yahoo s currencies =
      fetch_yahoo_currency_data yahoo (record s { currency_store = some [] })
        (split (make_currency_pairs currencies) comma)

  unfoldable pub seed_currency_data :
      (List Text → Option (YahooResponse F))
      → Option (GoMap F.Num)
      → Currencies F
      → Text
      → Option (Currencies F × Option CurrencyError)
  unfolding query_yahoo_currency_values
  seed_currency_data yahoo fixer s fiat_currencies =
      let fiat = if is_empty fiat_currencies then default_currencies else fiat_currencies in
      let (s', fetched) = fetch_fixer_currency_data fixer s in
      if s.yahoo_enabled
      then query_yahoo_currency_values yahoo s fiat
      else some (s', if fetched then none else some request_failed)

  abbrev pub or_nil : Option (GoMap (Rate F)) → GoMap (Rate F)
  or_nil none = []
  or_nil (some store) = store

  -- The conversion at the rates of Yahoo, at what is stored after a possible query.
  abbrev pub at_rate : F.Num → Option (Rate F) → Result F.Num
  at_rate amount none = err currency_not_found
  at_rate amount (some r) = ok (F.mul amount r.rate)

  unfoldable pub convert_yahoo :
      (List Text → Option (YahooResponse F))
      → Option (GoMap F.Num)
      → Currencies F
      → F.Num
      → Text
      → Text
      → Option (Currencies F × Result F.Num)
  unfolding seed_currency_data
  convert_yahoo yahoo fixer s amount from to =
      let currency = from ++ to in
      let seeds = take (length from) currency ++ (comma ++ drop (length to) currency) in
      if is_some (lookup currency (or_nil s.currency_store))
      then some (s, at_rate amount (lookup currency (or_nil s.currency_store)))
      else (do
        seeded ← seed_currency_data yahoo fixer s seeds
        some (elim seeded.1 [
          | some error ↦ (seeded.0, err error)
          | none ↦ (seeded.0, at_rate amount (lookup currency (or_nil seeded.0.currency_store)))
        ]))

  unfoldable pub convert_fixer :
      Option (GoMap F.Num) → Currencies F → F.Num → Text → Text → Currencies F × Result F.Num
  unfolding fetch_fixer_currency_data convert_at
  convert_fixer fixer s amount from to =
      let (s', fetched) = fetch_fixer_currency_data fixer s in
      if is_some (lookup from s.currency_store_fixer)
      then (s, convert_at F s.currency_store_fixer amount from to)
      else if not fetched
      then (s', err request_failed)
      else (s', convert_at F s'.currency_store_fixer amount from to)

  unfoldable pub convert_currency :
      (List Text → Option (YahooResponse F))
      → Option (GoMap F.Num)
      → Currencies F
      → F.Num
      → Text
      → Text
      → Option (Currencies F × Result F.Num)
  unfolding convert_yahoo convert_fixer
  convert_currency yahoo fixer s amount from_ to_ =
      let from = to_upper from_ in
      let to = to_upper to_ in
      if text_eq from to
      then some (s, ok amount)
      else if s.yahoo_enabled
      then convert_yahoo yahoo fixer s amount from to
      else some (convert_fixer fixer s amount from to)
