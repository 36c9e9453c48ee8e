-- ===== src/Exchange/Accounts.antt =====
-- helpers.go: the accounts of the exchanges, by coin and by exchange.
use cryptofiend.Prelude.{
  ◌≡◌, refl, sym, ap, ◌∙◌, inl, inr, Option, none, some, List, [], ◌∷◌, ◌++◌, arith, if◌then◌else◌,
  Bool-cases, Text, text_eq, text_eq_iff, find_first,
}
use cryptofiend.GoMap.{GoMap, lookup, insert, lookup-insert}
use cryptofiend.Float.{Float}

pub record AccountCurrencyInfo (F : Float) : Type 0 where
  pub currency_name : Text
  pub total_value : F.Num
  pub hold : F.Num
  pub available : F.Num

pub record AccountInfo (F : Float) : Type 0 where
  pub exchange_name : Text
  pub currencies : List (AccountCurrencyInfo F)

module _ {F : Float} where
  abbrev pub add_info :
      AccountCurrencyInfo F → GoMap (AccountCurrencyInfo F) → GoMap (AccountCurrencyInfo F)
  add_info c result = elim (lookup c.currency_name result) [
    | none ↦
        insert c.currency_name
          (record {
            currency_name = c.currency_name;
            total_value = c.total_value;
            hold = c.hold;
            available = F.zero;
          })
          result
    | some info ↦
        insert c.currency_name
          (record info {
            hold = F.add info.hold c.hold;
            total_value = F.add info.total_value c.total_value;
          })
          result
  ]

  -- The inner loop, over the currencies of an account.
  unfoldable pub collate :
      List (AccountCurrencyInfo F) → GoMap (AccountCurrencyInfo F) → GoMap (AccountCurrencyInfo F)
  collate [] result = result
  collate (c ∷ r) result = collate r (add_info c result)

  unfoldable pub collate_accounts :
      List (AccountInfo F) → GoMap (AccountCurrencyInfo F) → GoMap (AccountCurrencyInfo F)
  unfolding collate
  collate_accounts [] result = result
  collate_accounts (a ∷ r) result = collate_accounts r (collate a.currencies result)

  unfoldable pub get_collated_exchange_account_info_by_coin :
      List (AccountInfo F) → GoMap (AccountCurrencyInfo F)
  unfolding collate_accounts
  get_collated_exchange_account_info_by_coin accounts = collate_accounts accounts []

  -- `none` is the error that the exchange is not found.
  unfoldable pub get_account_currency_info_by_exchange_name :
      List (AccountInfo F) → Text → Option (AccountInfo F)
  get_account_currency_info_by_exchange_name accounts exchange_name =
      find_first (λ a. text_eq a.exchange_name exchange_name) accounts

  -- What the code adds up of a coin, from what it has of it: the total value and the amount on hold.
  abbrev pub sums :
      Text → List (AccountCurrencyInfo F) → Option (F.Num × F.Num) → Option (F.Num × F.Num)
  sums coin [] so_far = so_far
  sums coin (c ∷ r) so_far = sums coin r (
      if text_eq c.currency_name coin
      then (elim so_far [
        | none ↦ some (c.total_value, c.hold)
        | some s ↦ some (F.add s.0 c.total_value, F.add s.1 c.hold)
      ])
      else so_far)

  abbrev pub all_currencies : List (AccountInfo F) → List (AccountCurrencyInfo F)
  all_currencies [] = []
  all_currencies (a ∷ r) = a.currencies ++ all_currencies r

  abbrev pub values_of : Option (AccountCurrencyInfo F) → Option (F.Num × F.Num)
  values_of none = none
  values_of (some info) = some (info.total_value, info.hold)

  add_info-values :
      (c : AccountCurrencyInfo F) (result : GoMap (AccountCurrencyInfo F)) (coin : Text)
      (before : Option (AccountCurrencyInfo F))
      → lookup c.currency_name result ≡ before
      → values_of (lookup coin (add_info c result)) ≡ (
          if text_eq c.currency_name coin
          then (elim (values_of before) [
            | none ↦ some (c.total_value, c.hold)
            | some s ↦ some (F.add s.0 c.total_value, F.add s.1 c.hold)
          ])
          else values_of (lookup coin result))
  add_info-values c result coin none h =
      let info : AccountCurrencyInfo F = record {
        currency_name = c.currency_name;
        total_value = c.total_value;
        hold = c.hold;
        available = F.zero;
      } in
      ground (arith, lookup-insert c.currency_name coin info result)
  add_info-values c result coin (some info) h =
      let info' : AccountCurrencyInfo F = record info {
        hold = F.add info.hold c.hold;
        total_value = F.add info.total_value c.total_value;
      } in
      ground (arith, lookup-insert c.currency_name coin info' result)

  -- The sums with one more currency.
  abbrev plus : Text → AccountCurrencyInfo F → Option (F.Num × F.Num) → Option (F.Num × F.Num)
  plus coin c so_far =
      if text_eq c.currency_name coin
      then (elim so_far [
        | none ↦ some (c.total_value, c.hold)
        | some s ↦ some (F.add s.0 c.total_value, F.add s.1 c.hold)
      ])
      else so_far

  add_info-plus :
      (c : AccountCurrencyInfo F) (result : GoMap (AccountCurrencyInfo F)) (coin : Text)
      → values_of (lookup coin (add_info c result)) ≡ plus coin c (values_of (lookup coin result))
  add_info-plus c result coin = elim (Bool-cases (text_eq c.currency_name coin)) [
    | inl same ↦
        let name = (text_eq_iff c.currency_name coin).0 same in
        add_info-values c result coin (lookup c.currency_name result) refl ∙ rw (same, name) refl
    | inr other ↦ add_info-values c result coin (lookup c.currency_name result) refl ∙ rw other refl
  ]

  collate-sums :
      (cs : List (AccountCurrencyInfo F)) (result : GoMap (AccountCurrencyInfo F)) (coin : Text)
      → values_of (lookup coin (collate cs result)) ≡ sums coin cs (values_of (lookup coin result))
  unfolding collate
  collate-sums [] result coin = refl
  collate-sums (c ∷ r) result coin =
      collate-sums r (add_info c result) coin ∙ ap (sums coin r) (add_info-plus c result coin)

  sums-append :
      (coin : Text) (a b : List (AccountCurrencyInfo F)) (s : Option (F.Num × F.Num))
      → sums coin (a ++ b) s ≡ sums coin b (sums coin a s)
  sums-append coin [] b s = refl
  sums-append coin (c ∷ a) b s = sums-append coin a b (plus coin c s)

  collate_accounts-sums :
      (accounts : List (AccountInfo F)) (result : GoMap (AccountCurrencyInfo F)) (coin : Text)
      → values_of (lookup coin (collate_accounts accounts result))
        ≡ sums coin (all_currencies accounts) (values_of (lookup coin result))
  unfolding collate_accounts
  collate_accounts-sums [] result coin = refl
  collate_accounts-sums (a ∷ r) result coin =
      collate_accounts-sums r (collate a.currencies result) coin
      ∙ (ap (sums coin (all_currencies r)) (collate-sums a.currencies result coin)
          ∙ sym (sums-append coin a.currencies (all_currencies r) (values_of (lookup coin result))))

  -- For each coin GetCollatedExchangeAccountInfoByCoin has, in the order of the accounts, the sum
  -- of the total values and the sum of the amounts on hold of all its entries; no entry, no sum.
  pub get_collated_exchange_account_info_by_coin-sums :
      (accounts : List (AccountInfo F)) (coin : Text)
      → values_of (lookup coin (get_collated_exchange_account_info_by_coin accounts))
        ≡ sums coin (all_currencies accounts) none
  unfolding get_collated_exchange_account_info_by_coin lookup
  get_collated_exchange_account_info_by_coin-sums accounts coin =
      collate_accounts-sums accounts [] coin
