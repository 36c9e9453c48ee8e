-- ===== src/Portfolio/Summary.antt =====
-- portfolio/portfolio.go: the summary of the portfolio. The code ranges over maps, whose order Go leaves
-- open: the lists of coins are in the order in which the keys came into the maps.
use cryptofiend.Prelude.{
  not, ◌&&◌, Option, none, some, List, [], ◌∷◌, ◌++◌, map, if◌then◌else◌, Text, codes, text_eq,
}
use cryptofiend.Text.{data_contains}
use cryptofiend.GoMap.{GoMap, lookup, insert}
use cryptofiend.Float.{Float}
use cryptofiend.Portfolio.{
  Base, address_exchange, is_described, get_exchange_portfolio, get_personal_portfolio,
  get_portfolio_by_exchange,
}

pub record Coin (F : Float) : Type 0 where
  pub coin : Text
  pub balance : F.Num
  pub address : Text
  pub percentage : F.Num

pub record OfflineCoinSummary (F : Float) : Type 0 where
  pub address : Text
  pub balance : F.Num
  pub percentage : F.Num

pub record OnlineCoinSummary (F : Float) : Type 0 where
  pub balance : F.Num
  pub percentage : F.Num

pub record Summary (F : Float) : Type 0 where
  pub totals : List (Coin F)
  pub offline : List (Coin F)
  pub offline_summary : GoMap (List (OfflineCoinSummary F))
  pub online : List (Coin F)
  pub online_summary : GoMap (GoMap (OnlineCoinSummary F))

module _ (F : Float) where
  -- A missing key reads as zero.
  abbrev pub or_zero : Option F.Num → F.Num
  or_zero none = F.zero
  or_zero (some x) = x

  unfoldable pub get_percentage_specific : F.Num → Text → GoMap F.Num → F.Num
  get_percentage_specific input target totals =
      F.div (F.mul (F.div input (or_zero (lookup target totals))) (F.of_ℕ 100)) (F.of_ℕ 1)

  unfoldable pub get_percentage : GoMap F.Num → Text → GoMap F.Num → F.Num
  unfolding get_percentage_specific
  get_percentage input target totals =
      get_percentage_specific (or_zero (lookup target input)) target totals

  -- A balance of Ethereum is in wei.
  abbrev pub in_ether : Text → F.Num → F.Num
  in_ether coin balance =
      if text_eq coin (codes "ETH")
      then F.div balance (F.of_ℕ 1_000_000_000_000_000_000)
      else balance

  abbrev pub holdings_in_ether : GoMap F.Num → GoMap F.Num
  holdings_in_ether holdings = map (λ h. (h.0, in_ether h.0 h.1)) holdings

  -- The loop over the exchanges' holdings.
  unfoldable pub add_holdings : GoMap F.Num → GoMap F.Num → GoMap F.Num
  add_holdings [] totals = totals
  add_holdings ((x, y) ∷ r) totals = add_holdings r (elim (lookup x totals) [
    | none ↦ insert x y totals
    | some balance ↦ insert x (F.add y balance) totals
  ])

  -- The exchanges' names, each where no name before holds it as a part, nor the commas between them.
  unfoldable pub portfolio_exchanges : Base F → List Text → List Text
  portfolio_exchanges [] found = found
  portfolio_exchanges (x ∷ r) found = portfolio_exchanges r (
      if is_described address_exchange x && not (data_contains found x.address)
      then found ++ x.address ∷ []
      else found)

  abbrev pub coins : GoMap F.Num → GoMap F.Num → List (Coin F)
  coins holdings totals =
      map
        (λ h. record {
          coin = h.0;
          balance = h.1;
          address = [];
          percentage = get_percentage holdings h.0 totals;
        })
        holdings

  abbrev pub online_coins : GoMap F.Num → GoMap F.Num → GoMap (OnlineCoinSummary F)
  online_coins result totals =
      map
        (λ h. (h.0, record { balance = h.1; percentage = get_percentage_specific h.1 h.0 totals }))
        result

  -- The loop over the addresses that are not an exchange's.
  unfoldable pub offline_coins :
      Base F
      → GoMap F.Num
      → GoMap (List (OfflineCoinSummary F))
      → GoMap (List (OfflineCoinSummary F))
  offline_coins [] totals result = result
  offline_coins (x ∷ r) totals result =
      let balance = in_ether x.coin_type x.balance in
      let summary : OfflineCoinSummary F = record {
        address = x.address;
        balance = balance;
        percentage = get_percentage_specific balance x.coin_type totals;
      } in
      offline_coins r totals (
        if is_described address_exchange x then result else (elim (lookup x.coin_type result) [
          | none ↦ insert x.coin_type (summary ∷ []) result
          | some before ↦ insert x.coin_type (before ++ summary ∷ []) result
        ]))

  unfoldable pub get_portfolio_summary : Base F → Summary F
  unfolding add_holdings portfolio_exchanges offline_coins get_percentage get_percentage_specific
  get_portfolio_summary p =
      let personal = holdings_in_ether (get_personal_portfolio p) in
      let online = get_exchange_portfolio p in
      let totals = add_holdings online personal in
      record {
        totals =
            map (λ h. record { coin = h.0; balance = h.1; address = []; percentage = F.zero })
              totals;
        offline = coins personal totals;
        offline_summary = offline_coins p totals [];
        online = coins online totals;
        online_summary =
            map (λ name. (name, online_coins (get_portfolio_by_exchange p name) totals))
              (portfolio_exchanges p []);
      }
