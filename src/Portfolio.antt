-- ===== src/Portfolio.antt =====
-- portfolio/portfolio.go: the addresses of the portfolio with their balances, and its summaries. A map
-- that the code ranges over is an association list, in the order in which the keys were first written;
-- Go's order is not fixed. The balances of the block explorers are arguments.
pub mod Addresses
pub mod Balances
pub mod Summary
pub mod Summaries
pub mod Examples
use cryptofiend.Prelude.{
  zero, Bool, true, false, not, ◌&&◌, ◌||◌, Option, none, some, List, [], ◌∷◌, ◌++◌, if◌then◌else◌,
  Text, codes, text_eq, any_of,
}
use cryptofiend.GoMap.{GoMap, lookup, insert}
use cryptofiend.Float.{Float}
use cryptofiend.Text.{contains, join}

abbrev pub address_exchange : Text
address_exchange = codes "Exchange"

abbrev pub address_personal : Text
address_personal = codes "Personal"

pub record Address (F : Float) : Type 0 where
  pub address : Text
  pub coin_type : Text
  pub balance : F.Num
  pub description : Text

-- `Base` holds the addresses alone.
abbrev pub Base : Float → Type 0
Base F = List (Address F)

-- `p.Addresses = append(p.Addresses[:x], p.Addresses[x+1:]...)` at the first match
unfoldable pub remove_first {ℓ} : {A : Type ℓ} → (A → Bool) → List A → List A
remove_first test [] = []
remove_first test (x ∷ r) = if test x then r else x ∷ remove_first test r

module _ {F : Float} where
  abbrev pub is_at : Text → Address F → Bool
  is_at address x = text_eq x.address address

  abbrev pub is_coin_at : Text → Text → Address F → Bool
  is_coin_at address coin_type x = text_eq x.address address && text_eq x.coin_type coin_type

  abbrev pub is_described : Text → Address F → Bool
  is_described description x = text_eq x.description description

  unfoldable pub get_address_balance : Base F → Text → Text → Text → Option F.Num
  get_address_balance [] address coin_type description = none
  get_address_balance (x ∷ r) address coin_type description =
      if is_at address x && (is_described description x && text_eq x.coin_type coin_type)
      then some x.balance
      else get_address_balance r address coin_type description

  unfoldable pub exchange_exists : Base F → Text → Bool
  exchange_exists p exchange_name = any_of (is_at exchange_name) p

  unfoldable pub address_exists : Base F → Text → Bool
  address_exists p address = any_of (is_at address) p

  unfoldable pub exchange_address_exists : Base F → Text → Text → Bool
  exchange_address_exists p exchange_name coin_type = any_of (is_coin_at exchange_name coin_type) p

  -- The balance of every address that passes the test.
  unfoldable pub set_balances : (Address F → Bool) → F.Num → Base F → Base F
  set_balances test amount [] = []
  set_balances test amount (x ∷ r) =
      (if test x then record x { balance = amount } else x) ∷ set_balances test amount r

  unfoldable pub update_address_balance : Base F → Text → F.Num → Base F
  update_address_balance p address amount = set_balances (is_at address) amount p

  unfoldable pub update_exchange_address_balance : Base F → Text → Text → F.Num → Base F
  update_exchange_address_balance p exchange_name coin_type balance =
      set_balances (is_coin_at exchange_name coin_type) balance p

  unfoldable pub remove_exchange_address : Base F → Text → Text → Base F
  remove_exchange_address p exchange_name coin_type =
      remove_first (is_coin_at exchange_name coin_type) p

  unfoldable pub remove_address : Base F → Text → Text → Text → Base F
  remove_address p address coin_type description =
      remove_first
        (λ x. is_at address x && (text_eq x.coin_type coin_type && is_described description x)) p

  unfoldable pub add_exchange_address : Base F → Text → Text → F.Num → Base F
  unfolding exchange_address_exists update_exchange_address_balance
  add_exchange_address p exchange_name coin_type balance =
      if exchange_address_exists p exchange_name coin_type
      then update_exchange_address_balance p exchange_name coin_type balance
      else p
        ++ record {
          address = exchange_name;
          coin_type = coin_type;
          balance = balance;
          description = address_exchange;
        }
          ∷ []

  unfoldable pub add_address : Base F → Text → Text → Text → F.Num → Base F
  unfolding add_exchange_address address_exists remove_address update_address_balance
  add_address p address coin_type description balance =
      if text_eq description address_exchange
      then add_exchange_address p address coin_type balance
      else if not (address_exists p address)
      then p
        ++ record {
          address = address;
          coin_type = coin_type;
          balance = balance;
          description = description;
        }
          ∷ []
      else if F.le balance F.zero
      then remove_address p address coin_type description
      else update_address_balance p address balance

  -- The two loops of `UpdatePortfolio`: over the answer of the Ethereum service, and over the addresses
  -- with a query for each, which ends at the first that fails.
  unfoldable pub add_all : Base F → Text → List (Text × F.Num) → Base F
  unfolding add_address
  add_all p coin_type [] = p
  add_all p coin_type ((address, balance) ∷ r) =
      add_all (add_address p address coin_type address_personal balance) coin_type r

  unfoldable pub query_all :
      Base F → Text → (Text → Text → Option F.Num) → List Text → Base F × Bool
  unfolding add_address
  query_all p coin_type balance_of [] = (p, true)
  query_all p coin_type balance_of (address ∷ r) = elim (balance_of address coin_type) [
    | none ↦ (p, false)
    | some balance ↦
        query_all (add_address p address coin_type address_personal balance) coin_type balance_of r
  ]

  -- `get_ethereum_balance` and `get_crypto_id_address` stand for the queries of the two services.
  unfoldable pub update_portfolio :
      (List Text → Option (List (Text × F.Num)))
      → (Text → Text → Option F.Num)
      → Base F
      → List Text
      → Text
      → Base F × Bool
  unfolding add_all query_all
  update_portfolio get_ethereum_balance get_crypto_id_address p addresses coin_type =
      let all = join addresses (codes ",") in
      if contains all address_exchange || contains all address_personal
      then (p, true)
      else if text_eq coin_type (codes "ETH")
      then (elim (get_ethereum_balance addresses) [
        | none ↦ (p, false)
        | some result ↦ (add_all p coin_type result, true)
      ])
      else query_all p coin_type get_crypto_id_address addresses

  unfoldable pub portfolio_by_exchange : Base F → Text → GoMap F.Num → GoMap F.Num
  portfolio_by_exchange [] exchange_name result = result
  portfolio_by_exchange (x ∷ r) exchange_name result =
      portfolio_by_exchange r exchange_name
        (if contains x.address exchange_name then insert x.coin_type x.balance result else result)

  unfoldable pub get_portfolio_by_exchange : Base F → Text → GoMap F.Num
  unfolding portfolio_by_exchange
  get_portfolio_by_exchange p exchange_name = portfolio_by_exchange p exchange_name []

  -- One round of the loops below, and the loop over the addresses that pass a test.
  abbrev pub add_balance : Address F → GoMap F.Num → GoMap F.Num
  add_balance x result = elim (lookup x.coin_type result) [
    | none ↦ insert x.coin_type x.balance result
    | some balance ↦ insert x.coin_type (F.add x.balance balance) result
  ]

  unfoldable pub collect : (Address F → Bool) → Base F → GoMap F.Num → GoMap F.Num
  collect test [] result = result
  collect test (x ∷ r) result = collect test r (if test x then add_balance x result else result)

  unfoldable pub get_exchange_portfolio : Base F → GoMap F.Num
  unfolding collect
  get_exchange_portfolio p = collect (is_described address_exchange) p []

  unfoldable pub get_personal_portfolio : Base F → GoMap F.Num
  unfolding collect
  get_personal_portfolio p = collect (λ x. not (is_described address_exchange x)) p []

  unfoldable pub grouped_coin : Base F → GoMap (List Text) → GoMap (List Text)
  grouped_coin [] result = result
  grouped_coin (x ∷ r) result = grouped_coin r (
      if contains x.description address_exchange
      then result
      else (elim (lookup x.coin_type result) [
        | none ↦ insert x.coin_type (x.address ∷ []) result
        | some addresses ↦ insert x.coin_type (addresses ++ x.address ∷ []) result
      ]))

  unfoldable pub get_portfolio_grouped_coin : Base F → GoMap (List Text)
  unfolding grouped_coin
  get_portfolio_grouped_coin p = grouped_coin p []

  unfoldable pub seed_portfolio : Base F → Base F → Base F
  seed_portfolio p port = port
