-- ===== src/Portfolio/Examples.antt =====
-- Runs of the portfolio, and the theorems at concrete addresses.
use cryptofiend.Text.{join, contains, contains}
use cryptofiend.Prelude.{ℕ, ◌≡◌, refl, true, false, not, none, some, [], ◌∷◌, Text, codes, text_eq}
use cryptofiend.GoMap.{insert, lookup}
use cryptofiend.Float.{whole}
use cryptofiend.Portfolio.{
  Address, Base, is_described, address_exchange, address_personal, add_address, address_exists,
  get_address_balance, get_exchange_portfolio, get_personal_portfolio, get_portfolio_grouped_coin,
  update_portfolio,
}
use cryptofiend.Portfolio.Addresses.{IsKeyed, add_address-IsKeyed}
use cryptofiend.Portfolio.Balances.{get_address_balance-add_address_other, add_address_removes}
use cryptofiend.Portfolio.Summaries.{total_of, portfolios-total_of}

abbrev btc : Text
btc = codes "BTC"

abbrev ltc : Text
ltc = codes "LTC"

abbrev home : Text
home = codes "3Home"

abbrev anx : Text
anx = codes "ANX"

abbrev held : Text → Text → ℕ → Text → Address whole
held a c b d = record { address = a; coin_type = c; balance = b; description = d }

abbrev addresses : Base whole
addresses =
    held home btc 5 address_personal
    ∷ held home ltc 6 address_personal
    ∷ held anx btc 7 address_exchange
    ∷ []

addresses-IsKeyed : IsKeyed addresses
unfolding text_eq
addresses-IsKeyed = ((refl, (refl, tt)), ((refl, tt), (tt, tt)))

personal_not_exchange : text_eq address_personal address_exchange ≡ false
unfolding text_eq
personal_not_exchange = refl

home_there : address_exists addresses home ≡ true
unfolding address_exists text_eq
home_there = refl

ltc_balance : get_address_balance addresses home ltc address_personal ≡ some 6
unfolding get_address_balance text_eq
ltc_balance = refl

apart : text_eq home anx ≡ false
unfolding text_eq
apart = refl

grouped : get_portfolio_grouped_coin addresses ≡ (btc, home ∷ []) ∷ (ltc, home ∷ []) ∷ []
unfolding get_portfolio_grouped_coin text_eq contains lookup insert
grouped = refl

query_fails :
    update_portfolio {F = whole} (λ _. none) (λ _ _. none) addresses (home ∷ []) btc
    ≡ (addresses, false)
unfolding update_portfolio text_eq contains join
query_fails = refl

add_address-IsKeyed_example : IsKeyed (add_address addresses home btc address_personal 9)
add_address-IsKeyed_example =
    add_address-IsKeyed addresses home btc address_personal 9 addresses-IsKeyed

get_address_balance-add_address_other_example :
    get_address_balance (add_address addresses home btc address_personal 9) anx btc address_exchange
    ≡ get_address_balance addresses anx btc address_exchange
get_address_balance-add_address_other_example =
    get_address_balance-add_address_other addresses home btc address_personal anx btc
      address_exchange 9 apart

add_address_removes_example :
    get_address_balance
      (add_address addresses home btc address_personal 0)
      home
      btc
      address_personal
    ≡ none
add_address_removes_example =
    add_address_removes addresses home btc address_personal 0 addresses-IsKeyed
      personal_not_exchange home_there refl

portfolios-total_of_example :
    (lookup btc (get_exchange_portfolio addresses)
      ≡ total_of (is_described address_exchange) btc addresses none)
    × (lookup btc (get_personal_portfolio addresses)
        ≡ total_of (λ x. not (is_described address_exchange x)) btc addresses none)
portfolios-total_of_example = portfolios-total_of addresses btc
