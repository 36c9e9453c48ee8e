-- ===== src/Config/Exchanges.antt =====
-- The exchanges of a configuration: lookup after update, and what a passed check says.
use cryptofiend.Prelude.{
  ℕ, ◌+◌, ◌≤◌, ◌<◌, ◌≡◌, refl, ◌⊎◌, inl, inr, Bool, true, false, not, ◌&&◌, ◌||◌, none, some, List,
  [], ◌∷◌, arith, if◌then◌else◌, Bool-cases, Text, text_eq, text_eq_iff, is_empty, All,
}
use cryptofiend.Config.{
  ExchangeConfig, Round, stop, pass, is_named, get_exchange_config, update_exchange_config,
  check_exchange, check_exchanges, check_exchange_config_values, get_config_enabled_exchanges,
}

-- `UpdateExchangeConfig` succeeds exactly for an exchange that is there; after it `GetExchangeConfig`
-- returns what was given under its name, and under other names what it returned before.
pub get-update_exchange_config :
    (exchanges : List ExchangeConfig) (e : ExchangeConfig)
    → ((get_exchange_config exchanges e.name ≡ none) × (update_exchange_config exchanges e ≡ none))
      ⊎ ((after : List ExchangeConfig) × (update_exchange_config exchanges e ≡ some after)
          × ((name : Text)
              → get_exchange_config after name
                ≡ (if text_eq e.name name then some e else get_exchange_config exchanges name)))
unfolding get_exchange_config update_exchange_config
get-update_exchange_config [] e = inl (refl, refl)
get-update_exchange_config (x ∷ r) e = elim (Bool-cases (is_named e.name x)) [
  | inl here ↦ inr (
    e ∷ r,
    rw here refl,
    λ name.
        ground (arith, text_eq_iff e.name name, text_eq_iff x.name e.name, text_eq_iff x.name name),
  )
  | inr other ↦ elim (get-update_exchange_config r e) [
    | inl missing ↦ inl (rw other missing.0, rw (other, missing.1) refl)
    | inr found ↦ inr (
      x ∷ found.0,
      rw (other, found.1) refl,
      λ name. ground (
        arith,
        found.2 name,
        text_eq_iff e.name name,
        text_eq_iff x.name e.name,
        text_eq_iff x.name name,
      ),
    )
  ]
]

-- An exchange that is not enabled, or that has a name, pairs and base currencies.
abbrev pub is_complete : ExchangeConfig → Bool
is_complete e =
    not e.enabled
    || (not (is_empty e.name)
        && (not (is_empty e.available_pairs)
            && (not (is_empty e.enabled_pairs) && not (is_empty e.base_currencies))))

is_complete-pass :
    (i : ℕ) (e e' : ExchangeConfig) (counted : Bool)
    → check_exchange i e ≡ pass e' counted
    → (is_complete e' ≡ true) × (e'.enabled ≡ e.enabled)
unfolding check_exchange
is_complete-pass i e e' counted h = ground arith

-- Where the loop ends with no error every exchange is complete, and as many are enabled as it counted.
abbrev LoopPassed : ℕ → ℕ → List ExchangeConfig → Type 0
LoopPassed i n exchanges =
    All (λ e. is_complete e ≡ true) (check_exchanges i n exchanges).0
    × ((check_exchanges i n exchanges).2
        ≤ n + get_config_enabled_exchanges (check_exchanges i n exchanges).0)

checked_off :
    (i n : ℕ) (e : ExchangeConfig) (r : List ExchangeConfig)
    → e.enabled ≡ false
    → LoopPassed (i + 1) n r
    → LoopPassed i n (e ∷ r)
unfolding check_exchanges get_config_enabled_exchanges
checked_off i n e r off ih = ground arith

checked_on :
    (i n : ℕ) (e : ExchangeConfig) (r : List ExchangeConfig) (round : Round)
    → e.enabled ≡ true
    → check_exchange i e ≡ round
    → (check_exchanges i n (e ∷ r)).1 ≡ none
    → ((m : ℕ) → (check_exchanges (i + 1) m r).1 ≡ none → LoopPassed (i + 1) m r)
    → LoopPassed i n (e ∷ r)
unfolding check_exchanges get_config_enabled_exchanges
checked_on i n e r (stop error) here eq h ih = ground arith
checked_on i n e r (pass e' true) here eq h ih =
    ground (arith, is_complete-pass i e e' true eq, ih (n + 1))
checked_on i n e r (pass e' false) here eq h ih =
    ground (arith, is_complete-pass i e e' false eq, ih n)

rest_none :
    (i n : ℕ) (e : ExchangeConfig) (r : List ExchangeConfig)
    → e.enabled ≡ false
    → (check_exchanges i n (e ∷ r)).1 ≡ none
    → (check_exchanges (i + 1) n r).1 ≡ none
unfolding check_exchanges
rest_none i n e r off h = ground arith

checked :
    (i n : ℕ) (exchanges : List ExchangeConfig)
    → (check_exchanges i n exchanges).1 ≡ none
    → LoopPassed i n exchanges
checked i n [] h = unfold check_exchanges get_config_enabled_exchanges in (tt, omega arith)
checked i n (e ∷ r) h = elim (Bool-cases e.enabled) [
  | inl here ↦ checked_on i n e r (check_exchange i e) here refl h (λ m k. checked (i + 1) m r k)
  | inr off ↦ checked_off i n e r off (checked (i + 1) n r (rest_none i n e r off h))
]

-- A configuration that passes the check has an enabled exchange, and each exchange that is enabled has a
-- name, available and enabled pairs, and base currencies.
pub check_exchange_config_values-is_complete :
    (cryptocurrencies : Text) (exchanges : List ExchangeConfig)
    → (check_exchange_config_values cryptocurrencies exchanges).1 ≡ none
    → All (λ e. is_complete e ≡ true) (check_exchange_config_values cryptocurrencies exchanges).0
      × (0
          < get_config_enabled_exchanges
              (check_exchange_config_values cryptocurrencies exchanges).0)
unfolding check_exchange_config_values
check_exchange_config_values-is_complete cryptocurrencies exchanges h =
    ground (arith, checked 0 0 exchanges)
