-- ===== src/Portfolio/Summaries.antt =====
-- The totals by coin type.
use cryptofiend.Prelude.{
  ◌≡◌, refl, ap, ◌∙◌, Bool, true, false, not, ◌&&◌, Option, none, some, [], ◌∷◌, arith,
  if◌then◌else◌, Text, text_eq, text_eq_iff,
}
use cryptofiend.GoMap.{GoMap, lookup, lookup-insert, lookup-nil}
use cryptofiend.Float.{Float}
use cryptofiend.Portfolio.{
  Address, Base, is_described, address_exchange, add_balance, collect, get_exchange_portfolio,
  get_personal_portfolio,
}

-- A balance added to the sum so far.
abbrev pub plus : (F : Float) → F.Num → Option F.Num → F.Num
plus F b none = b
plus F b (some t) = F.add b t

module _ {F : Float} where
  -- The sum of the balances of one coin type over the addresses that pass a test; none if there are none.
  abbrev pub total_of : (Address F → Bool) → Text → Base F → Option F.Num → Option F.Num
  total_of test c [] acc = acc
  total_of test c (x ∷ r) acc =
      total_of test c r
        (if test x && text_eq x.coin_type c then some (plus F x.balance acc) else acc)

  lookup-add_balance :
      (x : Address F) (m : GoMap F.Num) (c : Text)
      → lookup c (add_balance x m)
        ≡ (if text_eq x.coin_type c then some (plus F x.balance (lookup c m)) else lookup c m)
  lookup-add_balance x m c = go (lookup x.coin_type m) refl
    where
      go :
          (o : Option F.Num)
          → lookup x.coin_type m ≡ o
          → lookup c (add_balance x m)
            ≡ (if text_eq x.coin_type c then some (plus F x.balance (lookup c m)) else lookup c m)
      go none e =
          rw (e, add_balance)
            (ground (arith, e, lookup-insert x.coin_type c x.balance m, text_eq_iff x.coin_type c))
      go (some t) e =
          rw (e, add_balance)
            (ground (
              arith,
              e,
              lookup-insert x.coin_type c (F.add x.balance t) m,
              text_eq_iff x.coin_type c,
            ))

  lookup-collect :
      (test : Address F → Bool) (p : Base F) (m : GoMap F.Num) (c : Text)
      → lookup c (collect test p m) ≡ total_of test c p (lookup c m)
  unfolding collect
  lookup-collect test [] m c = refl
  lookup-collect test (x ∷ r) m c =
      lookup-collect test r (if test x then add_balance x m else m) c
      ∙ ap (total_of test c r) (step (test x))
    where
      step :
          (b : Bool)
          → lookup c (if b then add_balance x m else m) ≡ (
              if b && text_eq x.coin_type c
              then some (plus F x.balance (lookup c m))
              else lookup c m)
      step true = lookup-add_balance x m c
      step false = refl

  -- Under each coin type the exchange portfolio holds the sum of the balances of the addresses that are
  -- labelled as an exchange's, and the personal one that of all others; a coin type of no such address is
  -- not there.
  pub portfolios-total_of :
      (p : Base F) (c : Text)
      → (lookup c (get_exchange_portfolio p) ≡ total_of (is_described address_exchange) c p none)
        × (lookup c (get_personal_portfolio p)
            ≡ total_of (λ x. not (is_described address_exchange x)) c p none)
  unfolding get_exchange_portfolio get_personal_portfolio
  portfolios-total_of p c = (
    lookup-collect (is_described address_exchange) p [] c
        ∙ ap (total_of (is_described address_exchange) c p) (lookup-nil {V = F.Num} c),
    lookup-collect (λ x. not (is_described address_exchange x)) p [] c
        ∙ ap (total_of (λ x. not (is_described address_exchange x)) c p) (lookup-nil {V = F.Num} c),
  )
