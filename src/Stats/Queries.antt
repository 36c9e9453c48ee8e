-- ===== src/Stats/Queries.antt =====
-- The queries of helpers.go for the exchange with the highest and with the lowest price.
use cryptofiend.Prelude.{
  ℕ, suc, ◌≡◌, refl, ◌∙◌, ◌≢◌, Bool, true, none, some, List, [], ◌∷◌, arith, if◌then◌else◌, Text,
  text_eq, text_eq_iff, text_eq_refl, length, keep_if,
}
use cryptofiend.Float.{Float}
use cryptofiend.Pair.{CurrencyPair}
use cryptofiend.Stats.{
  Item, Items, Sort, matches, only_exchange, get_exchange_highest_price_by_currency_pair,
  get_exchange_lowest_price_by_currency_pair, sort_exchanges_by_price,
}

module _ {ℓ} {A : Type ℓ} where
  -- How often a test holds in a list: equal counts of every test are equal multisets.
  abbrev pub count_if : (A → Bool) → List A → ℕ
  count_if test [] = 0
  count_if test (x ∷ r) = if test x then suc (count_if test r) else count_if test r

  -- The two lists hold the same elements, each as often.
  abbrev pub SameItems : List A → List A → Type ℓ
  SameItems l m = (test : A → Bool) → count_if test l ≡ count_if test m

module _ {F : Float} where
  -- What is relied on of sort.Sort: it only changes the order, whatever the comparison.
  abbrev pub Permutes : Sort F → Type 0
  Permutes sort = (less : Item F → Item F → Bool) (l : Items F) → SameItems (sort less l) l

  only_exchange-same : (l m : Items F) → SameItems l m → only_exchange l ≡ only_exchange m
  only_exchange-same [] [] h = refl
  only_exchange-same [] (y ∷ m) h = let e = h (λ i. true) in absurd (omega arith)
  only_exchange-same (x ∷ []) [] h = let e = h (λ i. true) in absurd (omega arith)
  only_exchange-same (x ∷ []) (y ∷ []) h =
      let e = h (λ i. text_eq i.exchange y.exchange) in
      ground (arith, text_eq_iff x.exchange y.exchange, text_eq_refl y.exchange)
  only_exchange-same (x ∷ []) (y ∷ z ∷ m) h = let e = h (λ i. true) in absurd (omega arith)
  only_exchange-same (x ∷ w ∷ l) [] h = let e = h (λ i. true) in absurd (omega arith)
  only_exchange-same (x ∷ w ∷ l) (y ∷ []) h = let e = h (λ i. true) in absurd (omega arith)
  only_exchange-same (x ∷ w ∷ l) (y ∷ z ∷ m) h = refl

  not_only : (l : Items F) → length l ≢ 1 → only_exchange l ≡ none
  not_only [] h = refl
  not_only (x ∷ []) h = absurd (h refl)
  not_only (x ∷ y ∷ l) h = refl

  -- If sort.Sort only changes the order: both price queries answer with the exchange of the one item that
  -- is of the pair and the asset type; where no item is, or several are, so that there are prices to
  -- compare, both fail.
  pub price_queries_only :
      (sort : Sort F) (items : Items F) (p : CurrencyPair) (a : Text)
      → Permutes sort
      → let shown = keep_if (matches p a) items in
        ((i : Item F)
          → shown ≡ i ∷ []
          → (get_exchange_highest_price_by_currency_pair sort items p a ≡ some i.exchange)
            × (get_exchange_lowest_price_by_currency_pair sort items p a ≡ some i.exchange))
        × (length shown ≢ 1
            → (get_exchange_highest_price_by_currency_pair sort items p a ≡ none)
              × (get_exchange_lowest_price_by_currency_pair sort items p a ≡ none))
  unfolding get_exchange_highest_price_by_currency_pair get_exchange_lowest_price_by_currency_pair
      sort_exchanges_by_price
  price_queries_only sort items p a h =
      let shown = keep_if (matches p a) items in
      let same = λ (less : Item F → Item F → Bool).
        only_exchange-same (sort less shown) shown (h less shown) in
      (
        λ i e.
            let only : only_exchange shown ≡ some i.exchange = rw e refl in
            (same _ ∙ only, same _ ∙ only),
        λ n. (same _ ∙ not_only shown n, same _ ∙ not_only shown n),
      )
