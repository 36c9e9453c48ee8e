-- ===== src/Exchange/Pairs.antt =====
-- The pairs of an exchange: the difference of slices, and the updates of the enabled and available pairs.
use cryptofiend.Prelude.{
  ℕ, ◌≡◌, ◌≢◌, refl, ap, ◌∙◌, ◌⊎◌, inl, inr, Bool, true, false, not, ◌&&◌, ◌||◌, Option, none, some,
  List, [], ◌∷◌, ◌++◌, map, arith, ltb, if◌then◌else◌, Text, text_eq_iff, length, keep_if, All,
}
use cryptofiend.Text.{join, to_upper, upper_byte}
use cryptofiend.Text.Case.{to_upper-append}
use cryptofiend.Text.Parts.{Lacks, split-join}
use cryptofiend.Config.{ExchangeConfig, get_exchange_config, update_exchange_config}
use cryptofiend.Config.Exchanges.{get-update_exchange_config}
use cryptofiend.Exchange.{
  comma, update_available_currencies, Base, Outcome, is_in, string_slice_difference,
  update_enabled_currencies, upper_products, write_config,
}

is_in-append : (a b : List Text) (x : Text) → is_in (a ++ b) x ≡ (is_in a x || is_in b x)
is_in-append [] b x = refl
is_in-append (y ∷ r) b x = ground (arith, is_in-append r b x)

is_in-keep_if :
    (test : Text → Bool) (l : List Text) (x : Text)
    → is_in (keep_if test l) x ≡ (is_in l x && test x)
is_in-keep_if test [] x = refl
is_in-keep_if test (y ∷ r) x = ground (arith, is_in-keep_if test r x, text_eq_iff x y)

-- A string is in the difference of two slices exactly if it is in one of them and not in the other.
pub is_in-string_slice_difference :
    (slice1 slice2 : List Text) (x : Text)
    → is_in (string_slice_difference slice1 slice2) x
      ≡ (if is_in slice1 x then not (is_in slice2 x) else is_in slice2 x)
unfolding string_slice_difference
is_in-string_slice_difference slice1 slice2 x = ground (
  arith,
  is_in-append (keep_if (λ y. not (is_in slice2 y)) slice1)
      (keep_if (λ y. not (is_in slice1 y)) slice2) x,
  is_in-keep_if (λ y. not (is_in slice2 y)) slice1 x,
  is_in-keep_if (λ y. not (is_in slice1 y)) slice2 x,
)

is_in-empty : (l : List Text) (x : Text) → ltb 0 (length l) ≡ false → is_in l x ≡ false
is_in-empty [] x h = refl
is_in-empty (y ∷ r) x h = absurd (ground arith)

no_difference :
    (a b : List Text) (x : Text)
    → ltb 0 (length (string_slice_difference a b)) ≡ false
    → is_in a x ≡ is_in b x
no_difference a b x h =
    ground
      (arith, is_in-string_slice_difference a b x, is_in-empty (string_slice_difference a b) x h)

write_config-base :
    (e : Base) (exchanges : List ExchangeConfig) (exch : ExchangeConfig)
    → (write_config e exchanges exch).base ≡ e
write_config-base e exchanges exch =
    elim (update_exchange_config exchanges exch)
      as (λ o.
        (elim o as (λ u. Outcome) [
          | none ↦ record { base = e; exchanges = exchanges; succeeds = false }
          | some after ↦ record { base = e; exchanges = after; succeeds = true }
        ]).base
        ≡ e) [ none ↦ refl | some after ↦ refl ]

enabled_sets :
    (e : Base) (exchanges : List ExchangeConfig) (products : List Text) (force : Bool) (x : Text)
    (found : Option ExchangeConfig)
    → get_exchange_config exchanges e.name ≡ found
    → (update_enabled_currencies e exchanges products force).succeeds ≡ true
    → is_in (update_enabled_currencies e exchanges products force).base.enabled_pairs x
      ≡ is_in (upper_products products) x
unfolding update_enabled_currencies
enabled_sets e exchanges products force x none f h =
    ground (arith, no_difference e.enabled_pairs (upper_products products) x)
enabled_sets e exchanges products force x (some exch) f h = ground (
  arith,
  no_difference e.enabled_pairs (upper_products products) x,
  write_config-base (record e { enabled_pairs = upper_products products }) exchanges
      (record exch { enabled_pairs = join (upper_products products) comma }),
)

available_sets :
    (e : Base) (exchanges : List ExchangeConfig) (products : List Text) (force : Bool) (x : Text)
    (found : Option ExchangeConfig)
    → get_exchange_config exchanges e.name ≡ found
    → (update_available_currencies e exchanges products force).succeeds ≡ true
    → is_in (update_available_currencies e exchanges products force).base.available_pairs x
      ≡ is_in (upper_products products) x
unfolding update_available_currencies
available_sets e exchanges products force x none f h =
    ground (arith, no_difference e.available_pairs (upper_products products) x)
available_sets e exchanges products force x (some exch) f h = ground (
  arith,
  no_difference e.available_pairs (upper_products products) x,
  write_config-base (record e { available_pairs = upper_products products }) exchanges
      (record exch { available_pairs = join (upper_products products) comma }),
)

upper_byte-ne-comma : (c : ℕ) → c ≢ b',' → upper_byte c ≢ b','
unfolding upper_byte
upper_byte-ne-comma c h = ground arith

to_upper-Lacks : (s : Text) → Lacks b',' s → Lacks b',' (to_upper s)
unfolding to_upper
to_upper-Lacks [] h = tt
to_upper-Lacks (c ∷ s) h = (upper_byte-ne-comma c h.0, to_upper-Lacks s h.1)

upper_comma : to_upper comma ≡ comma
unfolding to_upper
upper_comma = refl

map_upper-Lacks : (l : List Text) → All (Lacks b',') l → All (Lacks b',') (map to_upper l)
map_upper-Lacks [] h = tt
map_upper-Lacks (p ∷ l) h = (to_upper-Lacks p h.0, map_upper-Lacks l h.1)

-- Upper case of a joined list is the joined list of the upper cases.
to_upper-join : (l : List Text) → to_upper (join l comma) ≡ join (map to_upper l) comma
unfolding join
to_upper-join [] = unfold to_upper in refl
to_upper-join (p ∷ []) = refl
to_upper-join (p ∷ q ∷ l) =
    rw (to_upper-append, to_upper-append, upper_comma, to_upper-join (q ∷ l)) refl

map-ne-nil : (l : List Text) → l ≢ [] → map to_upper l ≢ []
map-ne-nil [] h = absurd (h refl)
map-ne-nil (p ∷ l) h = λ e. cc

-- The products of an update are those given, each in upper case, if there is one and none has a comma.
upper_products-map :
    (products : List Text)
    → products ≢ []
    → All (Lacks b',') products
    → upper_products products ≡ map to_upper products
upper_products-map products n h =
    rw (to_upper-join products)
      (split-join (map to_upper products) b',' (map-ne-nil products n) (map_upper-Lacks products h))

-- When UpdateEnabledCurrencies succeeds, forced or not, for a list of products that is not empty and none
-- of which has a comma, the enabled pairs have the strings of the products in upper case: no string is in
-- one of the two lists alone.
pub update_enabled_currencies_sets :
    (e : Base) (exchanges : List ExchangeConfig) (products : List Text) (force : Bool) (x : Text)
    → products ≢ []
    → All (Lacks b',') products
    → (update_enabled_currencies e exchanges products force).succeeds ≡ true
    → is_in (update_enabled_currencies e exchanges products force).base.enabled_pairs x
      ≡ is_in (map to_upper products) x
update_enabled_currencies_sets e exchanges products force x n l h =
    enabled_sets e exchanges products force x _ refl h
    ∙ ap (λ ps. is_in ps x) (upper_products-map products n l)

-- The same of UpdateAvailableCurrencies and the available pairs.
pub update_available_currencies_sets :
    (e : Base) (exchanges : List ExchangeConfig) (products : List Text) (force : Bool) (x : Text)
    → products ≢ []
    → All (Lacks b',') products
    → (update_available_currencies e exchanges products force).succeeds ≡ true
    → is_in (update_available_currencies e exchanges products force).base.available_pairs x
      ≡ is_in (map to_upper products) x
update_available_currencies_sets e exchanges products force x n l h =
    available_sets e exchanges products force x _ refl h
    ∙ ap (λ ps. is_in ps x) (upper_products-map products n l)

get_exchange_config-name :
    (exchanges : List ExchangeConfig) (name : Text) (exch : ExchangeConfig)
    → get_exchange_config exchanges name ≡ some exch
    → exch.name ≡ name
unfolding get_exchange_config
get_exchange_config-name [] name exch h = absurd (ground arith)
get_exchange_config-name (x ∷ r) name exch h =
    ground (arith, get_exchange_config-name r name exch, text_eq_iff x.name name)

-- Where the exchange is configured, writing its configuration succeeds, and it is read again.
abbrev Written : Base → Base → List ExchangeConfig → ExchangeConfig → Type 0
Written e b exchanges exch =
    ((write_config b exchanges exch).succeeds ≡ true)
    × (get_exchange_config (write_config b exchanges exch).exchanges e.name ≡ some exch)

written :
    (e b : Base) (exchanges : List ExchangeConfig) (old exch : ExchangeConfig)
    → get_exchange_config exchanges e.name ≡ some old
    → exch.name ≡ e.name
    → Written e b exchanges exch
written e b exchanges old exch h n = elim (get-update_exchange_config exchanges exch) [
  | inl missing ↦ absurd (ground arith)
  | inr found ↦ ground (arith, found.2 e.name, text_eq_iff exch.name e.name)
]

stores :
    (e : Base) (exchanges : List ExchangeConfig) (products : List Text)
    (found : Option ExchangeConfig)
    → get_exchange_config exchanges e.name ≡ found
    → ((get_exchange_config exchanges e.name ≡ none)
        × (update_enabled_currencies e exchanges products true
            ≡ record { base = e; exchanges = exchanges; succeeds = false }))
      ⊎ ((exch : ExchangeConfig) × (get_exchange_config exchanges e.name ≡ some exch)
          × ((update_enabled_currencies e exchanges products true).succeeds ≡ true)
          × (get_exchange_config
                (update_enabled_currencies e exchanges products true).exchanges
                e.name
              ≡ some (record exch { enabled_pairs = join (upper_products products) comma })))
unfolding update_enabled_currencies
stores e exchanges products none f = inl (f, rw f refl)
stores e exchanges products (some exch) f =
    let w =
      written e (record e { enabled_pairs = upper_products products }) exchanges exch
        (record exch { enabled_pairs = join (upper_products products) comma }) f
        (get_exchange_config-name exchanges e.name exch f) in
    inr (exch, f, rw f w.0, rw f w.1)

-- With the force flag, where the exchange is configured, UpdateEnabledCurrencies succeeds, and the
-- configuration of the exchange then has the joined products as its enabled pairs, and is otherwise as it
-- was; where it is not configured, nothing changes.
pub update_enabled_currencies_stores :
    (e : Base) (exchanges : List ExchangeConfig) (products : List Text)
    → ((get_exchange_config exchanges e.name ≡ none)
        × (update_enabled_currencies e exchanges products true
            ≡ record { base = e; exchanges = exchanges; succeeds = false }))
      ⊎ ((exch : ExchangeConfig) × (get_exchange_config exchanges e.name ≡ some exch)
          × ((update_enabled_currencies e exchanges products true).succeeds ≡ true)
          × (get_exchange_config
                (update_enabled_currencies e exchanges products true).exchanges
                e.name
              ≡ some (record exch { enabled_pairs = join (upper_products products) comma })))
update_enabled_currencies_stores e exchanges products = stores e exchanges products _ refl
