-- ===== src/Stats/Keys.antt =====
-- The items are a map: no key stands twice, and what was added is found.
use cryptofiend.Prelude.{
  ◌≡◌, refl, ◌∙◌, inl, inr, Bool, true, false, ◌&&◌, Option, none, some, [], ◌∷◌, ◌++◌, arith,
  if◌then◌else◌, Bool-cases, Text, codes, text_eq, text_eq_refl, text_eq_comm, All, All-append,
}
use cryptofiend.Float.{Float}
use cryptofiend.Pair.{CurrencyPair, equal, new_currency_pair}
use cryptofiend.Pair.Equality.{equal_refl, equal_comm}
use cryptofiend.Stats.{Item, Items, has_key, already_exists, append, is_blank, add}

module _ {F : Float} where
  -- No two items have one exchange, equal pairs and one asset type.
  abbrev pub IsKeyed : Items F → Type 0
  IsKeyed [] = Unit
  IsKeyed (i ∷ r) = All (λ j. has_key i.exchange i.pair i.asset_type j ≡ false) r × IsKeyed r

  abbrev pub Lacks : Text → CurrencyPair → Text → Items F → Type 0
  Lacks e p a = All (λ j. has_key e p a j ≡ false)

  -- The price and the volume under a key.
  abbrev pub found : Text → CurrencyPair → Text → Items F → Option (F.Num × F.Num)
  found e p a [] = none
  found e p a (i ∷ r) = if has_key e p a i then some (i.price, i.volume) else found e p a r

  module _ (e : Text) (p : CurrencyPair) (a : Text) (price volume : F.Num) where
    Lacks-already_exists :
        (items : Items F) (i : Item F)
        → Lacks i.exchange i.pair i.asset_type items
        → Lacks i.exchange i.pair i.asset_type (already_exists items e p a price volume).0
    unfolding already_exists
    Lacks-already_exists [] i h = tt
    Lacks-already_exists (j ∷ r) i h = ground (arith, Lacks-already_exists r i h.1)

    already_exists-IsKeyed :
        (items : Items F) → IsKeyed items → IsKeyed (already_exists items e p a price volume).0
    unfolding already_exists
    already_exists-IsKeyed [] k = tt
    already_exists-IsKeyed (i ∷ r) k =
        ground (arith, already_exists-IsKeyed r k.1, Lacks-already_exists r i k.0)

    -- Where the call found nothing, nothing has changed, and no item has the key.
    not_found :
        (items : Items F)
        → (already_exists items e p a price volume).1 ≡ false
        → ((already_exists items e p a price volume).0 ≡ items) × Lacks e p a items
    unfolding already_exists
    not_found [] h = (refl, tt)
    not_found (i ∷ r) h = ground (arith, not_found r)

    was_found :
        (items : Items F)
        → (already_exists items e p a price volume).1 ≡ true
        → found e p a (already_exists items e p a price volume).0 ≡ some (price, volume)
    unfolding already_exists
    was_found [] h = cc
    was_found (i ∷ r) h = ground (arith, was_found r)

    has_key_comm :
        (i : Item F)
        → has_key e p a i ≡ false
        → (text_eq e i.exchange && (equal p i.pair && text_eq a i.asset_type)) ≡ false
    has_key_comm i h =
        ground (arith, text_eq_comm e i.exchange, equal_comm p i.pair, text_eq_comm a i.asset_type)

    append_new :
        (items : Items F) (new : Item F)
        → new.exchange ≡ e
        → new.pair ≡ p
        → new.asset_type ≡ a
        → Lacks e p a items
        → IsKeyed items
        → IsKeyed (items ++ new ∷ [])
    append_new [] new he hp ha h k = (tt, tt)
    append_new (i ∷ r) new he hp ha h k = (
      All-append _ r (new ∷ []) k.0 (rw (he, hp, ha) (has_key_comm i h.0), tt),
      append_new r new he hp ha h.1 k.1,
    )

    found-append :
        (items : Items F) (new : Item F)
        → Lacks e p a items
        → found e p a (items ++ new ∷ []) ≡ found e p a (new ∷ [])
    found-append [] new h = refl
    found-append (i ∷ r) new h = rw h.0 (found-append r new h.1)

    pub append-IsKeyed :
        (items : Items F) → IsKeyed items → IsKeyed (append items e p a price volume)
    unfolding append
    append-IsKeyed items k = elim (Bool-cases (already_exists items e p a price volume).1) [
      | inl old ↦ rw old (already_exists-IsKeyed items k)
      | inr new ↦
          let r = not_found items new in rw (new, r.0) (append_new items _ refl refl refl r.1 k)
    ]

    pub found-append_self :
        (items : Items F) → found e p a (append items e p a price volume) ≡ some (price, volume)
    unfolding append
    found-append_self items = elim (Bool-cases (already_exists items e p a price volume).1) [
      | inl old ↦ rw old (was_found items old)
      | inr new ↦
          let r = not_found items new in
          rw (new, r.0)
            (found-append items _ r.1 ∙ rw (text_eq_refl e, text_eq_refl a, equal_refl p) refl)
    ]

  IsKeyed-if : (b : Bool) (x y : Items F) → IsKeyed x → IsKeyed y → IsKeyed (if b then x else y)
  IsKeyed-if true x y hx hy = hx
  IsKeyed-if false x y hx hy = hy

  -- `Add` keeps the items a map: no two have one exchange, pairs that `Equal` does not tell apart and one
  -- asset type.
  pub add-IsKeyed :
      (items : Items F) (e : Text) (p : CurrencyPair) (a : Text) (price volume : F.Num)
      → IsKeyed items
      → IsKeyed (add items e p a price volume)
  unfolding add
  add-IsKeyed items e p a price volume k =
      let btc =
        IsKeyed-if (text_eq p.first_currency (codes "XBT")) _ _
          (append-IsKeyed e (new_currency_pair (codes "BTC") p.second_currency) a price volume items
            k)
          k in
      let usd =
        IsKeyed-if (text_eq p.second_currency (codes "USDT")) _ _
          (append-IsKeyed e (new_currency_pair p.first_currency (codes "USD")) a price volume _ btc)
          btc in
      IsKeyed-if (is_blank F e p a price volume) _ _ k (append-IsKeyed e p a price volume _ usd)

  -- `Add` with no blank argument leaves the price and the volume under the key it was given.
  pub found-add :
      (items : Items F) (e : Text) (p : CurrencyPair) (a : Text) (price volume : F.Num)
      → is_blank F e p a price volume ≡ false
      → found e p a (add items e p a price volume) ≡ some (price, volume)
  unfolding add
  found-add items e p a price volume h = rw h (found-append_self e p a price volume _)
