-- ===== src/Portfolio/Balances.antt =====
-- What `GetAddressBalance` returns after `AddAddress`.
use cryptofiend.Prelude.{
  subst, ◌≡◌, refl, inl, inr, Bool, true, false, ◌&&◌, none, some, [], ◌∷◌, ◌++◌, arith, Bool-cases,
  Text, text_eq, text_eq_iff,
}
use cryptofiend.Float.{Float}
use cryptofiend.Portfolio.{
  Address, Base, remove_first, is_at, is_coin_at, is_described, address_exchange, set_balances,
  remove_address, add_address, address_exists, get_address_balance,
}
use cryptofiend.Portfolio.Addresses.{IsKeyed, Lacks}

module _ {F : Float} where
  get-set_balances_other :
      (test : Address F → Bool) (b : F.Num) (a c d : Text) (p : Base F)
      → ((x : Address F) → is_at a x ≡ true → test x ≡ false)
      → get_address_balance (set_balances test b p) a c d ≡ get_address_balance p a c d
  unfolding get_address_balance set_balances
  get-set_balances_other test b a c d [] h = refl
  get-set_balances_other test b a c d (x ∷ r) h =
      ground (arith, h x, get-set_balances_other test b a c d r h)

  get-remove_first_other :
      (test : Address F → Bool) (a c d : Text) (p : Base F)
      → ((x : Address F) → is_at a x ≡ true → test x ≡ false)
      → get_address_balance (remove_first test p) a c d ≡ get_address_balance p a c d
  unfolding get_address_balance remove_first
  get-remove_first_other test a c d [] h = refl
  get-remove_first_other test a c d (x ∷ r) h =
      ground (arith, h x, get-remove_first_other test a c d r h)

  get-append_other :
      (p : Base F) (y : Address F) (a c d : Text)
      → is_at a y ≡ false
      → get_address_balance (p ++ y ∷ []) a c d ≡ get_address_balance p a c d
  unfolding get_address_balance
  get-append_other [] y a c d h = ground arith
  get-append_other (x ∷ r) y a c d h = ground (arith, get-append_other r y a c d h)

  differs :
      (a a' : Text) (x : Address F) → text_eq a a' ≡ false → is_at a' x ≡ true → is_at a x ≡ false
  differs a a' x h e =
      ground (arith, text_eq_iff x.address a', text_eq_iff x.address a, text_eq_iff a a')

  -- `AddAddress` does not change the balance of any other address, on any of its branches.
  pub get_address_balance-add_address_other :
      (p : Base F) (a c d a' c' d' : Text) (b : F.Num)
      → text_eq a a' ≡ false
      → get_address_balance (add_address p a c d b) a' c' d' ≡ get_address_balance p a' c' d'
  unfolding add_address
  get_address_balance-add_address_other p a c d a' c' d' b h = ground (
    arith,
    get-append_other p (record { address = a; coin_type = c; balance = b; description = d }) a' c'
        d',
    get-append_other p
        (record { address = a; coin_type = c; balance = b; description = address_exchange }) a' c'
        d',
    get-set_balances_other (is_coin_at a c) b a' c' d' p (λ x e. rw (differs a a' x h e) refl),
    get-set_balances_other (is_at a) b a' c' d' p (λ x e. differs a a' x h e),
    get-remove_first_other (λ x. is_at a x && (text_eq x.coin_type c && is_described d x)) a' c' d'
        p (λ x e. rw (differs a a' x h e) refl),
  )

  get-set_balances_at :
      (b old : F.Num) (a c d : Text) (p : Base F)
      → get_address_balance p a c d ≡ some old
      → get_address_balance (set_balances (is_at a) b p) a c d ≡ some b
  unfolding get_address_balance set_balances
  get-set_balances_at b old a c d [] h = cc
  get-set_balances_at b old a c d (x ∷ r) h = ground (arith, get-set_balances_at b old a c d r)

  -- Adding a positive balance to a personal address that is there sets the balance of all that stands at
  -- the address, whatever its coin type and description: the coin type that is given is not looked at.
  pub add_address_sets_every_coin :
      (p : Base F) (a c d c' d' : Text) (b old : F.Num)
      → text_eq d address_exchange ≡ false
      → address_exists p a ≡ true
      → F.le b F.zero ≡ false
      → get_address_balance p a c' d' ≡ some old
      → get_address_balance (add_address p a c d b) a c' d' ≡ some b
  unfolding add_address
  add_address_sets_every_coin p a c d c' d' b old e x z g =
      rw (e, x, z) (get-set_balances_at b old a c' d' p g)

  get-Lacks : (p : Base F) (a c d : Text) → Lacks a c p → get_address_balance p a c d ≡ none
  unfolding get_address_balance
  get-Lacks [] a c d h = refl
  get-Lacks (x ∷ r) a c d h = ground (arith, h.0, get-Lacks r a c d h.1)

  Lacks-at :
      (p : Base F) (x : Address F) (a c : Text)
      → is_coin_at a c x ≡ true
      → Lacks x.address x.coin_type p
      → Lacks a c p
  Lacks-at p x a c h l =
      let e : x.address ≡ a = ground (arith, text_eq_iff x.address a) in
      let e' : x.coin_type ≡ c = ground (arith, text_eq_iff x.coin_type c) in
      subst (λ k. Lacks a k p) e' (subst (λ k. Lacks k x.coin_type p) e l)

  get-remove_first_self :
      (p : Base F) (a c d : Text)
      → IsKeyed p
      → get_address_balance
          (remove_first (λ x. is_at a x && (text_eq x.coin_type c && is_described d x)) p)
          a
          c
          d
        ≡ none
  unfolding get_address_balance remove_first
  get-remove_first_self [] a c d k = refl
  get-remove_first_self (x ∷ r) a c d k =
      elim (Bool-cases (is_at a x && (text_eq x.coin_type c && is_described d x))) [
        | inl here ↦ rw here (get-Lacks r a c d (Lacks-at r x a c (ground arith) k.0))
        | inr other ↦ rw other (ground (arith, get-remove_first_self r a c d k.1))
      ]

  -- In a portfolio where no address stands twice with one coin type, a balance of zero or less,
  -- given for a personal address that is there, removes what stands there with that coin type and
  -- description.
  pub add_address_removes :
      (p : Base F) (a c d : Text) (b : F.Num)
      → IsKeyed p
      → text_eq d address_exchange ≡ false
      → address_exists p a ≡ true
      → F.le b F.zero ≡ true
      → get_address_balance (add_address p a c d b) a c d ≡ none
  unfolding add_address remove_address
  add_address_removes p a c d b k e x z = rw (e, x, z) (get-remove_first_self p a c d k)
