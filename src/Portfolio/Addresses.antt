-- ===== src/Portfolio/Addresses.antt =====
-- The addresses as a map from an address and a coin type.
use cryptofiend.Prelude.{
  ◌≡◌, refl, Bool, true, false, not, [], ◌∷◌, ◌++◌, arith, if◌then◌else◌, Text, text_eq,
  text_eq_comm, All, All-append,
}
use cryptofiend.Float.{Float}
use cryptofiend.Portfolio.{
  Address, Base, remove_first, is_coin_at, address_exchange, set_balances, add_exchange_address,
  add_address, address_exists, exchange_address_exists,
}

module _ {F : Float} where
  abbrev pub Lacks : Text → Text → Base F → Type 0
  Lacks address coin_type = All (λ x. is_coin_at address coin_type x ≡ false)

  -- No address stands twice with one coin type.
  abbrev pub IsKeyed : Base F → Type 0
  IsKeyed [] = Unit
  IsKeyed (x ∷ r) = Lacks x.address x.coin_type r × IsKeyed r

  Lacks-set_balances :
      (test : Address F → Bool) (b : F.Num) (a c : Text) (p : Base F)
      → Lacks a c p
      → Lacks a c (set_balances test b p)
  unfolding set_balances
  Lacks-set_balances test b a c [] h = tt
  Lacks-set_balances test b a c (x ∷ r) h = ground (arith, Lacks-set_balances test b a c r h.1)

  set_balances-IsKeyed :
      (test : Address F → Bool) (b : F.Num) (p : Base F)
      → IsKeyed p
      → IsKeyed (set_balances test b p)
  unfolding set_balances
  set_balances-IsKeyed test b [] k = tt
  set_balances-IsKeyed test b (x ∷ r) k = ground (
    arith,
    Lacks-set_balances test b x.address x.coin_type r k.0,
    set_balances-IsKeyed test b r k.1,
  )

  Lacks-remove_first :
      (test : Address F → Bool) (a c : Text) (p : Base F)
      → Lacks a c p
      → Lacks a c (remove_first test p)
  unfolding remove_first
  Lacks-remove_first test a c [] h = tt
  Lacks-remove_first test a c (x ∷ r) h = ground (arith, Lacks-remove_first test a c r h.1)

  remove_first-IsKeyed :
      (test : Address F → Bool) (p : Base F) → IsKeyed p → IsKeyed (remove_first test p)
  unfolding remove_first
  remove_first-IsKeyed test [] k = tt
  remove_first-IsKeyed test (x ∷ r) k =
      ground (
        arith,
        Lacks-remove_first test x.address x.coin_type r k.0,
        remove_first-IsKeyed test r k.1,
      )

  Lacks-of-exists : (a c : Text) (p : Base F) → exchange_address_exists p a c ≡ false → Lacks a c p
  unfolding exchange_address_exists
  Lacks-of-exists a c [] h = tt
  Lacks-of-exists a c (x ∷ r) h = ground (arith, Lacks-of-exists a c r)

  Lacks-of-address : (a c : Text) (p : Base F) → address_exists p a ≡ false → Lacks a c p
  unfolding address_exists
  Lacks-of-address a c [] h = tt
  Lacks-of-address a c (x ∷ r) h = ground (arith, Lacks-of-address a c r)

  append-IsKeyed :
      (p : Base F) (x : Address F)
      → Lacks x.address x.coin_type p
      → IsKeyed p
      → IsKeyed (p ++ x ∷ [])
  append-IsKeyed [] x l k = (tt, tt)
  append-IsKeyed (y ∷ r) x l k = (
    All-append _ r (x ∷ []) k.0 (
      ground (arith, text_eq_comm x.address y.address, text_eq_comm x.coin_type y.coin_type),
      tt,
    ),
    append-IsKeyed r x l.1 k.1,
  )

  IsKeyed-if :
      (b : Bool) (x y : Base F)
      → (b ≡ true → IsKeyed x)
      → (b ≡ false → IsKeyed y)
      → IsKeyed (if b then x else y)
  IsKeyed-if true x y hx hy = hx refl
  IsKeyed-if false x y hx hy = hy refl

  add_exchange_address-IsKeyed :
      (p : Base F) (a c : Text) (b : F.Num) → IsKeyed p → IsKeyed (add_exchange_address p a c b)
  unfolding add_exchange_address
  add_exchange_address-IsKeyed p a c b k =
      IsKeyed-if (exchange_address_exists p a c) _ _ (λ e. set_balances-IsKeyed _ b p k)
        (λ e. append-IsKeyed p _ (Lacks-of-exists a c p e) k)

  -- `AddAddress` keeps the addresses a map, whether it adds, updates or removes, for an exchange or not: no
  -- address stands twice with one coin type.
  pub add_address-IsKeyed :
      (p : Base F) (a c d : Text) (b : F.Num) → IsKeyed p → IsKeyed (add_address p a c d b)
  unfolding add_address
  add_address-IsKeyed p a c d b k =
      IsKeyed-if (text_eq d address_exchange) _ _ (λ e. add_exchange_address-IsKeyed p a c b k)
        (λ e.
          IsKeyed-if (not (address_exists p a)) _ _
            (λ n. append-IsKeyed p _ (Lacks-of-address a c p (ground arith)) k)
            (λ n.
              IsKeyed-if (F.le b F.zero) _ _ (λ z. remove_first-IsKeyed _ p k)
                (λ z. set_balances-IsKeyed _ b p k)))
