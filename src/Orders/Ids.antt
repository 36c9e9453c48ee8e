-- ===== src/Orders/Ids.antt =====
-- The IDs of orders.
use cryptofiend.Prelude.{
  ℕ, ◌+◌, ◌≤◌, ◌<◌, ◌≡◌, refl, ◌∙◌, ◌≢◌, inl, inr, true, none, some, [], ◌∷◌, ◌++◌, arith, ◌==◌,
  if◌then◌else◌, Bool-cases, Text, length,
}
use cryptofiend.Float.{Float}
use cryptofiend.Orders.{Order, Orders, new_order, delete_order, get_order_by_order_id}

module _ {F : Float} where
  -- The IDs are the positions, from `n` on.
  abbrev pub IsNumbered : ℕ → Orders F → Type 0
  IsNumbered n [] = Unit
  IsNumbered n (o ∷ r) = (o.order_id ≡ n) × IsNumbered (n + 1) r

  IsNumbered-append :
      (n : ℕ) (orders : Orders F) (o : Order F)
      → IsNumbered n orders
      → o.order_id ≡ n + length orders
      → IsNumbered n (orders ++ o ∷ [])
  IsNumbered-append n [] o h e = (omega arith, tt)
  IsNumbered-append n (x ∷ r) o h e = (h.0, IsNumbered-append (n + 1) r o h.1 (omega arith))

  not_below :
      (n : ℕ) (orders : Orders F) (k : ℕ)
      → IsNumbered n orders
      → n + length orders ≤ k
      → get_order_by_order_id orders k ≡ none
  unfolding get_order_by_order_id
  not_below n [] k h e = refl
  not_below n (x ∷ r) k h e = ground (arith, not_below (n + 1) r k h.1)

  find_append :
      (orders : Orders F) (o : Order F) (k : ℕ)
      → get_order_by_order_id orders k ≡ none
      → o.order_id ≡ k
      → get_order_by_order_id (orders ++ o ∷ []) k ≡ some o
  unfolding get_order_by_order_id
  find_append [] o k h e = ground arith
  find_append (x ∷ r) o k h e = ground (arith, find_append r o k)

  -- Where the IDs are the positions `NewOrder` keeps them so, its ID is of no order yet, and the order is
  -- found under it with what it was made from.
  pub new_order-IsNumbered :
      (orders : Orders F) (exchange : Text) (amount price : F.Num)
      → IsNumbered 0 orders
      → IsNumbered 0 (new_order orders exchange amount price).0
        × (get_order_by_order_id orders (new_order orders exchange amount price).1 ≡ none)
        × (get_order_by_order_id
              (new_order orders exchange amount price).0
              (new_order orders exchange amount price).1
            ≡ some (record {
              order_id = length orders;
              exchange = exchange;
              type = 0;
              amount = amount;
              price = price;
            }))
  unfolding new_order
  new_order-IsNumbered orders exchange amount price h =
      let id : (if length orders == 0 then 0 else length orders) ≡ length orders = ground arith in
      let fresh = not_below 0 orders (length orders) h (omega arith) in
      rw id (
        IsNumbered-append 0 orders _ h (omega arith),
        fresh,
        find_append orders _ (length orders) fresh refl,
      )

  deleted :
      (n : ℕ) (orders : Orders F) (k : ℕ)
      → IsNumbered n orders
      → n ≤ k
      → k < n + length orders
      → ((delete_order orders k).1 ≡ true) × (length (delete_order orders k).0 + 1 ≡ length orders)
  unfolding delete_order
  deleted n [] k h l u = absurd (omega arith)
  deleted n (x ∷ r) k h l u = ground (arith, deleted (n + 1) r k h.1)

  -- Deleting an ID leaves what the other IDs find.
  get_order_by_order_id-delete_order :
      (orders : Orders F) (k j : ℕ)
      → j ≢ k
      → get_order_by_order_id (delete_order orders k).0 j ≡ get_order_by_order_id orders j
  unfolding get_order_by_order_id delete_order
  get_order_by_order_id-delete_order [] k j ne = refl
  get_order_by_order_id-delete_order (x ∷ r) k j ne =
      ground (arith, get_order_by_order_id-delete_order r k j ne)

  numbered_found :
      (n : ℕ) (orders : Orders F) (j : ℕ)
      → IsNumbered n orders
      → n ≤ j
      → j < n + length orders
      → (o : Order F) × (get_order_by_order_id orders j ≡ some o)
  unfolding get_order_by_order_id
  numbered_found n [] j h l u = absurd (omega arith)
  numbered_found n (x ∷ r) j h l u = elim (Bool-cases (x.order_id == j)) [
    | inl same ↦ (x, rw same refl)
    | inr other ↦ rw other (numbered_found (n + 1) r j h.1 (ground arith) (omega arith))
  ]

  new_id :
      (orders : Orders F) (exchange : Text) (amount price : F.Num)
      → (new_order orders exchange amount price).1 ≡ length orders
  unfolding new_order
  new_id orders exchange amount price = ground arith

  -- Where the IDs are the positions and an order that is not the last is deleted, the next NewOrder
  -- gives out an ID that an order still has.
  pub new_order-delete_order_clash :
      (orders : Orders F) (k : ℕ) (exchange : Text) (amount price : F.Num)
      → IsNumbered 0 orders
      → k + 1 < length orders
      → ((delete_order orders k).1 ≡ true)
        × ((o : Order F) × (get_order_by_order_id
                (delete_order orders k).0
                (new_order (delete_order orders k).0 exchange amount price).1
              ≡ some o))
  new_order-delete_order_clash orders k exchange amount price h lt =
      let gone = deleted 0 orders k h (omega arith) (omega arith) in
      let last = length (delete_order orders k).0 in
      let there = numbered_found 0 orders last h (omega arith) (omega arith) in
      (
        gone.0,
        (
          there.0,
          rw new_id (get_order_by_order_id-delete_order orders k last (omega arith) ∙ there.1),
        ),
      )
