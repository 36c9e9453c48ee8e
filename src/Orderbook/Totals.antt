-- ===== src/Orderbook/Totals.antt =====
-- The totals of the two sides of an order book.
use cryptofiend.Prelude.{ℕ, ◌≡◌, refl, List, [], ◌∷◌}
use cryptofiend.Float.{Float}
use cryptofiend.Orderbook.{Item, Base, calculate_total_bids, calculate_total_asks, collate, update}

module _ (F : Float) where
  -- The sum of a measure of the items, from the first to the last.
  abbrev sum_from : (Item F → F.Num) → F.Num → List (Item F) → F.Num
  sum_from f acc [] = acc
  sum_from f acc (x ∷ xs) = sum_from f (F.add acc (f x)) xs

  collate-sum_from :
      (xs : List (Item F)) (a v : F.Num)
      → collate F xs a v
        ≡ (sum_from (λ x. x.amount) a xs, sum_from (λ x. F.mul x.amount x.price) v xs)
  unfolding collate
  collate-sum_from [] a v = refl
  collate-sum_from (x ∷ xs) a v =
      collate-sum_from xs (F.add a x.amount) (F.add v (F.mul x.amount x.price))

  -- After `Update` each side's totals are the sum of the new amounts, and the sum of amount times price.
  pub totals-update :
      (o : Base F) (bids asks : List (Item F)) (now : ℕ)
      → (calculate_total_bids F (update F o bids asks now) ≡ (
        sum_from (λ x. x.amount) F.zero bids,
        sum_from (λ x. F.mul x.amount x.price) F.zero bids,
      ))
        × (calculate_total_asks F (update F o bids asks now) ≡ (
          sum_from (λ x. x.amount) F.zero asks,
          sum_from (λ x. F.mul x.amount x.price) F.zero asks,
        ))
  unfolding calculate_total_bids calculate_total_asks update
  totals-update o bids asks now =
      (collate-sum_from bids F.zero F.zero, collate-sum_from asks F.zero F.zero)
