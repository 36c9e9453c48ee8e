-- ===== src/Orders/Examples.antt =====
-- Runs of the order list, and the theorems at concrete orders.
use cryptofiend.Prelude.{ℕ, ◌≡◌, refl, true, none, some, [], ◌∷◌, arith, codes, text_eq}
use cryptofiend.Float.{whole}
use cryptofiend.Orders.{
  Order, Orders, new_order, delete_order, get_order_by_order_id, get_orders_by_exchange,
}
use cryptofiend.Orders.Ids.{new_order-delete_order_clash}

abbrev order : ℕ → Order whole
order id = record { order_id = id; exchange = codes "ANX"; type = 0; amount = 1; price = 2 }

abbrev two_orders : Orders whole
two_orders = order 0 ∷ order 1 ∷ []

made : (new_order {F = whole} [] (codes "ANX") 1 2) ≡ (order 0 ∷ [], 0)
unfolding new_order
made = refl

none_there : get_orders_by_exchange two_orders (codes "Kraken") ≡ none
unfolding get_orders_by_exchange text_eq
none_there = refl

new_order-delete_order_clash_example :
    ((delete_order two_orders 0).1 ≡ true)
    × ((o : Order whole) × (get_order_by_order_id
            (delete_order two_orders 0).0
            (new_order (delete_order two_orders 0).0 (codes "ANX") 1 2).1
          ≡ some o))
new_order-delete_order_clash_example =
    new_order-delete_order_clash two_orders 0 (codes "ANX") 1 2 (refl, (refl, tt)) (omega arith)
