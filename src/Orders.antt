-- ===== src/Orders.antt =====
-- orders.go: the list of the bot's own orders. `[]*Order` is a list of records: no function changes an
-- order once it is made.
pub mod Ids
pub mod Examples
use cryptofiend.Prelude.{
  ℕ, Bool, true, false, Option, none, some, List, [], ◌∷◌, ◌++◌, ltb, ◌==◌, if◌then◌else◌, Text,
  text_eq, length, keep_if, find_first,
}
use cryptofiend.Float.{Float}

pub record Order (F : Float) : Type 0 where
  pub order_id : ℕ
  pub exchange : Text
  pub type : ℕ
  pub amount : F.Num
  pub price : F.Num

-- The package variable.
abbrev pub Orders : Float → Type 0
Orders F = List (Order F)

module _ {F : Float} where
  -- The orders after the call, and the ID. `Type` keeps its zero value.
  unfoldable pub new_order : Orders F → Text → F.Num → F.Num → Orders F × ℕ
  new_order orders exchange amount price =
      let order_id = if length orders == 0 then 0 else length orders in
      (
        orders
            ++ record {
              order_id = order_id;
              exchange = exchange;
              type = 0;
              amount = amount;
              price = price;
            }
              ∷ [],
        order_id,
      )

  unfoldable pub delete_order : Orders F → ℕ → Orders F × Bool
  delete_order [] order_id = ([], false)
  delete_order (o ∷ r) order_id =
      let rest = delete_order r order_id in
      if o.order_id == order_id then (r, true) else (o ∷ rest.0, rest.1)

  -- `none` is the nil slice
  unfoldable pub get_orders_by_exchange : Orders F → Text → Option (Orders F)
  get_orders_by_exchange all exchange =
      let orders = keep_if (λ o. text_eq o.exchange exchange) all in
      if ltb 0 (length orders) then some orders else none

  unfoldable pub get_order_by_order_id : Orders F → ℕ → Option (Order F)
  get_order_by_order_id orders order_id = find_first (λ o. o.order_id == order_id) orders
