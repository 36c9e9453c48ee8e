-- ===== src/Clients/Books.antt =====
-- What an update of an order book does, once the books are made.
use cryptofiend.Prelude.{ℕ, ◌≡◌, refl, Option, some, List, Text}
use cryptofiend.Float.{Float}
use cryptofiend.Pair.{CurrencyPair}
use cryptofiend.Orderbook.{Item, Books, zero_base}
use cryptofiend.Orderbook.Books.{stored, get_orderbook-process_orderbook}
use cryptofiend.Pair.Equality.{equal_refl}
use cryptofiend.Clients.{Client, Book, reply, BookUpdate, update_book, book_or_update}

module _ {F : Float} where
  -- A client whose order books are made, and whose answer has all the items it is read for: an
  -- update of the book does not panic and answers with the book of those items, with its name and
  -- time set; GetOrderbookEx then asks for the book again.
  pub update_book_runs :
      {B : Type 0} (c : Client F) (books : Books F) (p : CurrencyPair) (t : Text) (now : ℕ)
      (items_in : B → Option (List (Item F) × List (Item F))) (answer : B)
      (bids asks : List (Item F))
      → c.orderbooks ≡ some books
      → items_in answer ≡ some (bids, asks)
      → let book = stored p (record (zero_base F) { bids = bids; asks = asks }) now in
        (after : Client F) × (update_book c p t now items_in (some answer)
          ≡ some (after, reply book))
        × ((update : BookUpdate F) → book_or_update after p t update ≡ update)
  update_book_runs c books p t now items_in answer bids asks o i =
      let new : Book F = record (zero_base F) { bids = bids; asks = asks } in
      let put = get_orderbook-process_orderbook books p p new t now (equal_refl p) in
      (
        record c { orderbooks = some put.0.0 },
        rw (i, o, put.0.1, put.0.2) refl,
        λ update. rw (book_or_update, put.0.2) refl,
      )
