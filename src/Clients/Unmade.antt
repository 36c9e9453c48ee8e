-- ===== src/Clients/Unmade.antt =====
-- Bitstamp's order books, which SetDefaults does not make.
use cryptofiend.Prelude.{ℕ, ◌≡◌, refl, ◌∙◌, true, false, Option, none, some, List, Text, codes}
use cryptofiend.Float.{Float}
use cryptofiend.Pair.{CurrencyPair, pair}
use cryptofiend.Config.{ExchangeConfig, get_exchange_config}
use cryptofiend.Orderbook.{zero_base}
use cryptofiend.Orderbook.Books.{get_orderbook-unmade, process_orderbook-unmade}
use cryptofiend.Clients.{book_or_update, get_book, Client, reply}
use cryptofiend.Clients.Starts.{setup_starts}
use cryptofiend.Clients.Bitstamp.{
  Orderbook, set_defaults, setup, update_orderbook, get_orderbook_ex,
}

module _ {F : Float} where
  nil_books :
      (c : Client F) (request : Text → Option (Orderbook F)) (p : CurrencyPair) (t : Text) (now : ℕ)
      → c.orderbooks ≡ none
      → (get_orderbook_ex request c p t now ≡ some (c, reply (zero_base F)))
        × ((book : Orderbook F)
            → request (pair p) ≡ some book
            → update_orderbook request c p t now ≡ none)
  unfolding update_orderbook get_orderbook_ex
  nil_books c request p t now nil = (
    simp (book_or_update, get_book, nil, get_orderbook-unmade {F = F} p t),
    λ book r. rw (r, nil, process_orderbook-unmade {F = F} p _ t now) refl,
  )

  -- A new Bitstamp client, whose map of order books is nil, that is started with its defaults and an
  -- enabled configuration: an UpdateOrderbook whose request is answered panics, and GetOrderbookEx
  -- answers with a blank book and no error, without a request.
  pub bitstamp_books_unmade :
      (base64_decode : Text → Option Text) (c : Client F) (exch known : ExchangeConfig)
      (exchanges : List ExchangeConfig)
      → c.orderbooks ≡ none
      → exch.enabled ≡ true
      → get_exchange_config exchanges (codes "Bitstamp") ≡ some known
      → (c' : Client F) × (after : List ExchangeConfig) × (setup base64_decode
            (set_defaults c)
            exch
            exchanges
          ≡ some (c', after))
        × ((request : Text → Option (Orderbook F)) (p : CurrencyPair) (t : Text) (now : ℕ)
            → (get_orderbook_ex request c' p t now ≡ some (c', reply (zero_base F)))
              × ((book : Orderbook F)
                  → request (pair p) ≡ some book
                  → update_orderbook request c' p t now ≡ none))
  unfolding set_defaults setup update_orderbook get_orderbook_ex
  bitstamp_books_unmade base64_decode c exch known exchanges n e h =
      let starts =
        setup_starts base64_decode exch.client_id false none (set_defaults c) exch exchanges e in
      let (c', after, runs, configured, request', types, kept, last) = starts.1 known h in
      let nil : c'.orderbooks ≡ none = kept ∙ n in
      (c', after, runs, λ request p t now. nil_books c' request p t now nil)
