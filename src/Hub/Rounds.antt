-- ===== src/Hub/Rounds.antt =====
-- The limit of connections, and rounds in which a client is disconnected: by its ID, which the handler
-- takes for its position.
use cryptofiend.Prelude.{
  ℕ, zero, suc, ◌+◌, ◌-◌, ◌≤◌, ◌<◌, ◌≡◌, refl, ◌≢◌, inl, inr, false, Option, none, some, List, [],
  ◌∷◌, map, arith, Bool-cases, Text, is_empty, length, get_elem?, length-append, All, sym, ◌∙◌,
  ◌++◌, append-nil, append_assoc,
}
use mathlib.Core.List.{map-append}
use cryptofiend.Hub.{
  Hub, WebsocketClient, WebsocketEvent, WebsocketAuth, Effect, Codec, Settings, serve, handle_read,
  handle_request, log_in, admit_client, join_client, disconnect_websocket_client, set_authenticated,
  serve_from, websocket_handler_round,
}
use cryptofiend.Hub.Requests.{handle_read_unencoded, handle_read_encoded}
use cryptofiend.Hub.Runs.{Input, Trace, start, arrive, connect, read, without, peak}

length-disconnect : (hub : Hub) (x : ℕ) → length (disconnect_websocket_client hub x).0 ≤ length hub
unfolding disconnect_websocket_client
length-disconnect [] x = omega arith
length-disconnect (c ∷ r) x = ground (arith, length-disconnect r x)

length-set_authenticated : (hub : Hub) (x : ℕ) → length (set_authenticated hub x) ≡ length hub
length-set_authenticated [] x = omega arith
length-set_authenticated (c ∷ r) zero = omega arith
length-set_authenticated (c ∷ r) (suc x) = omega (arith, length-set_authenticated r x)

disconnect_absent :
    (hub : Hub) (x : ℕ) → All (λ c. c.id ≢ x) hub → disconnect_websocket_client hub x ≡ (hub, [])
unfolding disconnect_websocket_client
disconnect_absent [] x h = refl
disconnect_absent (c ∷ r) x h = ground (arith, disconnect_absent r x h.1)

get_none : {A : Type 0} (l : List A) (i : ℕ) → length l ≤ i → get_elem? l i ≡ none
get_none [] i h = refl
get_none (x ∷ l) zero h = absurd (omega arith)
get_none (x ∷ l) (suc i) h = get_none l i (omega arith)

length-without :
    (l : List ℕ) (i x : ℕ) → get_elem? l i ≡ some x → suc (length (without i l)) ≡ length l
length-without [] i x h = cc
length-without (y ∷ l) zero x h = omega arith
length-without (y ∷ l) (suc i) x h = omega (arith, length-without l i x h)

module _ (codec : Codec) (settings : Settings) where
  length-log_in :
      (hub : Hub) (x : ℕ) (auth : Option WebsocketAuth)
      → length (log_in codec settings hub x auth).0 ≤ length hub
  length-log_in hub x none = omega arith
  length-log_in hub x (some auth) =
      ground (arith, length-set_authenticated hub x, length-disconnect hub x)

  length-handle_request :
      (hub : Hub) (x : ℕ) (c : WebsocketClient) (event t : Text)
      → length (handle_request codec settings hub x c event t).0 ≤ length hub
  unfolding handle_request
  length-handle_request hub x c event t =
      ground (arith, length-log_in hub x (codec.json_decode t), length-disconnect hub x)

  length-handle_encoded :
      (hub : Hub) (x : ℕ) (c : WebsocketClient) (evt : WebsocketEvent codec.Value)
      (encoded : Option Text)
      → codec.json_encode evt.value ≡ encoded
      → is_empty evt.event ≡ false
      → length (handle_read codec settings hub x c (some evt)).0 ≤ length hub
  length-handle_encoded hub x c evt none e f =
      rw (handle_read_unencoded codec settings hub x c evt f e) (omega arith)
  length-handle_encoded hub x c evt (some t) e f =
      rw (handle_read_encoded codec settings hub x c evt t f e)
        (length-handle_request hub x c evt.event t)

  length-handle_read :
      (hub : Hub) (x : ℕ) (c : WebsocketClient) (evt : Option (WebsocketEvent codec.Value))
      → length (handle_read codec settings hub x c evt).0 ≤ length hub
  unfolding handle_read
  length-handle_read hub x c none = length-disconnect hub x
  length-handle_read hub x c (some evt) = elim (Bool-cases (is_empty evt.event)) [
    | inl blank ↦ rw blank (length-disconnect hub x)
    | inr full ↦ length-handle_encoded hub x c evt (codec.json_encode evt.value) refl full
  ]

  serve_from_panics :
      (n : ℕ) (hub : Hub) (x : ℕ) (reads : ℕ → Option (WebsocketEvent codec.Value))
      (c : Option WebsocketClient)
      → get_elem? hub x ≡ c
      → ((now : Hub)
          → length now ≤ length hub
          → serve_from codec settings n now (x + 1) reads ≡ none)
      → serve_from codec settings (suc n) hub x reads ≡ none
  unfolding serve_from serve
  serve_from_panics n hub x reads none g later = rw g refl
  serve_from_panics n hub x reads (some c) g later =
      rw (g, later _ (length-handle_read hub x c (reads x))) refl

  -- Once the hub has fewer clients than the round has left to read, the round panics.
  serve_from_short :
      (n : ℕ) (hub : Hub) (x : ℕ) (reads : ℕ → Option (WebsocketEvent codec.Value))
      → length hub < x + suc n
      → serve_from codec settings (suc n) hub x reads ≡ none
  unfolding serve_from serve
  serve_from_short zero hub x reads h = rw (get_none hub x (omega arith)) refl
  serve_from_short (suc n) hub x reads h =
      serve_from_panics (suc n) hub x reads (get_elem? hub x) refl
        (λ now l. serve_from_short n now (x + 1) reads (omega arith))

  -- A round panics in which the first of several clients, with the ID 0, cannot be read from: the
  -- round goes on to a position that the hub no longer has.
  pub websocket_handler_round_panics :
      (c d : WebsocketClient) (r : Hub) (reads : ℕ → Option (WebsocketEvent codec.Value))
      → c.id ≡ 0
      → reads 0 ≡ none
      → websocket_handler_round codec settings (c ∷ d ∷ r) reads ≡ none
  unfolding websocket_handler_round serve_from serve handle_read disconnect_websocket_client
  websocket_handler_round_panics c d r reads i e =
      rw (e, i, serve_from_short (length r) (d ∷ r) 1 reads (omega arith)) refl

  -- A client whose connection cannot be read any more stays in the hub, and unclosed, where no client
  -- has its position for an ID.
  pub serve_keeps_broken :
      (hub : Hub) (x : ℕ) (c : WebsocketClient)
      → get_elem? hub x ≡ some c
      → All (λ d. d.id ≢ x) hub
      → serve codec settings hub x none ≡ some (hub, [])
  unfolding serve handle_read
  serve_keeps_broken hub x c g h = rw (g, disconnect_absent hub x h) refl

  length-join_client :
      (hub : Hub) (id : ℕ) (upgraded : Option ℕ)
      → length (join_client hub id upgraded) ≤ suc (length hub)
  unfolding join_client
  length-join_client hub id none = omega arith
  length-join_client hub id (some conn) =
      let new : WebsocketClient = record { id = id; conn = conn; authenticated = false } in
      omega (arith, length-append hub (new ∷ []))

  admitted :
      (hub : Hub) (id : ℕ)
      → admit_client settings hub ≡ some id
      → length hub < settings.connection_limit
  unfolding admit_client
  admitted hub id h = ground arith

  -- The clients of the hub and the requests that are being upgraded: one request at a time keeps to the
  -- limit, and each further one that is upgraded at the same time can exceed it by one.
  joined :
      {hub : Hub} {waiting : List ℕ} {inputs : List (Input codec settings)} {effects : List Effect}
      → (r : Trace codec settings hub waiting inputs effects)
      → (length waiting ≤ peak codec settings r)
        × (length hub + length waiting ≤ settings.connection_limit + (peak codec settings r - 1))
  unfolding peak serve
  joined start = (omega arith, omega arith)
  joined (arrive {hub = hub} {waiting = w} r id a) =
      let before = joined r in let below = admitted hub id a in ground arith
  joined (connect {hub = hub} {waiting = w} r i id g upgraded) =
      let before = joined r in
      let grown = length-join_client hub id upgraded in
      let left = length-without w i id g in (omega arith, omega arith)
  joined (read {hub = hub} r x c evt g after s) =
      let before = joined r in (before.0, ground (arith, length-handle_read hub x c evt))

  -- However clients connect and the handler reads from them, from an empty hub on, the hub has at
  -- most as many clients as the limit of connections and one less than the most requests that were
  -- being upgraded at one time, added up: with at most one at a time, never more than the limit.
  pub hub_limited :
      (hub : Hub) (waiting : List ℕ) (inputs : List (Input codec settings)) (effects : List Effect)
      (r : Trace codec settings hub waiting inputs effects)
      → length hub ≤ settings.connection_limit + (peak codec settings r - 1)
  hub_limited hub waiting inputs effects r = let j = joined r in omega arith

  waiting_for :
      (conns : List ℕ)
      → 0 < settings.connection_limit
      → Trace codec settings [] (map (λ conn. 0) conns) [] []
  unfolding admit_client
  waiting_for [] h = start
  waiting_for (conn ∷ r) h = arrive (waiting_for r h) 0 (ground arith)

  join_all :
      (conns : List ℕ) (hub : Hub)
      → Trace codec settings hub (map (λ conn. 0) conns) [] []
      → (hub' : Hub) × Trace codec settings hub' [] [] []
        × (map (λ c. c.conn) hub' ≡ map (λ c. c.conn) hub ++ conns)
  unfolding join_client
  join_all [] hub r = (hub, r, sym (append-nil _))
  join_all (conn ∷ conns) hub r =
      let new : WebsocketClient = record { id = 0; conn = conn; authenticated = false } in
      let rest = join_all conns (hub ++ new ∷ []) (connect r 0 0 refl (some conn)) in
      (
        rest.0,
        rest.1,
        rest.2 ∙ (rw map-append (append_assoc (map (λ c. c.conn) hub) (conn ∷ []) conns)),
      )

  -- The limit, where it is one at least, does not bound the hub: any number of connections can become its
  -- clients, if their requests come before the first is upgraded.
  pub hub_exceeds :
      (conns : List ℕ)
      → 0 < settings.connection_limit
      → (hub : Hub) × Trace codec settings hub [] [] [] × (map (λ c. c.conn) hub ≡ conns)
  hub_exceeds conns h = join_all conns [] (waiting_for conns h)
