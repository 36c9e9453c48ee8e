-- ===== src/Hub/Access.antt =====
-- A request is run only for a connection that has logged in.
use cryptofiend.Prelude.{
  ℕ, zero, suc, ◌≡◌, refl, inl, inr, true, false, Option, none, some, List, [], ◌∷◌, arith, ◌==◌,
  Bool-cases, Text, codes, text_eq, is_empty, get_elem?, any_of, All, All-append,
}
use cryptofiend.Text.{to_lower}
use cryptofiend.Hub.{
  ws_handlers, Hub, WebsocketClient, WebsocketEvent, WebsocketAuth, Effect, Codec, Settings,
  Response, ran, closed, wrote, serve, handle_read, handle_request, log_in, is_admin, join_client,
  disconnect_websocket_client, send_websocket_message, set_authenticated, send_off,
}
use cryptofiend.Hub.Requests.{
  request_login, request_refused, request_ran, request_unknown, handle_read_blank,
  handle_read_unencoded, handle_read_encoded,
}
use cryptofiend.Hub.Runs.{
  Input, Trace, start, arrive, connect, read, logged_in, client_backed, effect_backed,
}

module _ (codec : Codec) (settings : Settings) where
  abbrev ClientsBacked : List (Input codec settings) → Hub → Type 0
  ClientsBacked inputs hub = All (λ c. client_backed codec settings inputs c ≡ true) hub

  abbrev EffectsBacked : List (Input codec settings) → List Effect → Type 0
  EffectsBacked inputs effects = All (λ e. effect_backed codec settings inputs e ≡ true) effects

  clients_later :
      (i : Input codec settings) (inputs : List (Input codec settings)) (hub : Hub)
      → ClientsBacked inputs hub
      → ClientsBacked (i ∷ inputs) hub
  clients_later i inputs [] h = tt
  clients_later i inputs (c ∷ r) h = (ground arith, clients_later i inputs r h.1)

  effects_later :
      (i : Input codec settings) (inputs : List (Input codec settings)) (effects : List Effect)
      → EffectsBacked inputs effects
      → EffectsBacked (i ∷ inputs) effects
  effects_later i inputs [] h = tt
  effects_later i inputs (closed conn ∷ r) h = (refl, effects_later i inputs r h.1)
  effects_later i inputs (wrote conn a ∷ r) h = (refl, effects_later i inputs r h.1)
  effects_later i inputs (ran q conn t ∷ r) h = (ground arith, effects_later i inputs r h.1)

  disconnect_clients :
      (inputs : List (Input codec settings)) (hub : Hub) (x : ℕ)
      → ClientsBacked inputs hub
      → ClientsBacked inputs (disconnect_websocket_client hub x).0
  unfolding disconnect_websocket_client
  disconnect_clients inputs [] x h = tt
  disconnect_clients inputs (c ∷ r) x h = elim (Bool-cases (c.id == x)) [
    | inl here ↦ rw here h.1
    | inr other ↦ rw other (h.0, disconnect_clients inputs r x h.1)
  ]

  disconnect_effects :
      (inputs : List (Input codec settings)) (hub : Hub) (x : ℕ)
      → EffectsBacked inputs (disconnect_websocket_client hub x).1
  unfolding disconnect_websocket_client
  disconnect_effects inputs [] x = tt
  disconnect_effects inputs (c ∷ r) x = elim (Bool-cases (c.id == x)) [
    | inl here ↦ rw here (refl, tt)
    | inr other ↦ rw other (disconnect_effects inputs r x)
  ]

  send_effects :
      (inputs : List (Input codec settings)) (hub : Hub) (x : ℕ) (a : Response)
      → EffectsBacked inputs (send_websocket_message hub x a)
  unfolding send_websocket_message
  send_effects inputs [] x a = tt
  send_effects inputs (c ∷ r) x a = elim (Bool-cases (c.id == x)) [
    | inl here ↦ rw here (refl, tt)
    | inr other ↦ rw other (send_effects inputs r x a)
  ]

  set_clients :
      (inputs : List (Input codec settings)) (hub : Hub) (x : ℕ) (c : WebsocketClient)
      → get_elem? hub x ≡ some c
      → logged_in codec settings inputs c.conn ≡ true
      → ClientsBacked inputs hub
      → ClientsBacked inputs (set_authenticated hub x)
  set_clients inputs [] x c g l h = tt
  set_clients inputs (d ∷ r) zero c g l h = (ground arith, h.1)
  set_clients inputs (d ∷ r) (suc x) c g l h = (h.0, set_clients inputs r x c g l h.1)

  -- Both for what a handler returns.
  abbrev Backed : List (Input codec settings) → Hub × List Effect → Type 0
  Backed inputs after = ClientsBacked inputs after.0 × EffectsBacked inputs after.1

  disconnect-Backed :
      (inputs : List (Input codec settings)) (hub : Hub) (x : ℕ)
      → ClientsBacked inputs hub
      → Backed inputs (disconnect_websocket_client hub x)
  disconnect-Backed inputs hub x h =
      (disconnect_clients inputs hub x h, disconnect_effects inputs hub x)

  send_off-Backed :
      (inputs : List (Input codec settings)) (hub : Hub) (x : ℕ) (a : Response)
      → ClientsBacked inputs hub
      → Backed inputs (send_off codec settings hub x a)
  send_off-Backed inputs hub x a h = (
    disconnect_clients inputs hub x h,
    All-append _ _ _ (send_effects inputs hub x a) (disconnect_effects inputs hub x),
  )

  log_in-Backed :
      (inputs : List (Input codec settings)) (hub : Hub) (x : ℕ) (c : WebsocketClient)
      (evt : WebsocketEvent codec.Value) (dataJSON : Text) (auth : Option WebsocketAuth)
      → get_elem? hub x ≡ some c
      → text_eq evt.event (codes "auth") ≡ true
      → codec.json_encode evt.value ≡ some dataJSON
      → codec.json_decode dataJSON ≡ auth
      → ClientsBacked ((c.conn, some evt) ∷ inputs) hub
      → Backed ((c.conn, some evt) ∷ inputs) (log_in codec settings hub x auth)
  log_in-Backed inputs hub x c evt t none g a e d h = (h, tt)
  log_in-Backed inputs hub x c evt t (some auth) g a e d h =
      let now = (c.conn, some evt) ∷ inputs in
      elim (Bool-cases (is_admin codec settings auth)) [
        | inl admin ↦ rw admin (
          set_clients now hub x c g (rw (a, e, d, admin) (ground arith)) h,
          send_effects now (set_authenticated hub x) x Response.auth_success,
        )
        | inr other ↦ rw other (send_off-Backed now hub x Response.invalid_credentials h)
      ]

  request-Backed :
      (inputs : List (Input codec settings)) (hub : Hub) (x : ℕ) (c : WebsocketClient)
      (evt : WebsocketEvent codec.Value) (t : Text)
      → get_elem? hub x ≡ some c
      → client_backed codec settings ((c.conn, some evt) ∷ inputs) c ≡ true
      → codec.json_encode evt.value ≡ some t
      → ClientsBacked ((c.conn, some evt) ∷ inputs) hub
      → Backed ((c.conn, some evt) ∷ inputs) (handle_request codec settings hub x c evt.event t)
  request-Backed inputs hub x c evt t g b e h =
      let now = (c.conn, some evt) ∷ inputs in
      elim (Bool-cases c.authenticated) [
        | inl known ↦ elim (Bool-cases (any_of (text_eq (to_lower evt.event)) ws_handlers)) [
          | inl listed ↦
              rw (request_ran codec settings hub x c evt.event t known listed)
                (h, (ground arith, tt))
          | inr other ↦ rw (request_unknown codec settings hub x c evt.event t known other) (h, tt)
        ]
        | inr stranger ↦ elim (Bool-cases (text_eq evt.event (codes "auth"))) [
          | inl login ↦
              rw (request_login codec settings hub x c evt.event t stranger login)
                (log_in-Backed inputs hub x c evt t (codec.json_decode t) g login e refl h)
          | inr other ↦
              rw (request_refused codec settings hub x c evt.event t stranger other)
                (send_off-Backed now hub x Response.must_authenticate h)
        ]
      ]

  encoded-Backed :
      (inputs : List (Input codec settings)) (hub : Hub) (x : ℕ) (c : WebsocketClient)
      (evt : WebsocketEvent codec.Value) (encoded : Option Text)
      → get_elem? hub x ≡ some c
      → client_backed codec settings ((c.conn, some evt) ∷ inputs) c ≡ true
      → codec.json_encode evt.value ≡ encoded
      → ClientsBacked ((c.conn, some evt) ∷ inputs) hub
      → is_empty evt.event ≡ false
      → Backed ((c.conn, some evt) ∷ inputs) (handle_read codec settings hub x c (some evt))
  encoded-Backed inputs hub x c evt none g b e h f =
      rw (handle_read_unencoded codec settings hub x c evt f e) (h, tt)
  encoded-Backed inputs hub x c evt (some t) g b e h f =
      rw (handle_read_encoded codec settings hub x c evt t f e)
        (request-Backed inputs hub x c evt t g b e h)

  get-Backed :
      (inputs : List (Input codec settings)) (hub : Hub) (x : ℕ) (c : WebsocketClient)
      → get_elem? hub x ≡ some c
      → ClientsBacked inputs hub
      → client_backed codec settings inputs c ≡ true
  get-Backed inputs [] x c g h = absurd (ground arith)
  get-Backed inputs (d ∷ r) zero c g h = ground arith
  get-Backed inputs (d ∷ r) (suc x) c g h = get-Backed inputs r x c g h.1

  read-Backed :
      (inputs : List (Input codec settings)) (hub : Hub) (x : ℕ) (c : WebsocketClient)
      (evt : Option (WebsocketEvent codec.Value))
      → get_elem? hub x ≡ some c
      → ClientsBacked inputs hub
      → Backed ((c.conn, evt) ∷ inputs) (handle_read codec settings hub x c evt)
  unfolding handle_read
  read-Backed inputs hub x c none g h =
      disconnect-Backed ((c.conn, none) ∷ inputs) hub x (clients_later (c.conn, none) inputs hub h)
  read-Backed inputs hub x c (some evt) g h =
      let now = (c.conn, some evt) ∷ inputs in
      let later = clients_later (c.conn, some evt) inputs hub h in
      elim (Bool-cases (is_empty evt.event)) [
        | inl blank ↦
            rw (handle_read_blank codec settings hub x c evt blank)
              (disconnect-Backed now hub x later)
        | inr full ↦
            encoded-Backed inputs hub x c evt (codec.json_encode evt.value) g
              (get-Backed now hub x c g later) refl later full
      ]

  join-Backed :
      (inputs : List (Input codec settings)) (hub : Hub) (id : ℕ) (upgraded : Option ℕ)
      → ClientsBacked inputs hub
      → ClientsBacked inputs (join_client hub id upgraded)
  unfolding join_client
  join-Backed inputs hub id none h = h
  join-Backed inputs hub id (some conn) h = All-append _ hub _ h (refl, tt)

  serve_after :
      (hub : Hub) (x : ℕ) (c : WebsocketClient) (evt : Option (WebsocketEvent codec.Value))
      (after : Hub × List Effect)
      → get_elem? hub x ≡ some c
      → serve codec settings hub x evt ≡ some after
      → handle_read codec settings hub x c evt ≡ after
  unfolding serve
  serve_after hub x c evt after g s = ground arith

  Trace-Backed :
      {hub : Hub} {waiting : List ℕ} {inputs : List (Input codec settings)} {effects : List Effect}
      → Trace codec settings hub waiting inputs effects
      → Backed inputs (hub, effects)
  Trace-Backed start = (tt, tt)
  Trace-Backed (arrive r id a) = Trace-Backed r
  Trace-Backed (connect {hub = hub} {inputs = inputs} r i id g upgraded) =
      let before = Trace-Backed r in (join-Backed inputs hub id upgraded before.0, before.1)
  Trace-Backed (read {hub = hub} {inputs = inputs} {effects = effects} r x c evt g after s) =
      let before = Trace-Backed r in
      let now =
        rw (serve_after hub x c evt after g s) at (read-Backed inputs hub x c evt g before.0) in
      (
        now.0,
        All-append _ effects after.1 (effects_later (c.conn, evt) inputs effects before.1) now.1,
      )

  -- However clients connect and the handler reads from them, from an empty hub on: each request that was
  -- run was run for a connection from which a login had been read, with the administrator's name and the
  -- hash of the password; and each client that is authenticated has sent one.
  pub requests_need_login :
      (hub : Hub) (waiting : List ℕ) (inputs : List (Input codec settings)) (effects : List Effect)
      → Trace codec settings hub waiting inputs effects
      → All (λ e. effect_backed codec settings inputs e ≡ true) effects
        × All (λ c. client_backed codec settings inputs c ≡ true) hub
  requests_need_login hub waiting inputs effects r = let b = Trace-Backed r in (b.1, b.0)
