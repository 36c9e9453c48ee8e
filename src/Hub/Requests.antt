-- ===== src/Hub/Requests.antt =====
-- The branches of the handler, as equations.
use cryptofiend.Prelude.{
  ℕ, ◌≡◌, refl, true, false, none, some, [], ◌∷◌, Text, codes, text_eq, is_empty, any_of,
}
use cryptofiend.Text.{to_lower}
use cryptofiend.Hub.{
  Hub, WebsocketClient, WebsocketEvent, Codec, Settings, Response, ran, handle_read, handle_request,
  log_in, disconnect_websocket_client, send_off, ws_handlers,
}

module _ (codec : Codec) (settings : Settings) where
  pub request_login :
      (hub : Hub) (x : ℕ) (c : WebsocketClient) (event t : Text)
      → c.authenticated ≡ false
      → text_eq event (codes "auth") ≡ true
      → handle_request codec settings hub x c event t
        ≡ log_in codec settings hub x (codec.json_decode t)
  unfolding handle_request
  request_login hub x c event t h k = rw (h, k) refl

  pub request_refused :
      (hub : Hub) (x : ℕ) (c : WebsocketClient) (event t : Text)
      → c.authenticated ≡ false
      → text_eq event (codes "auth") ≡ false
      → handle_request codec settings hub x c event t
        ≡ send_off codec settings hub x Response.must_authenticate
  unfolding handle_request
  request_refused hub x c event t h k = rw (h, k) refl

  pub request_ran :
      (hub : Hub) (x : ℕ) (c : WebsocketClient) (event t : Text)
      → c.authenticated ≡ true
      → any_of (text_eq (to_lower event)) ws_handlers ≡ true
      → handle_request codec settings hub x c event t ≡ (hub, ran (to_lower event) c.conn t ∷ [])
  unfolding handle_request
  request_ran hub x c event t h k = rw (h, k) refl

  pub request_unknown :
      (hub : Hub) (x : ℕ) (c : WebsocketClient) (event t : Text)
      → c.authenticated ≡ true
      → any_of (text_eq (to_lower event)) ws_handlers ≡ false
      → handle_request codec settings hub x c event t ≡ (hub, [])
  unfolding handle_request
  request_unknown hub x c event t h k = rw (h, k) refl

  pub handle_read_blank :
      (hub : Hub) (x : ℕ) (c : WebsocketClient) (evt : WebsocketEvent codec.Value)
      → is_empty evt.event ≡ true
      → handle_read codec settings hub x c (some evt) ≡ disconnect_websocket_client hub x
  unfolding handle_read
  handle_read_blank hub x c evt h = rw h refl

  pub handle_read_unencoded :
      (hub : Hub) (x : ℕ) (c : WebsocketClient) (evt : WebsocketEvent codec.Value)
      → is_empty evt.event ≡ false
      → codec.json_encode evt.value ≡ none
      → handle_read codec settings hub x c (some evt) ≡ (hub, [])
  unfolding handle_read
  handle_read_unencoded hub x c evt h e = rw (h, e) refl

  pub handle_read_encoded :
      (hub : Hub) (x : ℕ) (c : WebsocketClient) (evt : WebsocketEvent codec.Value) (t : Text)
      → is_empty evt.event ≡ false
      → codec.json_encode evt.value ≡ some t
      → handle_read codec settings hub x c (some evt)
        ≡ handle_request codec settings hub x c evt.event t
  unfolding handle_read
  handle_read_encoded hub x c evt t h e = rw (h, e) refl
