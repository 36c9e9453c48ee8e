-- ===== src/Hub.antt =====
-- websocket.go: the hub of the web clients. A connection is a number; what is read from a connection is
-- an argument, `none` where the read fails, and what the code does to the connections is a list of
-- effects. Handlers of requests run at once, with no lock, so that other steps come between the two parts of
-- one; each part is one step, which leaves out that two appends at the very same time may lose a client.
-- A panic of an index is `none`. The nine commands themselves are effects.
pub mod Runs
pub mod Requests
pub mod Access
pub mod Rounds
pub mod Examples
use cryptofiend.Prelude.{
  ℕ, zero, suc, ◌+◌, Bool, true, false, not, ◌&&◌, Option, none, some, List, [], ◌∷◌, ◌++◌, leb,
  ◌==◌, if◌then◌else◌, Text, codes, text_eq, is_empty, length, get_elem?, any_of, ◌>>=◌,
}
use cryptofiend.Text.{to_lower}

-- `Conn` as a number; `LastRecv` is never set.
pub record WebsocketClient : Type 0 where
  pub id : ℕ
  pub conn : ℕ
  pub authenticated : Bool

abbrev pub Hub : Type 0
Hub = List WebsocketClient

pub record WebsocketEvent (Value : Type 0) : Type 0 where
  pub event : Text
  pub value : Value

pub record WebsocketAuth : Type 0 where
  pub username : Text
  pub password : Text

-- The answers of the handler itself: an event "auth" with an error or with the text "OK".
pub data Response : Type 0 where
  must_authenticate auth_success invalid_credentials : Response

pub data Effect : Type 0 where
  closed : ℕ → Effect
  wrote : ℕ → Response → Effect
  -- the handler of a request, on a connection, with the event's data
  ran : Text → ℕ → Text → Effect

-- The library's calls: JSON both ways, and the hexadecimal SHA-256 sum.
pub record Codec : Type 1 where
  pub Value : Type 0
  pub json_encode : Value → Option Text
  pub json_decode : Text → Option WebsocketAuth
  pub hash : Text → Text

-- The settings of the webserver that are read.
pub record Settings : Type 0 where
  pub connection_limit : ℕ
  pub admin_username : Text
  pub admin_password : Text

-- The keys of `wsHandlers`.
abbrev pub ws_handlers : List Text
ws_handlers =
    codes "getconfig"
    ∷ codes "saveconfig"
    ∷ codes "getaccountinfo"
    ∷ codes "gettickers"
    ∷ codes "getticker"
    ∷ codes "getorderbooks"
    ∷ codes "getorderbook"
    ∷ codes "getexchangerates"
    ∷ codes "getportfolio"
    ∷ []

-- WebsocketClientHandler up to the upgrade of the connection, which takes its time while other requests
-- are handled and clients are read from: the ID of the new client, or `none` where the request is refused
-- for the limit.
unfoldable pub admit_client : Settings → Hub → Option ℕ
admit_client settings hub =
    if leb settings.connection_limit (length hub) then none else some (length hub)

-- The rest of it, with the ID from before the upgrade, and the hub that is there now; `upgraded` is the
-- new connection, or `none` where the upgrade fails.
unfoldable pub join_client : Hub → ℕ → Option ℕ → Hub
join_client hub id none = hub
join_client hub id (some conn) = hub ++ record { id = id; conn = conn; authenticated = false } ∷ []

unfoldable pub disconnect_websocket_client : Hub → ℕ → Hub × List Effect
disconnect_websocket_client [] id = ([], [])
disconnect_websocket_client (c ∷ r) id =
    let rest = disconnect_websocket_client r id in
    if c.id == id then (r, closed c.conn ∷ []) else (c ∷ rest.0, rest.1)

unfoldable pub send_websocket_message : Hub → ℕ → Response → List Effect
send_websocket_message [] id response = []
send_websocket_message (c ∷ r) id response =
    if c.id == id then wrote c.conn response ∷ [] else send_websocket_message r id response

-- `WebsocketClientHub[x].Authenticated = true`
abbrev pub set_authenticated : Hub → ℕ → Hub
set_authenticated [] x = []
set_authenticated (c ∷ r) zero = record c { authenticated = true } ∷ r
set_authenticated (c ∷ r) (suc x) = c ∷ set_authenticated r x

module _ (codec : Codec) (settings : Settings) where
  -- A message to the client with the ID `x`, then its disconnection.
  abbrev pub send_off : Hub → ℕ → Response → Hub × List Effect
  send_off hub x response =
      let gone = disconnect_websocket_client hub x in
      (gone.0, send_websocket_message hub x response ++ gone.1)

  abbrev pub is_admin : WebsocketAuth → Bool
  is_admin auth =
      text_eq auth.username settings.admin_username
      && text_eq auth.password (codec.hash settings.admin_password)

  abbrev pub log_in : Hub → ℕ → Option WebsocketAuth → Hub × List Effect
  log_in hub x none = (hub, [])
  log_in hub x (some auth) =
      if is_admin auth
      then (
        set_authenticated hub x,
        send_websocket_message (set_authenticated hub x) x auth_success,
      )
      else send_off hub x invalid_credentials

  -- The request of the client at `x`, once its data is encoded.
  unfoldable pub handle_request : Hub → ℕ → WebsocketClient → Text → Text → Hub × List Effect
  unfolding disconnect_websocket_client send_websocket_message
  handle_request hub x c event dataJSON =
      let req = to_lower event in
      if not c.authenticated && not (text_eq event (codes "auth"))
      then send_off hub x must_authenticate
      else if not c.authenticated && text_eq event (codes "auth")
      then log_in hub x (codec.json_decode dataJSON)
      else if any_of (text_eq req) ws_handlers
      then (hub, ran req c.conn dataJSON ∷ [])
      else (hub, [])

  -- What the body of the loop does with what it has read of the client at `x`.
  unfoldable pub handle_read :
      Hub → ℕ → WebsocketClient → Option (WebsocketEvent codec.Value) → Hub × List Effect
  unfolding handle_request
  handle_read hub x c none = disconnect_websocket_client hub x
  handle_read hub x c (some evt) =
      if is_empty evt.event
      then disconnect_websocket_client hub x
      else (elim (codec.json_encode evt.value) [
        | none ↦ (hub, [])
        | some dataJSON ↦ handle_request hub x c evt.event dataJSON
      ])

  unfoldable pub serve : Hub → ℕ → Option (WebsocketEvent codec.Value) → Option (Hub × List Effect)
  unfolding handle_read
  serve hub x read = do c ← get_elem? hub x; some (handle_read hub x c read)

  -- One round over the positions that the hub had when it began; the reads are in their order, and
  -- one that is not given fails.
  unfoldable pub serve_from :
      ℕ → Hub → ℕ → (ℕ → Option (WebsocketEvent codec.Value)) → Option (Hub × List Effect)
  unfolding serve
  serve_from zero hub x reads = some (hub, [])
  serve_from (suc n) hub x reads = do
    now ← serve hub x (reads x)
    later ← serve_from n now.0 (x + 1) reads
    some (later.0, now.1 ++ later.1)

  unfoldable pub websocket_handler_round :
      Hub → (ℕ → Option (WebsocketEvent codec.Value)) → Option (Hub × List Effect)
  unfolding serve_from
  websocket_handler_round hub reads = serve_from (length hub) hub 0 reads
