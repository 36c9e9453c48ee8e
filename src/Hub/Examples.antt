-- ===== src/Hub/Examples.antt =====
-- Runs of the hub, and the theorems at concrete clients.
use cryptofiend.Text.{to_lower}
use cryptofiend.Prelude.{
  ◌+◌, ◌-◌, ◌≤◌, ◌≡◌, refl, true, false, Option, none, some, List, [], ◌∷◌, map, arith, Text, codes,
  text_eq, length, All,
}
use cryptofiend.Hub.{
  Hub, WebsocketClient, WebsocketEvent, Effect, Codec, Settings, Response, closed, wrote, ran,
  serve, websocket_handler_round, admit_client, join_client,
}
use cryptofiend.Hub.Runs.{
  Input, Trace, start, arrive, connect, read, peak, effect_backed, client_backed,
}
use cryptofiend.Hub.Access.{requests_need_login}
use cryptofiend.Hub.Rounds.{websocket_handler_round_panics, hub_limited, hub_exceeds}

-- Data that is its own JSON: a name and a password of one byte each; the hash adds one to each byte.
abbrev codec : Codec
codec = record {
  Value = Text;
  json_encode = λ v. some v;
  json_decode =
      λ t. elim t [ [] ↦ none | a ∷ r ↦ some (record { username = a ∷ []; password = r }) ];
  hash = λ t. map (λ c. c + 1) t;
}

abbrev settings : Settings
settings = record { connection_limit = 2; admin_username = codes "a"; admin_password = codes "p" }

abbrev login : Option (WebsocketEvent Text)
login = some (record { event = codes "auth"; value = codes "aq" })

abbrev ask : Option (WebsocketEvent Text)
ask = some (record { event = codes "GetTicker"; value = codes "x" })

abbrev stranger : WebsocketClient
stranger = record { id = 0; conn = 7; authenticated = false }

abbrev known : WebsocketClient
known = record { id = 0; conn = 7; authenticated = true }

login_runs :
    serve codec settings (stranger ∷ []) 0 login
    ≡ some (known ∷ [], wrote 7 Response.auth_success ∷ [])
unfolding serve text_eq
login_runs = refl

ask_runs :
    serve codec settings (known ∷ []) 0 ask
    ≡ some (known ∷ [], ran (codes "getticker") 7 (codes "x") ∷ [])
unfolding serve text_eq to_lower
ask_runs = refl

refused_runs :
    serve codec settings (stranger ∷ []) 0 ask
    ≡ some ([], wrote 7 Response.must_authenticate ∷ closed 7 ∷ [])
unfolding serve text_eq
refused_runs = refl

connected : Trace codec settings (stranger ∷ []) [] [] []
unfolding admit_client join_client
connected = connect (arrive start 0 refl) 0 0 refl (some 7)

abbrev session_inputs : List (Input codec settings)
session_inputs = (7, ask) ∷ (7, login) ∷ []

abbrev session_effects : List Effect
session_effects = wrote 7 Response.auth_success ∷ ran (codes "getticker") 7 (codes "x") ∷ []

session : Trace codec settings (known ∷ []) [] session_inputs session_effects
session = read (read connected 0 stranger login refl _ login_runs) 0 known ask refl _ ask_runs

requests_need_login_example :
    All (λ e. effect_backed codec settings session_inputs e ≡ true) session_effects
    × All (λ c. client_backed codec settings session_inputs c ≡ true) (known ∷ [])
requests_need_login_example =
    requests_need_login codec settings (known ∷ []) [] session_inputs session_effects session

hub_limited_example :
    length (known ∷ []) ≤ settings.connection_limit + (peak codec settings session - 1)
hub_limited_example =
    hub_limited codec settings (known ∷ []) [] session_inputs session_effects session

hub_exceeds_example :
    (hub : Hub) × Trace codec settings hub [] [] [] × (map (λ c. c.conn) hub ≡ 7 ∷ 8 ∷ 9 ∷ [])
hub_exceeds_example = hub_exceeds codec settings (7 ∷ 8 ∷ 9 ∷ []) (omega arith)

websocket_handler_round_panics_example :
    websocket_handler_round codec settings (known ∷ record known { id = 1 } ∷ []) (λ x. none) ≡ none
websocket_handler_round_panics_example =
    websocket_handler_round_panics codec settings known (record known { id = 1 }) [] (λ x. none)
      refl refl

abbrev left : Hub
left = record known { id = 1 } ∷ record known { id = 2 } ∷ []
