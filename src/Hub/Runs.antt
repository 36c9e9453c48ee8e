-- ===== src/Hub/Runs.antt =====
-- Runs of the hub: clients that connect, and rounds of the handler that read from them, in any order.
use cryptofiend.Prelude.{
  ℕ, zero, suc, ◌≡◌, Bool, true, false, ◌&&◌, Option, none, some, List, [], ◌∷◌, ◌++◌, leb, ◌==◌,
  if◌then◌else◌, Text, codes, text_eq, length, get_elem?, any_of,
}
use cryptofiend.Hub.{
  Hub, WebsocketClient, WebsocketEvent, WebsocketAuth, Effect, Codec, Settings, ran, closed, wrote,
  serve, is_admin, admit_client, join_client,
}

-- The list without its element at a position.
abbrev pub without {ℓ} : {A : Type ℓ} → ℕ → List A → List A
without i [] = []
without zero (x ∷ l) = l
without (suc i) (x ∷ l) = x ∷ without i l

-- The larger one.
abbrev pub max : ℕ → ℕ → ℕ
max a b = if leb a b then b else a

module _ (codec : Codec) (settings : Settings) where
  -- What was read from a connection.
  abbrev pub Input : Type 0
  Input = ℕ × Option (WebsocketEvent codec.Value)

  abbrev admin_of : Option WebsocketAuth → Bool
  admin_of none = false
  admin_of (some auth) = is_admin codec settings auth

  abbrev decoded : Option Text → Bool
  decoded none = false
  decoded (some dataJSON) = admin_of (codec.json_decode dataJSON)

  -- A login: an event "auth" with the administrator's name and the hash of the password.
  abbrev pub is_login : Option (WebsocketEvent codec.Value) → Bool
  is_login none = false
  is_login (some evt) = text_eq evt.event (codes "auth") && decoded (codec.json_encode evt.value)

  abbrev pub logged_in : List Input → ℕ → Bool
  logged_in inputs conn = any_of (λ i. (i.0 == conn) && is_login i.1) inputs

  -- What was read and done from an empty hub on, the last input first, and the IDs of the requests that
  -- were admitted and are being upgraded. Upgrades end in any order.
  pub data Trace : Hub → List ℕ → List Input → List Effect → Type 0 where
    start : Trace [] [] [] []
    arrive :
        {hub : Hub} {waiting : List ℕ} {inputs : List Input} {effects : List Effect}
        → Trace hub waiting inputs effects
        → (id : ℕ) → admit_client settings hub ≡ some id
        → Trace hub (id ∷ waiting) inputs effects
    connect :
        {hub : Hub} {waiting : List ℕ} {inputs : List Input} {effects : List Effect}
        → Trace hub waiting inputs effects
        → (i id : ℕ) → get_elem? waiting i ≡ some id
        → (upgraded : Option ℕ)
        → Trace (join_client hub id upgraded) (without i waiting) inputs effects
    read :
        {hub : Hub} {waiting : List ℕ} {inputs : List Input} {effects : List Effect}
        → Trace hub waiting inputs effects
        → (x : ℕ) (c : WebsocketClient) (evt : Option (WebsocketEvent codec.Value))
        → get_elem? hub x ≡ some c
        → (after : Hub × List Effect) → serve codec settings hub x evt ≡ some after
        → Trace after.0 waiting ((c.conn, evt) ∷ inputs) (effects ++ after.1)

  -- The most requests that were being upgraded at one time.
  unfoldable pub peak :
      {hub : Hub} {waiting : List ℕ} {inputs : List Input} {effects : List Effect}
      → Trace hub waiting inputs effects
      → ℕ
  peak start = 0
  peak (arrive {waiting = waiting} r id a) = max (suc (length waiting)) (peak r)
  peak (connect r i id g upgraded) = peak r
  peak (read r x c evt g after s) = peak r

  -- Who is authenticated has logged in, and so has whose requests have been run.
  abbrev pub client_backed : List Input → WebsocketClient → Bool
  client_backed inputs c = if c.authenticated then logged_in inputs c.conn else true

  abbrev pub effect_backed : List Input → Effect → Bool
  effect_backed inputs (closed conn) = true
  effect_backed inputs (wrote conn response) = true
  effect_backed inputs (ran request conn text) = logged_in inputs conn
