-- ===== src/Config/Webserver.antt =====
-- The webserver's settings after a passed check.
use cryptofiend.Prelude.{
  ℕ, ◌≤◌, ◌<◌, ◌≡◌, refl, ◌≢◌, Bool, true, false, Option, none, some, arith, ◌==◌, if◌then◌else◌,
  Text, codes, is_empty, get_elem?,
}
use cryptofiend.Text.{split}
use cryptofiend.Config.{WebserverConfig, atoi, check_webserver_config_values}

-- The port behind the colon is in range.
abbrev pub HasPort : WebserverConfig → Type 0
HasPort w =
    (port_str : Text) × (port : ℕ) × (get_elem? (split w.listen_address (codes ":")) 1
      ≡ some port_str)
    × (atoi port_str ≡ some (false, port))
    × (1 ≤ port)
    × (port ≤ 65355)

passed_atoi :
    (w : WebserverConfig) (s : Text) (a : Option (Bool × ℕ))
    → get_elem? (split w.listen_address (codes ":")) 1 ≡ some s
    → atoi s ≡ a
    → (check_webserver_config_values w).1 ≡ none
    → HasPort w
unfolding check_webserver_config_values
passed_atoi w s none e q h = absurd (ground arith)
passed_atoi w s (some (true, n)) e q h = absurd (ground arith)
passed_atoi w s (some (false, n)) e q h = (s, n, e, q, ground arith, ground arith)

passed_port :
    (w : WebserverConfig) (o : Option Text)
    → get_elem? (split w.listen_address (codes ":")) 1 ≡ o
    → (check_webserver_config_values w).1 ≡ none
    → HasPort w
unfolding check_webserver_config_values
passed_port w none e h = absurd (ground arith)
passed_port w (some s) e h = passed_atoi w s (atoi s) e refl h

-- Settings that pass the check have credentials and an address with a port from 1 to 65355 behind its
-- colon; the limit of connections is at least 1 after it, and nothing else has changed.
pub check_webserver_config_values_passed :
    (w : WebserverConfig)
    → (check_webserver_config_values w).1 ≡ none
    → (is_empty w.admin_username ≡ false)
      × (is_empty w.admin_password ≡ false)
      × HasPort w
      × ((limit : ℕ) × (1 ≤ limit)
          × ((check_webserver_config_values w).0 ≡ record w { websocket_connection_limit = limit }))
unfolding check_webserver_config_values
check_webserver_config_values_passed w h = (
  ground arith,
  ground arith,
  passed_port w _ refl h,
  (
    if w.websocket_connection_limit == 0 then 1 else w.websocket_connection_limit,
    ground arith,
    ground arith,
  ),
)

-- A port above 65355 is refused, also where it is a port, below 65536.
pub check_webserver_config_values_high_port :
    (w : WebserverConfig) (port_str : Text) (port : ℕ)
    → get_elem? (split w.listen_address (codes ":")) 1 ≡ some port_str
    → atoi port_str ≡ some (false, port)
    → 65355 < port
    → (check_webserver_config_values w).1 ≢ none
unfolding check_webserver_config_values
check_webserver_config_values_high_port w port_str port e a h = λ p. ground arith
