-- ===== src/Tests/Logged.antt =====
-- Log lines, at concrete inputs.
use spectre_relay.Prelude.{◌≡◌, All, [], ◌∷◌, codes, if◌then◌else◌, ok, err, none}
use spectre_relay.Config.{Env}
use spectre_relay.Auth.{authenticate}
use spectre_relay.Logs.{warn, is_debug, printed}
use spectre_relay.Logs.Handshake.{start_lines, start_lines-printed}
use spectre_relay.Logs.Coarse.{IsCoarse, turn_lines, turn_lines-AreCoarse}
use spectre_relay.Sections.{call, done, put, take}
use spectre_relay.Sections.System.{Thread, System, goes}
use spectre_relay.Tests.Handlers.{server, auth_env}
use spectre_relay.Tests.Offline.{carol, syntax}
use spectre_relay.Tests.{toy_sql, toy_aead, toy_ed25519, calm, enqueue_env, message}

abbrev unset : Env
unset k = []

start_lines-printed_example :
    printed unset (start_lines toy_ed25519 unset syntax auth_env server.auth (codes "1.2.3.4") 1)
    ≡ (if is_debug unset
        then start_lines toy_ed25519 unset syntax auth_env server.auth (codes "1.2.3.4") 1
        else elim (authenticate toy_ed25519 syntax auth_env server.auth (codes "1.2.3.4") 1).1 [
          | err _ ↦ record { level = warn; message = codes "auth failed"; attrs = [] } ∷ []
          | ok _ ↦ []
        ])
start_lines-printed_example =
    start_lines-printed toy_ed25519 unset syntax auth_env server.auth (codes "1.2.3.4") 1

-- A message for carol is stored while her queue is drained.
abbrev storing : Thread
storing = call (put enqueue_env carol message) (λ r. done none)

abbrev draining : Thread
draining = call (take calm 6 carol) (λ r. done none)

abbrev both : System toy_sql
both = record { server = server; threads = storing ∷ draining ∷ []; sent = [] }

turn_lines-AreCoarse_example :
    All IsCoarse (turn_lines toy_sql syntax toy_aead toy_ed25519 both (goes 0 ∷ goes 1 ∷ []))
turn_lines-AreCoarse_example =
    turn_lines-AreCoarse toy_sql syntax toy_aead toy_ed25519 both (goes 0 ∷ goes 1 ∷ [])
