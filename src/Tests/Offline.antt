-- ===== src/Tests/Offline.antt =====
-- A message that waits for its recipient, at concrete inputs.
use spectre_relay.Prelude.{
  ◌≤◌, suc, text_eq, ◌≢◌, ◌++◌, other, ◌≡◌, refl, inl, ap, sym, none, some, List, [], ◌∷◌, Text,
  Bytes, codes, contains, ok, arith,
}
use spectre_relay.Prelude.Int.{pos, ◌+ℤ◌}
use spectre_relay.Prelude.Assoc.{lookup}
use spectre_relay.Golib.Base64
use spectre_relay.Golib.Strings.{split_n, cut}
use spectre_relay.Crypto.{new_gcm}
use spectre_relay.Json.{
  Json, Syntax, Members, store_document, store_struct, store_members, fold_name, store_text,
}
use spectre_relay.Store.Database.{rows_for}
use spectre_relay.Store.Messages.{QueuedMessage, json_of_queued}
use spectre_relay.Store.Rows.{table}
use spectre_relay.Store.Fifo.{expected, with_expiry}
use spectre_relay.Store.{unix, lookup_client}
use spectre_relay.Router.{DeliverEnv, FlushEnv}
use spectre_relay.Router.Flushing.{writes}
use spectre_relay.Auth.{AuthEnv, authenticate, handshake, check_request, extract_ip}
use spectre_relay.Auth
use spectre_relay.RateLimit.{take_slot, prune, new_rate_limiter}
use spectre_relay.Envelope.{decode_auth_request}
use spectre_relay.Server.Offline.{stores_of, deliver_all, serve_conn-waiting}
use spectre_relay.Server.{Server, Session, serve_conn, normalize_user}
use spectre_relay.Relay.{Event, fetches, disconnects, run}
use spectre_relay.Relay.Draining.{drains, drains_within_budget}
use spectre_relay.RateLimit.Window.{granted}
use spectre_relay.Relay.Connection.{
  Incoming, frame, other_frame, read_error, whole_conn, whole_steps, whole_conn-run,
}
use spectre_relay.Tests.Handlers.{server, auth_env, frame_env}
use spectre_relay.Tests.{
  toy_sql, toy_sql-IsReliable, toy_aead, toy_ed25519, calm, copies, enqueue_env, deliver_env,
  envelope, message,
}

abbrev pub carol : Text
carol = codes "carol"

abbrev request : Json
request = Json.object (
    Members.member (codes "user_id") (Json.string carol) (
      Members.member (codes "identity_public_key") (Json.string (Base64.encode (copies 32)))
        (Members.member (codes "signature") (Json.string (Base64.encode (copies 64))) Members.nil)))

abbrev queued : Json
queued = json_of_queued (with_expiry message (pos 6))

abbrev parse : Bytes → Json
parse (suc k ∷ b) = queued
parse _ = request

-- The syntax of the request and the message.
abbrev pub syntax : Syntax
syntax = record {
  unmarshal = λ b. some (parse b);
  marshal = λ w. ok (1 ∷ []);
  IsPrintable = λ w. w ≡ queued;
  unmarshal-marshal = λ w h. (1 ∷ [], refl, ap some (sym h));
}

abbrev pub flush_env : FlushEnv
flush_env = record { drain = calm; now = 6; write = λ i. none; store = λ i. enqueue_env }

abbrev waiting : List (DeliverEnv × QueuedMessage)
waiting = (deliver_env, message) ∷ []

authenticates :
    (authenticate toy_ed25519 syntax auth_env server.auth (extract_ip []) 1).1 ≡ ok carol
unfolding authenticate Auth.allow take_slot prune lookup handshake decode_auth_request
    store_document store_struct store_members text_eq fold_name store_text check_request
    Base64.decode Base64.encode
authenticates = refl

serve_conn-waiting_example :
    let s : Server toy_sql = record server {
      router = deliver_all toy_sql syntax toy_aead server.router carol waiting;
    } in
    let (t, session) = serve_conn toy_sql syntax toy_aead toy_ed25519 auth_env 1 flush_env s [] 7 in
    (session
      ≡ some (record {
        user = carol;
        displaced = none;
        effects =
            writes syntax 7
              (expected toy_sql syntax toy_aead server.router.store (stores_of waiting));
      }))
    × (rows_for carol (table toy_sql syntax toy_aead t.router.store) ≡ [])
unfolding unix ◌+ℤ◌
serve_conn-waiting_example =
    serve_conn-waiting toy_sql syntax toy_aead toy_ed25519 toy_sql-IsReliable auth_env 1 flush_env
      server [] carol carol 7 waiting (unfold contains in refl)
      (unfold lookup_client lookup text_eq in refl) refl (unfold new_gcm in refl)
      (
        record {
          nonce = 9 ∷ [];
          drawn = refl;
          sized = refl;
          printable = refl;
          message = inl (envelope, refl, refl, (omega arith, tt));
          early = omega arith;
          live = refl;
        },
        tt,
      )
      (omega arith) authenticates (unfold normalize_user split_n cut in refl) (λ i. refl)

-- A frame, a ping, and the error that ends the connection.
abbrev pub read_frames : List Incoming
read_frames = frame frame_env (0 ∷ []) ∷ other_frame ∷ []

whole_conn-run_example :
    let session =
      (serve_conn toy_sql syntax toy_aead toy_ed25519 auth_env 1 flush_env server [] 7).1 in
    let t =
      whole_conn toy_sql syntax toy_aead toy_ed25519 auth_env 1 flush_env server [] 7
        (read_frames ++ read_error other ∷ read_frames) in
    (t
      ≡ whole_conn toy_sql syntax toy_aead toy_ed25519 auth_env 1 flush_env server [] 7
          (read_frames ++ read_error other ∷ []))
    × (t.0
        ≡ run toy_sql syntax toy_aead toy_ed25519 server (
            whole_steps toy_sql syntax toy_aead toy_ed25519 auth_env 1 flush_env [] 7
              (read_frames ++ read_error other ∷ read_frames)
              session))
    × ((x : Session) → session ≡ some x → lookup_client toy_sql t.0.router.store x.user ≢ some 7)
whole_conn-run_example =
    whole_conn-run toy_sql syntax toy_aead toy_ed25519 auth_env 1 flush_env server [] 7 read_frames
      read_frames other

-- A fetch of bob's bundle and the end of a connection.
abbrev fetching : List Event
fetching = fetches calm 5 (codes "GET") (codes "/prekeys/bob") ∷ disconnects (codes "bob") 3 ∷ []

drains_within_budget_example :
    granted (codes "bob") 9 (drains toy_sql syntax toy_aead toy_ed25519 server [] fetching) ≤ 10
unfolding new_rate_limiter
drains_within_budget_example =
    drains_within_budget toy_sql syntax toy_aead toy_ed25519 server fetching (codes "bob") 0 9 refl
      (omega arith, tt)
