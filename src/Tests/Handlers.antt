-- ===== src/Tests/Handlers.antt =====
-- The handshake and the handlers of the server, at concrete inputs.
use spectre_relay.Prelude.{
  ℕ, zero, suc, ◌≡◌, ◌↔◌, refl, ◌⊎◌, true, false, none, some, [], ◌∷◌, ◌++◌, Text, Bytes, codes,
  text_eq, contains, ok, arith,
}
use spectre_relay.Prelude.Int.{pos}
use spectre_relay.Prelude.Assoc.{lookup, insert}
use spectre_relay.Golib.Base64
use spectre_relay.Golib.Strings.{split_n, first, cut, trim_prefix, contains_any}
use spectre_relay.Golib.Base64.Laws.{AreBytes}
use spectre_relay.Config.{Config}
use spectre_relay.Json.{
  Json, Syntax, Members, store_members, store_struct, store_document, fold_name, store_text,
  store_bytes, store_int64,
}
use spectre_relay.Envelope.{AuthRequest, json_of_sealed, decode_sealed, store_sealed, tag_of}
use spectre_relay.Store.Messages.{sealed_message}
use spectre_relay.Router.Delivery.{IsSent, IsQueued}
use spectre_relay.Prekeys.Bundle.{no_bundle}
use spectre_relay.Prekeys.{PrekeyStore}
use spectre_relay.RateLimit
use spectre_relay.RateLimit.{take_slot, prune}
use spectre_relay.Auth.{AuthEnv, new_auth_limiter, allow, check_request, authenticate}
use spectre_relay.Auth.Handshake.{Passes, authenticate-ok_iff, check_request-any_key}
use spectre_relay.SealedCa.{SealedCa, json_of_cert}
use spectre_relay.Server.Frames.{
  handle_authed_frame-own, build_sender_cert-own, certificate, normalize_user-cases,
}
use spectre_relay.Server.Endpoints.{
  static_json, IsAccepted, handle_federation_deliver-local, handle_prekeys_get-status,
}
use spectre_relay.Server.Admission.{arrives, upgraded, idle, run_gate, times, run_gate-overlap}
use spectre_relay.Server.{
  Server, FrameEnv, FederationRequest, handle_authed_frame, handle_federation_deliver,
  handle_prekeys_get, build_sender_cert, normalize_user,
}
use spectre_relay.Tests.{
  toy_sql, toy_aead, toy_syntax, toy_ed25519, calm, key_32, path, copies, length-copies, toy_store,
  deliver_env, envelope,
}

abbrev cfg : Config
cfg = record {
  listen_addr = [];
  tls_cert_file = [];
  tls_key_file = [];
  max_clients = pos 1;
  message_ttl_seconds = pos 1;
  max_message_size = pos 100;
  rate_limit_per_min = pos 60;
  offline_queue_path = path;
  prekey_store_path = path;
  sealed_ca_path = path;
  dev_mode = true;
  relay_id = codes "here";
  federation_addr = [];
}

abbrev bob : Text
bob = codes "bob"

abbrev authority : SealedCa
authority = record { priv = copies 64; pub_key = copies 32; prev_pub = none; rotation_sig = [] }

abbrev prekeys : PrekeyStore
prekeys = record { bundles = (bob, no_bundle) ∷ []; store_path = path; key = key_32; disk = [] }

abbrev pub server : Server toy_sql
server = record {
  cfg = cfg;
  router = record {
    store = toy_store;
    max_message_size = 100;
    rate_per_min = 60;
    relay_id = codes "here";
    rate_attempts = [];
  };
  prekeys = prekeys;
  auth = record { attempts = [] };
  sealed_ca = authority;
  cert_limiter = record { per_min = 6; attempts = [] };
  prekey_limiter = record { per_min = 10; attempts = [] };
}

abbrev pub frame_env : FrameEnv
frame_env = record {
  cert_now = 1;
  issue_now = 1;
  cert_write = none;
  save_env = calm;
  route_now = 1;
  deliver_env = deliver_env;
}

abbrev request_cert : Syntax
request_cert = toy_syntax (
    Json.object
      (Members.member (codes "type") (Json.string (codes "request_sender_cert")) Members.nil))

handle_authed_frame-own_example :
    let t =
      (handle_authed_frame toy_sql request_cert toy_aead toy_ed25519 frame_env server [] 3
        (0 ∷ [])).0 in
    (lookup bob t.prekeys.bundles ≡ lookup bob server.prekeys.bundles)
    × (t.sealed_ca ≡ server.sealed_ca)
    × (t.auth ≡ server.auth)
    × (t.prekey_limiter ≡ server.prekey_limiter)
handle_authed_frame-own_example =
    handle_authed_frame-own toy_sql request_cert toy_aead toy_ed25519 frame_env server [] bob 3
      (0 ∷ []) (λ h. cc)

normalize_user-cases_example : normalize_user (codes "here") bob ≡ bob
normalize_user-cases_example =
    (normalize_user-cases (codes "here") bob (codes "there") (unfold contains in refl)).0

abbrev get : Text
get = codes "GET"

-- No fetch is left for bob in this minute.
abbrev spent : Server toy_sql
spent = record server { prekey_limiter = record { per_min = 0; attempts = [] } }

handle_prekeys_get-status_example :
    let t =
      handle_prekeys_get toy_sql request_cert toy_aead toy_ed25519 calm 5 spent get
        (codes "/prekeys/bob") in
    t.1 ≡ record {
      status = 200;
      allow_header = [];
      body = some (static_json toy_sql request_cert toy_aead toy_ed25519 no_bundle);
    }
handle_prekeys_get-status_example =
    (((handle_prekeys_get-status toy_sql request_cert toy_aead toy_ed25519 calm 5 spent get
            (codes "/prekeys/bob")).0
          refl (unfold trim_prefix text_eq contains_any contains in (refl, refl))).2
        (unfold RateLimit.allow take_slot prune lookup insert trim_prefix text_eq in refl)).1
      no_bundle (unfold lookup trim_prefix text_eq in refl)

abbrev federated : FederationRequest
federated = record {
  method = codes "POST";
  relay_header = codes "there";
  body = some (json_of_sealed envelope);
}

federated-IsAccepted : IsAccepted (codes "here") federated
unfolding decode_sealed store_document store_struct store_members store_sealed tag_of text_eq
    fold_name store_text store_bytes Base64.decode Base64.decode_quanta Base64.encode split_n cut
    json_of_sealed store_int64
federated-IsAccepted = record {
  posts = refl;
  named = λ h. cc;
  valid = refl;
  recipient = λ h. cc;
  ciphertext = λ h. cc;
  here = refl;
}

handle_federation_deliver-local_example :
    let t =
      handle_federation_deliver toy_sql request_cert toy_aead toy_ed25519 deliver_env server
        federated in
    let e = (decode_sealed federated.body).value in
    let user = first (split_n b'@' e.recipient_id) in
    let m = sealed_message (record e { federation_sender_relay = codes "there" }) in
    (t.0 ≡ record server { router = t.0.router })
    × (IsSent toy_sql request_cert toy_aead deliver_env server.router user m (t.0.router, t.1)
        ⊎ IsQueued toy_sql request_cert toy_aead deliver_env server.router user m (t.0.router, t.1))
handle_federation_deliver-local_example =
    (handle_federation_deliver-local toy_sql request_cert toy_aead toy_ed25519 deliver_env server
        federated).2
      federated-IsAccepted

abbrev auth_json : Json
auth_json = Json.object (
    Members.member (codes "user_id") (Json.string bob) (
      Members.member (codes "identity_public_key") (Json.string (Base64.encode (copies 32)))
        (Members.member (codes "signature") (Json.string (Base64.encode (copies 64))) Members.nil)))

abbrev pub auth_env : AuthEnv
auth_env = record { nonce = ok key_32; challenge = none; request = ok (0 ∷ []); success = none }

authenticate-ok_iff_example :
    ((authenticate toy_ed25519 (toy_syntax auth_json) auth_env new_auth_limiter [] 1).1 ≡ ok bob)
    ↔ (((allow new_auth_limiter [] 1).1 ≡ true)
        × Passes toy_ed25519 (toy_syntax auth_json) auth_env bob)
authenticate-ok_iff_example =
    authenticate-ok_iff toy_ed25519 (toy_syntax auth_json) auth_env new_auth_limiter [] 1 bob

abbrev request : Text → AuthRequest
request key = record {
  user_id = bob;
  identity_public_key = key;
  signature = Base64.encode (copies 64);
}

copies-AreBytes : (n : ℕ) → AreBytes (copies n)
copies-AreBytes zero = tt
copies-AreBytes (suc n) = (omega arith, copies-AreBytes n)

check_request-any_key_example :
    (check_request toy_ed25519 key_32 none (request (Base64.encode (copies 32))) ≡ ok bob)
    × (check_request toy_ed25519 key_32 none (request (Base64.encode (copies 32) ++ b'A' ∷ []))
        ≡ ok bob)
    × ((Base64.decode (Base64.encode (copies 32) ++ b'A' ∷ [])).valid ≡ false)
check_request-any_key_example =
    check_request-any_key toy_ed25519 (copies 64) key_32 bob b'A' [] (length-copies 64) (λ h. cc)
      (copies-AreBytes 32) (copies-AreBytes 64) refl

abbrev cert_syntax : Syntax
cert_syntax = toy_syntax (certificate (codes "here") bob [] 0)

build_sender_cert-own_example :
    ((cert sig : Bytes) × (build_sender_cert toy_sql cert_syntax toy_aead toy_ed25519 server bob 0
        ≡ some (cert, sig))
      × (cert_syntax.unmarshal cert ≡ some (certificate (codes "here") bob [] 0))
      × (toy_ed25519.verify authority.pub_key cert sig ≡ true))
    × (build_sender_cert toy_sql cert_syntax toy_aead toy_ed25519 server [] 0 ≡ none)
unfolding json_of_cert
build_sender_cert-own_example =
    build_sender_cert-own toy_sql cert_syntax toy_aead toy_ed25519 server bob [] no_bundle 0
      (length-copies 64) refl (unfold lookup text_eq in refl) (unfold lookup text_eq in refl) refl

run_gate-overlap_example : (run_gate 1 idle (times 2 arrives (times 2 upgraded []))).active ≡ 2
run_gate-overlap_example = run_gate-overlap 1 2 (omega arith)
