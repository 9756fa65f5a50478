-- ===== src/Server.antt =====
-- server/server.go: the handlers of the endpoints and of the frames of a connection, over the state
-- that they share. Each handler is one step. `s.store` is the store of the router. The outcomes of
-- the calls that may fail and the clock readings are arguments, log lines are not modelled, and of
-- an HTTP response the status, the Allow header and the encoded value are.
pub mod Responses
pub mod Frames
pub mod Offline
pub mod Endpoints
pub mod Admission
use spectre_relay.Prelude.{
  ℕ, Bool, true, false, not, ◌&&◌, ◌||◌, Option, none, some, List, [], ◌∷◌, ◌++◌, if◌then◌else◌,
  is_empty, Text, Bytes, codes, text_eq, Result, ok, err, Error,
}
use spectre_relay.Prelude.Int.{ℤ, pos, pos_part}
use spectre_relay.Golib.Base64
use spectre_relay.Golib.Strings.{Parts, one, two, split_n, first, trim_prefix, contains_any}
use spectre_relay.Config.{Config}
use spectre_relay.Crypto.{Aead, Ed25519}
use spectre_relay.Json.{
  Json, Members, Number, Syntax, Stored, stored, in_field, store_text, store_struct, store_document,
  fold_name,
}
use spectre_relay.Envelope.{SealedEnvelope, decode_sealed, unless_empty}
use spectre_relay.Files.{Disk, WriteEnv}
use spectre_relay.RateLimit.{RateLimiter, new_rate_limiter}
use spectre_relay.RateLimit
use spectre_relay.Prekeys.Bundle.{OneTimePrekey, PrekeyBundle, no_bundle, bundle_rule}
use spectre_relay.Prekeys.{
  PrekeyStore, PrekeyResponse, register_bundle, get_bundle_with_otpk, identity_key_of,
}
use spectre_relay.Store.Database.{Sqlite}
use spectre_relay.Store.Messages.{sealed_message}
use spectre_relay.Store.{Conn, Store, register, unregister}
use spectre_relay.Router.Addresses.{is_local_relay}
use spectre_relay.Router.{
  Router, DeliverEnv, FlushEnv, Effect, sent, deliver, route, flush_queue, new_router,
}
use spectre_relay.Auth.{AuthLimiter, AuthEnv, new_auth_limiter, authenticate, extract_ip}
use spectre_relay.SealedCa.{SealedCa, issue_cert, public_key_b64, rotation_proof_b64}
pub use spectre_relay.Server.Responses.{
  json_of_sender_cert, Response, status_only, not_allowed, with_json, json_of_otpk, unless_none,
  json_of_response, FederationRequest, handle_sealed_ca,
}

abbrev pub cert_requests_per_min : ℕ
cert_requests_per_min = 6

abbrev pub prekey_fetches_per_min_per_target : ℕ
prekey_fetches_per_min_per_target = 10

pub record Server (sql : Sqlite) : Type 0 where
  pub cfg : Config
  pub router : Router sql
  pub prekeys : PrekeyStore
  pub auth : AuthLimiter
  pub sealed_ca : SealedCa
  pub cert_limiter : RateLimiter
  pub prekey_limiter : RateLimiter

-- `New`, over the parts that were opened without an error. The limits of a loaded configuration are
-- positive.
unfoldable pub new_server :
    (sql : Sqlite) → Config → Store sql → PrekeyStore → SealedCa → Server sql
new_server sql cfg store prekeys ca = record {
  cfg = cfg;
  router =
      new_router sql store (pos_part cfg.max_message_size) (pos_part cfg.rate_limit_per_min)
        cfg.relay_id;
  prekeys = prekeys;
  auth = new_auth_limiter;
  sealed_ca = ca;
  cert_limiter = new_rate_limiter cert_requests_per_min;
  prekey_limiter = new_rate_limiter prekey_fetches_per_min_per_target;
}

-- What one frame meets.
pub record FrameEnv : Type 0 where
  pub cert_now : ℕ
  pub issue_now : ℕ
  pub cert_write : Option Error
  pub save_env : WriteEnv
  pub route_now : ℕ
  pub deliver_env : DeliverEnv

-- The discriminator of a frame, and the bundle of a registration.
unfoldable pub decode_header : Option Json → Stored Text
decode_header =
    store_document
      (λ key v old. if text_eq (fold_name key) (codes "type") then store_text old v else stored old)
      []

unfoldable pub decode_registration : Option Json → Stored PrekeyBundle
decode_registration =
    store_document
      (λ key v old.
        if text_eq (fold_name key) (codes "bundle")
        then store_struct bundle_rule old v
        else stored old)
      no_bundle

-- The part before the `@` of an address at this relay; any other name as it is.
abbrev local_part : Text → Text → Parts → Text
local_part relay_id user (one s) = user
local_part relay_id user (two s domain) = if is_local_relay domain relay_id then s else user

unfoldable pub normalize_user : Text → Text → Text
normalize_user relay_id user = local_part relay_id user (split_n b'@' user)

abbrev pub is_remote : Text → Parts → Bool
is_remote relay_id (one s) = false
is_remote relay_id (two s domain) = not (is_local_relay domain relay_id)

-- What the start of a connection leaves besides the server.
pub record Session : Type 0 where
  pub user : Text
  pub displaced : Option Conn
  pub effects : List Effect

module _ (sql : Sqlite) (syntax : Syntax) (aead : Aead) (ed : Ed25519) where
  -- `none` where the source returns false.
  unfoldable pub build_sender_cert : Server sql → Text → ℕ → Option (Bytes × Bytes)
  build_sender_cert s user now = elim (identity_key_of s.prekeys user) [
    | none ↦ none
    | some ik ↦ elim (issue_cert ed syntax s.sealed_ca user ik s.cfg.relay_id now) [
      | err _ ↦ none
      | ok r ↦ some r
    ]
  ]

  abbrev pub reply_cert : Option Error → Conn → Option (Bytes × Bytes) → List Effect
  reply_cert write c none = []
  reply_cert write c (some r) = elim (syntax.marshal (json_of_sender_cert r)) [
    | err _ ↦ []
    | ok resp ↦ elim write [ some _ ↦ [] | none ↦ sent c resp ∷ [] ]
  ]

  unfoldable pub issue_sender_cert : FrameEnv → Server sql → Text → Conn → Server sql × List Effect
  issue_sender_cert env s user c =
      let (limiter, allowed) = RateLimit.allow s.cert_limiter user env.cert_now in
      let s' : Server sql = record s { cert_limiter = limiter } in
      let effects = reply_cert env.cert_write c (build_sender_cert s' user env.issue_now) in
      if not allowed then (s', []) else (s', effects)

  abbrev pub register_frame :
      FrameEnv → Server sql → Text → Stored PrekeyBundle → Server sql × List Effect
  register_frame env s user d =
      let after = (register_bundle syntax aead env.save_env s.prekeys user d.value).0 in
      if d.valid then (record s { prekeys = after }, []) else (s, [])

  abbrev pub route_frame : FrameEnv → Server sql → Text → Bytes → Server sql × List Effect
  route_frame env s user content =
      let t = route sql syntax aead env.deliver_env env.route_now s.router user content in
      (record s { router = t.0 }, t.1)

  -- The second test does not ask whether the header was decoded without an error.
  unfoldable pub handle_authed_frame :
      FrameEnv → Server sql → Text → Conn → Bytes → Server sql × List Effect
  handle_authed_frame env s user c content =
      let hdr = decode_header (syntax.unmarshal content) in
      if hdr.valid && text_eq hdr.value (codes "request_sender_cert")
      then issue_sender_cert env s user c
      else if text_eq hdr.value (codes "register_prekeys")
      then register_frame env s user (decode_registration (syntax.unmarshal content))
      else route_frame env s user content

  abbrev pub answer_get : Option PrekeyResponse → Response
  answer_get none = status_only 404
  answer_get (some r) = with_json (json_of_response r)

  abbrev pub fetch_for : WriteEnv → ℕ → Server sql → Text → Server sql × Response
  fetch_for env now s user =
      let (limiter, consume) = RateLimit.allow s.prekey_limiter user now in
      let (prekeys, response) = get_bundle_with_otpk syntax aead env s.prekeys user consume in
      (record s { prekey_limiter = limiter; prekeys = prekeys }, answer_get response)

  unfoldable pub handle_prekeys_get :
      WriteEnv → ℕ → Server sql → Text → Text → Server sql × Response
  handle_prekeys_get env now s method path =
      let user = trim_prefix path (codes "/prekeys/") in
      let served = fetch_for env now s user in
      if not (text_eq method (codes "GET"))
      then (s, not_allowed (codes "GET"))
      else if is_empty user || contains_any user (codes "/?#")
      then (s, status_only 404)
      else served

  -- The envelope that the router is given: with the name that the other relay gives itself.
  abbrev pub stamped : Text → SealedEnvelope → SealedEnvelope
  stamped relay_header e = record e { federation_sender_relay = relay_header }

  abbrev pub accept_federated :
      DeliverEnv → Server sql → Text → SealedEnvelope → Server sql × List Effect
  accept_federated env s relay_header e =
      let t =
        deliver sql syntax aead env s.router (first (split_n b'@' e.recipient_id))
          (sealed_message (stamped relay_header e)) in
      if is_remote s.cfg.relay_id (split_n b'@' e.recipient_id)
      then (s, [])
      else (record s { router = t.0 }, t.1)

  unfoldable pub handle_federation_deliver :
      DeliverEnv → Server sql → FederationRequest → Server sql × List Effect × Response
  handle_federation_deliver env s req =
      let e = decode_sealed req.body in
      let t = accept_federated env s req.relay_header e.value in
      if not (text_eq req.method (codes "POST"))
      then (s, [], not_allowed (codes "POST"))
      else if is_empty req.relay_header
      then (s, [], status_only 204)
      else if not e.valid
      then (s, [], status_only 204)
      else if is_empty e.value.recipient_id || is_empty e.value.ciphertext
      then (s, [], status_only 204)
      else (t.0, t.1, status_only 204)

  abbrev enter : FlushEnv → Server sql → Text → Conn → Server sql × Option Session
  enter flush s user c =
      let (store, displaced) = register sql s.router.store user c in
      let r : Router sql = record s.router { store = store } in
      let (r', effects) = flush_queue sql syntax aead flush r user c in
      (
        record s { router = r' },
        some (record { user = user; displaced = displaced; effects = effects }),
      )

  -- `serveConn` up to its loop, which calls `handle_authed_frame` on each frame.
  unfoldable pub serve_conn :
      AuthEnv → ℕ → FlushEnv → Server sql → Text → Conn → Server sql × Option Session
  serve_conn auth now flush s remote_addr c =
      let (limiter, result) = authenticate ed syntax auth s.auth (extract_ip remote_addr) now in
      let s' : Server sql = record s { auth = limiter } in
      elim result [
        | err _ ↦ (s', none)
        | ok user ↦ enter flush s' (normalize_user s.cfg.relay_id user) c
      ]

  -- The deferred call at its end.
  unfoldable pub end_conn : Server sql → Text → Conn → Server sql
  end_conn s user c =
      let store = unregister sql s.router.store user c in
      let r : Router sql = record s.router { store = store } in record s { router = r }
