-- ===== src/Sections/Handlers.antt =====
-- The handlers of server/server.go and server/router.go as programs of critical sections.
use spectre_relay.Prelude.{
  ℕ, suc, Bool, not, ◌&&◌, ◌||◌, Option, none, some, List, [], ◌∷◌, if◌then◌else◌, ltb, length,
  is_empty, Text, Bytes, codes, text_eq, ok, err,
}
use spectre_relay.Golib.Strings.{Parts, one, two, split_n, first, trim_prefix, contains_any}
use spectre_relay.Config.{Config}
use spectre_relay.Crypto.{Aead, Ed25519}
use spectre_relay.Json.{Syntax, Stored}
use spectre_relay.Envelope.{SealedEnvelope, OpenEnvelope, decode_sealed, decode_open}
use spectre_relay.Files.{WriteEnv}
use spectre_relay.Prekeys.Bundle.{PrekeyBundle}
use spectre_relay.Store.Database.{Sqlite}
use spectre_relay.Store.Messages.{QueuedMessage, sealed_message, open_message}
use spectre_relay.Store.{Conn, EnqueueEnv}
use spectre_relay.Router.Addresses.{is_local_relay}
use spectre_relay.Router.{DeliverEnv, FlushEnv, sent, marshal_queued, forward_federated, is_usable}
use spectre_relay.Auth.{AuthEnv, handshake, extract_ip}
use spectre_relay.SealedCa.{SealedCa, issue_cert}
use spectre_relay.Relay.Connection.{Incoming, is_over, frame, other_frame, read_error}
use spectre_relay.Server.{
  FrameEnv, FederationRequest, Response, decode_header, decode_registration, normalize_user,
  is_remote, stamped, status_only, not_allowed, reply_cert, answer_get,
}
use spectre_relay.Sections.{
  Program, done, emit, call, ◌>>=◌, ◌>>◌, ask, tell, admit, enter, leave, find, put, take, sweep,
  spend, cert_slot, fetch_slot, replace, serve, key_of,
}

-- What no handler changes.
pub record Fixed : Type 0 where
  pub cfg : Config
  pub max_message_size : ℕ
  pub relay_id : Text
  pub ca : SealedCa

module _ (sql : Sqlite) (syntax : Syntax) (aead : Aead) (ed : Ed25519) where
  abbrev pub deliver_found : DeliverEnv → Text → QueuedMessage → Option Conn → Program (Unit {0})
  deliver_found env user m none = ask (put env.store user m)
  deliver_found env user m (some c) = elim (marshal_queued syntax m) [
    | err _ ↦ ask (put env.store user m)
    | ok raw ↦ elim env.write [
      | some _ ↦ ask (put env.store user m)
      | none ↦ tell (sent c raw ∷ [])
    ]
  ]

  -- `deliver` below the address.
  unfoldable pub deliver_here : DeliverEnv → Text → QueuedMessage → Program (Unit {0})
  deliver_here env user m = do c ← ask (find user); deliver_found env user m c

  abbrev pub deliver_there : DeliverEnv → Text → Text → QueuedMessage → Program (Unit {0})
  deliver_there env relay_id domain m = elim m.sealed [
    | none ↦ done tt
    | some e ↦ tell (forward_federated syntax env.request relay_id domain e)
  ]

  abbrev pub deliver_parts : DeliverEnv → Text → Text → QueuedMessage → Parts → Program (Unit {0})
  deliver_parts env relay_id recipient m (one s) = deliver_here env recipient m
  deliver_parts env relay_id recipient m (two user domain) =
      if not (is_local_relay domain relay_id)
      then deliver_there env relay_id domain m
      else deliver_here env user m

  unfoldable pub deliver_program : DeliverEnv → Text → Text → QueuedMessage → Program (Unit {0})
  deliver_program env relay_id recipient m =
      deliver_parts env relay_id recipient m (split_n b'@' recipient)

  abbrev pub route_usable :
      DeliverEnv → Text → Stored SealedEnvelope → Stored OpenEnvelope → Program (Unit {0})
  route_usable env relay_id s o =
      if is_usable sql syntax aead s.valid s.value.recipient_id s.value.ciphertext
      then deliver_program env relay_id s.value.recipient_id (sealed_message s.value)
      else if is_usable sql syntax aead o.valid o.value.recipient_id o.value.ciphertext
      then deliver_program env relay_id o.value.recipient_id (open_message o.value)
      else done tt

  abbrev pub route_spent : DeliverEnv → Text → Bytes → Bool → Program (Unit {0})
  route_spent env relay_id payload allowed =
      if not allowed
      then done tt
      else route_usable env relay_id (decode_sealed (syntax.unmarshal payload))
          (decode_open (syntax.unmarshal payload))

  unfoldable pub route_program : Fixed → DeliverEnv → ℕ → Text → Bytes → Program (Unit {0})
  route_program k env now sender payload =
      if ltb k.max_message_size (length payload)
      then done tt
      else call (spend sender now) (route_spent env k.relay_id payload)

  unfoldable pub requeue_program :
      (ℕ → EnqueueEnv) → ℕ → Text → List QueuedMessage → Program (Unit {0})
  requeue_program envs i user [] = done tt
  requeue_program envs i user (m ∷ ms) =
      call (put (envs i) user m) (λ _. requeue_program envs (suc i) user ms)

  abbrev pub flush_written :
      FlushEnv
      → ℕ
      → Text
      → Conn
      → List QueuedMessage
      → Bytes
      → Program (Unit {0})
      → Program (Unit {0})
  flush_written env i user c left raw rest = elim (env.write i) [
    | some _ ↦ requeue_program env.store i user left
    | none ↦ emit (sent c raw ∷ []) rest
  ]

  unfoldable pub flush_loop : FlushEnv → ℕ → Text → Conn → List QueuedMessage → Program (Unit {0})
  flush_loop env i user c [] = done tt
  flush_loop env i user c (m ∷ ms) =
      let rest = flush_loop env (suc i) user c ms in
      elim (marshal_queued syntax m) [
        | err _ ↦ rest
        | ok raw ↦ flush_written env i user c (m ∷ ms) raw rest
      ]

  unfoldable pub flush_program : FlushEnv → Text → Conn → Program (Unit {0})
  flush_program env user c = call (take env.drain env.now user) (flush_loop env 0 user c)

  unfoldable pub prekeys_program : WriteEnv → ℕ → Text → Text → Program Response
  prekeys_program env now method path =
      let user = trim_prefix path (codes "/prekeys/") in
      if not (text_eq method (codes "GET"))
      then done (not_allowed (codes "GET"))
      else if is_empty user || contains_any user (codes "/?#")
      then done (status_only 404)
      else do
        consume ← ask (fetch_slot user now)
        r ← ask (serve env user consume)
        done (answer_get sql syntax aead ed r)

  abbrev pub federated_here : Fixed → DeliverEnv → Text → SealedEnvelope → Program (Unit {0})
  federated_here k env relay_header e =
      if is_remote k.cfg.relay_id (split_n b'@' e.recipient_id)
      then done tt
      else deliver_program env k.relay_id (first (split_n b'@' e.recipient_id))
          (sealed_message (stamped sql syntax aead ed relay_header e))

  unfoldable pub federation_program : Fixed → DeliverEnv → FederationRequest → Program Response
  federation_program k env req =
      let e = decode_sealed req.body in
      if not (text_eq req.method (codes "POST"))
      then done (not_allowed (codes "POST"))
      else if is_empty req.relay_header
      then done (status_only 204)
      else if not e.valid
      then done (status_only 204)
      else if is_empty e.value.recipient_id || is_empty e.value.ciphertext
      then done (status_only 204)
      else do federated_here k env req.relay_header e.value; done (status_only 204)

  -- The certificate, once the identity key is known.
  abbrev pub cert_for : Fixed → FrameEnv → Text → Option Text → Option (Bytes × Bytes)
  cert_for k env user none = none
  cert_for k env user (some ik) =
      elim (issue_cert ed syntax k.ca user ik k.cfg.relay_id env.issue_now) [
        | err _ ↦ none
        | ok r ↦ some r
      ]

  abbrev pub cert_allowed : Fixed → FrameEnv → Text → Conn → Bool → Program (Unit {0})
  cert_allowed k env user c allowed = if not allowed then done tt else do
    ik ← ask (key_of user)
    tell (reply_cert sql syntax aead ed env.cert_write c (cert_for k env user ik))

  abbrev pub register_decoded : FrameEnv → Text → Stored PrekeyBundle → Program (Unit {0})
  register_decoded env user d =
      if d.valid then call (replace env.save_env user d.value) (λ _. done tt) else done tt

  unfoldable pub frame_program : Fixed → FrameEnv → Text → Conn → Bytes → Program (Unit {0})
  frame_program k env user c content =
      let hdr = decode_header (syntax.unmarshal content) in
      if hdr.valid && text_eq hdr.value (codes "request_sender_cert")
      then call (cert_slot user env.cert_now) (cert_allowed k env user c)
      else if text_eq hdr.value (codes "register_prekeys")
      then register_decoded env user (decode_registration (syntax.unmarshal content))
      else route_program k env.deliver_env env.route_now user content

  -- The loop of `serveConn`.
  unfoldable pub frames_program : Fixed → Text → Conn → List Incoming → Program (Unit {0})
  frames_program k user c [] = done tt
  frames_program k user c (frame env content ∷ l) =
      frame_program k env user c content >> frames_program k user c l
  frames_program k user c (other_frame ∷ l) = frames_program k user c l
  frames_program k user c (read_error e ∷ l) = done tt

  -- The deferred call, where the loop ends.
  abbrev pub leave_if : Bool → Text → Conn → Program (Unit {0})
  leave_if over user c = if over then ask (leave user c) else done tt

  abbrev pub registered : Fixed → FlushEnv → Conn → List Incoming → Text → Program (Unit {0})
  registered k flush c l user = do
    prev ← ask (enter user c)
    flush_program flush user c
    frames_program k user c l
    leave_if (is_over l) user c

  abbrev pub authenticated :
      Fixed → AuthEnv → FlushEnv → Conn → List Incoming → Bool → Program (Unit {0})
  authenticated k auth flush c l allowed =
      if not allowed then done tt else elim (handshake ed syntax auth) [
        | err _ ↦ done tt
        | ok user ↦ registered k flush c l (normalize_user k.cfg.relay_id user)
      ]

  -- `serveConn`, from the handshake to the deferred call.
  unfoldable pub conn_program :
      Fixed → AuthEnv → ℕ → FlushEnv → Text → Conn → List Incoming → Program (Unit {0})
  conn_program k auth now flush addr c l =
      call (admit (extract_ip addr) now) (authenticated k auth flush c l)

  unfoldable pub purge_program : ℕ → WriteEnv → Program (Unit {0})
  purge_program now env = ask (sweep now env)
