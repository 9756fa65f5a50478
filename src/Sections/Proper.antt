-- ===== src/Sections/Proper.antt =====
-- The bundles that the programs of server/server.go store: only what decoding gives.
use spectre_relay.Prelude.{
  ℕ, suc, Bool, true, false, Option, none, some, List, [], ◌∷◌, Text, Bytes, Result, ok, err,
  if◌then◌else◌, not, ◌&&◌, ◌||◌, ltb, length, is_empty, codes, text_eq,
}
use spectre_relay.Golib.Strings.{Parts, one, two, split_n, trim_prefix, contains_any}
use spectre_relay.Crypto.{Aead, Ed25519}
use spectre_relay.Json.{Syntax, Stored}
use spectre_relay.Envelope.{SealedEnvelope, OpenEnvelope, decode_sealed, decode_open}
use spectre_relay.Files.{WriteEnv}
use spectre_relay.Prekeys.Restart.{FitsUint32}
use spectre_relay.Store.Database.{Sqlite}
use spectre_relay.Store.Messages.{QueuedMessage, sealed_message, open_message}
use spectre_relay.Store.{Conn, EnqueueEnv}
use spectre_relay.Router.{DeliverEnv, FlushEnv, marshal_queued, is_usable}
use spectre_relay.Auth.{AuthEnv, handshake}
use spectre_relay.Router.Addresses.{is_local_relay}
use spectre_relay.Sections.System.{Job, connection, fetch, federation, purge, program_of}
use spectre_relay.Relay.Settings.{decode_registration-FitsUint32}
use spectre_relay.Relay.Connection.{is_over, Incoming, frame, other_frame, read_error}
use spectre_relay.Server.{
  FrameEnv, FederationRequest, is_remote, normalize_user, decode_header, decode_registration,
}
use spectre_relay.Sections.{Section, replace, Reply, Program, done, emit, call, ◌>>=◌}
use spectre_relay.Sections.Handlers.{
  Fixed, deliver_found, deliver_here, deliver_parts, deliver_program, route_usable, route_program,
  requeue_program, flush_loop, flush_program, prekeys_program, federated_here, federation_program,
  frame_program, frames_program, registered, conn_program, purge_program,
}

-- A bundle that is stored has ids that fit.
abbrev pub HasFit : Section → Type 0
HasFit (replace env user b) = FitsUint32 b
HasFit _ = Unit {0}

-- So has every bundle that the program may store, whatever the sections return.
abbrev pub IsProper : {A : Type 0} → Program A → Type 0
IsProper (done a) = Unit {0}
IsProper (emit es p) = IsProper p
IsProper (call a k) = HasFit a × ((r : Reply a) → IsProper (k r))

bind-IsProper :
    {A B : Type 0} (p : Program A) (f : A → Program B)
    → IsProper p
    → ((a : A) → IsProper (f a))
    → IsProper (p >>= f)
bind-IsProper (done a) f h g = g a
bind-IsProper (emit es p) f h g = bind-IsProper p f h g
bind-IsProper (call a k) f (fits, h) g = (fits, λ r. bind-IsProper (k r) f (h r) g)

-- A test keeps what both branches have.
if-IsProper :
    {A : Type 0} (b : Bool) (p q : Program A)
    → IsProper p
    → IsProper q
    → IsProper (if b then p else q)
if-IsProper true p q h g = h
if-IsProper false p q h g = g

result-IsProper :
    {E T A : Type 0} (x : Result E T) (p : Program A) (f : T → Program A)
    → IsProper p
    → ((t : T) → IsProper (f t))
    → IsProper (elim x [ err _ ↦ p | ok t ↦ f t ])
result-IsProper (err e) p f h g = h
result-IsProper (ok t) p f h g = g t

option-IsProper :
    {T A : Type 0} (x : Option T) (p : Program A) (f : T → Program A)
    → IsProper p
    → ((t : T) → IsProper (f t))
    → IsProper (elim x [ none ↦ p | some t ↦ f t ])
option-IsProper none p f h g = h
option-IsProper (some t) p f h g = g t

module _ (sql : Sqlite) (syntax : Syntax) (aead : Aead) (ed : Ed25519) where
  deliver_found-IsProper :
      (env : DeliverEnv) (user : Text) (m : QueuedMessage) (c : Option Conn)
      → IsProper (deliver_found sql syntax aead ed env user m c)
  deliver_found-IsProper env user m none = (tt, λ r. tt)
  deliver_found-IsProper env user m (some c) =
      result-IsProper (marshal_queued syntax m) _ _ (tt, λ r. tt)
        (λ raw. option-IsProper env.write _ _ tt (λ e. (tt, λ r. tt)))

  deliver_here-IsProper :
      (env : DeliverEnv) (user : Text) (m : QueuedMessage)
      → IsProper (deliver_here sql syntax aead ed env user m)
  unfolding deliver_here
  deliver_here-IsProper env user m = (tt, deliver_found-IsProper env user m)

  deliver_parts-IsProper :
      (env : DeliverEnv) (id recipient : Text) (m : QueuedMessage) (parts : Parts)
      → IsProper (deliver_parts sql syntax aead ed env id recipient m parts)
  deliver_parts-IsProper env id recipient m (one s) = deliver_here-IsProper env recipient m
  deliver_parts-IsProper env id recipient m (two user domain) =
      if-IsProper (not (is_local_relay domain id)) _ _ (option-IsProper m.sealed _ _ tt (λ e. tt))
        (deliver_here-IsProper env user m)

  deliver_program-IsProper :
      (env : DeliverEnv) (id recipient : Text) (m : QueuedMessage)
      → IsProper (deliver_program sql syntax aead ed env id recipient m)
  unfolding deliver_program
  deliver_program-IsProper env id recipient m =
      deliver_parts-IsProper env id recipient m (split_n b'@' recipient)

  route_usable-IsProper :
      (env : DeliverEnv) (id : Text) (s : Stored SealedEnvelope) (o : Stored OpenEnvelope)
      → IsProper (route_usable sql syntax aead ed env id s o)
  route_usable-IsProper env id s o =
      if-IsProper (is_usable sql syntax aead s.valid s.value.recipient_id s.value.ciphertext) _ _
        (deliver_program-IsProper env id s.value.recipient_id (sealed_message s.value))
        (if-IsProper (is_usable sql syntax aead o.valid o.value.recipient_id o.value.ciphertext) _ _
          (deliver_program-IsProper env id o.value.recipient_id (open_message o.value)) tt)

  route_program-IsProper :
      (k : Fixed) (env : DeliverEnv) (now : ℕ) (sender : Text) (payload : Bytes)
      → IsProper (route_program sql syntax aead ed k env now sender payload)
  unfolding route_program
  route_program-IsProper k env now sender payload =
      if-IsProper (ltb k.max_message_size (length payload)) _ _ tt (
        tt,
        λ allowed. if-IsProper (not allowed) _ _ tt (
            route_usable-IsProper env k.relay_id (decode_sealed (syntax.unmarshal payload))
              (decode_open (syntax.unmarshal payload))),
      )

  requeue_program-IsProper :
      (envs : ℕ → EnqueueEnv) (i : ℕ) (user : Text) (ms : List QueuedMessage)
      → IsProper (requeue_program sql syntax aead ed envs i user ms)
  unfolding requeue_program
  requeue_program-IsProper envs i user [] = tt
  requeue_program-IsProper envs i user (m ∷ ms) =
      (tt, λ r. requeue_program-IsProper envs (suc i) user ms)

  flush_loop-IsProper :
      (env : FlushEnv) (i : ℕ) (user : Text) (c : Conn) (ms : List QueuedMessage)
      → IsProper (flush_loop sql syntax aead ed env i user c ms)
  unfolding flush_loop
  flush_loop-IsProper env i user c [] = tt
  flush_loop-IsProper env i user c (m ∷ ms) =
      let rest = flush_loop-IsProper env (suc i) user c ms in
      result-IsProper (marshal_queued syntax m) _ _ rest (λ raw.
        option-IsProper (env.write i) _ _ rest
          (λ e. requeue_program-IsProper env.store i user (m ∷ ms)))

  flush_program-IsProper :
      (env : FlushEnv) (user : Text) (c : Conn)
      → IsProper (flush_program sql syntax aead ed env user c)
  unfolding flush_program
  flush_program-IsProper env user c = (tt, flush_loop-IsProper env 0 user c)

  prekeys_program-IsProper :
      (env : WriteEnv) (now : ℕ) (method path : Text)
      → IsProper (prekeys_program sql syntax aead ed env now method path)
  unfolding prekeys_program
  prekeys_program-IsProper env now method path =
      if-IsProper (not (text_eq method (codes "GET"))) _ _ tt (
        if-IsProper
          (is_empty (trim_prefix path (codes "/prekeys/"))
            || contains_any (trim_prefix path (codes "/prekeys/")) (codes "/?#"))
          _ _ tt (tt, λ consume. (tt, λ r. tt)))

  federated_here-IsProper :
      (k : Fixed) (env : DeliverEnv) (header : Text) (e : SealedEnvelope)
      → IsProper (federated_here sql syntax aead ed k env header e)
  federated_here-IsProper k env header e =
      if-IsProper (is_remote k.cfg.relay_id (split_n b'@' e.recipient_id)) _ _ tt
        (deliver_program-IsProper env k.relay_id _ _)

  federation_program-IsProper :
      (k : Fixed) (env : DeliverEnv) (req : FederationRequest)
      → IsProper (federation_program sql syntax aead ed k env req)
  unfolding federation_program
  federation_program-IsProper k env req =
      let e = decode_sealed req.body in
      if-IsProper (not (text_eq req.method (codes "POST"))) _ _ tt (
        if-IsProper (is_empty req.relay_header) _ _ tt (
          if-IsProper (not e.valid) _ _ tt (
            if-IsProper (is_empty e.value.recipient_id || is_empty e.value.ciphertext) _ _ tt (
              bind-IsProper (federated_here sql syntax aead ed k env req.relay_header e.value) _
                (federated_here-IsProper k env req.relay_header e.value) (λ u. tt)))))

  frame_program-IsProper :
      (k : Fixed) (env : FrameEnv) (user : Text) (c : Conn) (content : Bytes)
      → IsProper (frame_program sql syntax aead ed k env user c content)
  unfolding frame_program
  frame_program-IsProper k env user c content =
      let hdr = decode_header (syntax.unmarshal content) in
      let d = decode_registration (syntax.unmarshal content) in
      if-IsProper (hdr.valid && text_eq hdr.value (codes "request_sender_cert")) _ _
        (tt, λ allowed. if-IsProper (not allowed) _ _ tt (tt, λ key. tt))
        (if-IsProper (text_eq hdr.value (codes "register_prekeys")) _ _
          (if-IsProper d.valid _ _
            (decode_registration-FitsUint32 (syntax.unmarshal content), λ r. tt) tt)
          (route_program-IsProper k env.deliver_env env.route_now user content))

  frames_program-IsProper :
      (k : Fixed) (user : Text) (c : Conn) (l : List Incoming)
      → IsProper (frames_program sql syntax aead ed k user c l)
  unfolding frames_program
  frames_program-IsProper k user c [] = tt
  frames_program-IsProper k user c (frame env content ∷ l) =
      bind-IsProper (frame_program sql syntax aead ed k env user c content) _
        (frame_program-IsProper k env user c content) (λ u. frames_program-IsProper k user c l)
  frames_program-IsProper k user c (other_frame ∷ l) = frames_program-IsProper k user c l
  frames_program-IsProper k user c (read_error e ∷ l) = tt

  conn_program-IsProper :
      (k : Fixed) (auth : AuthEnv) (now : ℕ) (flush : FlushEnv) (addr : Text) (c : Conn)
      (l : List Incoming)
      → IsProper (conn_program sql syntax aead ed k auth now flush addr c l)
  unfolding conn_program
  conn_program-IsProper k auth now flush addr c l =
      let whole : (user : Text) → IsProper (registered sql syntax aead ed k flush c l user) =
        λ user. (
          tt,
          λ prev.
              bind-IsProper (flush_program sql syntax aead ed flush user c) _
                (flush_program-IsProper flush user c)
                (λ u.
                  bind-IsProper (frames_program sql syntax aead ed k user c l) _
                    (frames_program-IsProper k user c l)
                    (λ v. if-IsProper (is_over l) _ _ (tt, λ r. tt) tt)),
        ) in
      (
        tt,
        λ allowed. if-IsProper (not allowed) _ _ tt (
            result-IsProper (handshake ed syntax auth) _ _ tt
              (λ user. whole (normalize_user k.cfg.relay_id user))),
      )

  pub program_of-IsProper : (k : Fixed) (j : Job) → IsProper (program_of sql syntax aead ed k j)
  unfolding purge_program
  program_of-IsProper k (connection auth now flush addr c l) =
      bind-IsProper (conn_program sql syntax aead ed k auth now flush addr c l) _
        (conn_program-IsProper k auth now flush addr c l) (λ u. tt)
  program_of-IsProper k (fetch env now method path) =
      bind-IsProper (prekeys_program sql syntax aead ed env now method path) _
        (prekeys_program-IsProper env now method path) (λ r. tt)
  program_of-IsProper k (federation env req) =
      bind-IsProper (federation_program sql syntax aead ed k env req) _
        (federation_program-IsProper k env req) (λ r. tt)
  program_of-IsProper k (purge now env) = (tt, λ r. tt)
