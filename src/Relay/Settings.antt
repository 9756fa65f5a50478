-- ===== src/Relay/Settings.antt =====
-- What no step changes, and how the steps reach the parts.
use spectre_relay.Prelude.{
  ℕ, ◌≡◌, inl, inr, Bool, Option, if◌then◌else◌, Text, Bytes, codes, text_eq, Result-cases,
  Bool-cases, arith,
}
use spectre_relay.Golib.Strings.{split_n, first, trim_prefix}
use spectre_relay.Crypto.{Aead, Ed25519}
use spectre_relay.Json.{Json, Syntax, stored, store_struct, fold_name}
use spectre_relay.Files.{WriteEnv}
use spectre_relay.Prekeys.Bundle.{PrekeyBundle, no_bundle, bundle_rule}
use spectre_relay.Prekeys.Restart.{FitsUint32}
use spectre_relay.Prekeys.Decoding.{
  store_document_keeps, store_bundle-FitsUint32, no_bundle-FitsUint32,
}
use spectre_relay.Prekeys.{PrekeyStore, register_bundle, get_bundle_with_otpk}
use spectre_relay.Router.Stability.{IsStable, deliver-stable, route-stable, flush_queue-stable}
use spectre_relay.Router.{Router, DeliverEnv, FlushEnv}
use spectre_relay.Store.Messages.{sealed_message}
use spectre_relay.Auth.{authenticate, extract_ip}
use spectre_relay.RateLimit
use spectre_relay.Envelope.{decode_sealed}
use spectre_relay.Store.Database.{Sqlite}
use spectre_relay.Store.{Conn, Store, register, unregister, purge_expired}
use spectre_relay.Relay.{Event, connects, sends, disconnects, fetches, federates, purges, step}
use spectre_relay.Server.{
  Server, serve_conn, end_conn, handle_authed_frame, handle_prekeys_get, handle_federation_deliver,
  FrameEnv, decode_registration, issue_sender_cert, normalize_user, stamped,
}

rule-FitsUint32 :
    (k : Text) (v : Json) (b : PrekeyBundle)
    → FitsUint32 b
    → FitsUint32
        (if text_eq (fold_name k) (codes "bundle")
          then store_struct bundle_rule b v
          else stored b).value
rule-FitsUint32 k v b h = elim (Bool-cases (text_eq (fold_name k) (codes "bundle"))) [
  | inl e ↦ rw e (store_bundle-FitsUint32 b v h)
  | inr e ↦ rw e h
]

pub decode_registration-FitsUint32 : (d : Option Json) → FitsUint32 (decode_registration d).value
unfolding decode_registration
decode_registration-FitsUint32 d =
    store_document_keeps FitsUint32 _ rule-FitsUint32 no_bundle d no_bundle-FitsUint32

-- The writes of the queue that an event may make are such as `Q` says.
abbrev pub QueueWrites : (WriteEnv → Type 0) → Event → Type 0
QueueWrites Q (connects auth now flush addr c) =
    Q flush.drain × ((j : ℕ) → Q (flush.store j).save_env)
QueueWrites Q (sends env user c content) = Q env.deliver_env.store.save_env
QueueWrites Q (federates env req) = Q env.store.save_env
QueueWrites Q (purges now env) = Q env
QueueWrites Q _ = Unit {0}

-- The writes of the bundles.
abbrev pub BundleWrites : (WriteEnv → Type 0) → Event → Type 0
BundleWrites Q (sends env user c content) = Q env.save_env
BundleWrites Q (fetches env now method path) = Q env
BundleWrites Q _ = Unit {0}

module _ (sql : Sqlite) (syntax : Syntax) (aead : Aead) (ed : Ed25519) where
  abbrev pub SameServer : Server sql → Server sql → Type 0
  SameServer t s = (t.cfg ≡ s.cfg) × (t.sealed_ca ≡ s.sealed_ca)

  pub step-SameServer : (s : Server sql) (e : Event) → SameServer (step sql syntax aead ed s e) s
  unfolding step serve_conn handle_authed_frame issue_sender_cert end_conn handle_prekeys_get
      handle_federation_deliver
  step-SameServer s (connects auth now flush addr c) = ground arith
  step-SameServer s (sends env user c content) = ground arith
  step-SameServer s (disconnects user c) = ground arith
  step-SameServer s (fetches env now method path) = ground arith
  step-SameServer s (federates env req) = ground arith
  step-SameServer s (purges now env) = ground arith

-- A property of the store that all its operations keep.
pub record IsKept (sql : Sqlite) (syntax : Syntax) (aead : Aead) (P : Store sql → Type 0)
    (Q : WriteEnv → Type 0) : Type 0 where
  pub stable : IsStable sql syntax aead P Q
  pub registers : (s : Store sql) (user : Text) (c : Conn) → P s → P (register sql s user c).0
  pub unregisters : (s : Store sql) (user : Text) (c : Conn) → P s → P (unregister sql s user c)
  pub purges_too :
      (now : ℕ) (env : WriteEnv) (s : Store sql)
      → Q env
      → P s
      → P (purge_expired sql syntax aead now env s)

module _ (sql : Sqlite) (syntax : Syntax) (aead : Aead) (ed : Ed25519) (P : Store sql → Type 0)
    (Q : WriteEnv → Type 0) (k : IsKept sql syntax aead P Q) where
  abbrev Good : Server sql → Type 0
  Good s = P s.router.store

  serve_conn-store :
      (auth : _) (now : ℕ) (flush : FlushEnv) (s : Server sql) (addr : Text) (c : Conn)
      → Q flush.drain
      → ((j : ℕ) → Q (flush.store j).save_env)
      → Good s
      → Good (serve_conn sql syntax aead ed auth now flush s addr c).0
  unfolding serve_conn
  serve_conn-store auth now flush s addr c qd q p =
      elim (Result-cases (authenticate ed syntax auth s.auth (extract_ip addr) now).1) [
        | inr (_, bad) ↦ rw (bad, serve_conn) p
        | inl (user, good) ↦
            let name = normalize_user s.cfg.relay_id user in
            let r : Router sql = record s.router {
              store = (register sql s.router.store name c).0;
            } in
            rw (good, serve_conn)
              (flush_queue-stable sql syntax aead P Q k.stable flush r name c qd q
                (k.registers s.router.store name c p))
      ]

  sends-store :
      (env : FrameEnv) (s : Server sql) (user : Text) (c : Conn) (content : Bytes)
      → Q env.deliver_env.store.save_env
      → Good s
      → Good (handle_authed_frame sql syntax aead ed env s user c content).0
  unfolding handle_authed_frame issue_sender_cert
  sends-store env s user c content q p = ground (
    arith,
    route-stable sql syntax aead P Q k.stable env.deliver_env env.route_now s.router user content q
        p,
  )

  federates-store :
      (env : DeliverEnv) (s : Server sql) (req : _)
      → Q env.store.save_env
      → Good s
      → Good (handle_federation_deliver sql syntax aead ed env s req).0
  unfolding handle_federation_deliver
  federates-store env s req q p =
      let e = decode_sealed req.body in
      ground (
        arith,
        deliver-stable sql syntax aead P Q k.stable env s.router
            (first (split_n b'@' e.value.recipient_id))
            (sealed_message (stamped sql syntax aead ed req.relay_header e.value)) q p,
      )

  -- What the operations of the store keep, every step of the relay keeps.
  pub step-store :
      (s : Server sql) (e : Event)
      → QueueWrites Q e
      → P s.router.store
      → P (step sql syntax aead ed s e).router.store
  unfolding step end_conn handle_prekeys_get
  step-store s (connects auth now flush addr c) q p =
      serve_conn-store auth now flush s addr c q.0 q.1 p
  step-store s (sends env user c content) q p = sends-store env s user c content q p
  step-store s (disconnects user c) q p = k.unregisters s.router.store user c p
  step-store s (fetches env now method path) q p = ground arith
  step-store s (federates env req) q p = federates-store env s req q p
  step-store s (purges now env) q p = k.purges_too now env s.router.store q p

module _ (sql : Sqlite) (syntax : Syntax) (aead : Aead) (ed : Ed25519) (Q : WriteEnv → Type 0) where
  -- A step leaves the bundles alone, or registers one, or serves one.
  pub step-prekeys :
      (P : PrekeyStore → Type 0) (s : Server sql) (e : Event)
      → BundleWrites Q e
      → P s.prekeys
      → ((env : WriteEnv) (user : Text) (b : PrekeyBundle)
          → Q env
          → FitsUint32 b
          → P (register_bundle syntax aead env s.prekeys user b).0)
      → ((env : WriteEnv) (user : Text) (consume : Bool)
          → Q env
          → P (get_bundle_with_otpk syntax aead env s.prekeys user consume).0)
      → P (step sql syntax aead ed s e).prekeys
  unfolding step end_conn handle_prekeys_get serve_conn handle_authed_frame issue_sender_cert
      handle_federation_deliver
  step-prekeys P s (connects auth now flush addr c) q p reg get = ground arith
  step-prekeys P s (sends env user c content) q p reg get =
      let d = decode_registration (syntax.unmarshal content) in
      ground (
        arith,
        reg env.save_env user d.value q (decode_registration-FitsUint32 (syntax.unmarshal content)),
      )
  step-prekeys P s (disconnects user c) q p reg get = p
  step-prekeys P s (fetches env now method path) q p reg get =
      let user = trim_prefix path (codes "/prekeys/") in
      ground (arith, get env user (RateLimit.allow s.prekey_limiter user now).1 q)
  step-prekeys P s (federates env req) q p reg get = ground arith
  step-prekeys P s (purges now env) q p reg get = p
