-- ===== src/Relay/Invariant.antt =====
-- What holds of the relay after any history of steps.
use spectre_relay.Prelude.{ℕ, ◌≡◌, sym, ◌⊎◌, inl, inr, List, [], ◌∷◌, Text, Bytes, codes, arith}
use spectre_relay.Golib.Strings.{split_n, first, trim_prefix}
use spectre_relay.Crypto.{Aead, Ed25519}
use spectre_relay.Json.{Syntax}
use spectre_relay.Files.{WriteEnv}
use spectre_relay.Envelope.{decode_sealed, decode_open}
use spectre_relay.RateLimit.{RateLimiter, attempts_of, take_slot}
use spectre_relay.RateLimit
use spectre_relay.RateLimit.Window.{IsBounded, take_slot-IsBounded}
use spectre_relay.Auth.{max_attempts, AuthEnv, AuthLimiter, authenticate, handshake, extract_ip}
use spectre_relay.Auth
use spectre_relay.Prekeys.Invariant.{IsSound, operations-IsSound}
use spectre_relay.Prekeys.Restart.{IsMap}
use spectre_relay.Prekeys.Decoding.{register-IsMap, get-IsMap}
use spectre_relay.Prekeys.{PrekeyStore}
use spectre_relay.Store.Database.{Sqlite}
use spectre_relay.Store.Messages.{QueuedMessage, sealed_message, open_message}
use spectre_relay.Store.Capacity.{IsCapped, operations-IsCapped}
use spectre_relay.Store.{register, unregister}
use spectre_relay.Router.{Router, DeliverEnv, deliver, flush_queue, deliver_local, route, allow}
use spectre_relay.Server.{
  Server, serve_conn, end_conn, handle_authed_frame, handle_prekeys_get, handle_federation_deliver,
  issue_sender_cert, stamped,
}
use spectre_relay.Relay.{Event, connects, sends, disconnects, fetches, federates, purges, step, run}
use spectre_relay.Relay.Settings.{IsKept, QueueWrites, BundleWrites, step-store, step-prekeys}

-- Any write at all.
abbrev pub Any : WriteEnv → Type 0
Any env = Unit {0}

queue-Any : (e : Event) → QueueWrites Any e
queue-Any (connects auth now flush addr c) = (tt, λ j. tt)
queue-Any (sends env user c content) = tt
queue-Any (disconnects user c) = tt
queue-Any (fetches env now method path) = tt
queue-Any (federates env req) = tt
queue-Any (purges now env) = tt

bundles-Any : (e : Event) → BundleWrites Any e
bundles-Any (connects auth now flush addr c) = tt
bundles-Any (sends env user c content) = tt
bundles-Any (disconnects user c) = tt
bundles-Any (fetches env now method path) = tt
bundles-Any (federates env req) = tt
bundles-Any (purges now env) = tt

module _ (sql : Sqlite) (syntax : Syntax) (aead : Aead) where
  pub IsCapped-IsKept : IsKept sql syntax aead (IsCapped sql syntax aead) Any
  unfolding register unregister
  IsCapped-IsKept = record {
    stable = record {
      enqueues = λ env s user msg q p. (operations-IsCapped sql syntax aead s p).0 env user msg;
      drains = λ env now s user q p. (operations-IsCapped sql syntax aead s p).1 env now user;
    };
    registers = λ s user c p. p;
    unregisters = λ s user c p. ground (arith, p);
    purges_too = λ now env s q p. (operations-IsCapped sql syntax aead s p).2 now env;
  }

  -- Delivery does not touch the limiter.
  deliver-limiter :
      (env : DeliverEnv) (r : Router sql) (recipient : Text) (m : QueuedMessage)
      → let t = (deliver sql syntax aead env r recipient m).0 in
        (t.rate_attempts ≡ r.rate_attempts) × (t.rate_per_min ≡ r.rate_per_min)
  unfolding deliver deliver_local
  deliver-limiter env r recipient m = ground arith

  abbrev pub IsQuick : Router sql → Type 0
  IsQuick r = IsBounded r.rate_per_min r.rate_attempts

  route-limiter :
      (env : DeliverEnv) (now : ℕ) (r : Router sql) (sender : Text) (payload : Bytes)
      → let t = (route sql syntax aead env now r sender payload).0 in
        ((t.rate_attempts ≡ r.rate_attempts)
          ⊎ (t.rate_attempts ≡ (take_slot r.rate_per_min r.rate_attempts sender now).0))
        × (t.rate_per_min ≡ r.rate_per_min)
  unfolding route allow
  route-limiter env now r sender payload =
      let s = (decode_sealed (syntax.unmarshal payload)).value in
      let o = (decode_open (syntax.unmarshal payload)).value in
      let r' = (allow sql r sender now).0 in
      ground (
        arith,
        deliver-limiter env r' s.recipient_id (sealed_message s),
        deliver-limiter env r' o.recipient_id (open_message o),
      )

  route-IsQuick :
      (env : DeliverEnv) (now : ℕ) (r : Router sql) (sender : Text) (payload : Bytes)
      → IsQuick r
      → IsQuick (route sql syntax aead env now r sender payload).0
  route-IsQuick env now r sender payload h =
      let (cases, same) = route-limiter env now r sender payload in
      elim cases [
        | inl e ↦ rw (e, same) h
        | inr e ↦ rw (e, same) (take_slot-IsBounded r.rate_per_min r.rate_attempts sender now h).0
      ]

  abbrev pub IsWithin : ℕ → RateLimiter → Type 0
  IsWithin n l = (l.per_min ≡ n) × IsBounded n l.attempts

  pub allow-IsWithin :
      (n : ℕ) (l : RateLimiter) (key : Text) (now : ℕ)
      → IsWithin n l
      → IsWithin n (RateLimit.allow l key now).0
  unfolding RateLimit.allow
  allow-IsWithin n l key now (e, h) =
      (e, rw (← e) (take_slot-IsBounded l.per_min l.attempts key now (rw (sym e) at h)).0)

module _ (sql : Sqlite) (syntax : Syntax) (aead : Aead) (ed : Ed25519) where
  -- No queue is over its cap, every bundle is well formed and has ids that fit, under a name that is
  -- not empty and has no second bundle, and no limiter remembers more than its budget.
  pub record Inv (s : Server sql) : Type 0 where
    pub capped : IsCapped sql syntax aead s.router.store
    pub sound : IsSound s.prekeys
    pub is_map : IsMap s.prekeys.bundles
    pub addresses : IsBounded 5 s.auth.attempts
    pub senders : IsQuick sql syntax aead s.router
    pub certs : IsWithin sql syntax aead 6 s.cert_limiter
    pub targets : IsWithin sql syntax aead 10 s.prekey_limiter

  authenticate-limiter :
      (auth : AuthEnv) (l : AuthLimiter) (ip : Text) (now : ℕ)
      → (authenticate ed syntax auth l ip now).0 ≡ (Auth.allow l ip now).0
  unfolding authenticate
  authenticate-limiter auth l ip now = ground arith

  pub allow-IsBounded :
      (l : AuthLimiter) (ip : Text) (now : ℕ)
      → IsBounded 5 l.attempts
      → IsBounded 5 (Auth.allow l ip now).0.attempts
  unfolding Auth.allow
  allow-IsBounded l ip now h = (take_slot-IsBounded 5 l.attempts ip now h).0

  step-auth :
      (s : Server sql) (e : Event)
      → IsBounded 5 s.auth.attempts
      → IsBounded 5 (step sql syntax aead ed s e).auth.attempts
  unfolding step end_conn handle_prekeys_get serve_conn handle_authed_frame issue_sender_cert
      handle_federation_deliver
  step-auth s (connects auth now flush addr c) h =
      let l : IsBounded 5 (authenticate ed syntax auth s.auth (extract_ip addr) now).0.attempts =
        rw (authenticate-limiter auth s.auth (extract_ip addr) now)
          (allow-IsBounded s.auth (extract_ip addr) now h) in
      ground (arith, l)
  step-auth s (sends env user c content) h = ground (arith, h)
  step-auth s (disconnects user c) h = h
  step-auth s (fetches env now method path) h = ground (arith, h)
  step-auth s (federates env req) h = ground (arith, h)
  step-auth s (purges now env) h = h

  step-certs :
      (s : Server sql) (e : Event)
      → IsWithin sql syntax aead 6 s.cert_limiter
      → IsWithin sql syntax aead 6 (step sql syntax aead ed s e).cert_limiter
  unfolding step end_conn handle_prekeys_get serve_conn handle_authed_frame issue_sender_cert
      handle_federation_deliver
  step-certs s (connects auth now flush addr c) h = ground (arith, h)
  step-certs s (sends env user c content) h =
      ground (arith, h, allow-IsWithin sql syntax aead 6 s.cert_limiter user env.cert_now h)
  step-certs s (disconnects user c) h = h
  step-certs s (fetches env now method path) h = ground (arith, h)
  step-certs s (federates env req) h = ground (arith, h)
  step-certs s (purges now env) h = h

  step-targets :
      (s : Server sql) (e : Event)
      → IsWithin sql syntax aead 10 s.prekey_limiter
      → IsWithin sql syntax aead 10 (step sql syntax aead ed s e).prekey_limiter
  unfolding step end_conn handle_prekeys_get serve_conn handle_authed_frame issue_sender_cert
      handle_federation_deliver
  step-targets s (connects auth now flush addr c) h = ground (arith, h)
  step-targets s (sends env user c content) h = ground (arith, h)
  step-targets s (disconnects user c) h = h
  step-targets s (fetches env now method path) h = ground (
    arith,
    h,
    allow-IsWithin sql syntax aead 10 s.prekey_limiter (trim_prefix path (codes "/prekeys/")) now h,
  )
  step-targets s (federates env req) h = ground (arith, h)
  step-targets s (purges now env) h = h

  step-senders :
      (s : Server sql) (e : Event)
      → IsQuick sql syntax aead s.router
      → IsQuick sql syntax aead (step sql syntax aead ed s e).router
  unfolding step end_conn handle_prekeys_get serve_conn handle_authed_frame issue_sender_cert
      handle_federation_deliver flush_queue
  step-senders s (connects auth now flush addr c) h = ground (arith, h)
  step-senders s (sends env user c content) h = ground (
    arith,
    h,
    route-IsQuick sql syntax aead env.deliver_env env.route_now s.router user content h,
  )
  step-senders s (disconnects user c) h = h
  step-senders s (fetches env now method path) h = ground (arith, h)
  step-senders s (federates env req) h =
      let e = (decode_sealed req.body).value in
      let user = first (split_n b'@' e.recipient_id) in
      let m = sealed_message (stamped sql syntax aead ed req.relay_header e) in
      let (same, budget) = deliver-limiter sql syntax aead env s.router user m in
      let l : IsQuick sql syntax aead (deliver sql syntax aead env s.router user m).0 =
        rw (same, budget) h in
      ground (arith, h, l)
  step-senders s (purges now env) h = h

  pub step-Inv : (s : Server sql) (e : Event) → Inv s → Inv (step sql syntax aead ed s e)
  step-Inv s e v = record {
    capped =
        step-store sql syntax aead ed (IsCapped sql syntax aead) Any
          (IsCapped-IsKept sql syntax aead) s e (queue-Any e) v.capped;
    sound =
        step-prekeys sql syntax aead ed Any IsSound s e (bundles-Any e) v.sound
          (λ env user b _ _. (operations-IsSound syntax aead env s.prekeys user v.sound).0 b)
          (λ env user consume _.
            (operations-IsSound syntax aead env s.prekeys user v.sound).1 consume);
    is_map =
        step-prekeys sql syntax aead ed Any (λ (ps : PrekeyStore). IsMap ps.bundles) s e
          (bundles-Any e) v.is_map
          (λ env user b _ fits. register-IsMap syntax aead env s.prekeys user b v.is_map fits)
          (λ env user consume _. get-IsMap syntax aead env s.prekeys user consume v.is_map);
    addresses = step-auth s e v.addresses;
    senders = step-senders s e v.senders;
    certs = step-certs s e v.certs;
    targets = step-targets s e v.targets;
  }

  -- Any history of connections, frames, requests and purges, with any failures and at any times,
  -- keeps the invariant: no queue is over 500 messages; every bundle is well formed, has ids of 32 bits, and is
  -- the only one under its name, which is not empty; and no limiter remembers more requests of a key
  -- than its budget.
  pub run-Inv : (s : Server sql) (es : List Event) → Inv s → Inv (run sql syntax aead ed s es)
  unfolding run
  run-Inv s [] v = v
  run-Inv s (e ∷ es) v = run-Inv (step sql syntax aead ed s e) es (step-Inv s e v)
