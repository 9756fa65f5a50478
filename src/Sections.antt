-- ===== src/Sections.antt =====
-- The handlers of the server as their critical sections: what each does under one mutex, between
-- them what it writes, and the handlers in between those of others. The mutexes are those of
-- server/store.go, server/router.go, server/auth.go, server/ratelimit.go and
-- server/prekey_store.go.
pub mod Handlers
pub mod System
pub mod Uninterrupted
pub mod Alone
pub mod Proper
pub mod Interleaved
pub mod Handouts
pub mod Races
pub mod Paths
use spectre_relay.Prelude.{ℕ, Bool, Option, List, [], ◌∷◌, ◌++◌, Text}
use spectre_relay.Crypto.{Aead}
use spectre_relay.Json.{Syntax}
use spectre_relay.Files.{WriteEnv}
use spectre_relay.RateLimit
use spectre_relay.Prekeys.Bundle.{PrekeyBundle}
use spectre_relay.Prekeys.{
  PrekeyResponse, RegisterError, register_bundle, get_bundle_with_otpk, identity_key_of,
}
use spectre_relay.Store.Database.{Sqlite}
use spectre_relay.Store.Messages.{QueuedMessage}
use spectre_relay.Store.{
  Conn, Store, EnqueueEnv, register, unregister, lookup_client, enqueue, drain_queue, purge_expired,
}
use spectre_relay.Router.{Router, Effect}
use spectre_relay.Router
use spectre_relay.Auth
use spectre_relay.Server.{Server}

-- One call under its mutex.
pub data Section : Type 0 where
  admit : Text → ℕ → Section  -- `allow` of the handshake
  enter : Text → Conn → Section  -- `Register`
  leave : Text → Conn → Section  -- `Unregister`
  find : Text → Section  -- `LookupClient`
  put : EnqueueEnv → Text → QueuedMessage → Section  -- `Enqueue`
  take : WriteEnv → ℕ → Text → Section  -- `DrainQueue`
  sweep : ℕ → WriteEnv → Section  -- `purgeExpired`
  spend : Text → ℕ → Section  -- `allow` of the router
  cert_slot : Text → ℕ → Section  -- `allow` of the limiter of certificates
  fetch_slot : Text → ℕ → Section  -- `allow` of the limiter of fetches
  replace : WriteEnv → Text → PrekeyBundle → Section  -- `registerBundle`
  serve : WriteEnv → Text → Bool → Section  -- `getBundleWithOTPK`
  key_of : Text → Section  -- `identityKeyOf`

-- What the call returns.
abbrev pub Reply : Section → Type 0
Reply (admit ip now) = Bool
Reply (enter user c) = Option Conn
Reply (leave user c) = Unit {0}
Reply (find user) = Option Conn
Reply (put env user m) = Unit {0}
Reply (take env now user) = List QueuedMessage
Reply (sweep now env) = Unit {0}
Reply (spend user now) = Bool
Reply (cert_slot user now) = Bool
Reply (fetch_slot user now) = Bool
Reply (replace env user b) = Option RegisterError
Reply (serve env user consume) = Option PrekeyResponse
Reply (key_of user) = Option Text

-- A piece of code as the sections that it enters and the effects that it has between them.
pub data Program (A : Type 0) : Type 0 where
  done : A → Program A
  emit : List Effect → Program A → Program A
  call : (a : Section) → (Reply a → Program A) → Program A

infixl 5 ◌>>=◌ ◌>>◌
abbrev pub ◌>>=◌ : {A B : Type 0} → Program A → (A → Program B) → Program B
done a >>= f = f a
emit es p >>= f = emit es (p >>= f)
call a k >>= f = call a (λ r. k r >>= f)

abbrev pub ◌>>◌ : {B : Type 0} → Program (Unit {0}) → Program B → Program B
p >> q = p >>= λ _. q

-- A call alone, and an effect alone.
abbrev pub ask : (a : Section) → Program (Reply a)
ask a = call a (λ r. done r)

abbrev pub tell : List Effect → Program (Unit {0})
tell es = emit es (done tt)

module _ (sql : Sqlite) (syntax : Syntax) (aead : Aead) where
  abbrev pub with_store : Server sql → Store sql → Server sql
  with_store s store =
      let r : Router sql = record s.router { store = store } in record s { router = r }

  unfoldable pub perform : Server sql → (a : Section) → Server sql × Reply a
  perform s (admit ip now) =
      let (l, allowed) = Auth.allow s.auth ip now in (record s { auth = l }, allowed)
  perform s (enter user c) =
      let (store, prev) = register sql s.router.store user c in (with_store s store, prev)
  perform s (leave user c) = (with_store s (unregister sql s.router.store user c), tt)
  perform s (find user) = (s, lookup_client sql s.router.store user)
  perform s (put env user m) =
      (with_store s (enqueue sql syntax aead env s.router.store user m), tt)
  perform s (take env now user) =
      let (store, messages) = drain_queue sql syntax aead env now s.router.store user in
      (with_store s store, messages)
  perform s (sweep now env) =
      (with_store s (purge_expired sql syntax aead now env s.router.store), tt)
  perform s (spend user now) =
      let (r, allowed) = Router.allow sql s.router user now in (record s { router = r }, allowed)
  perform s (cert_slot user now) =
      let (l, allowed) = RateLimit.allow s.cert_limiter user now in
      (record s { cert_limiter = l }, allowed)
  perform s (fetch_slot user now) =
      let (l, allowed) = RateLimit.allow s.prekey_limiter user now in
      (record s { prekey_limiter = l }, allowed)
  perform s (replace env user b) =
      let (ps, e) = register_bundle syntax aead env s.prekeys user b in
      (record s { prekeys = ps }, e)
  perform s (serve env user consume) =
      let (ps, r) = get_bundle_with_otpk syntax aead env s.prekeys user consume in
      (record s { prekeys = ps }, r)
  perform s (key_of user) = (s, identity_key_of s.prekeys user)

  -- A program that nothing interrupts.
  unfoldable pub exec : {A : Type 0} → Program A → Server sql → Server sql × List Effect × A
  exec (done a) s = (s, [], a)
  exec (emit es p) s = let (t, fs, a) = exec p s in (t, es ++ fs, a)
  exec (call a k) s = exec (k (perform s a).1) (perform s a).0
