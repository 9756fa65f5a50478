-- ===== src/Sections/Interleaved.antt =====
-- What holds of the server wherever its threads are in their programs.
use spectre_relay.Prelude.{ℕ, zero, suc, List, [], ◌∷◌, All, Text}
use spectre_relay.Crypto.{Aead, Ed25519}
use spectre_relay.Json.{Syntax}
use spectre_relay.RateLimit.Window.{take_slot-IsBounded}
use spectre_relay.Prekeys.Invariant.{IsSound, operations-IsSound}
use spectre_relay.Prekeys.{PrekeyStore}
use spectre_relay.Prekeys.Restart.{IsMap}
use spectre_relay.Prekeys.Decoding.{register-IsMap, get-IsMap}
use spectre_relay.Store.Database.{Sqlite}
use spectre_relay.Store.Capacity.{IsCapped, operations-IsCapped}
use spectre_relay.Router.{Router}
use spectre_relay.Router
use spectre_relay.Server.{Server}
use spectre_relay.Relay.Invariant.{Inv, IsQuick, IsCapped-IsKept, allow-IsWithin, allow-IsBounded}
use spectre_relay.Sections.{
  Section, admit, enter, leave, find, put, take, sweep, spend, cert_slot, fetch_slot, replace,
  serve, key_of, done, emit, call, perform,
}
use spectre_relay.Sections.System.{
  Thread, System, Turn, starts, goes, fixed_of, go, go_one, turn, turns,
}
use spectre_relay.Sections.Proper.{HasFit, IsProper, program_of-IsProper}

module _ (sql : Sqlite) (syntax : Syntax) (aead : Aead) (ed : Ed25519) where
  allow-IsQuick :
      (r : Router sql) (user : Text) (now : ℕ)
      → IsQuick sql syntax aead r
      → IsQuick sql syntax aead (Router.allow sql r user now).0
  unfolding Router.allow
  allow-IsQuick r user now h = (take_slot-IsBounded r.rate_per_min r.rate_attempts user now h).0

  router-Inv :
      (s : Server sql) (r : Router sql)
      → IsCapped sql syntax aead r.store
      → IsQuick sql syntax aead r
      → Inv sql syntax aead ed s
      → Inv sql syntax aead ed (record s { router = r })
  router-Inv s r c q v = record {
    capped = c;
    sound = v.sound;
    is_map = v.is_map;
    addresses = v.addresses;
    senders = q;
    certs = v.certs;
    targets = v.targets;
  }

  prekeys-Inv :
      (s : Server sql) (ps : PrekeyStore)
      → IsSound ps
      → IsMap ps.bundles
      → Inv sql syntax aead ed s
      → Inv sql syntax aead ed (record s { prekeys = ps })
  prekeys-Inv s ps h m v = record {
    capped = v.capped;
    sound = h;
    is_map = m;
    addresses = v.addresses;
    senders = v.senders;
    certs = v.certs;
    targets = v.targets;
  }

  perform-Inv :
      (s : Server sql) (a : Section)
      → HasFit a
      → Inv sql syntax aead ed s
      → Inv sql syntax aead ed (perform sql syntax aead s a).0
  unfolding perform Router.allow
  perform-Inv s (admit ip now) fits v = record {
    capped = v.capped;
    sound = v.sound;
    is_map = v.is_map;
    addresses = allow-IsBounded sql syntax aead ed s.auth ip now v.addresses;
    senders = v.senders;
    certs = v.certs;
    targets = v.targets;
  }
  perform-Inv s (enter user c) fits v =
      router-Inv s _ ((IsCapped-IsKept sql syntax aead).registers s.router.store user c v.capped)
        v.senders v
  perform-Inv s (leave user c) fits v =
      router-Inv s _ ((IsCapped-IsKept sql syntax aead).unregisters s.router.store user c v.capped)
        v.senders v
  perform-Inv s (find user) fits v = v
  perform-Inv s (put env user m) fits v =
      router-Inv s _ ((operations-IsCapped sql syntax aead s.router.store v.capped).0 env user m)
        v.senders v
  perform-Inv s (take env now user) fits v =
      router-Inv s _ ((operations-IsCapped sql syntax aead s.router.store v.capped).1 env now user)
        v.senders v
  perform-Inv s (sweep now env) fits v =
      router-Inv s _ ((operations-IsCapped sql syntax aead s.router.store v.capped).2 now env)
        v.senders v
  perform-Inv s (spend user now) fits v =
      router-Inv s (Router.allow sql s.router user now).0 v.capped
        (allow-IsQuick s.router user now v.senders) v
  perform-Inv s (cert_slot user now) fits v = record {
    capped = v.capped;
    sound = v.sound;
    is_map = v.is_map;
    addresses = v.addresses;
    senders = v.senders;
    certs = allow-IsWithin sql syntax aead 6 s.cert_limiter user now v.certs;
    targets = v.targets;
  }
  perform-Inv s (fetch_slot user now) fits v = record {
    capped = v.capped;
    sound = v.sound;
    is_map = v.is_map;
    addresses = v.addresses;
    senders = v.senders;
    certs = v.certs;
    targets = allow-IsWithin sql syntax aead 10 s.prekey_limiter user now v.targets;
  }
  perform-Inv s (replace env user b) fits v =
      prekeys-Inv s _ ((operations-IsSound syntax aead env s.prekeys user v.sound).0 b)
        (register-IsMap syntax aead env s.prekeys user b v.is_map fits) v
  perform-Inv s (serve env user consume) fits v =
      prekeys-Inv s _ ((operations-IsSound syntax aead env s.prekeys user v.sound).1 consume)
        (get-IsMap syntax aead env s.prekeys user consume v.is_map) v
  perform-Inv s (key_of user) fits v = v

  go-Inv :
      (s : Server sql) (p : Thread)
      → Inv sql syntax aead ed s
      → IsProper p
      → let (t, es, q) = go sql syntax aead ed s p in Inv sql syntax aead ed t × IsProper q
  go-Inv s (done r) v h = (v, tt)
  go-Inv s (emit es p) v h = (v, h)
  go-Inv s (call a k) v (fits, h) = (perform-Inv s a fits v, h (perform sql syntax aead s a).1)

  go_one-Inv :
      (s : Server sql) (ps : List Thread) (i : ℕ)
      → Inv sql syntax aead ed s
      → All (λ (p : Thread). IsProper p) ps
      → let (t, es, qs) = go_one sql syntax aead ed s ps i in
        Inv sql syntax aead ed t × All (λ (p : Thread). IsProper p) qs
  go_one-Inv s [] i v hs = (v, tt)
  go_one-Inv s (p ∷ ps) zero v (h, hs) = let (w, g) = go-Inv s p v h in (w, (g, hs))
  go_one-Inv s (p ∷ ps) (suc i) v (h, hs) = let (w, gs) = go_one-Inv s ps i v hs in (w, (h, gs))

  turns-kept :
      (x : System sql) (ts : List Turn)
      → Inv sql syntax aead ed x.server
      → All (λ (p : Thread). IsProper p) x.threads
      → Inv sql syntax aead ed (turns sql syntax aead ed x ts).server
  unfolding turns turn
  turns-kept x [] v hs = v
  turns-kept x (starts j ∷ ts) v hs =
      turns-kept (turn sql syntax aead ed x (starts j)) ts v
        (program_of-IsProper sql syntax aead ed (fixed_of sql syntax aead ed x.server) j, hs)
  turns-kept x (goes i ∷ ts) v hs =
      let (w, gs) = go_one-Inv x.server x.threads i v hs in
      turns-kept (turn sql syntax aead ed x (goes i)) ts w gs

  -- The invariant does not need the handlers to run one after another. From a server of which it
  -- holds and on which no thread runs, whatever connections, fetches, federated requests and purges
  -- start, and in whatever order their critical sections and writes then come, also of threads that
  -- are still at work, it holds of the server at every turn.
  pub turns-Inv :
      (s : Server sql) (ts : List Turn)
      → Inv sql syntax aead ed s
      → Inv sql syntax aead ed
          (turns sql syntax aead ed (record { server = s; threads = []; sent = [] }) ts).server
  turns-Inv s ts v = turns-kept (record { server = s; threads = []; sent = [] }) ts v tt
