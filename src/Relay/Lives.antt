-- ===== src/Relay/Lives.antt =====
-- The relay over any number of restarts: main.go, run again and again on the files that the process
-- before has left.
use spectre_relay.Prelude.{◌<◌, ◌≡◌, refl, sym, ap, ◌∙◌, List, [], ok, Result}
use spectre_relay.Crypto.{Aead, Ed25519}
use spectre_relay.Json.{Syntax}
use spectre_relay.Store.Database.{Sqlite}
use spectre_relay.Store.Rows.{table}
use spectre_relay.Server.{Server}
use spectre_relay.Relay.{Event, StartEnv, StartError, Disks, start, run}
use spectre_relay.Relay.Invariant.{Inv}
use spectre_relay.Relay.Saved.{Lasting, IsSafeRun}
use spectre_relay.Relay.Durability.{IsSafeStart, IsClean, left_by, run-restart}

module _ (sql : Sqlite) (syntax : Syntax) (aead : Aead) (ed : Ed25519) where
  -- The processes that come after one another, by what each starts with and the relay that it
  -- starts: a first one, and one on the files that another leaves at the end of its history.
  pub data Lineage (env₀ : StartEnv) (disks₀ : Disks) (s₀ : Server sql)
      : StartEnv → Disks → Server sql → Type 0 where
    first : Lineage env₀ disks₀ s₀ env₀ disks₀ s₀
    restarted :
        {env : StartEnv} {disks : Disks} {s : Server sql}
        → Lineage env₀ disks₀ s₀ env disks s
        → (es : List Event) → IsSafeRun sql syntax aead ed s es
        → (later : StartEnv) → IsSafeStart sql syntax aead ed later
        → IsClean sql syntax aead ed env later
        → (u : Server sql)
        → (start sql syntax aead ed later (
            left_by sql syntax aead ed
              (start sql syntax aead ed env disks).0
              (run sql syntax aead ed s es))).1
          ≡ ok u
        → Lineage env₀ disks₀ s₀ later
            (left_by sql syntax aead ed
              (start sql syntax aead ed env disks).0
              (run sql syntax aead ed s es))
            u

  ok-inj : {a b : Server sql} → ◌≡◌ {A = Result StartError (Server sql)} (ok a) (ok b) → a ≡ b
  ok-inj e = cc

  module _ (k : Lasting sql syntax aead) (positive : 0 < aead.nonce_size) where
    -- What a process inherits from the first.
    pub record Inherits (s₀ : Server sql) (env : StartEnv) (disks : Disks) (s : Server sql)
        : Type 0 where
      pub safe : IsSafeStart sql syntax aead ed env
      pub starts : (start sql syntax aead ed env disks).1 ≡ ok s
      pub cfg : s.cfg ≡ s₀.cfg
      pub ca : s.sealed_ca ≡ s₀.sealed_ca
      pub rows : k.Rows (table sql syntax aead s.router.store)
      pub bundles : k.Bundles s.prekeys.bundles
      pub inv : Inv sql syntax aead ed s

    Lineage-Inherits :
        {env₀ : StartEnv} {disks₀ : Disks} {s₀ : Server sql} {env : StartEnv} {disks : Disks}
        {s : Server sql}
        → Lineage env₀ disks₀ s₀ env disks s
        → Inherits s₀ env₀ disks₀ s₀
        → Inherits s₀ env disks s
    Lineage-Inherits first h = h
    Lineage-Inherits (restarted {env} {disks} {s} l es quiet later safe clean u started) h =
        let i = Lineage-Inherits l h in
        let (v, again, cfg, ca, _, rows, bundles, inv) =
          run-restart sql syntax aead ed k positive env later disks s es i.safe i.starts i.inv
            i.rows i.bundles quiet clean in
        let same : v ≡ u =
          ok-inj (sym (ap (λ (t : Disks × Result StartError (Server sql)). t.1) again) ∙ started) in
        record {
          safe = safe;
          starts = started;
          cfg = rw (← same) (cfg ∙ i.cfg);
          ca = rw (← same) (ca ∙ i.ca);
          rows = rw (← same) rows;
          bundles = rw (← same) bundles;
          inv = rw (← same) inv;
        }

    -- However often the relay is restarted: if its first start succeeds, and then every process runs
    -- any history of connections, frames, requests and purges, whatever fails in it, and the next
    -- start reads the files that it leaves without an error, then the next start succeeds again
    -- and leaves them alone. The relay it gives has the configuration and the authority of the first
    -- process and no connection, and the invariant holds of it. Every property of the rows, and
    -- every one of the bundles, that holds of the first relay and is kept by each single operation,
    -- holds of it. Given are the invariant of the first relay and, for each process, fresh keys of 32
    -- and 64 bytes, nonces of the cipher's size, which is not 0, temporary files of names of their
    -- own, the environment and the outcome of reading the previous key of the process before, and
    -- bundles that can be printed after each step.
    pub lineage-restart :
        (env₀ : StartEnv) (disks₀ : Disks) (s₀ : Server sql) (env later : StartEnv) (disks : Disks)
        (s : Server sql) (es : List Event)
        → IsSafeStart sql syntax aead ed env₀
        → (start sql syntax aead ed env₀ disks₀).1 ≡ ok s₀
        → Inv sql syntax aead ed s₀
        → k.Rows (table sql syntax aead s₀.router.store)
        → k.Bundles s₀.prekeys.bundles
        → Lineage env₀ disks₀ s₀ env disks s
        → IsSafeRun sql syntax aead ed s es
        → IsClean sql syntax aead ed env later
        → let d =
            left_by sql syntax aead ed
              (start sql syntax aead ed env disks).0
              (run sql syntax aead ed s es) in
          (u : Server sql) × (start sql syntax aead ed later d ≡ (d, ok u))
          × (u.cfg ≡ s₀.cfg)
          × (u.sealed_ca ≡ s₀.sealed_ca)
          × (u.router.store.clients ≡ [])
          × k.Rows (table sql syntax aead u.router.store)
          × k.Bundles u.prekeys.bundles
          × Inv sql syntax aead ed u
    lineage-restart env₀ disks₀ s₀ env later disks s es safe starts v rows bundles l quiet clean =
        let i = Lineage-Inherits l (record {
          safe = safe;
          starts = starts;
          cfg = refl;
          ca = refl;
          rows = rows;
          bundles = bundles;
          inv = v;
        }) in
        let (u, again, cfg, ca, empty, kept, kept_bundles, inv) =
          run-restart sql syntax aead ed k positive env later disks s es i.safe i.starts i.inv
            i.rows i.bundles quiet clean in
        (u, again, cfg ∙ i.cfg, ca ∙ i.ca, empty, kept, kept_bundles, inv)
