-- ===== src/Relay/Durability.antt =====
-- A restart after any history: what the files hold, and what the next start makes of it.
use spectre_relay.Prelude.{◌<◌, ◌≡◌, refl, sym, ap, ◌∙◌, none, List, [], ok, arith}
use spectre_relay.Prelude.Assoc.{Map}
use spectre_relay.Config.{Config, load}
use spectre_relay.Crypto.{Aead, Ed25519}
use spectre_relay.Json.{Syntax}
use spectre_relay.Files.Keys.{FillsBuffer}
use spectre_relay.Files.Survival.{IsSafe}
use spectre_relay.Prekeys.Bundle.{PrekeyBundle}
use spectre_relay.Prekeys.Invariant.{IsSound}
use spectre_relay.Prekeys.Restart.{IsMap}
use spectre_relay.Prekeys.Survival
use spectre_relay.Prekeys.{PrekeyStore}
use spectre_relay.Store.Capacity.{IsCapped}
use spectre_relay.Store.Database.{Sqlite, Row}
use spectre_relay.Store.Rows.{table}
use spectre_relay.Store.Restart
use spectre_relay.Store.Reopening
use spectre_relay.Relay.{Event, StartEnv, Disks, start, run}
use spectre_relay.Relay.Invariant.{Inv}
use spectre_relay.SealedCa.Certificates.{IsFull, new_sealed_ca-restart}
use spectre_relay.Relay.Fresh.{new_server-Inv}
use spectre_relay.Relay.Saved.{Lasting, IsSaved, IsSafeRun, run-IsSaved}
use spectre_relay.Server.{Server, new_server}
use spectre_relay.Relay.Starting.{Parts, start-Parts, start-clean}
use spectre_relay.Router.{new_router}

module _ (sql : Sqlite) (syntax : Syntax) (aead : Aead) (ed : Ed25519) where
  -- A start whose keys fill their buffers, and whose first save has a temporary name of its own.
  pub record IsSafeStart (env : StartEnv) : Type 0 where
    pub queue_keys : FillsBuffer env.queue_keys
    pub bundles_keys : FillsBuffer env.bundles_keys
    pub full : IsFull ed env.ca
    pub safe :
        (cfg : Config) → load env.vars ≡ ok cfg → IsSafe aead cfg.offline_queue_path env.queue_save

  -- A later start, of the same configuration, that reads every file without an error, and the
  -- previous key with the same outcome.
  pub record IsClean (env later : StartEnv) : Type 0 where
    pub vars : later.vars ≡ env.vars
    pub queue_dir : later.queue_dir ≡ none
    pub queue_keys : later.queue_keys.read ≡ none
    pub queue_read : later.queue_read ≡ none
    pub bundles_dir : later.bundles_dir ≡ none
    pub bundles_keys : later.bundles_keys.read ≡ none
    pub bundles_read : later.bundles_read ≡ none
    pub ca : later.ca.read ≡ none
    pub prev : later.ca.read_prev ≡ env.ca.read_prev

  -- The disk that a relay leaves: the key of the authority is not written again.
  abbrev pub left_by : Disks → Server sql → Disks
  left_by after t = record { queue = t.router.store.disk; bundles = t.prekeys.disk; ca = after.ca }

  -- A server like another, on the data of its files.
  pub record Restarted (later : StartEnv) (d : Disks) (t : Server sql) (rows : List Row)
      (m : Map PrekeyBundle) : Type 0 where
    pub again : Server sql
    pub starts : start sql syntax aead ed later d ≡ (d, ok again)
    pub cfg : again.cfg ≡ t.cfg
    pub ca : again.sealed_ca ≡ t.sealed_ca
    pub queue : table sql syntax aead again.router.store ≡ rows
    pub bundles : again.prekeys.bundles ≡ m
    pub none_yet : again.router.store.clients ≡ []
    pub inv : Inv sql syntax aead ed again

  module _ (k : Lasting sql syntax aead) (positive : 0 < aead.nonce_size) where
    start-IsSaved :
        (env : StartEnv) (disks : Disks) (s : Server sql)
        → IsSafeStart env
        → Parts sql syntax aead ed env disks (start sql syntax aead ed env disks).0 s
        → Inv sql syntax aead ed s
        → k.Rows (table sql syntax aead s.router.store)
        → k.Bundles s.prekeys.bundles
        → IsSaved sql syntax aead ed k s
    unfolding new_server new_router
    start-IsSaved env disks s w p v rows bundles =
        let lasting : k.Rows (table sql syntax aead p.store) = rw p.made at rows in
        let lasting_bundles : k.Bundles p.prekeys.bundles = rw p.made at bundles in
        let capped : IsCapped sql syntax aead p.store = rw p.made at v.capped in
        let sound : IsSound p.prekeys = rw p.made at v.sound in
        let is_map : IsMap p.prekeys.bundles = rw p.made at v.is_map in
        let (files, path, _) =
          Reopening.new_store-OnDisk sql syntax aead positive env.queue_dir env.queue_keys
            env.queue_read env.queue_save p.cfg.offline_queue_path p.cfg.message_ttl_seconds
            disks.queue p.store w.queue_keys (w.safe p.cfg p.loaded) p.stored in
        let (kept, store_path) =
          Survival.new_prekey_store-OnDisk syntax aead env.bundles_dir env.bundles_keys
            env.bundles_read p.cfg.prekey_store_path disks.bundles p.prekeys w.bundles_keys
            p.kept in
        rw p.made (record {
          queue = record {
            capped = capped;
            same = path;
            rows = table sql syntax aead p.store;
            fits = capped;
            lasting = lasting;
            old = lasting;
            files = files;
          };
          bundles = record {
            sound = sound;
            is_map = is_map;
            same = store_path;
            saved = p.prekeys.bundles;
            saved_sound = record { at = sound.at };
            saved_map = is_map;
            lasting = lasting_bundles;
            old = lasting_bundles;
            files = kept;
          };
        })

    restart :
        (env later : StartEnv) (disks : Disks) (s t : Server sql)
        (h : IsSaved sql syntax aead ed k t)
        → IsSafeStart env
        → Parts sql syntax aead ed env disks (start sql syntax aead ed env disks).0 s
        → IsClean env later
        → t.cfg ≡ s.cfg
        → t.sealed_ca ≡ s.sealed_ca
        → Restarted later
            (left_by (start sql syntax aead ed env disks).0 t)
            t
            h.queue.rows
            h.bundles.saved
    unfolding new_server new_router
    restart env later disks s t h w p c cfg ca =
        let same : t.cfg ≡ p.cfg = ground (arith, cfg, p.made) in
        let same_ca : t.sealed_ca ≡ p.ca = ground (arith, ca, p.made) in
        let queue_path : t.router.store.queue_path ≡ p.cfg.offline_queue_path =
          h.queue.same ∙ ap (λ (x : Config). x.offline_queue_path) same in
        let store_path : t.prekeys.store_path ≡ p.cfg.prekey_store_path =
          h.bundles.same ∙ ap (λ (x : Config). x.prekey_store_path) same in
        let loads : Restart.Loads sql syntax aead t.router.store.key p.cfg.offline_queue_path
            t.router.store.disk h.queue.rows =
          rw queue_path at h.queue.files in
        let holds : Survival.Loads syntax aead t.prekeys.key p.cfg.prekey_store_path t.prekeys.disk
            h.bundles.saved =
          rw store_path at h.bundles.files in
        let (store, stored, rows, clients, _, _, _, _) =
          Reopening.new_store-Loads sql syntax aead positive later.queue_keys later.queue_save
            t.router.store.key p.cfg.offline_queue_path p.cfg.message_ttl_seconds
            t.router.store.disk h.queue.rows loads c.queue_keys in
        let prekeys : PrekeyStore = record {
          bundles = h.bundles.saved;
          store_path = p.cfg.prekey_store_path;
          key = t.prekeys.key;
          disk = t.prekeys.disk;
        } in
        let kept =
          Survival.new_prekey_store-Loads syntax aead later.bundles_keys t.prekeys.key
            p.cfg.prekey_store_path t.prekeys.disk h.bundles.saved holds c.bundles_keys in
        let minted =
          new_sealed_ca-restart ed env.ca later.ca p.cfg.sealed_ca_path disks.ca p.ca w.full
            p.minted c.ca c.prev in
        record {
          again = new_server sql p.cfg store prekeys p.ca;
          starts =
              start-clean sql syntax aead ed later
                (left_by (start sql syntax aead ed env disks).0 t) p.cfg store prekeys p.ca
                (rw c.vars p.loaded) (rw (c.queue_dir, c.queue_read) stored)
                (rw (c.bundles_dir, c.bundles_read) kept) (rw p.ca_disk minted);
          cfg = sym same;
          ca = sym same_ca;
          queue = rows;
          bundles = refl;
          none_yet = clients;
          inv =
              new_server-Inv sql syntax aead ed p.cfg store prekeys p.ca
                (λ user. rw rows (h.queue.fits user)) (record { at = h.bundles.saved_sound.at })
                h.bundles.saved_map;
        }

    -- If a start succeeds, whatever its history of connections, frames, requests and purges then is,
    -- and whatever fails in it, a later start that reads the files without an error succeeds and
    -- leaves them alone, has the same configuration and the same authority and no connection, and
    -- the invariant holds of it. Its queue and its bundles are not arbitrary: every property of the
    -- rows, and every one of the bundles, that holds of the first relay and is kept by each single
    -- operation, holds of them. Given are the invariant of the first relay, fresh keys of 32 and 64
    -- bytes, nonces of the cipher's size, which is not 0, temporary files of names of their own, the
    -- same environment and outcome of reading the previous key in the later start, and bundles that
    -- can be printed after each step.
    pub run-restart :
        (env later : StartEnv) (disks : Disks) (s : Server sql) (es : List Event)
        → IsSafeStart env
        → (start sql syntax aead ed env disks).1 ≡ ok s
        → Inv sql syntax aead ed s
        → k.Rows (table sql syntax aead s.router.store)
        → k.Bundles s.prekeys.bundles
        → IsSafeRun sql syntax aead ed s es
        → IsClean env later
        → let d = left_by (start sql syntax aead ed env disks).0 (run sql syntax aead ed s es) in
          (u : Server sql) × (start sql syntax aead ed later d ≡ (d, ok u))
          × (u.cfg ≡ s.cfg)
          × (u.sealed_ca ≡ s.sealed_ca)
          × (u.router.store.clients ≡ [])
          × k.Rows (table sql syntax aead u.router.store)
          × k.Bundles u.prekeys.bundles
          × Inv sql syntax aead ed u
    run-restart env later disks s es w h v rows bundles safe c =
        let p = start-Parts sql syntax aead ed env disks s h in
        let (saved, cfg, ca) =
          run-IsSaved sql syntax aead ed k positive s es
            (start-IsSaved env disks s w p v rows bundles) safe in
        let r = restart env later disks s (run sql syntax aead ed s es) saved w p c cfg ca in
        (
          r.again,
          r.starts,
          r.cfg ∙ cfg,
          r.ca ∙ ca,
          r.none_yet,
          rw r.queue saved.queue.old,
          rw r.bundles saved.bundles.old,
          r.inv,
        )
