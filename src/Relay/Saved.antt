-- ===== src/Relay/Saved.antt =====
-- What the files of the relay hold after any history of steps.
use spectre_relay.Prelude.{
  ℕ, Bool, ◌≤◌, ◌<◌, ◌≡◌, refl, ◌∙◌, inl, inr, List, [], ◌∷◌, length, Text, arith,
}
use spectre_relay.Prelude.Assoc.{Map}
use spectre_relay.Crypto.{Aead, Ed25519}
use spectre_relay.Json.{Syntax}
use spectre_relay.Files.{WriteEnv}
use spectre_relay.Files.Survival.{IsSafe}
use spectre_relay.Prekeys.Bundle.{PrekeyBundle, json_of_bundles}
use spectre_relay.Prekeys.Invariant.{IsSound, operations-IsSound}
use spectre_relay.Prekeys.Restart.{FitsUint32, IsMap}
use spectre_relay.Prekeys.Decoding.{register-IsMap, get-IsMap}
use spectre_relay.Prekeys.Survival
use spectre_relay.Prekeys.{PrekeyStore, register_bundle, get_bundle_with_otpk}
use spectre_relay.Store.Capacity.{IsCapped, operations-IsCapped}
use spectre_relay.Store.Database.{Sqlite, Row, rows_for}
use spectre_relay.Store.Rows.{table}
use spectre_relay.Store.Restart
use spectre_relay.Store.{
  Store, EnqueueEnv, register, unregister, enqueue, drain_queue, purge_expired,
}
use spectre_relay.Store.Messages.{QueuedMessage}
use spectre_relay.Relay.{Event, step, run}
use spectre_relay.Relay.Settings.{
  IsKept, QueueWrites, BundleWrites, step-store, step-prekeys, step-SameServer,
}
use spectre_relay.Server.{Server}

-- A property of the rows and one of the bundles that the operations keep.
pub record Lasting (sql : Sqlite) (syntax : Syntax) (aead : Aead) : Type 1 where
  pub Rows : List Row → Type 0
  pub Bundles : Map PrekeyBundle → Type 0
  pub enqueues :
      (env : EnqueueEnv) (s : Store sql) (user : Text) (msg : QueuedMessage)
      → Rows (table sql syntax aead s)
      → Rows (table sql syntax aead (enqueue sql syntax aead env s user msg))
  pub drains :
      (env : WriteEnv) (now : ℕ) (s : Store sql) (user : Text)
      → Rows (table sql syntax aead s)
      → Rows (table sql syntax aead (drain_queue sql syntax aead env now s user).0)
  pub purges :
      (now : ℕ) (env : WriteEnv) (s : Store sql)
      → Rows (table sql syntax aead s)
      → Rows (table sql syntax aead (purge_expired sql syntax aead now env s))
  pub registers :
      (env : WriteEnv) (ps : PrekeyStore) (user : Text) (b : PrekeyBundle)
      → Bundles ps.bundles
      → Bundles (register_bundle syntax aead env ps user b).0.bundles
  pub serves :
      (env : WriteEnv) (ps : PrekeyStore) (user : Text) (consume : Bool)
      → Bundles ps.bundles
      → Bundles (get_bundle_with_otpk syntax aead env ps user consume).0.bundles

module _ (sql : Sqlite) (syntax : Syntax) (aead : Aead) (k : Lasting sql syntax aead) where
  -- The files of the queue load, as rows of which no recipient has more than 500.
  pub record QueueSaved (path : Text) (s : Store sql) : Type 0 where
    pub capped : IsCapped sql syntax aead s
    pub lasting : k.Rows (table sql syntax aead s)
    pub same : s.queue_path ≡ path
    pub rows : List Row
    pub fits : (user : Text) → length (rows_for user rows) ≤ 500
    pub old : k.Rows rows
    pub files : Restart.OnDisk sql syntax aead s rows

  -- The files of the bundles load, as a map like that in memory.
  pub record BundlesSaved (path : Text) (ps : PrekeyStore) : Type 0 where
    pub sound : IsSound ps
    pub is_map : IsMap ps.bundles
    pub lasting : k.Bundles ps.bundles
    pub same : ps.store_path ≡ path
    pub saved : Map PrekeyBundle
    pub saved_sound : IsSound (record ps { bundles = saved })
    pub saved_map : IsMap saved
    pub old : k.Bundles saved
    pub files : Survival.OnDisk syntax aead ps saved

  module _ (positive : 0 < aead.nonce_size) (path : Text) where
    queue-Kept :
        (s t : Store sql)
        → (h : QueueSaved path s) → IsCapped sql syntax aead t
        → k.Rows (table sql syntax aead t)
        → Restart.Kept sql syntax aead h.rows s t
        → QueueSaved path t
    queue-Kept s t h c l (inl files, same) = record {
      capped = c;
      lasting = l;
      same = same ∙ h.same;
      rows = h.rows;
      fits = h.fits;
      old = h.old;
      files = files;
    }
    queue-Kept s t h c l (inr files, same) = record {
      capped = c;
      lasting = l;
      same = same ∙ h.same;
      rows = table sql syntax aead t;
      fits = c;
      old = l;
      files = files;
    }

    IsSafe-for :
        (s : Store sql) (env : WriteEnv)
        → s.queue_path ≡ path
        → IsSafe aead path env
        → IsSafe aead s.queue_path env
    IsSafe-for s env same q = rw same q

    QueueSaved-IsKept : IsKept sql syntax aead (QueueSaved path) (IsSafe aead path)
    unfolding register unregister
    QueueSaved-IsKept = record {
      stable = record {
        enqueues = λ env s user msg q h.
            queue-Kept s _ h ((operations-IsCapped sql syntax aead s h.capped).0 env user msg)
              (k.enqueues env s user msg h.lasting)
              ((Restart.operations-Kept sql syntax aead positive s h.rows h.files).0 env user msg
                (IsSafe-for s env.save_env h.same q));
        drains = λ env now s user q h.
            queue-Kept s _ h ((operations-IsCapped sql syntax aead s h.capped).1 env now user)
              (k.drains env now s user h.lasting)
              ((Restart.operations-Kept sql syntax aead positive s h.rows h.files).1 env now user
                (IsSafe-for s env h.same q));
      };
      registers = λ s user c h. record {
        capped = h.capped;
        lasting = h.lasting;
        old = h.old;
        same = h.same;
        rows = h.rows;
        fits = h.fits;
        files = h.files;
      };
      unregisters = λ s user c h. record {
        capped = ground (arith, h.capped);
        lasting = ground (arith, h.lasting);
        old = h.old;
        same = ground (arith, h.same);
        rows = h.rows;
        fits = h.fits;
        files = ground (arith, h.files);
      };
      purges_too = λ now env s q h.
          queue-Kept s _ h ((operations-IsCapped sql syntax aead s h.capped).2 now env)
            (k.purges now env s h.lasting)
            ((Restart.operations-Kept sql syntax aead positive s h.rows h.files).2 now env
              (IsSafe-for s env h.same q));
    }

    bundles-Kept :
        (ps t : PrekeyStore)
        → (h : BundlesSaved path ps) → IsSound t
        → IsMap t.bundles
        → k.Bundles t.bundles
        → Survival.Kept syntax aead h.saved ps t
        → BundlesSaved path t
    bundles-Kept ps t h s m l (inl files, same) = record {
      sound = s;
      is_map = m;
      lasting = l;
      same = same ∙ h.same;
      saved = h.saved;
      saved_sound = record { at = h.saved_sound.at };
      saved_map = h.saved_map;
      old = h.old;
      files = files;
    }
    bundles-Kept ps t h s m l (inr files, same) = record {
      sound = s;
      is_map = m;
      lasting = l;
      same = same ∙ h.same;
      saved = t.bundles;
      saved_sound = record { at = s.at };
      saved_map = m;
      old = l;
      files = files;
    }

    -- If the map that results can be printed.
    abbrev Prints : PrekeyStore → Type 0
    Prints ps = syntax.IsPrintable (json_of_bundles ps.bundles)

    register-BundlesSaved :
        (env : WriteEnv) (ps : PrekeyStore) (user : Text) (b : PrekeyBundle)
        → BundlesSaved path ps
        → IsSafe aead path env
        → FitsUint32 b
        → Prints (register_bundle syntax aead env ps user b).0
        → BundlesSaved path (register_bundle syntax aead env ps user b).0
    register-BundlesSaved env ps user b h q fits printable =
        let m = register-IsMap syntax aead env ps user b h.is_map fits in
        bundles-Kept ps _ h ((operations-IsSound syntax aead env ps user h.sound).0 b) m
          (k.registers env ps user b h.lasting)
          ((Survival.prekeys-Kept syntax aead positive env ps user h.saved (rw h.same q) h.files).0
            b (m, printable))

    get-BundlesSaved :
        (env : WriteEnv) (ps : PrekeyStore) (user : Text) (consume : _)
        → BundlesSaved path ps
        → IsSafe aead path env
        → Prints (get_bundle_with_otpk syntax aead env ps user consume).0
        → BundlesSaved path (get_bundle_with_otpk syntax aead env ps user consume).0
    get-BundlesSaved env ps user consume h q printable =
        let m = get-IsMap syntax aead env ps user consume h.is_map in
        bundles-Kept ps _ h ((operations-IsSound syntax aead env ps user h.sound).1 consume) m
          (k.serves env ps user consume h.lasting)
          ((Survival.prekeys-Kept syntax aead positive env ps user h.saved (rw h.same q) h.files).1
            consume (m, printable))

module _ (sql : Sqlite) (syntax : Syntax) (aead : Aead) (ed : Ed25519) where
  -- Both files of the relay load, as data of which it can run.
  pub record IsSaved (k : Lasting sql syntax aead) (s : Server sql) : Type 0 where
    pub queue : QueueSaved sql syntax aead k s.cfg.offline_queue_path s.router.store
    pub bundles : BundlesSaved sql syntax aead k s.cfg.prekey_store_path s.prekeys

  -- The temporary files of a history have names of their own, and the bundles after each step can
  -- be printed.
  abbrev pub IsSafeRun : Server sql → List Event → Type 0
  IsSafeRun s [] = Unit {0}
  IsSafeRun s (e ∷ es) =
      QueueWrites (IsSafe aead s.cfg.offline_queue_path) e
      × BundleWrites (IsSafe aead s.cfg.prekey_store_path) e
      × syntax.IsPrintable (json_of_bundles (step sql syntax aead ed s e).prekeys.bundles)
      × IsSafeRun (step sql syntax aead ed s e) es

  module _ (k : Lasting sql syntax aead) (positive : 0 < aead.nonce_size) where
    step-IsSaved :
        (s : Server sql) (e : Event)
        → IsSaved k s
        → QueueWrites (IsSafe aead s.cfg.offline_queue_path) e
        → BundleWrites (IsSafe aead s.cfg.prekey_store_path) e
        → syntax.IsPrintable (json_of_bundles (step sql syntax aead ed s e).prekeys.bundles)
        → IsSaved k (step sql syntax aead ed s e)
    step-IsSaved s e h q b printable =
        let (same, _) = step-SameServer sql syntax aead ed s e in
        let queue : QueueSaved sql syntax aead k s.cfg.offline_queue_path
            (step sql syntax aead ed s e).router.store =
          step-store sql syntax aead ed (QueueSaved sql syntax aead k s.cfg.offline_queue_path)
            (IsSafe aead s.cfg.offline_queue_path)
            (QueueSaved-IsKept sql syntax aead k positive s.cfg.offline_queue_path) s e q h.queue in
        let bundles : BundlesSaved sql syntax aead k s.cfg.prekey_store_path
            (step sql syntax aead ed s e).prekeys =
          step-prekeys sql syntax aead ed (IsSafe aead s.cfg.prekey_store_path)
            (λ (ps : PrekeyStore).
              syntax.IsPrintable (json_of_bundles ps.bundles)
              → BundlesSaved sql syntax aead k s.cfg.prekey_store_path ps)
            s e b (λ _. h.bundles)
            (λ env user c safe fits p.
              register-BundlesSaved sql syntax aead k positive s.cfg.prekey_store_path env s.prekeys
                user c h.bundles safe fits p)
            (λ env user consume safe p.
              get-BundlesSaved sql syntax aead k positive s.cfg.prekey_store_path env s.prekeys user
                consume h.bundles safe p)
            printable in
        record { queue = rw same queue; bundles = rw same bundles }

    pub run-IsSaved :
        (s : Server sql) (es : List Event)
        → IsSaved k s
        → IsSafeRun s es
        → IsSaved k (run sql syntax aead ed s es)
          × ((run sql syntax aead ed s es).cfg ≡ s.cfg)
          × ((run sql syntax aead ed s es).sealed_ca ≡ s.sealed_ca)
    unfolding run
    run-IsSaved s [] h safe = (h, refl, refl)
    run-IsSaved s (e ∷ es) h (q, b, p, safe) =
        let (cfg, ca) = step-SameServer sql syntax aead ed s e in
        let (saved, same_cfg, same_ca) =
          run-IsSaved (step sql syntax aead ed s e) es (step-IsSaved s e h q b p) safe in
        (saved, same_cfg ∙ cfg, same_ca ∙ ca)
