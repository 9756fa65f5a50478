-- ===== src/Relay/Fresh.antt =====
-- The first start of a relay, without any file.
use spectre_relay.Prelude.{
  ◌≡◌, refl, ap, ◌∙◌, inl, inr, Option, none, some, [], Text, Bytes, ok, Error, Result-cases,
  Option-cases, arith,
}
use spectre_relay.Prelude.Int.{ℤ}
use spectre_relay.Prelude.Assoc.{lookup}
use spectre_relay.Config.{Config, duration_of_seconds}
use spectre_relay.Crypto.{Aead, Ed25519}
use spectre_relay.Json.{Syntax}
use spectre_relay.Files.{WriteEnv, KeyEnv, load_or_create_key, read_sealed}
use spectre_relay.Files.Keys.{load_or_create_key-other}
use spectre_relay.Files.Survival.{key_file, key_file-apart}
use spectre_relay.Store.Database.{Sqlite}
use spectre_relay.Store.Rows.{table, persist-keeps}
use spectre_relay.Store.{Store, new_store, load_from_disk, init_schema}
use spectre_relay.Prekeys
use spectre_relay.Prekeys.{PrekeyStore, new_prekey_store}
use spectre_relay.Prekeys.Invariant.{IsSound}
use spectre_relay.Prekeys.Restart.{IsMap}
use spectre_relay.Store.Capacity.{IsCapped}
use spectre_relay.Relay.{StartEnv, start}
use spectre_relay.Relay.Invariant.{Inv}
use spectre_relay.Relay.Starting.{start-Parts}
use spectre_relay.Router.{new_router}
use spectre_relay.SealedCa.{SealedCa}
use spectre_relay.Auth.{new_auth_limiter}
use spectre_relay.RateLimit.{new_rate_limiter}
use spectre_relay.Server.{Server, new_server}

-- An absent file reads as nothing.
read_sealed-absent :
    (aead : Aead) (keys : KeyEnv) (key : Bytes) (path : Text)
    → read_sealed aead none key path (load_or_create_key keys (key_file path) []).0 ≡ ok none
unfolding read_sealed
read_sealed-absent aead keys key path =
    ground (arith, load_or_create_key-other keys (key_file path) path (key_file-apart path))

module _ (sql : Sqlite) (syntax : Syntax) (aead : Aead) where
  init_schema-table :
      (env : WriteEnv) (s : Store sql)
      → sql.rows s.db ≡ []
      → table sql syntax aead (init_schema sql syntax aead env s).0 ≡ []
  unfolding init_schema
  init_schema-table env s empty = elim (Result-cases (sql.create_schema s.db)) [
    | inr (_, bad) ↦ rw (bad, init_schema) empty
    | inl (db, created) ↦
        let (same, _, _, _, _) = persist-keeps sql syntax aead env (record s { db = db }) in
        rw (created, init_schema, ap sql.rows same) (sql.rows-create s.db db created ∙ empty)
  ]

  load_from_disk-table :
      (read : Option Error) (env : WriteEnv) (s : Store sql)
      → read_sealed aead none s.key s.queue_path s.disk ≡ ok none
      → sql.rows s.db ≡ []
      → table sql syntax aead (load_from_disk sql syntax aead read env s).0 ≡ []
  unfolding load_from_disk read_sealed
  load_from_disk-table (some x) env s absent empty = empty
  load_from_disk-table none env s absent empty =
      rw (absent, load_from_disk) (init_schema-table env s empty)

  -- A queue without files is empty.
  pub new_store-fresh :
      (make_dir : Option Error) (keys : KeyEnv) (read : Option Error) (env : WriteEnv) (path : Text)
      (ttl : ℤ) (s : Store sql)
      → (new_store sql syntax aead make_dir keys read env path ttl []).1 ≡ ok s
      → table sql syntax aead s ≡ []
  unfolding new_store
  new_store-fresh (some x) keys read env path ttl s h = cc
  new_store-fresh none keys read env path ttl s h =
      let created = load_or_create_key keys (key_file path) [] in
      elim (Result-cases created.1) [
        | inr (_, bad) ↦ absurd (ground (arith, bad, h))
        | inl (k, got) ↦
            let s₀ : Store sql = record {
              clients = [];
              db = sql.fresh;
              queue_path = path;
              key = k;
              ttl = duration_of_seconds ttl;
              disk = created.0;
            } in
            let r = load_from_disk sql syntax aead read env s₀ in
            elim (Option-cases r.1) [
              | inr (_, bad) ↦ absurd (ground (arith, got, bad, h))
              | inl fine ↦
                  let e : r.0 ≡ s = ground (arith, got, fine, h) in
                  rw (← e) (
                    load_from_disk-table read env s₀ (read_sealed-absent aead keys k path)
                      sql.rows-fresh)
            ]
      ]

  -- A store of bundles without files is empty.
  pub new_prekey_store-fresh :
      (make_dir : Option Error) (keys : KeyEnv) (read : Option Error) (path : Text)
      (ps : PrekeyStore)
      → (new_prekey_store syntax aead make_dir keys read path []).1 ≡ ok ps
      → ps.bundles ≡ []
  unfolding new_prekey_store Prekeys.load_from_disk read_sealed
  new_prekey_store-fresh (some x) keys read path ps h = cc
  new_prekey_store-fresh none keys (some x) path ps h = ground (arith, h)
  new_prekey_store-fresh none keys none path ps h =
      elim (Result-cases (load_or_create_key keys (key_file path) []).1) [
        | inr (_, bad) ↦ absurd (ground (arith, bad, h))
        | inl (k, got) ↦ ground (arith, got, read_sealed-absent aead keys k path, h)
      ]

module _ (sql : Sqlite) (syntax : Syntax) (aead : Aead) (ed : Ed25519) where
  pub new_server-Inv :
      (cfg : Config) (store : Store sql) (prekeys : PrekeyStore) (ca : SealedCa)
      → IsCapped sql syntax aead store
      → IsSound prekeys
      → IsMap prekeys.bundles
      → Inv sql syntax aead ed (new_server sql cfg store prekeys ca)
  unfolding new_server new_router new_auth_limiter new_rate_limiter lookup
  new_server-Inv cfg store prekeys ca capped sound is_map = record {
    capped = capped;
    sound = sound;
    is_map = is_map;
    addresses = λ key. omega arith;
    senders = λ key. omega arith;
    certs = (refl, λ key. omega arith);
    targets = (refl, λ key. omega arith);
  }

  -- A start without any file, if it succeeds, gives a relay of which the invariant holds.
  pub fresh_start-Inv :
      (env : StartEnv) (s : Server sql)
      → (start sql syntax aead ed env (record { queue = []; bundles = []; ca = [] })).1 ≡ ok s
      → Inv sql syntax aead ed s
  unfolding lookup
  fresh_start-Inv env s h =
      let p =
        start-Parts sql syntax aead ed env (record { queue = []; bundles = []; ca = [] }) s h in
      let empty : table sql syntax aead p.store ≡ [] =
        new_store-fresh sql syntax aead env.queue_dir env.queue_keys env.queue_read env.queue_save
          p.cfg.offline_queue_path p.cfg.message_ttl_seconds p.store p.stored in
      let no_bundles : p.prekeys.bundles ≡ [] =
        new_prekey_store-fresh sql syntax aead env.bundles_dir env.bundles_keys env.bundles_read
          p.cfg.prekey_store_path p.prekeys p.kept in
      let is_map : IsMap p.prekeys.bundles = rw no_bundles tt in
      rw p.made (
        new_server-Inv p.cfg p.store p.prekeys p.ca (λ user. rw empty (omega arith))
          (record { at = λ user b e. absurd (ground (arith, rw no_bundles at e)) }) is_map)
