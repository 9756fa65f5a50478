-- ===== src/Store/Reopening.antt =====
-- `NewStore` of server/store.go, on files that a store has left and on any others.
use spectre_relay.Prelude.{
  ◌<◌, ◌≡◌, refl, inl, inr, Option, none, some, length, List, [], Text, Bytes, ok, Error,
  Result-cases, Option-cases, arith,
}
use spectre_relay.Prelude.Int.{ℤ}
use spectre_relay.Prelude.Assoc.{lookup}
use spectre_relay.Files.Keys.{FillsBuffer, lookup-load_or_create_key}
use spectre_relay.Config.{duration_of_seconds}
use spectre_relay.Crypto.{Aead}
use spectre_relay.Json.{Syntax}
use spectre_relay.Files.{Disk, WriteEnv, KeyEnv, save, read_sealed, load_or_create_key}
use spectre_relay.Files.Survival.{
  IsSafe, key_file, first_save-Survives, load_or_create_key-Survives,
}
use spectre_relay.Store.Database.{Sqlite, Row}
use spectre_relay.Store.Rows.{table, persist-keeps}
use spectre_relay.Store.{Store, persist_locked, load_from_disk, new_store, init_schema}
use spectre_relay.Store.Restart.{Loads, OnDisk}

module _ (sql : Sqlite) (syntax : Syntax) (aead : Aead) where
  module _ (positive : 0 < aead.nonce_size) where
    -- What `NewStore` makes of files that read back as some rows: the rows, no connection, the same
    -- key, and the disk as it was.
    pub new_store-Loads :
        (keys : KeyEnv) (env : WriteEnv) (key : Bytes) (path : Text) (ttl : ℤ) (disk : Disk)
        (rs : List Row)
        → Loads sql syntax aead key path disk rs
        → keys.read ≡ none
        → (s : Store sql) × (new_store sql syntax aead none keys none env path ttl disk
            ≡ (disk, ok s))
          × (table sql syntax aead s ≡ rs)
          × (s.clients ≡ [])
          × (s.key ≡ key)
          × (s.queue_path ≡ path)
          × (s.ttl ≡ duration_of_seconds ttl)
          × (s.disk ≡ disk)
    unfolding new_store load_from_disk
    new_store-Loads keys env key path ttl disk rs h clear = (
      record {
        clients = [];
        db = h.db;
        queue_path = path;
        key = key;
        ttl = duration_of_seconds ttl;
        disk = disk;
      },
      ground (
        arith,
        load_or_create_key-Survives aead key path h.plain disk keys h.survives clear,
        h.survives.reads,
        h.parsed,
      ),
      h.holds,
      refl,
      refl,
      refl,
      refl,
      refl,
    )

    init_schema-Loads :
        (env : WriteEnv) (s : Store sql)
        → IsSafe aead s.queue_path env
        → lookup (key_file s.queue_path) s.disk ≡ some s.key
        → length s.key ≡ 32
        → (init_schema sql syntax aead env s).1 ≡ none
        → OnDisk sql syntax aead
            (init_schema sql syntax aead env s).0
            (table sql syntax aead (init_schema sql syntax aead env s).0)
    unfolding init_schema persist_locked
    init_schema-Loads env s safe stands size h = elim (Result-cases (sql.create_schema s.db)) [
      | inr (_, bad) ↦ absurd (ground (arith, bad, h))
      | inl (db, created) ↦ elim (Result-cases (sql.serialize db)) [
        | inr (_, bad) ↦ absurd (ground (arith, created, bad, h))
        | inl (plain, good) ↦
            let (e, parsed, holds) = sql.deserialize-serialize db plain good in
            let w = save aead env s.key s.queue_path plain s.disk in
            let fine : w.error ≡ none = ground (arith, created, good, h) in
            let survives =
              first_save-Survives aead s.key s.queue_path plain s.disk env safe positive stands size
                fine in
            rw (created, init_schema, good, persist_locked)
              (record {
                plain = plain;
                survives = survives;
                db = e;
                parsed = parsed;
                holds = holds;
              })
      ]
    ]

    load_from_disk-Loads :
        (read : Option Error) (env : WriteEnv) (s : Store sql)
        → IsSafe aead s.queue_path env
        → lookup (key_file s.queue_path) s.disk ≡ some s.key
        → length s.key ≡ 32
        → (load_from_disk sql syntax aead read env s).1 ≡ none
        → OnDisk sql syntax aead
            (load_from_disk sql syntax aead read env s).0
            (table sql syntax aead (load_from_disk sql syntax aead read env s).0)
    unfolding load_from_disk read_sealed
    load_from_disk-Loads (some x) env s safe stands size h = cc
    load_from_disk-Loads none env s safe stands size h =
        elim (Result-cases (read_sealed aead none s.key s.queue_path s.disk)) [
          | inr (_, bad) ↦ absurd (ground (arith, bad, h))
          | inl (none, empty) ↦
              let e : (init_schema sql syntax aead env s).1 ≡ none = ground (arith, empty, h) in
              rw (empty, load_from_disk) (init_schema-Loads env s safe stands size e)
          | inl (some plain, there) ↦ elim (Result-cases (sql.deserialize plain)) [
            | inr (_, bad) ↦ absurd (ground (arith, there, bad, h))
            | inl (db, parsed) ↦
                rw (there, load_from_disk, parsed)
                  (record {
                    plain = plain;
                    survives = record { stands = stands; size = size; reads = there };
                    db = db;
                    parsed = parsed;
                    holds = refl;
                  })
          ]
        ]

    load_from_disk-keeps :
        (read : Option Error) (env : WriteEnv) (s : Store sql)
        → let t = (load_from_disk sql syntax aead read env s).0 in
          (t.queue_path ≡ s.queue_path) × (t.clients ≡ s.clients) × (t.ttl ≡ s.ttl)
    unfolding load_from_disk init_schema
    load_from_disk-keeps read env s =
        elim (Result-cases (read_sealed aead read s.key s.queue_path s.disk)) [
          | inr (_, bad) ↦ rw (bad, load_from_disk) (refl, refl, refl)
          | inl (none, empty) ↦ elim (Result-cases (sql.create_schema s.db)) [
            | inr (_, bad) ↦ rw (empty, load_from_disk, bad, init_schema) (refl, refl, refl)
            | inl (db, created) ↦
                let (_, _, ttl, clients, path) =
                  persist-keeps sql syntax aead env (record s { db = db }) in
                rw (empty, load_from_disk, created, init_schema) (path, clients, ttl)
          ]
          | inl (some plain, there) ↦ elim (Result-cases (sql.deserialize plain)) [
            | inr (_, bad) ↦ rw (there, load_from_disk, bad) (refl, refl, refl)
            | inl (db, parsed) ↦ rw (there, load_from_disk, parsed) (refl, refl, refl)
          ]
        ]

    -- Whatever `NewStore` returns without an error, its files read back as its rows.
    pub new_store-OnDisk :
        (make_dir : Option Error) (keys : KeyEnv) (read : Option Error) (env : WriteEnv)
        (path : Text) (ttl : ℤ) (disk : Disk) (s : Store sql)
        → FillsBuffer keys
        → IsSafe aead path env
        → (new_store sql syntax aead make_dir keys read env path ttl disk).1 ≡ ok s
        → OnDisk sql syntax aead s (table sql syntax aead s)
          × (s.queue_path ≡ path)
          × (s.clients ≡ [])
    unfolding new_store
    new_store-OnDisk (some x) keys read env path ttl disk s sized safe h = cc
    new_store-OnDisk none keys read env path ttl disk s sized safe h =
        let created = load_or_create_key keys (key_file path) disk in
        elim (Result-cases created.1) [
          | inr (_, bad) ↦ absurd (ground (arith, bad, h))
          | inl (k, got) ↦
              let (stands, size) =
                lookup-load_or_create_key keys (key_file path) disk k sized got in
              let s₀ : Store sql = record {
                clients = [];
                db = sql.fresh;
                queue_path = path;
                key = k;
                ttl = duration_of_seconds ttl;
                disk = created.0;
              } in
              let r = load_from_disk sql syntax aead read env s₀ in
              elim (Option-cases r.1) [
                | inr (_, bad) ↦ absurd (ground (arith, got, bad, h))
                | inl fine ↦
                    let e : r.0 ≡ s = ground (arith, got, fine, h) in
                    let (same_path, none_yet, _) = load_from_disk-keeps read env s₀ in
                    rw (← e)
                      (load_from_disk-Loads read env s₀ safe stands size fine, same_path, none_yet)
              ]
        ]
