-- ===== src/Relay/Starting.antt =====
-- What a start takes from the files, and what it makes of files that load.
use spectre_relay.Prelude.{◌≡◌, inl, inr, ok, Result-cases, arith}
use spectre_relay.Config.{Config, load}
use spectre_relay.Crypto.{Aead, Ed25519}
use spectre_relay.Json.{Syntax}
use spectre_relay.Prekeys.{PrekeyStore, new_prekey_store}
use spectre_relay.Store.Database.{Sqlite}
use spectre_relay.Store.{Store, new_store}
use spectre_relay.Relay.{StartEnv, Disks, start, new_relay}
use spectre_relay.SealedCa.{SealedCa, new_sealed_ca}
use spectre_relay.Server.{Server, new_server}

module _ (sql : Sqlite) (syntax : Syntax) (aead : Aead) (ed : Ed25519) where
  -- The parts of a server that a start made.
  pub record Parts (env : StartEnv) (disks after : Disks) (s : Server sql) : Type 0 where
    pub cfg : Config
    pub loaded : load env.vars ≡ ok cfg
    pub store : Store sql
    pub stored :
        (new_store sql syntax aead env.queue_dir env.queue_keys env.queue_read env.queue_save
          cfg.offline_queue_path cfg.message_ttl_seconds disks.queue).1
        ≡ ok store
    pub prekeys : PrekeyStore
    pub kept :
        (new_prekey_store syntax aead env.bundles_dir env.bundles_keys env.bundles_read
          cfg.prekey_store_path disks.bundles).1
        ≡ ok prekeys
    pub ca : SealedCa
    pub minted : (new_sealed_ca ed env.ca cfg.sealed_ca_path disks.ca).1 ≡ ok ca
    pub made : s ≡ new_server sql cfg store prekeys ca
    pub ca_disk : after.ca ≡ (new_sealed_ca ed env.ca cfg.sealed_ca_path disks.ca).0

  pub start-Parts :
      (env : StartEnv) (disks : Disks) (s : Server sql)
      → (start sql syntax aead ed env disks).1 ≡ ok s
      → Parts env disks (start sql syntax aead ed env disks).0 s
  unfolding start new_relay
  start-Parts env disks s h = elim (Result-cases (load env.vars)) [
    | inr (_, bad) ↦ absurd (ground (arith, bad, h))
    | inl (cfg, loaded) ↦
        elim (Result-cases
          (new_store sql syntax aead env.queue_dir env.queue_keys env.queue_read env.queue_save
            cfg.offline_queue_path cfg.message_ttl_seconds disks.queue).1) [
              | inr (_, bad) ↦ absurd (ground (arith, loaded, bad, h))
              | inl (store, stored) ↦
                  elim (Result-cases
                    (new_prekey_store syntax aead env.bundles_dir env.bundles_keys env.bundles_read
                      cfg.prekey_store_path disks.bundles).1) [
                        | inr (_, bad) ↦ absurd (ground (arith, loaded, stored, bad, h))
                        | inl (prekeys, kept) ↦
                            elim (Result-cases
                              (new_sealed_ca ed env.ca cfg.sealed_ca_path disks.ca).1) [
                                | inr (_, bad) ↦
                                    absurd (ground (arith, loaded, stored, kept, bad, h))
                                | inl (ca, minted) ↦ record {
                                  cfg = cfg;
                                  loaded = loaded;
                                  store = store;
                                  stored = stored;
                                  prekeys = prekeys;
                                  kept = kept;
                                  ca = ca;
                                  minted = minted;
                                  made = ground (arith, loaded, stored, kept, minted, h);
                                  ca_disk = ground (arith, loaded, stored, kept, minted);
                                }
                              ]
                      ]
            ]
  ]

  -- A start whose parts all start.
  pub start-clean :
      (env : StartEnv) (disks : Disks) (cfg : Config) (store : Store sql) (prekeys : PrekeyStore)
      (ca : SealedCa)
      → load env.vars ≡ ok cfg
      → new_store sql syntax aead env.queue_dir env.queue_keys env.queue_read env.queue_save
          cfg.offline_queue_path cfg.message_ttl_seconds disks.queue
        ≡ (disks.queue, ok store)
      → new_prekey_store syntax aead env.bundles_dir env.bundles_keys env.bundles_read
          cfg.prekey_store_path disks.bundles
        ≡ (disks.bundles, ok prekeys)
      → new_sealed_ca ed env.ca cfg.sealed_ca_path disks.ca ≡ (disks.ca, ok ca)
      → start sql syntax aead ed env disks ≡ (disks, ok (new_server sql cfg store prekeys ca))
  unfolding start new_relay
  start-clean env disks cfg store prekeys ca loaded stored kept minted =
      ground (arith, loaded, stored, kept, minted)
