-- ===== src/Relay.antt =====
-- The relay as a whole: its start (main.go, and `New` of server/server.go), and the steps that its
-- connections, its endpoints and its clock take, in any order. Each handler is one step. The two
-- stores and the authority have files of their own, so the disk is given in three parts.
pub mod Settings
pub mod Invariant
pub mod Starting
pub mod Saved
pub mod Fresh
pub mod Durability
pub mod Connection
pub mod Process
pub mod Draining
pub mod Lives
use spectre_relay.Prelude.{
  ℕ, Bool, true, false, Option, none, some, List, [], ◌∷◌, Text, Bytes, Result, ok, err, Error,
}
use spectre_relay.Config.{Config, ConfigError, Env, load}
use spectre_relay.Crypto.{Aead, Ed25519}
use spectre_relay.Json.{Syntax}
use spectre_relay.Files.{Disk, WriteEnv, KeyEnv}
use spectre_relay.Prekeys.{PrekeyStore, new_prekey_store}
use spectre_relay.Store.Database.{Sqlite}
use spectre_relay.Store.{Conn, Store, new_store, purge_expired}
use spectre_relay.Router.{DeliverEnv, FlushEnv}
use spectre_relay.Auth.{AuthEnv}
use spectre_relay.SealedCa.{SealedCa, CaEnv, new_sealed_ca}
use spectre_relay.Server.{
  Server, FrameEnv, FederationRequest, new_server, serve_conn, end_conn, handle_authed_frame,
  handle_prekeys_get, handle_federation_deliver,
}

-- The parts of the disk: that of the queue, of the bundles, and of the signing key.
pub record Disks : Type 0 where
  pub queue : Disk
  pub bundles : Disk
  pub ca : Disk

-- What one start meets: the environment variables, and the outcomes of the system calls.
pub record StartEnv : Type 0 where
  pub vars : Env
  pub queue_dir : Option Error
  pub queue_keys : KeyEnv
  pub queue_read : Option Error
  pub queue_save : WriteEnv
  pub bundles_dir : Option Error
  pub bundles_keys : KeyEnv
  pub bundles_read : Option Error
  pub ca : CaEnv

pub data StartError : Type 0 where
  bad_config : ConfigError → StartError
  bad_init : Error → StartError

-- What can happen to a running relay.
pub data Event : Type 0 where
  connects : AuthEnv → ℕ → FlushEnv → Text → Conn → Event
  sends : FrameEnv → Text → Conn → Bytes → Event
  disconnects : Text → Conn → Event
  fetches : WriteEnv → ℕ → Text → Text → Event
  federates : DeliverEnv → FederationRequest → Event
  purges : ℕ → WriteEnv → Event

module _ (sql : Sqlite) (syntax : Syntax) (aead : Aead) (ed : Ed25519) where
  abbrev pub open_ca :
      StartEnv → Config → Disks → Store sql → PrekeyStore → Disks × Result StartError (Server sql)
  open_ca env cfg disks store prekeys =
      let (disk, ca) = new_sealed_ca ed env.ca cfg.sealed_ca_path disks.ca in
      elim ca [
        | err e ↦ (record disks { ca = disk }, err (bad_init e))
        | ok a ↦ (record disks { ca = disk }, ok (new_server sql cfg store prekeys a))
      ]

  abbrev pub open_prekeys :
      StartEnv → Config → Disks → Store sql → Disks × Result StartError (Server sql)
  open_prekeys env cfg disks store =
      let (disk, prekeys) =
        new_prekey_store syntax aead env.bundles_dir env.bundles_keys env.bundles_read
          cfg.prekey_store_path disks.bundles in
      elim prekeys [
        | err e ↦ (record disks { bundles = disk }, err (bad_init e))
        | ok ps ↦ open_ca env cfg (record disks { bundles = disk }) store ps
      ]

  -- `New`: what was opened before an error stays on the disk.
  unfoldable pub new_relay : StartEnv → Config → Disks → Disks × Result StartError (Server sql)
  new_relay env cfg disks =
      let (disk, store) =
        new_store sql syntax aead env.queue_dir env.queue_keys env.queue_read env.queue_save
          cfg.offline_queue_path cfg.message_ttl_seconds disks.queue in
      elim store [
        | err e ↦ (record disks { queue = disk }, err (bad_init e))
        | ok s ↦ open_prekeys env cfg (record disks { queue = disk }) s
      ]

  -- `main`, up to the call of `Run`.
  unfoldable pub start : StartEnv → Disks → Disks × Result StartError (Server sql)
  start env disks = elim (load env.vars) [
    | err e ↦ (disks, err (bad_config e))
    | ok cfg ↦ new_relay env cfg disks
  ]

  unfoldable pub step : Server sql → Event → Server sql
  step s (connects auth now flush addr c) =
      (serve_conn sql syntax aead ed auth now flush s addr c).0
  step s (sends env user c content) =
      (handle_authed_frame sql syntax aead ed env s user c content).0
  step s (disconnects user c) = end_conn sql syntax aead ed s user c
  step s (fetches env now method path) =
      (handle_prekeys_get sql syntax aead ed env now s method path).0
  step s (federates env req) = (handle_federation_deliver sql syntax aead ed env s req).0
  step s (purges now env) =
      let r = s.router in
      record s { router = record r { store = purge_expired sql syntax aead now env r.store } }

  unfoldable pub run : Server sql → List Event → Server sql
  run s [] = s
  run s (e ∷ es) = run (step s e) es
