-- ===== src/Tests/Lives.antt =====
-- A relay that is started, interrupted and started again, at concrete inputs.
use spectre_relay.Prelude.{◌≡◌, refl, ap, List, [], ◌∷◌, Result, ok, arith}
use spectre_relay.Store.Rows.{table}
use spectre_relay.Server.{Server}
use spectre_relay.Relay.{Disks, StartError, start, run}
use spectre_relay.Relay.Invariant.{Inv}
use spectre_relay.Relay.Durability.{IsSafeStart, IsClean, left_by, run-restart}
use spectre_relay.Relay.Lives.{Lineage, first, restarted, lineage-restart}
use spectre_relay.Sections.System.{Turn, starts, goes, federation, purge, turns}
use spectre_relay.Sections.Interleaved.{turns-Inv}
use spectre_relay.Tests.Saving.{saving_sql}
use spectre_relay.Tests.Restarts
use spectre_relay.Tests.Restarts.{
  start_env, no_files, relay, relay_parts, relay-Inv, no_bundles, history, safe_history, lasting,
  federated, queue_file-IsSafe, dev_config,
}
use spectre_relay.Tests.{toy_aead, toy_ed25519, calm, deliver_env, ok-inj}

safe_start : IsSafeStart saving_sql no_bundles toy_aead toy_ed25519 start_env
safe_start = record {
  queue_keys = λ key e. rw (ok-inj e) refl;
  bundles_keys = λ key e. rw (ok-inj e) refl;
  full = λ key e. rw (ok-inj e) refl;
  safe = λ cfg e. rw (dev_config cfg e) queue_file-IsSafe;
}

clean : IsClean saving_sql no_bundles toy_aead toy_ed25519 start_env start_env
clean = record {
  vars = refl;
  queue_dir = refl;
  queue_keys = refl;
  queue_read = refl;
  bundles_dir = refl;
  bundles_keys = refl;
  bundles_read = refl;
  ca = refl;
  prev = refl;
}

-- The files after the first process, and the relay of the second.
abbrev between : Disks
between =
    left_by saving_sql no_bundles toy_aead toy_ed25519 Restarts.first.0
      (run saving_sql no_bundles toy_aead toy_ed25519 relay history)

second :
    (u : Server saving_sql) × ((start saving_sql no_bundles toy_aead toy_ed25519 start_env
        between).1
      ≡ ok u)
second =
    let (u, again, _, _, _, _, _, _) =
      run-restart saving_sql no_bundles toy_aead toy_ed25519 lasting (omega arith) start_env
        start_env no_files relay history safe_start relay_parts.0 relay-Inv relay-Inv.capped
        (record { at = relay-Inv.sound.at }) safe_history clean in
    (u, ap (λ (t : Disks × Result StartError (Server saving_sql)). t.1) again)

twice :
    Lineage saving_sql no_bundles toy_aead toy_ed25519 start_env no_files relay start_env between
      second.0
twice = restarted first history safe_history start_env safe_start clean second.0 second.1

lineage-restart_example :
    let d =
      left_by saving_sql no_bundles toy_aead toy_ed25519
        (start saving_sql no_bundles toy_aead toy_ed25519 start_env between).0
        (run saving_sql no_bundles toy_aead toy_ed25519 second.0 []) in
    (u : Server saving_sql) × (start saving_sql no_bundles toy_aead toy_ed25519 start_env d
      ≡ (d, ok u))
    × (u.cfg ≡ relay.cfg)
    × (u.sealed_ca ≡ relay.sealed_ca)
    × (u.router.store.clients ≡ [])
    × lasting.Rows (table saving_sql no_bundles toy_aead u.router.store)
    × lasting.Bundles u.prekeys.bundles
    × Inv saving_sql no_bundles toy_aead toy_ed25519 u
lineage-restart_example =
    lineage-restart saving_sql no_bundles toy_aead toy_ed25519 lasting (omega arith) start_env
      no_files relay start_env start_env between second.0 [] safe_start relay_parts.0 relay-Inv
      relay-Inv.capped (record { at = relay-Inv.sound.at }) twice tt clean

-- A federated request and a purge that starts while it is at work.
abbrev mixed : List Turn
mixed =
    starts (federation deliver_env federated)
    ∷ goes 0
    ∷ starts (purge 5 calm)
    ∷ goes 0
    ∷ goes 1
    ∷ goes 1
    ∷ []

turns-Inv_example :
    Inv saving_sql no_bundles toy_aead toy_ed25519
      (turns saving_sql no_bundles toy_aead toy_ed25519
        (record { server = relay; threads = []; sent = [] })
        mixed).server
turns-Inv_example = turns-Inv saving_sql no_bundles toy_aead toy_ed25519 relay mixed relay-Inv
