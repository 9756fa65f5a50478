-- ===== src/Tests/Restarts.antt =====
-- A start, a history and a second start, at concrete inputs.
use spectre_relay.Prelude.{
  ◌≢◌, ◌≤◌, ◌≡◌, ◌↔◌, ◌∙◌, ap, refl, ◌⊎◌, true, none, some, List, [], ◌∷◌, length, length-append,
  ltb, Text, codes, text_eq, if◌then◌else◌, Result, ok, err, arith,
}
use spectre_relay.Prelude.Int.{pos}
use spectre_relay.Prelude.Assoc.{Map, lookup, insert}
use spectre_relay.Config.{Config, Env, load, read_config, check_config}
use spectre_relay.Json.{Syntax}
use spectre_relay.Envelope.{json_of_sealed}
use spectre_relay.Files.{
  Disk, decrypt, KeyEnv, save, encrypt, replace_file, read_sealed, load_or_create_key,
}
use spectre_relay.Files.Survival.{IsSafe, Survives, key_file}
use spectre_relay.Prekeys.Bundle.{OneTimePrekey, PrekeyBundle, no_bundle, json_of_bundles}
use spectre_relay.Prekeys.Restart.{IsMap}
use spectre_relay.SealedCa.{CaEnv, new_sealed_ca, read_prev_key, with_proof}
use spectre_relay.Store.{Store, new_store, load_from_disk, init_schema, persist_locked, enqueue}
use spectre_relay.Prekeys.{PrekeyStore, new_prekey_store, get_bundle_with_otpk}
use spectre_relay.Prekeys.Survival
use spectre_relay.Store.Restart
use spectre_relay.Prekeys
use spectre_relay.Server.{Server, FederationRequest, handle_federation_deliver, new_server}
use spectre_relay.Relay.{
  new_relay, StartEnv, StartError, Disks, Event, federates, purges, start, step,
}
use spectre_relay.Relay.Invariant.{Inv}
use spectre_relay.Crypto.{new_gcm}
use spectre_relay.Relay.Process.{main, signalled, listener_ended, server_closed, main-listens}
use spectre_relay.Relay.Fresh.{fresh_start-Inv}
use spectre_relay.Relay.Saved.{Lasting, IsSafeRun}
use spectre_relay.Prekeys.Invariant.{IsSound, operations-IsSound}
use spectre_relay.Store.Capacity.{operations-IsCapped}
use spectre_relay.Store.Database.{rows_for}
use spectre_relay.Relay.Settings.{step-SameServer}
use spectre_relay.Tests.{
  toy_aead, toy_syntax, toy_ed25519, calm, key_32, copies, length-copies, path, message,
  enqueue_env, ok-inj, deliver_env, envelope,
}
use spectre_relay.Tests.Saving.{saving_sql}

-- Only the development mode is set.
abbrev pub dev : Env
dev k = if text_eq k (codes "SPECTRE_DEV") then codes "true" else []

dev_loads : load dev ≡ ok (read_config dev)
unfolding load check_config read_config text_eq
dev_loads = refl

-- The syntax of a relay without bundles.
abbrev pub no_bundles : Syntax
no_bundles = toy_syntax (json_of_bundles [])

abbrev pub keys : KeyEnv
keys = record { read = none; random = ok key_32; make_dir = none; write = none; partial = [] }

abbrev pub ca_env : CaEnv
ca_env = record {
  read = none;
  generated = ok (copies 64);
  make_dir = none;
  write = none;
  partial = [];
  read_prev = none;
}

abbrev pub start_env : StartEnv
start_env = record {
  vars = dev;
  queue_dir = none;
  queue_keys = keys;
  queue_read = none;
  queue_save = calm;
  bundles_dir = none;
  bundles_keys = keys;
  bundles_read = none;
  ca = ca_env;
}

abbrev pub no_files : Disks
no_files = record { queue = []; bundles = []; ca = [] }

-- The server, where there is one.
abbrev server_of : Result StartError (Server saving_sql) → Server saving_sql
server_of (err e) =
    new_server saving_sql (read_config dev)
      (record { clients = []; db = []; queue_path = []; key = []; ttl = pos 0; disk = [] })
      (record { bundles = []; store_path = []; key = []; disk = [] })
      (record { priv = []; pub_key = []; prev_pub = none; rotation_sig = [] })
server_of (ok s) = s

abbrev pub first : Disks × Result StartError (Server saving_sql)
first = start saving_sql no_bundles toy_aead toy_ed25519 start_env no_files

abbrev pub relay : Server saving_sql
relay = server_of first.1

pub relay_parts :
    (first.1 ≡ ok relay) × (relay.cfg ≡ read_config dev) × (relay.prekeys.bundles ≡ [])
unfolding start new_relay load check_config read_config text_eq new_store load_from_disk init_schema
    persist_locked save encrypt replace_file read_sealed load_or_create_key new_prekey_store
    Prekeys.load_from_disk new_sealed_ca read_prev_key with_proof lookup insert new_gcm new_server
relay_parts = (refl, refl, refl)

-- A message from another relay for a user who is not connected, and a purge.
abbrev pub federated : FederationRequest
federated = record {
  method = codes "POST";
  relay_header = codes "there";
  body = some (json_of_sealed envelope);
}

abbrev pub history : List Event
history = federates deliver_env federated ∷ purges 5 calm ∷ []

pub relay-Inv : Inv saving_sql no_bundles toy_aead toy_ed25519 relay
relay-Inv = fresh_start-Inv saving_sql no_bundles toy_aead toy_ed25519 start_env relay relay_parts.0

-- `tmp` is the name of none of the files.
calm-IsSafe : (path : Text) → ltb 3 (length path) ≡ true → IsSafe toy_aead path calm
calm-IsSafe path long = record {
  apart = λ tmp made same. absurd (ground (arith, ok-inj made, same, long));
  apart_key = λ tmp made same.
      absurd (ground (arith, ok-inj made, ap length same, length-append path (codes ".key"), long));
  sized = λ n made. rw (ok-inj made) refl;
}

pub queue_file-IsSafe : IsSafe toy_aead (read_config dev).offline_queue_path calm
unfolding read_config text_eq
queue_file-IsSafe = calm-IsSafe (codes "/data/offline_queue.enc") refl

pub dev_config : (cfg : Config) → load dev ≡ ok cfg → cfg ≡ read_config dev
dev_config cfg h = let e = dev_loads in cc

-- The steps of the history leave the bundles alone.
step-prekeys :
    (s : Server saving_sql)
    → ((step saving_sql no_bundles toy_aead toy_ed25519 s (federates deliver_env federated)).prekeys
        ≡ s.prekeys)
      × ((step saving_sql no_bundles toy_aead toy_ed25519 s (purges 5 calm)).prekeys ≡ s.prekeys)
unfolding step handle_federation_deliver
step-prekeys s = (ground arith, refl)

pub safe_history : IsSafeRun saving_sql no_bundles toy_aead toy_ed25519 relay history
safe_history =
    let s1 =
      step saving_sql no_bundles toy_aead toy_ed25519 relay (federates deliver_env federated) in
    let e1 = (step-prekeys relay).0 in
    let e2 = (step-prekeys s1).1 in
    let (same, _) =
      step-SameServer saving_sql no_bundles toy_aead toy_ed25519 relay
        (federates deliver_env federated) in
    let safe : IsSafe toy_aead relay.cfg.offline_queue_path calm =
      rw relay_parts.1 queue_file-IsSafe in
    (
      safe,
      tt,
      ap (λ (ps : PrekeyStore). json_of_bundles ps.bundles) e1 ∙ ap json_of_bundles relay_parts.2,
      (
        rw same safe,
        tt,
        ap (λ (ps : PrekeyStore). json_of_bundles ps.bundles) (e2 ∙ e1)
            ∙ ap json_of_bundles relay_parts.2,
        tt,
      ),
    )

-- Queues within their cap, and bundles that are well formed.
abbrev store_of : Map PrekeyBundle → PrekeyStore
store_of m = record { bundles = m; store_path = []; key = []; disk = [] }

abbrev pub lasting : Lasting saving_sql no_bundles toy_aead
lasting = record {
  Rows = λ rs. (user : Text) → length (rows_for user rs) ≤ 500;
  Bundles = λ m. IsSound (store_of m);
  enqueues =
      λ env s user msg h. (operations-IsCapped saving_sql no_bundles toy_aead s h).0 env user msg;
  drains =
      λ env now s user h. (operations-IsCapped saving_sql no_bundles toy_aead s h).1 env now user;
  purges = λ now env s h. (operations-IsCapped saving_sql no_bundles toy_aead s h).2 now env;
  registers = λ env ps user b h. record {
    at = ((operations-IsSound no_bundles toy_aead env ps user (record { at = h.at })).0 b).at;
  };
  serves = λ env ps user consume h. record {
    at = ((operations-IsSound no_bundles toy_aead env ps user (record { at = h.at })).1 consume).at;
  };
}

-- A store whose files hold no row.
abbrev saved : Store saving_sql
saved = record {
  clients = [];
  db = [];
  queue_path = path;
  key = key_32;
  ttl = pos 1000000000;
  disk = (path, 5 ∷ 0 ∷ []) ∷ (key_file path, key_32) ∷ [];
}

saved-Survives : Survives toy_aead key_32 path (0 ∷ []) saved.disk
unfolding read_sealed decrypt new_gcm lookup text_eq
saved-Survives = record { stands = refl; size = length-copies 32; reads = refl }

saved-Loads : Restart.Loads saving_sql no_bundles toy_aead key_32 path saved.disk []
saved-Loads = record {
  plain = 0 ∷ [];
  survives = saved-Survives;
  db = [];
  parsed = refl;
  holds = refl;
}

safe : IsSafe toy_aead path calm
safe = calm-IsSafe path refl

operations-Kept_example :
    Restart.Kept saving_sql no_bundles toy_aead [] saved
      (enqueue saving_sql no_bundles toy_aead enqueue_env saved (codes "bob") message)
operations-Kept_example =
    (Restart.operations-Kept saving_sql no_bundles toy_aead (omega arith) saved [] saved-Loads).0
      enqueue_env (codes "bob") message safe

abbrev Either : Disk → Type 0
Either d = Survives toy_aead key_32 path (0 ∷ []) d ⊎ Survives toy_aead key_32 path (8 ∷ []) d

-- A bundle that was not yet written, with one prekey and with none.
abbrev bundle : List OneTimePrekey → PrekeyBundle
bundle ks = record no_bundle { one_time_prekeys = ks }

abbrev bob : Text
bob = codes "bob"

abbrev prekeys : PrekeyStore
prekeys = record {
  bundles = (bob, bundle (record { id = 1; key = [] } ∷ [])) ∷ [];
  store_path = path;
  key = key_32;
  disk = (key_file path, key_32) ∷ [];
}

abbrev one_bundle : Syntax
one_bundle = toy_syntax (json_of_bundles ((bob, bundle []) ∷ []))

prekeys-Loads : Survival.OnDisk one_bundle toy_aead prekeys []
unfolding read_sealed lookup text_eq
prekeys-Loads = record { stands = refl; size = length-copies 32; holds = refl }

abbrev served : PrekeyStore
served = (get_bundle_with_otpk one_bundle toy_aead calm prekeys bob true).0

served_bundles : served.bundles ≡ (bob, bundle []) ∷ []
unfolding get_bundle_with_otpk Prekeys.persist_locked lookup insert text_eq
served_bundles = refl

bundles-IsMap : IsMap served.bundles
unfolding lookup
bundles-IsMap = rw served_bundles (refl, record { signed = omega arith; one_time = tt }, tt)

prekeys-Kept_example : Survival.Kept one_bundle toy_aead [] prekeys served
prekeys-Kept_example =
    (Survival.prekeys-Kept one_bundle toy_aead (omega arith) calm prekeys bob [] safe
        prekeys-Loads).1
      true (bundles-IsMap, ap json_of_bundles served_bundles)

main-listens_example :
    let life =
      main saving_sql no_bundles toy_aead toy_ed25519 start_env no_files history (signalled none) in
    (life.listened ≢ none)
    × ((life.code ≡ 0)
        ↔ ((signalled none ≡ signalled none) ⊎ (signalled none ≡ listener_ended server_closed)))
main-listens_example =
    (main-listens saving_sql no_bundles toy_aead toy_ed25519 start_env no_files history
        (signalled none)).2
      relay relay_parts.0
