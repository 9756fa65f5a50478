-- ===== src/Logs.antt =====
-- What the relay logs: `classifyErr` and the lines of server/store.go and server/prekey_store.go, and
-- the level that main.go sets. A line of log/slog is its level, its message and its attributes.
pub mod Handshake
pub mod Coarse
use spectre_relay.Prelude.{
  ℕ, Bool, true, false, Option, none, some, List, [], ◌∷◌, ◌++◌, if◌then◌else◌, keep_if, leb,
  is_empty, Text, Bytes, codes, text_eq, Result, ok, err, Error, not_exist, permission, other,
}
use spectre_relay.Prelude.Int.{ℤ, pos, ltb_ℤ}
use spectre_relay.Prelude.Assoc.{lookup}
use spectre_relay.Config.{Config, Env, safe_summary}
use spectre_relay.Crypto.{Aead}
use spectre_relay.Json.{Syntax}
use spectre_relay.Files.{WriteEnv, encrypt, decrypt}
use spectre_relay.Prekeys.Bundle.{OneTimePrekey, PrekeyBundle}
use spectre_relay.Prekeys.Validation.{validate_prekey_bundle}
use spectre_relay.Prekeys.{PrekeyStore, put_bundle}
use spectre_relay.Prekeys
use spectre_relay.Store.Database.{Sqlite}
use spectre_relay.Store.Messages.{QueuedMessage, decode_queued, json_of_queued}
use spectre_relay.Store.{Store, EnqueueEnv, persist_locked, expiry_of, max_queue_per_recipient}

pub data Level : Type 0 where
  debug info warn error : Level

pub data Value : Type 0 where
  text : Text → Value
  number : ℕ → Value

pub record Line : Type 0 where
  pub level : Level
  pub message : Text
  pub attrs : List (Text × Value)

unfoldable pub classify_err : Option Error → Text
classify_err none = codes "none"
classify_err (some not_exist) = codes "not_exist"
classify_err (some permission) = codes "permission"
classify_err (some other) = codes "io"

-- The tests are those of `errors.Is` for the two errors of a context, and of `errors.As` for one of
-- the network.
unfoldable pub classify_ws_err : (Error → Bool) → (Error → Bool) → Option Error → Text
classify_ws_err is_ctx is_net none = codes "none"
classify_ws_err is_ctx is_net (some e) =
    if is_ctx e then codes "ctx" else if is_net e then codes "net" else codes "ws"

-- The line of `serveConn` at the end of its loop.
unfoldable pub read_end_line : (Error → Bool) → (Error → Bool) → Error → Line
read_end_line is_ctx is_net e = record {
  level = debug;
  message = codes "read end";
  attrs = (codes "err_type", text (classify_ws_err is_ctx is_net (some e))) ∷ [];
}

-- The line of `Run` at its start.
unfoldable pub starting_line : (ℤ → Text) → Config → Line
starting_line decimal cfg = record {
  level = info;
  message = codes "relay starting";
  attrs = (codes "config", text (safe_summary decimal cfg)) ∷ [];
}

-- `os.Getenv("SPECTRE_DEBUG") == "true"`, in main.go and in `NewAuthenticator`.
unfoldable pub is_debug : Env → Bool
is_debug env = text_eq (env (codes "SPECTRE_DEBUG")) (codes "true")

-- The handler of main.go drops what is below its level.
abbrev pub shown : Bool → Level → Bool
shown lowered debug = lowered
shown lowered _ = true

abbrev pub printed : Env → List Line → List Line
printed env = keep_if (λ l. shown (is_debug env) l.level)

-- `log.Error(message, "err_type", classifyErr(err))`
abbrev pub failed : Text → Error → List Line
failed message e =
    record {
      level = error;
      message = message;
      attrs = (codes "err_type", text (classify_err (some e))) ∷ [];
    }
    ∷ []

abbrev pub failed_if : Text → Option Error → List Line
failed_if message none = []
failed_if message (some e) = failed message e

module _ (sql : Sqlite) (syntax : Syntax) (aead : Aead) where
  abbrev pub insert_lines : EnqueueEnv → Store sql → Text → ℤ → Result Error Bytes → List Line
  insert_lines env s user expiry (err e) = failed (codes "queue encrypt failed") e
  insert_lines env s user expiry (ok sealed) =
      elim (sql.insert_row (record { recipient_id = user; payload = sealed; expires_at = expiry })
        s.db) [
          | err e ↦ failed (codes "queue insert failed") e
          | ok db ↦
              failed_if (codes "queue persist failed")
                (persist_locked sql syntax aead env.save_env (record s { db = db })).1
        ]

  abbrev pub seal_lines : EnqueueEnv → Store sql → Text → ℤ → Result Error Bytes → List Line
  seal_lines env s user expiry (err e) = failed (codes "queue marshal failed") e
  seal_lines env s user expiry (ok plain) =
      insert_lines env s user expiry (encrypt aead s.key env.nonce plain)

  abbrev pub count_lines :
      EnqueueEnv → Store sql → Text → QueuedMessage → Result Error ℕ → List Line
  count_lines env s user m (err e) = failed (codes "queue count failed") e
  count_lines env s user m (ok count) =
      let expiry = expiry_of sql syntax aead s env.now in
      if leb max_queue_per_recipient count
      then []
      else seal_lines env s user expiry
          (syntax.marshal (json_of_queued (record m { expires_at = expiry })))

  -- The lines of `Enqueue`.
  unfoldable pub enqueue_lines : EnqueueEnv → Store sql → Text → QueuedMessage → List Line
  enqueue_lines env s user m = elim (sql.delete_expired_for user env.sql_now s.db) [
    | err e ↦ failed (codes "queue delete expired failed") e
    | ok db ↦ count_lines env (record s { db = db }) user m (sql.count_for user db)
  ]

  -- A JSON error is none of the errors of the system.
  abbrev pub opened_lines : Result Error Bytes → List Line
  opened_lines (err e) = failed (codes "queue decrypt failed") e
  opened_lines (ok plain) =
      if (decode_queued (syntax.unmarshal plain)).valid
      then []
      else failed (codes "queue unmarshal failed") other

  abbrev pub row_lines : Bytes → ℕ → Result Error (Bytes × ℤ) → List Line
  row_lines key now (err e) = failed (codes "queue scan failed") e
  row_lines key now (ok (sealed, expiry)) =
      if ltb_ℤ expiry (pos now) then [] else opened_lines (decrypt aead key sealed)

  abbrev pub rows_lines : Bytes → ℕ → List (Result Error (Bytes × ℤ)) → List Line
  rows_lines key now [] = []
  rows_lines key now (r ∷ rs) = row_lines key now r ++ rows_lines key now rs

  abbrev pub finish_lines : WriteEnv → Store sql → sql.Db → Text → List Line
  finish_lines env s tx user = elim (sql.delete_for user tx) [
    | err e ↦ failed (codes "queue delete failed") e
    | ok deleted ↦ elim (sql.commit deleted) [
      | err e ↦ failed (codes "queue commit failed") e
      | ok db ↦
          failed_if (codes "queue persist failed")
            (persist_locked sql syntax aead env (record s { db = db })).1
    ]
  ]

  -- The lines of `DrainQueue`.
  unfoldable pub drain_lines : WriteEnv → ℕ → Store sql → Text → List Line
  drain_lines env now s user = elim (sql.begin_tx s.db) [
    | err e ↦ failed (codes "queue tx begin failed") e
    | ok tx ↦ elim (sql.select_for user tx) [
      | err e ↦ failed (codes "queue query failed") e
      | ok selected ↦ rows_lines s.key now selected ++ finish_lines env s tx user
    ]
  ]

  -- The lines of `purgeExpired`.
  unfoldable pub purge_lines : ℕ → WriteEnv → Store sql → List Line
  purge_lines now env s = elim (sql.delete_expired now s.db) [
    | err e ↦ failed (codes "queue purge failed") e
    | ok db ↦
        failed_if (codes "queue persist failed")
          (persist_locked sql syntax aead env (record s { db = db })).1
  ]

module _ (syntax : Syntax) (aead : Aead) where
  abbrev pub prekeys_saved : WriteEnv → PrekeyStore → List Line
  prekeys_saved env ps =
      failed_if (codes "prekey persist failed") (Prekeys.persist_locked syntax aead env ps).1

  -- The lines of `registerBundle`.
  unfoldable pub register_lines : WriteEnv → PrekeyStore → Text → PrekeyBundle → List Line
  register_lines env ps user b = if is_empty user then [] else elim (validate_prekey_bundle b) [
    | some e ↦ []
    | none ↦ prekeys_saved env (put_bundle syntax aead ps user b)
  ]

  abbrev pub pop_lines :
      WriteEnv → PrekeyStore → Text → PrekeyBundle → List OneTimePrekey → List Line
  pop_lines env ps user b [] = []
  pop_lines env ps user b (k ∷ rest) =
      prekeys_saved env (put_bundle syntax aead ps user (record b { one_time_prekeys = rest }))

  -- The lines of `getBundleWithOTPK`.
  unfoldable pub get_lines : WriteEnv → PrekeyStore → Text → Bool → List Line
  get_lines env ps user consume = elim (lookup user ps.bundles) [
    | none ↦ []
    | some b ↦ if consume then pop_lines env ps user b b.one_time_prekeys else []
  ]
