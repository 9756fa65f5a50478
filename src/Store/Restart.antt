-- ===== src/Store/Restart.antt =====
-- What a restart finds of the queue, after any operation and any failure.
use spectre_relay.Prelude.{
  ℕ, ◌<◌, ◌≡◌, refl, ◌⊎◌, inl, inr, List, leb, Text, Bytes, Result, ok, err, Error, Result-cases,
  Option-cases, Bool-cases,
}
use spectre_relay.Prelude.Int.{ℤ}
use spectre_relay.Crypto.{Aead}
use spectre_relay.Json.{Syntax}
use spectre_relay.Files.{Disk, WriteEnv, encrypt, save}
use spectre_relay.Files.Survival.{IsSafe, Survives, last_state-Survives}
use spectre_relay.Store.Database.{Sqlite, Row}
use spectre_relay.Store.Messages.{QueuedMessage}
use spectre_relay.Store.Rows.{table, persist-keeps}
use spectre_relay.Store.{
  Store, EnqueueEnv, expiry_of, persist_locked, store_message, insert_step, seal_step, count_step,
  finish_drain, enqueue, read_rows, drain_queue, purge_expired, max_queue_per_recipient,
}

module _ (sql : Sqlite) (syntax : Syntax) (aead : Aead) where
  -- The files read back as a database with the rows.
  pub record Loads (key : Bytes) (path : Text) (disk : Disk) (rs : List Row) : Type 0 where
    pub plain : Bytes
    pub survives : Survives aead key path plain disk
    pub db : sql.Db
    pub parsed : sql.deserialize plain ≡ ok db
    pub holds : sql.rows db ≡ rs

  abbrev pub OnDisk : Store sql → List Row → Type 0
  OnDisk s rs = Loads s.key s.queue_path s.disk rs

  -- The files read back as they did, or as the table that there is now.
  abbrev pub Kept : List Row → Store sql → Store sql → Type 0
  Kept rs s t = (OnDisk t rs ⊎ OnDisk t (table sql syntax aead t)) × (t.queue_path ≡ s.queue_path)

  module _ (positive : 0 < aead.nonce_size) where
    persist-Kept :
        (env : WriteEnv) (s : Store sql) (rs : List Row)
        → IsSafe aead s.queue_path env
        → OnDisk s rs
        → OnDisk (persist_locked sql syntax aead env s).0 rs
          ⊎ OnDisk
              (persist_locked sql syntax aead env s).0
              (table sql syntax aead (persist_locked sql syntax aead env s).0)
    unfolding persist_locked
    persist-Kept env s rs safe h = elim (Result-cases (sql.serialize s.db)) [
      | inr (_, bad) ↦ rw (bad, persist_locked) (inl h)
      | inl (plain, good) ↦
          let w = save aead env s.key s.queue_path plain s.disk in
          let (new, old) =
            last_state-Survives aead s.key s.queue_path h.plain plain s.disk env safe positive
              h.survives in
          let (db, parsed, holds) = sql.deserialize-serialize s.db plain good in
          rw (good, persist_locked)
            (elim (Option-cases w.error) [
              | inl e ↦ inr (record {
                plain = plain;
                survives = new e;
                db = db;
                parsed = parsed;
                holds = holds;
              })
              | inr (x, e) ↦ inl (record {
                plain = h.plain;
                survives = old x e;
                db = h.db;
                parsed = h.parsed;
                holds = h.holds;
              })
            ])
    ]

    persisted :
        (env : WriteEnv) (s : Store sql) (db : sql.Db) (rs : List Row)
        → IsSafe aead s.queue_path env
        → OnDisk s rs
        → Kept rs s (persist_locked sql syntax aead env (record s { db = db })).0
    persisted env s db rs safe h =
        let t : Store sql = record s { db = db } in
        let (_, _, _, _, path) = persist-keeps sql syntax aead env t in
        (persist-Kept env t rs safe h, path)

    insert_step-Kept :
        (env : EnqueueEnv) (s : Store sql) (user : Text) (expiry : ℤ) (r : Result Error Bytes)
        (rs : List Row)
        → IsSafe aead s.queue_path env.save_env
        → OnDisk s rs
        → Kept rs s (insert_step sql syntax aead env s user expiry r)
    insert_step-Kept env s user expiry (err _) rs safe h = (inl h, refl)
    insert_step-Kept env s user expiry (ok sealed) rs safe h =
        let row : Row = record { recipient_id = user; payload = sealed; expires_at = expiry } in
        elim (Result-cases (sql.insert_row row s.db)) [
          | inr (_, bad) ↦ rw (bad, insert_step) (inl h, refl)
          | inl (db, good) ↦ rw (good, insert_step) (persisted env.save_env s db rs safe h)
        ]

    seal_step-Kept :
        (env : EnqueueEnv) (s : Store sql) (user : Text) (expiry : ℤ) (r : Result Error Bytes)
        (rs : List Row)
        → IsSafe aead s.queue_path env.save_env
        → OnDisk s rs
        → Kept rs s (seal_step sql syntax aead env s user expiry r)
    seal_step-Kept env s user expiry (err _) rs safe h = (inl h, refl)
    seal_step-Kept env s user expiry (ok plain) rs safe h =
        insert_step-Kept env s user expiry (encrypt aead s.key env.nonce plain) rs safe h

    count_step-Kept :
        (env : EnqueueEnv) (s : Store sql) (user : Text) (msg : QueuedMessage) (c : Result Error ℕ)
        (rs : List Row)
        → IsSafe aead s.queue_path env.save_env
        → OnDisk s rs
        → Kept rs s (count_step sql syntax aead env s user msg c)
    unfolding store_message
    count_step-Kept env s user msg (err _) rs safe h = (inl h, refl)
    count_step-Kept env s user msg (ok n) rs safe h =
        elim (Bool-cases (leb max_queue_per_recipient n)) [
          | inl full ↦ rw full (inl h, refl)
          | inr room ↦
              rw room (seal_step-Kept env s user (expiry_of sql syntax aead s env.now) _ rs safe h)
        ]

    pub enqueue-Kept :
        (env : EnqueueEnv) (s : Store sql) (user : Text) (msg : QueuedMessage) (rs : List Row)
        → IsSafe aead s.queue_path env.save_env
        → OnDisk s rs
        → Kept rs s (enqueue sql syntax aead env s user msg)
    unfolding enqueue
    enqueue-Kept env s user msg rs safe h =
        elim (Result-cases (sql.delete_expired_for user env.sql_now s.db)) [
          | inr (_, bad) ↦ rw (bad, enqueue) (inl h, refl)
          | inl (db, good) ↦
              rw (good, enqueue)
                (count_step-Kept env (record s { db = db }) user msg (sql.count_for user db) rs safe
                  h)
        ]

    finish_drain-Kept :
        (env : WriteEnv) (s : Store sql) (tx : sql.Db) (user : Text) (messages : List QueuedMessage)
        (rs : List Row)
        → IsSafe aead s.queue_path env
        → OnDisk s rs
        → Kept rs s (finish_drain sql syntax aead env s tx user messages).0
    finish_drain-Kept env s tx user messages rs safe h =
        elim (Result-cases (sql.delete_for user tx)) [
          | inr (_, bad) ↦ rw (bad, finish_drain) (inl h, refl)
          | inl (rest, deleted) ↦ elim (Result-cases (sql.commit rest)) [
            | inr (_, bad) ↦ rw (deleted, bad, finish_drain) (inl h, refl)
            | inl (db, committed) ↦
                rw (deleted, committed, finish_drain) (persisted env s db rs safe h)
          ]
        ]

    pub drain_queue-Kept :
        (env : WriteEnv) (now : ℕ) (s : Store sql) (user : Text) (rs : List Row)
        → IsSafe aead s.queue_path env
        → OnDisk s rs
        → Kept rs s (drain_queue sql syntax aead env now s user).0
    unfolding drain_queue
    drain_queue-Kept env now s user rs safe h = elim (Result-cases (sql.begin_tx s.db)) [
      | inr (_, bad) ↦ rw (bad, drain_queue) (inl h, refl)
      | inl (tx, begun) ↦ elim (Result-cases (sql.select_for user tx)) [
        | inr (_, bad) ↦ rw (begun, bad, drain_queue) (inl h, refl)
        | inl (l, selected) ↦
            rw (begun, selected, drain_queue)
              (finish_drain-Kept env s tx user (read_rows sql syntax aead s.key now l) rs safe h)
      ]
    ]

    pub purge_expired-Kept :
        (now : ℕ) (env : WriteEnv) (s : Store sql) (rs : List Row)
        → IsSafe aead s.queue_path env
        → OnDisk s rs
        → Kept rs s (purge_expired sql syntax aead now env s)
    unfolding purge_expired
    purge_expired-Kept now env s rs safe h = elim (Result-cases (sql.delete_expired now s.db)) [
      | inr (_, bad) ↦ rw (bad, purge_expired) (inl h, refl)
      | inl (db, good) ↦ rw (good, purge_expired) (persisted env s db rs safe h)
    ]

    -- Where the files of a store read back as some rows, each of its operations, whatever fails in it,
    -- leaves files that read back as the same rows or as those that the store then has in memory,
    -- under the same names. Nonces have the size that the cipher wants, which is not 0, and the
    -- temporary name of the write is neither that of the file nor that of its key.
    pub operations-Kept :
        (s : Store sql) (rs : List Row)
        → OnDisk s rs
        → ((env : EnqueueEnv) (user : Text) (msg : QueuedMessage)
            → IsSafe aead s.queue_path env.save_env
            → Kept rs s (enqueue sql syntax aead env s user msg))
          × ((env : WriteEnv) (now : ℕ) (user : Text)
              → IsSafe aead s.queue_path env
              → Kept rs s (drain_queue sql syntax aead env now s user).0)
          × ((now : ℕ) (env : WriteEnv)
              → IsSafe aead s.queue_path env
              → Kept rs s (purge_expired sql syntax aead now env s))
    operations-Kept s rs h = (
      λ env user msg safe. enqueue-Kept env s user msg rs safe h,
      λ env now user safe. drain_queue-Kept env now s user rs safe h,
      λ now env safe. purge_expired-Kept now env s rs safe h,
    )
