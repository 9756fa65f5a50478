-- ===== src/Store.antt =====
-- server/store.go: the registry of connections and the offline queue. The mutex makes each method
-- one step. A connection is the number that stands for its pointer, which is not nil. The database
-- and the crypto package are parameters, the outcome of each call that may fail and every clock
-- reading are arguments, and log lines are not modelled. `disk` is the part of the disk that the
-- queue file stands on.
pub mod Database
pub mod Messages
pub mod Registry
pub mod Stopping
pub mod Rows
pub mod Capacity
pub mod Fifo
pub mod Restart
pub mod Reopening
use spectre_relay.Prelude.{
  ℕ, ◌+◌, ◌/◌, Bool, true, false, not, Option, none, some, List, [], ◌∷◌, ◌++◌, if◌then◌else◌, ◌==◌,
  leb, length, Text, Bytes, codes, Result, ok, err, Error,
}
use spectre_relay.Prelude.Int.{ℤ, pos, negsuc, ◌+ℤ◌, ltb_ℤ}
use spectre_relay.Prelude.Assoc.{Map, lookup, insert, remove}
use spectre_relay.Config.{duration_of_seconds}
use spectre_relay.Crypto.{Aead}
use spectre_relay.Json.{Syntax, Stored}
use spectre_relay.Files.{
  Disk, WriteEnv, KeyEnv, last_state, encrypt, decrypt, save, read_sealed, load_or_create_key,
}
use Database.{Sqlite, Row}
use Messages.{QueuedMessage, json_of_queued, decode_queued}

abbrev pub Conn : Type 0
Conn = ℕ

abbrev pub max_queue_per_recipient : ℕ
max_queue_per_recipient = 500

-- `t.Unix()` of a time in nanoseconds: whole seconds, rounded down.
unfoldable pub unix : ℤ → ℤ
unix (pos n) = pos (n / 1000000000)
unix (negsuc n) = negsuc (n / 1000000000)

abbrev pub unix_now : ℕ → ℕ
unix_now now = now / 1000000000

-- What one call of `Enqueue` meets: the clocks of the database, in seconds, and of the program, in
-- nanoseconds; the nonce of the payload; the outcomes of the write.
pub record EnqueueEnv : Type 0 where
  pub sql_now : ℕ
  pub now : ℕ
  pub nonce : Result Error Bytes
  pub save_env : WriteEnv

-- One turn of the loop of `purgeLoop`: a tick, or the closed channel.
pub data PurgeEvent : Type 0 where
  tick : ℕ → WriteEnv → PurgeEvent
  stop : PurgeEvent

module _ (sql : Sqlite) where
  pub record Store : Type 0 where
    pub clients : Map Conn
    pub db : sql.Db
    pub queue_path : Text
    pub key : Bytes
    pub ttl : ℤ
    pub disk : Disk

  -- The previous connection, if any, is returned for the caller to close.
  unfoldable pub register : Store → Text → Conn → Store × Option Conn
  register s user c = (record s { clients = insert user c s.clients }, lookup user s.clients)

  abbrev is_conn : Conn → Option Conn → Bool
  is_conn c none = false
  is_conn c (some d) = d == c

  unfoldable pub unregister : Store → Text → Conn → Store
  unregister s user c =
      if is_conn c (lookup user s.clients) then record s { clients = remove user s.clients } else s

  unfoldable pub lookup_client : Store → Text → Option Conn
  lookup_client s user = lookup user s.clients

  unfoldable pub connected_clients : Store → ℕ
  connected_clients s = length s.clients

module _ (sql : Sqlite) (syntax : Syntax) (aead : Aead) where
  abbrev write_database : WriteEnv → Store sql → Result Error Bytes → Store sql × Option Error
  write_database env s (err e) = (s, some e)
  write_database env s (ok plain) =
      let w = save aead env s.key s.queue_path plain s.disk in
      (record s { disk = last_state s.disk w.states }, w.error)

  unfoldable pub persist_locked : WriteEnv → Store sql → Store sql × Option Error
  persist_locked env s = write_database env s (sql.serialize s.db)

  abbrev pub insert_step : EnqueueEnv → Store sql → Text → ℤ → Result Error Bytes → Store sql
  insert_step env s user expiry (err e) = s
  insert_step env s user expiry (ok sealed) =
      elim (sql.insert_row (record { recipient_id = user; payload = sealed; expires_at = expiry })
        s.db) [ err e ↦ s | ok db ↦ (persist_locked env.save_env (record s { db = db })).0 ]

  abbrev pub seal_step : EnqueueEnv → Store sql → Text → ℤ → Result Error Bytes → Store sql
  seal_step env s user expiry (err e) = s
  seal_step env s user expiry (ok plain) =
      insert_step env s user expiry (encrypt aead s.key env.nonce plain)

  -- `time.Now().Add(s.ttl).Unix()`
  abbrev pub expiry_of : Store sql → ℕ → ℤ
  expiry_of s now = unix (pos now +ℤ s.ttl)

  -- From the assignment of `msg.ExpiresAt` on.
  unfoldable pub store_message : EnqueueEnv → Store sql → Text → QueuedMessage → Store sql
  store_message env s user msg =
      let expiry = expiry_of s env.now in
      seal_step env s user expiry
        (syntax.marshal (json_of_queued (record msg { expires_at = expiry })))

  abbrev pub count_step : EnqueueEnv → Store sql → Text → QueuedMessage → Result Error ℕ → Store sql
  count_step env s user msg (err e) = s
  count_step env s user msg (ok count) =
      if leb max_queue_per_recipient count then s else store_message env s user msg

  -- Every error returns, and what was done before it stays done.
  unfoldable pub enqueue : EnqueueEnv → Store sql → Text → QueuedMessage → Store sql
  enqueue env s user msg = elim (sql.delete_expired_for user env.sql_now s.db) [
    | err e ↦ s
    | ok db ↦ count_step env (record s { db = db }) user msg (sql.count_for user db)
  ]

  abbrev decoded : Stored QueuedMessage → List QueuedMessage
  decoded d = if d.valid then d.value ∷ [] else []

  abbrev opened : Result Error Bytes → List QueuedMessage
  opened (err e) = []
  opened (ok plain) = decoded (decode_queued (syntax.unmarshal plain))

  -- One turn of the loop of `DrainQueue`: the message, or nothing where the row is skipped.
  unfoldable pub read_row : Bytes → ℕ → Result Error (Bytes × ℤ) → List QueuedMessage
  read_row key now (err e) = []
  read_row key now (ok (sealed, expiry)) =
      if ltb_ℤ expiry (pos now) then [] else opened (decrypt aead key sealed)

  unfoldable pub read_rows : Bytes → ℕ → List (Result Error (Bytes × ℤ)) → List QueuedMessage
  read_rows key now [] = []
  read_rows key now (r ∷ rs) = read_row key now r ++ read_rows key now rs

  -- The DELETE, the commit and the write. A failure before the commit rolls back.
  abbrev pub finish_drain :
      WriteEnv → Store sql → sql.Db → Text → List QueuedMessage → Store sql × List QueuedMessage
  finish_drain env s tx user messages = elim (sql.delete_for user tx) [
    | err e ↦ (s, [])
    | ok deleted ↦ elim (sql.commit deleted) [
      | err e ↦ (s, [])
      | ok db ↦ ((persist_locked env (record s { db = db })).0, messages)
    ]
  ]

  -- `now` is in seconds.
  unfoldable pub drain_queue : WriteEnv → ℕ → Store sql → Text → Store sql × List QueuedMessage
  drain_queue env now s user = elim (sql.begin_tx s.db) [
    | err e ↦ (s, [])
    | ok tx ↦ elim (sql.select_for user tx) [
      | err e ↦ (s, [])
      | ok selected ↦ finish_drain env s tx user (read_rows s.key now selected)
    ]
  ]

  abbrev or_zero : Result Error ℕ → ℕ
  or_zero (err e) = 0
  or_zero (ok n) = n

  unfoldable pub queued_messages : ℕ → Store sql → ℕ
  queued_messages sql_now s = or_zero (sql.count_live sql_now s.db)

  unfoldable pub purge_expired : ℕ → WriteEnv → Store sql → Store sql
  purge_expired sql_now env s = elim (sql.delete_expired sql_now s.db) [
    | err e ↦ s
    | ok db ↦ (persist_locked env (record s { db = db })).0
  ]

  unfoldable pub purge_loop : List PurgeEvent → Store sql → Store sql
  purge_loop [] s = s
  purge_loop (tick sql_now env ∷ events) s = purge_loop events (purge_expired sql_now env s)
  purge_loop (stop ∷ events) s = s

  unfoldable pub init_schema : WriteEnv → Store sql → Store sql × Option Error
  init_schema env s = elim (sql.create_schema s.db) [
    | err e ↦ (s, some e)
    | ok db ↦ persist_locked env (record s { db = db })
  ]

  abbrev deserialized : Store sql → Result Error sql.Db → Store sql × Option Error
  deserialized s (err e) = (s, some e)
  deserialized s (ok db) = (record s { db = db }, none)

  -- The store comes with an empty database. `read` is an error of `os.ReadFile`.
  unfoldable pub load_from_disk : Option Error → WriteEnv → Store sql → Store sql × Option Error
  load_from_disk read env s = elim (read_sealed aead read s.key s.queue_path s.disk) [
    | err e ↦ (s, some e)
    | ok none ↦ init_schema env s
    | ok (some plain) ↦ deserialized s (sql.deserialize plain)
  ]

  abbrev or_fail : Store sql × Option Error → Disk × Result Error (Store sql)
  or_fail (s, none) = (s.disk, ok s)
  or_fail (s, some e) = (s.disk, err e)

  -- `NewStore`: the disk after it, and the store. Opening the in-memory database does not fail.
  unfoldable pub new_store :
      Option Error
      → KeyEnv
      → Option Error
      → WriteEnv
      → Text
      → ℤ
      → Disk
      → Disk × Result Error (Store sql)
  new_store make_dir keys read env path ttl_seconds disk = elim make_dir [
    | some e ↦ (disk, err e)
    | none ↦
        let (disk', key) = load_or_create_key keys (path ++ codes ".key") disk in
        elim key [
          | err e ↦ (disk', err e)
          | ok k ↦ or_fail (
              load_from_disk read env (record {
                clients = [];
                db = sql.fresh;
                queue_path = path;
                key = k;
                ttl = duration_of_seconds ttl_seconds;
                disk = disk';
              }))
        ]
  ]
