-- ===== src/Store/Fifo.antt =====
-- Where nothing fails, the queue of a recipient is first in, first out.
use spectre_relay.Prelude.{
  ℕ, ◌+◌, ◌≤◌, ◌<◌, ◌≡◌, refl, sym, ap, ◌∙◌, false, none, some, List, [], ◌∷◌, ◌++◌, append-nil,
  append_assoc, map, leb, length, keep_if-append, length-append, All, All-append, Text, Bytes,
  text_eq_iff, Result, ok, Error, arith,
}
use mathlib.Core.List.{map-append}
use spectre_relay.Prelude.Int.{ℤ, pos, ltb_ℤ}
use spectre_relay.Crypto.{Aead, new_gcm}
use spectre_relay.Json.{Syntax}
use spectre_relay.Files.{WriteEnv, encrypt}
use spectre_relay.Files.Sealed.{decrypt-encrypt}
use spectre_relay.Store.Database.{
  Sqlite, IsReliable, Row, is_for, without_expired, without_user, rows_for, scanned,
}
use spectre_relay.Store.Messages.{
  QueuedMessage, IsMessage, json_of_queued, decode_queued-json_of_queued,
}
use spectre_relay.Store.Rows.{table, persist-keeps}
use spectre_relay.Store.{
  Store, EnqueueEnv, expiry_of, enqueue, store_message, insert_step, seal_step, count_step,
  finish_drain, read_row, read_rows, drain_queue, max_queue_per_recipient,
}

-- Kept at `now`, in seconds.
abbrev pub IsLive : ℕ → ℤ → Type 0
IsLive now expiry = ltb_ℤ expiry (pos now) ≡ false

-- The message as it is stored and returned.
abbrev pub with_expiry : QueuedMessage → ℤ → QueuedMessage
with_expiry m expiry = record m { expires_at = expiry }

IsLive-before : (a b : ℕ) (e : ℤ) → a ≤ b → IsLive b e → IsLive a e
IsLive-before a b e le h = ground arith

AreLive-before :
    (a b : ℕ) (rs : List Row)
    → a ≤ b
    → All (λ (r : Row). IsLive b r.expires_at) rs
    → All (λ (r : Row). IsLive a r.expires_at) rs
AreLive-before a b [] le h = tt
AreLive-before a b (r ∷ rs) le h =
    (IsLive-before a b r.expires_at le h.0, AreLive-before a b rs le h.1)

without_expired-live :
    (user : Text) (now : ℕ) (rs : List Row)
    → All (λ (r : Row). IsLive now r.expires_at) (rows_for user rs)
    → without_expired user now rs ≡ rs
without_expired-live user now [] h = refl
without_expired-live user now (r ∷ rs) h = ground (arith, without_expired-live user now rs)

module _ (sql : Sqlite) (syntax : Syntax) (aead : Aead) where
  -- One call of `Enqueue` in which nothing fails, before the time `limit` at which its message is
  -- still live.
  pub record Succeeds (s : Store sql) (limit : ℕ) (env : EnqueueEnv) (msg : QueuedMessage)
      : Type 0 where
    pub nonce : Bytes
    pub drawn : env.nonce ≡ ok nonce
    pub sized : length nonce ≡ aead.nonce_size
    pub printable :
        syntax.IsPrintable (json_of_queued (with_expiry msg (expiry_of sql syntax aead s env.now)))
    pub message : IsMessage msg
    pub early : env.sql_now ≤ limit
    pub live : IsLive limit (expiry_of sql syntax aead s env.now)

  -- The payload reads back as the message, until it expires.
  IsSealed-read_row :
      (key : Bytes) (now : ℕ) (expiry : ℤ) (msg : QueuedMessage) (plain nonce : Bytes)
      (sealed : Bytes)
      → length nonce ≡ aead.nonce_size
      → IsMessage msg
      → syntax.unmarshal plain ≡ some (json_of_queued (with_expiry msg expiry))
      → encrypt aead key (ok nonce) plain ≡ ok sealed
      → IsLive now expiry
      → read_row sql syntax aead key now (ok (sealed, expiry)) ≡ with_expiry msg expiry ∷ []
  unfolding read_row
  IsSealed-read_row key now expiry msg plain nonce sealed sized m parsed encrypted live = ground (
    arith,
    live,
    decrypt-encrypt aead key plain sealed (ok nonce) (λ n e. rw (← sized) (ok-length n e))
        encrypted,
    parsed,
    decode_queued-json_of_queued (with_expiry msg expiry) m,
  )
    where
      ok-length :
          (n : Bytes) → ◌≡◌ {A = Result Error Bytes} (ok nonce) (ok n) → length n ≡ length nonce
      ok-length n e = let q : n ≡ nonce = cc in ap length q

  read_rows-append :
      (key : Bytes) (now : ℕ) (xs ys : List (Result Error (Bytes × ℤ)))
      → read_rows sql syntax aead key now (xs ++ ys)
        ≡ read_rows sql syntax aead key now xs ++ read_rows sql syntax aead key now ys
  unfolding read_rows
  read_rows-append key now [] ys = refl
  read_rows-append key now (x ∷ xs) ys =
      rw (read_rows-append key now xs ys)
        (sym (append_assoc (read_row sql syntax aead key now x) _ _))

  -- What a successful call adds to the table.
  record Added (s : Store sql) (now : ℕ) (env : EnqueueEnv) (user : Text) (msg : QueuedMessage)
      (t : Store sql) : Type 0 where
    row : Row
    appended : table sql syntax aead t ≡ table sql syntax aead s ++ row ∷ []
    own : row.recipient_id ≡ user
    live : IsLive now row.expires_at
    reads :
        read_row sql syntax aead s.key now (scanned row)
        ≡ with_expiry msg (expiry_of sql syntax aead s env.now) ∷ []
    same_key : t.key ≡ s.key
    same_ttl : t.ttl ≡ s.ttl

  encrypt-ok :
      (key nonce plain : Bytes)
      → new_gcm key ≡ none
      → encrypt aead key (ok nonce) plain ≡ ok (nonce ++ aead.seal key nonce plain)
  unfolding encrypt
  encrypt-ok key nonce plain h = ground (arith, h)

  store_message-Added :
      (rel : IsReliable sql) (env : EnqueueEnv) (s : Store sql) (user : Text) (msg : QueuedMessage)
      (now : ℕ)
      → Succeeds s now env msg
      → new_gcm s.key ≡ none
      → Added s now env user msg (store_message sql syntax aead env s user msg)
  unfolding store_message
  store_message-Added rel env s user msg now c good =
      let expiry = expiry_of sql syntax aead s env.now in
      let (plain, printed, parsed) =
        syntax.unmarshal-marshal (json_of_queued (with_expiry msg expiry)) c.printable in
      let sealed = c.nonce ++ aead.seal s.key c.nonce plain in
      let encrypted = encrypt-ok s.key c.nonce plain good in
      let row : Row = record { recipient_id = user; payload = sealed; expires_at = expiry } in
      let (db, inserted) = rel.inserts row s.db in
      let (kept, key, ttl, _, _) =
        persist-keeps sql syntax aead env.save_env (record s { db = db }) in
      rw (printed, seal_step, c.drawn, encrypted, insert_step, inserted)
        (record {
          row = row;
          appended = ap sql.rows kept ∙ sql.rows-insert row s.db db inserted;
          own = refl;
          live = c.live;
          reads =
              IsSealed-read_row s.key now expiry msg plain c.nonce sealed c.sized c.message parsed
                encrypted c.live;
          same_key = key;
          same_ttl = ttl;
        })

  enqueue-Added :
      (rel : IsReliable sql) (env : EnqueueEnv) (s : Store sql) (user : Text) (msg : QueuedMessage)
      (now : ℕ)
      → Succeeds s now env msg
      → new_gcm s.key ≡ none
      → All (λ (r : Row). IsLive now r.expires_at) (rows_for user (table sql syntax aead s))
      → length (rows_for user (table sql syntax aead s)) < 500
      → Added s now env user msg (enqueue sql syntax aead env s user msg)
  unfolding enqueue
  enqueue-Added rel env s user msg now c good live few =
      let (db, deleted) = rel.deletes_expired user env.sql_now s.db in
      let (n, counted) = rel.counts user db in
      let early = AreLive-before env.sql_now now _ c.early live in
      let same : sql.rows db ≡ table sql syntax aead s =
        sql.rows-delete_expired_for user env.sql_now s.db db deleted
        ∙ without_expired-live user env.sql_now (table sql syntax aead s) early in
      let size : n ≡ length (rows_for user (table sql syntax aead s)) =
        sql.count_for_lem user db n counted
        ∙ ap (λ (l : List Row). length (rows_for user l)) same in
      let room : leb max_queue_per_recipient n ≡ false = ground arith in
      let r : Store sql = record s { db = db } in
      let c' : Succeeds r now env msg = record {
        nonce = c.nonce;
        drawn = c.drawn;
        sized = c.sized;
        printable = c.printable;
        message = c.message;
        early = c.early;
        live = c.live;
      } in
      let a = store_message-Added rel env r user msg now c' good in
      rw (deleted, enqueue, counted, count_step, room)
        (record {
          row = a.row;
          appended = a.appended ∙ ap (λ (l : List Row). l ++ a.row ∷ []) same;
          own = a.own;
          live = a.live;
          reads = a.reads;
          same_key = a.same_key;
          same_ttl = a.same_ttl;
        })

  -- The calls of `Enqueue` for one recipient, one after another.
  unfoldable pub enqueue_all : Text → Store sql → List (EnqueueEnv × QueuedMessage) → Store sql
  enqueue_all user s [] = s
  enqueue_all user s ((env, msg) ∷ calls) =
      enqueue_all user (enqueue sql syntax aead env s user msg) calls

  -- What the recipient should get for them.
  abbrev pub expected : Store sql → List (EnqueueEnv × QueuedMessage) → List QueuedMessage
  expected s [] = []
  expected s ((env, msg) ∷ calls) =
      with_expiry msg (expiry_of sql syntax aead s env.now) ∷ expected s calls

  abbrev pub AllSucceed : Store sql → ℕ → List (EnqueueEnv × QueuedMessage) → Type 0
  AllSucceed s now [] = Unit {0}
  AllSucceed s now ((env, msg) ∷ calls) = Succeeds s now env msg × AllSucceed s now calls

  -- The queue of the recipient reads as the messages and none of it has expired.
  record Holds (s : Store sql) (now : ℕ) (user : Text) (messages : List QueuedMessage)
      : Type 0 where
    live : All (λ (r : Row). IsLive now r.expires_at) (rows_for user (table sql syntax aead s))
    size : length (rows_for user (table sql syntax aead s)) ≡ length messages
    reads :
        read_rows sql syntax aead s.key now (map scanned (rows_for user (table sql syntax aead s)))
        ≡ messages

  rows_for-snoc :
      (user : Text) (row : Row) (rs : List Row)
      → row.recipient_id ≡ user
      → rows_for user (rs ++ row ∷ []) ≡ rows_for user rs ++ row ∷ []
  rows_for-snoc user row rs own =
      keep_if-append (is_for user) rs (row ∷ [])
      ∙ ap (◌++◌ (rows_for user rs)) (ground (arith, text_eq_iff row.recipient_id user, own))

  Added-Holds :
      (s t : Store sql) (now : ℕ) (env : EnqueueEnv) (user : Text) (msg : QueuedMessage)
      (messages : List QueuedMessage)
      → Holds s now user messages
      → Added s now env user msg t
      → Holds t now user (messages ++ with_expiry msg (expiry_of sql syntax aead s env.now) ∷ [])
  unfolding read_rows
  Added-Holds s t now env user msg messages h a =
      let e =
        ap (rows_for user) a.appended ∙ rows_for-snoc user a.row (table sql syntax aead s) a.own in
      record {
        live = rw e (All-append _ _ (a.row ∷ []) h.live (a.live, tt));
        size = omega (
          arith,
          ap length e,
          length-append (rows_for user (table sql syntax aead s)) (a.row ∷ []),
          length-append messages (with_expiry msg (expiry_of sql syntax aead s env.now) ∷ []),
          h.size,
        );
        reads =
            rw
              (
                e,
                a.same_key,
                map-append scanned (rows_for user (table sql syntax aead s)) (a.row ∷ []),
                read_rows-append s.key now (map scanned (rows_for user (table sql syntax aead s)))
                    (map scanned (a.row ∷ [])),
                h.reads,
                a.reads,
              )
              refl;
      }

  pub same_calls :
      (s t : Store sql) (now : ℕ) (calls : List (EnqueueEnv × QueuedMessage))
      → t.ttl ≡ s.ttl
      → AllSucceed s now calls
      → AllSucceed t now calls × (expected t calls ≡ expected s calls)
  same_calls s t now [] same c = (tt, refl)
  same_calls s t now ((env, msg) ∷ calls) same (c, cs) =
      let (rest, e) = same_calls s t now calls same cs in
      let same_expiry : expiry_of sql syntax aead t env.now ≡ expiry_of sql syntax aead s env.now =
        rw same in
      (
        (
          record {
            nonce = c.nonce;
            drawn = c.drawn;
            sized = c.sized;
            printable = rw same_expiry c.printable;
            message = c.message;
            early = c.early;
            live = rw same_expiry c.live;
          },
          rest,
        ),
        rw (same_expiry, e),
      )

  enqueue_all-Holds :
      (rel : IsReliable sql) (s : Store sql) (now : ℕ) (user : Text)
      (calls : List (EnqueueEnv × QueuedMessage)) (messages : List QueuedMessage)
      → new_gcm s.key ≡ none
      → AllSucceed s now calls
      → length messages + length calls ≤ 500
      → Holds s now user messages
      → Holds (enqueue_all user s calls) now user (messages ++ expected s calls)
  unfolding enqueue_all
  enqueue_all-Holds rel s now user [] messages good c few h = rw append-nil h
  enqueue_all-Holds rel s now user ((env, msg) ∷ calls) messages good (c, cs) few h =
      let t = enqueue sql syntax aead env s user msg in
      let a : Added s now env user msg t =
        enqueue-Added rel env s user msg now c good h.live (omega (arith, h.size)) in
      let m = with_expiry msg (expiry_of sql syntax aead s env.now) in
      let (cs', e) = same_calls s t now calls a.same_ttl cs in
      let ih =
        enqueue_all-Holds rel t now user calls (messages ++ m ∷ []) (rw a.same_key good) cs'
          (omega (arith, length-append messages (m ∷ [])))
          (Added-Holds s t now env user msg messages h a) in
      rw (← append_assoc messages (m ∷ []) (expected s calls), ← e) ih

  pub drain_queue-reliable :
      (rel : IsReliable sql) (env : WriteEnv) (now : ℕ) (s : Store sql) (user : Text)
      → let r = drain_queue sql syntax aead env now s user in
        (table sql syntax aead r.0 ≡ without_user user (table sql syntax aead s))
        × (r.1
            ≡ read_rows sql syntax aead s.key now
                (map scanned (rows_for user (table sql syntax aead s))))
  unfolding drain_queue
  drain_queue-reliable rel env now s user =
      let (tx, begun) = rel.begins s.db in
      let selected = rel.selects user tx in
      let (rest, deleted) = rel.deletes user tx in
      let (db, committed) = rel.commits rest in
      let same = sql.rows-begin s.db tx begun in
      rw (begun, drain_queue, selected, deleted, finish_drain, committed)
        (
          ap sql.rows (persist-keeps sql syntax aead env (record s { db = db })).0
              ∙ sql.rows-commit rest db committed
              ∙ sql.rows-delete_for user tx rest deleted
              ∙ ap (without_user user) same,
          ap (λ (r : List Row). read_rows sql syntax aead s.key now (map scanned (rows_for user r)))
              same,
        )

  pub rows_for-without_user :
      (user : Text) (rs : List Row) → rows_for user (without_user user rs) ≡ []
  rows_for-without_user user [] = refl
  rows_for-without_user user (r ∷ rs) = ground (arith, rows_for-without_user user rs)

  Holds-empty :
      (s : Store sql) (now : ℕ) (user : Text)
      → rows_for user (table sql syntax aead s) ≡ []
      → Holds s now user []
  unfolding read_rows
  Holds-empty s now user e = record { live = rw e tt; size = rw e refl; reads = rw e refl }

  -- With a database in which no statement fails and a key that the cipher takes: from an empty
  -- queue, up to 500 messages that are stored without a failure and drained before any of them
  -- expires come out as they went in and in the same order, with the expiry that storing them set;
  -- then the queue is empty again.
  pub drain_queue-enqueue_all :
      (rel : IsReliable sql) (s : Store sql) (env : WriteEnv) (now : ℕ) (user : Text)
      (calls : List (EnqueueEnv × QueuedMessage))
      → new_gcm s.key ≡ none
      → AllSucceed s now calls
      → length calls ≤ 500
      → rows_for user (table sql syntax aead s) ≡ []
      → let r = drain_queue sql syntax aead env now (enqueue_all user s calls) user in
        (r.1 ≡ expected s calls) × (rows_for user (table sql syntax aead r.0) ≡ [])
  drain_queue-enqueue_all rel s env now user calls good c few empty =
      let t = enqueue_all user s calls in
      let h =
        enqueue_all-Holds rel s now user calls [] good c (omega arith)
          (Holds-empty s now user empty) in
      let (left, got) = drain_queue-reliable rel env now t user in
      (
        got ∙ h.reads,
        ap (rows_for user) left ∙ rows_for-without_user user (table sql syntax aead t),
      )
