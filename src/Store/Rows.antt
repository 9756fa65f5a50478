-- ===== src/Store/Rows.antt =====
-- What each operation does to the rows of the table, on every branch.
use spectre_relay.Prelude.{
  ℕ, ◌<◌, ◌≡◌, refl, ap, ◌∙◌, ◌⊎◌, inl, inr, not, List, [], ◌∷◌, ◌++◌, leb, length, keep_if, Text,
  Bytes, Result, ok, err, Error, Result-cases, Bool-cases, arith,
}
use spectre_relay.Prelude.Int.{ℤ}
use spectre_relay.Crypto.{Aead}
use spectre_relay.Json.{Syntax}
use spectre_relay.Files.{WriteEnv, encrypt}
use spectre_relay.Store.Database.{
  Sqlite, Row, is_expired, without_expired, without_user, rows_for, Yields,
}
use spectre_relay.Store.Messages.{QueuedMessage, json_of_queued}
use spectre_relay.Store.{
  Store, EnqueueEnv, expiry_of, persist_locked, store_message, insert_step, seal_step, count_step,
  finish_drain, enqueue, read_rows, drain_queue, purge_expired, max_queue_per_recipient,
}

-- The row that a message is stored as.
pub record IsSealed (syntax : Syntax) (aead : Aead) (key : Bytes) (expiry : ℤ) (msg : QueuedMessage)
    (sealed : Bytes) : Type 0 where
  pub plain : Bytes
  pub nonce : Result Error Bytes
  pub printed : syntax.marshal (json_of_queued (record msg { expires_at = expiry })) ≡ ok plain
  pub encrypted : encrypt aead key nonce plain ≡ ok sealed

module _ (sql : Sqlite) (syntax : Syntax) (aead : Aead) where
  abbrev pub table : Store sql → List Row
  table s = sql.rows s.db

  pub persist-keeps :
      (env : WriteEnv) (s : Store sql)
      → let t = (persist_locked sql syntax aead env s).0 in
        (t.db ≡ s.db)
        × (t.key ≡ s.key)
        × (t.ttl ≡ s.ttl)
        × (t.clients ≡ s.clients)
        × (t.queue_path ≡ s.queue_path)
  unfolding persist_locked
  persist-keeps env s = elim (Result-cases (sql.serialize s.db)) [
    | inl (plain, e) ↦ ground (arith, e)
    | inr (x, e) ↦ ground (arith, e)
  ]

  -- The fields that no queue operation changes.
  abbrev pub SameSettings : Store sql → Store sql → Type 0
  SameSettings t s = (t.key ≡ s.key) × (t.ttl ≡ s.ttl) × (t.clients ≡ s.clients)

  -- A new row for the message at the end of the table.
  abbrev pub Appended : Store sql → List Row → Text → ℤ → QueuedMessage → List Row → Type 0
  Appended s old user expiry msg new =
      (sealed : Bytes) × IsSealed syntax aead s.key expiry msg sealed
      × (new ≡ old ++ record { recipient_id = user; payload = sealed; expires_at = expiry } ∷ [])

  abbrev Outcome : Store sql → Text → ℤ → QueuedMessage → Store sql → Type 0
  Outcome s user expiry msg t =
      ((table t ≡ table s) ⊎ Appended s (table s) user expiry msg (table t)) × SameSettings t s

  insert_step-Outcome :
      (env : EnqueueEnv) (s : Store sql) (user : Text) (expiry : ℤ) (msg : QueuedMessage)
      (sealed : Bytes)
      → IsSealed syntax aead s.key expiry msg sealed
      → Outcome s user expiry msg (insert_step sql syntax aead env s user expiry (ok sealed))
  insert_step-Outcome env s user expiry msg sealed is_sealed =
      let row : Row = record { recipient_id = user; payload = sealed; expires_at = expiry } in
      elim (Result-cases (sql.insert_row row s.db)) [
        | inr (_, bad) ↦ ground (arith, bad)
        | inl (db, inserted) ↦
            let (kept, key, ttl, clients, _) = persist-keeps env.save_env (record s { db = db }) in
            rw (inserted, insert_step)
              (
                inr (sealed, is_sealed, ap sql.rows kept ∙ sql.rows-insert row s.db db inserted),
                (key, ttl, clients),
              )
      ]

  seal_step-Outcome :
      (env : EnqueueEnv) (s : Store sql) (user : Text) (expiry : ℤ) (msg : QueuedMessage)
      (r : Result Error Bytes)
      → syntax.marshal (json_of_queued (record msg { expires_at = expiry })) ≡ r
      → Outcome s user expiry msg (seal_step sql syntax aead env s user expiry r)
  seal_step-Outcome env s user expiry msg (err _) printed = (inl refl, (refl, refl, refl))
  seal_step-Outcome env s user expiry msg (ok plain) printed =
      elim (Result-cases (encrypt aead s.key env.nonce plain)) [
        | inr (_, bad) ↦ rw bad (inl refl, (refl, refl, refl))
        | inl (sealed, encrypted) ↦ rw encrypted (
            insert_step-Outcome env s user expiry msg sealed (record {
              plain = plain;
              nonce = env.nonce;
              printed = printed;
              encrypted = encrypted;
            }))
      ]

  store_message-Outcome :
      (env : EnqueueEnv) (s : Store sql) (user : Text) (msg : QueuedMessage)
      → Outcome s user
          (expiry_of sql syntax aead s env.now)
          msg
          (store_message sql syntax aead env s user msg)
  unfolding store_message
  store_message-Outcome env s user msg = seal_step-Outcome env s user _ msg _ refl

  abbrev Enqueued : Store sql → List Row → Text → ℤ → QueuedMessage → Store sql → Type 0
  Enqueued s purged user expiry msg t =
      ((table t ≡ table s)
        ⊎ ((table t ≡ purged)
            ⊎ ((length (rows_for user purged) < 500)
                × Appended s purged user expiry msg (table t))))
      × SameSettings t s

  count_step-Enqueued :
      (env : EnqueueEnv) (s : Store sql) (user : Text) (msg : QueuedMessage) (purged : List Row)
      (db : sql.Db) (c : Result Error ℕ)
      → sql.rows db ≡ purged
      → ((n : ℕ) → c ≡ ok n → n ≡ length (rows_for user purged))
      → Enqueued s purged user
          (expiry_of sql syntax aead s env.now)
          msg
          (count_step sql syntax aead env (record s { db = db }) user msg c)
  count_step-Enqueued env s user msg purged db (err _) p counted = (inr (inl p), (refl, refl, refl))
  count_step-Enqueued env s user msg purged db (ok n) p counted =
      elim (Bool-cases (leb max_queue_per_recipient n)) [
        | inl full ↦ rw full (inr (inl p), (refl, refl, refl))
        | inr room ↦
            let few : length (rows_for user purged) < 500 = rw (← counted n refl) (ground arith) in
            let (t, same) = store_message-Outcome env (record s { db = db }) user msg in
            rw room
              (elim t [ inl e ↦ inr (inl (e ∙ p)) | inr a ↦ inr (inr (few, rw p at a)) ], same)
      ]

  -- Every call of `Enqueue` leaves the table as it is, or drops the expired rows of the recipient,
  -- or does that and appends the sealed message, the last only if the recipient then has fewer
  -- than 500 rows. Registry, key and lifetime stay as they are.
  pub enqueue-table :
      (env : EnqueueEnv) (s : Store sql) (user : Text) (msg : QueuedMessage)
      → let t = enqueue sql syntax aead env s user msg in
        let purged = without_expired user env.sql_now (table s) in
        ((table t ≡ table s)
          ⊎ ((table t ≡ purged)
              ⊎ ((length (rows_for user purged) < 500)
                  × Appended s purged user (expiry_of sql syntax aead s env.now) msg (table t))))
        × SameSettings t s
  unfolding enqueue
  enqueue-table env s user msg =
      elim (Result-cases (sql.delete_expired_for user env.sql_now s.db)) [
        | inr (_, bad) ↦ rw (bad, enqueue) (inl refl, (refl, refl, refl))
        | inl (db, deleted) ↦
            let purged = sql.rows-delete_expired_for user env.sql_now s.db db deleted in
            rw (deleted, enqueue)
              (count_step-Enqueued env s user msg _ db (sql.count_for user db) purged (λ n counted.
                sql.count_for_lem user db n counted
                ∙ ap (λ (l : List Row). length (rows_for user l)) purged))
      ]

  -- What `DrainQueue` does: nothing, or all of the recipient's rows are read and deleted.
  abbrev Drained : ℕ → Store sql → Text → Store sql × List QueuedMessage → Type 0
  Drained now s user r =
      (((table r.0 ≡ table s) × (r.1 ≡ []))
        ⊎ ((table r.0 ≡ without_user user (table s))
            × ((l : List (Result Error (Bytes × ℤ))) × Yields l (rows_for user (table s))
                × (r.1 ≡ read_rows sql syntax aead s.key now l))))
      × SameSettings r.0 s

  finish_drain-Drained :
      (env : WriteEnv) (now : ℕ) (s : Store sql) (tx : sql.Db) (user : Text)
      (selected : List (Result Error (Bytes × ℤ)))
      → sql.rows tx ≡ table s
      → Yields selected (rows_for user (table s))
      → Drained now s user (
          finish_drain sql syntax aead env s tx user (read_rows sql syntax aead s.key now selected))
  finish_drain-Drained env now s tx user selected begun chosen =
      elim (Result-cases (sql.delete_for user tx)) [
        | inr (_, bad) ↦ rw (bad, finish_drain) (inl (refl, refl), (refl, refl, refl))
        | inl (rest, deleted) ↦ elim (Result-cases (sql.commit rest)) [
          | inr (_, bad) ↦ rw (deleted, bad, finish_drain) (inl (refl, refl), (refl, refl, refl))
          | inl (db, committed) ↦
              let (kept, key, ttl, clients, _) = persist-keeps env (record s { db = db }) in
              rw (deleted, committed, finish_drain)
                (
                  inr (
                    ap sql.rows kept
                        ∙ sql.rows-commit rest db committed
                        ∙ sql.rows-delete_for user tx rest deleted
                        ∙ ap (without_user user) begun,
                    (selected, chosen, refl),
                  ),
                  (key, ttl, clients),
                )
        ]
      ]

  -- `DrainQueue` either fails, returns nothing and leaves the table as it is, or returns what its
  -- loop makes of a first part of the recipient's rows, in their order, skipping those that cannot
  -- be scanned, and deletes all rows of the recipient and no other. Registry, key and lifetime stay
  -- as they are.
  pub drain_queue-table :
      (env : WriteEnv) (now : ℕ) (s : Store sql) (user : Text)
      → Drained now s user (drain_queue sql syntax aead env now s user)
  unfolding drain_queue
  drain_queue-table env now s user = elim (Result-cases (sql.begin_tx s.db)) [
    | inr (_, bad) ↦ rw (bad, drain_queue) (inl (refl, refl), (refl, refl, refl))
    | inl (tx, begun) ↦ elim (Result-cases (sql.select_for user tx)) [
      | inr (_, bad) ↦ rw (begun, bad, drain_queue) (inl (refl, refl), (refl, refl, refl))
      | inl (l, selected) ↦
          let same = sql.rows-begin s.db tx begun in
          rw (begun, selected, drain_queue)
            (finish_drain-Drained env now s tx user l same
              (rw same at (sql.select_for_lem user tx l selected)))
    ]
  ]

  pub purge_expired-table :
      (now : ℕ) (env : WriteEnv) (s : Store sql)
      → let t = purge_expired sql syntax aead now env s in
        ((table t ≡ table s) ⊎ (table t ≡ keep_if (λ r. not (is_expired now r)) (table s)))
        × SameSettings t s
  unfolding purge_expired
  purge_expired-table now env s = elim (Result-cases (sql.delete_expired now s.db)) [
    | inr (_, bad) ↦ rw (bad, purge_expired) (inl refl, (refl, refl, refl))
    | inl (db, deleted) ↦
        let (kept, key, ttl, clients, _) = persist-keeps env (record s { db = db }) in
        rw (deleted, purge_expired)
          (
            inr (ap sql.rows kept ∙ sql.rows-delete_expired now s.db db deleted),
            (key, ttl, clients),
          )
  ]
