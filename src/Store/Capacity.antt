-- ===== src/Store/Capacity.antt =====
-- The bound on each queue, and that the queues of different recipients do not touch.
use spectre_relay.Prelude.{
  ℕ, ◌+◌, ◌≤◌, ◌≡◌, ◌≢◌, refl, ◌∙◌, ◌⊎◌, inl, inr, Bool, not, ◌&&◌, List, [], ◌∷◌, ◌++◌,
  if◌then◌else◌, length, keep_if, keep_if-append, length-append, Text, text_eq_iff, arith,
}
use spectre_relay.Crypto.{Aead}
use spectre_relay.Json.{Syntax}
use spectre_relay.Files.{WriteEnv}
use spectre_relay.Store.Database.{
  Sqlite, Row, is_expired, is_for, without_expired, without_user, rows_for,
}
use spectre_relay.Store.Messages.{QueuedMessage}
use spectre_relay.Store.Rows.{table, enqueue-table, drain_queue-table, purge_expired-table}
use spectre_relay.Store.{Store, EnqueueEnv, enqueue, drain_queue, purge_expired}

pub length-rows_for-keep_if :
    (user : Text) (p : Row → Bool) (rs : List Row)
    → length (rows_for user (keep_if p rs)) ≤ length (rows_for user rs)
length-rows_for-keep_if user p [] = omega arith
length-rows_for-keep_if user p (r ∷ rs) = ground (arith, length-rows_for-keep_if user p rs)

length-rows_for-snoc :
    (user : Text) (r : Row) (rs : List Row)
    → length (rows_for user (rs ++ r ∷ []))
      ≡ length (rows_for user rs) + (if is_for user r then 1 else 0)
length-rows_for-snoc user r rs =
    rw
      (
        keep_if-append (is_for user) rs (r ∷ []),
        length-append (rows_for user rs) (rows_for user (r ∷ [])),
      )
      (ground arith)

-- A filter that drops only rows of another recipient.
rows_for-without :
    (user other : Text) (p : Row → Bool) (rs : List Row)
    → user ≢ other
    → rows_for other (keep_if (λ r. not (is_for user r && p r)) rs) ≡ rows_for other rs
rows_for-without user other p [] ne = refl
rows_for-without user other p (r ∷ rs) ne = ground (
  arith,
  text_eq_iff r.recipient_id user,
  text_eq_iff r.recipient_id other,
  rows_for-without user other p rs ne,
)

rows_for-without_user :
    (user other : Text) (rs : List Row)
    → user ≢ other
    → rows_for other (without_user user rs) ≡ rows_for other rs
rows_for-without_user user other [] ne = refl
rows_for-without_user user other (r ∷ rs) ne = ground (
  arith,
  text_eq_iff r.recipient_id user,
  text_eq_iff r.recipient_id other,
  rows_for-without_user user other rs ne,
)

rows_for-snoc_ne :
    (other : Text) (r : Row) (rs : List Row)
    → r.recipient_id ≢ other
    → rows_for other (rs ++ r ∷ []) ≡ rows_for other rs
rows_for-snoc_ne other r [] ne = ground (arith, text_eq_iff r.recipient_id other)
rows_for-snoc_ne other r (x ∷ rs) ne = ground (arith, rows_for-snoc_ne other r rs ne)

module _ (sql : Sqlite) (syntax : Syntax) (aead : Aead) where
  abbrev pub queue_of : Text → Store sql → List Row
  queue_of user s = rows_for user (table sql syntax aead s)

  -- No recipient has more than 500 rows.
  abbrev pub IsCapped : Store sql → Type 0
  IsCapped s = (user : Text) → length (queue_of user s) ≤ 500

  enqueue-IsCapped :
      (env : EnqueueEnv) (s : Store sql) (user : Text) (msg : QueuedMessage)
      → IsCapped s
      → IsCapped (enqueue sql syntax aead env s user msg)
  enqueue-IsCapped env s user msg c other =
      let rs = table sql syntax aead s in
      let expired = λ (r : Row). not (is_for user r && is_expired env.sql_now r) in
      elim (enqueue-table sql syntax aead env s user msg).0 [
        | inl e ↦ rw e (c other)
        | inr (inl e) ↦ rw e (omega (arith, c other, length-rows_for-keep_if other expired rs))
        | inr (inr (few, (sealed, _, e))) ↦
            rw (e, length-rows_for-snoc other _ (without_expired user env.sql_now rs))
              (ground (
                arith,
                few,
                c other,
                text_eq_iff user other,
                length-rows_for-keep_if other expired rs,
              ))
      ]

  drain_queue-IsCapped :
      (env : WriteEnv) (now : ℕ) (s : Store sql) (user : Text)
      → IsCapped s
      → IsCapped (drain_queue sql syntax aead env now s user).0
  drain_queue-IsCapped env now s user c other =
      let rs = table sql syntax aead s in
      elim (drain_queue-table sql syntax aead env now s user).0 [
        | inl (e, _) ↦ rw e (c other)
        | inr (e, _) ↦
            rw e
              (omega (arith, c other, length-rows_for-keep_if other (λ r. not (is_for user r)) rs))
      ]

  purge_expired-IsCapped :
      (now : ℕ) (env : WriteEnv) (s : Store sql)
      → IsCapped s
      → IsCapped (purge_expired sql syntax aead now env s)
  purge_expired-IsCapped now env s c other =
      let rs = table sql syntax aead s in
      elim (purge_expired-table sql syntax aead now env s).0 [
        | inl e ↦ rw e (c other)
        | inr e ↦
            rw e (
              omega
                (arith, c other, length-rows_for-keep_if other (λ r. not (is_expired now r)) rs))
      ]

  -- Whatever fails on the way, storing, draining and purging keep every queue at 500 rows or fewer.
  pub operations-IsCapped :
      (s : Store sql)
      → IsCapped s
      → ((env : EnqueueEnv) (user : Text) (msg : QueuedMessage)
          → IsCapped (enqueue sql syntax aead env s user msg))
        × ((env : WriteEnv) (now : ℕ) (user : Text)
            → IsCapped (drain_queue sql syntax aead env now s user).0)
        × ((now : ℕ) (env : WriteEnv) → IsCapped (purge_expired sql syntax aead now env s))
  operations-IsCapped s c = (
    λ env user msg. enqueue-IsCapped env s user msg c,
    λ env now user. drain_queue-IsCapped env now s user c,
    λ now env. purge_expired-IsCapped now env s c,
  )

  -- Neither storing nor draining the messages of one recipient changes the queue of another.
  pub queue_of-other :
      (s : Store sql) (user other : Text)
      → user ≢ other
      → ((env : EnqueueEnv) (msg : QueuedMessage)
          → queue_of other (enqueue sql syntax aead env s user msg) ≡ queue_of other s)
        × ((env : WriteEnv) (now : ℕ)
            → queue_of other (drain_queue sql syntax aead env now s user).0 ≡ queue_of other s)
  queue_of-other s user other ne =
      let rs = table sql syntax aead s in
      (
        λ env msg.
            let dropped = rows_for-without user other (is_expired env.sql_now) rs ne in
            elim (enqueue-table sql syntax aead env s user msg).0 [
              | inl e ↦ rw e
              | inr (inl e) ↦ rw e dropped
              | inr (inr (few, (sealed, _, e))) ↦
                  rw e (rows_for-snoc_ne other _ (without_expired user env.sql_now rs) ne ∙ dropped)
            ],
        λ env now. elim (drain_queue-table sql syntax aead env now s user).0 [
          | inl (e, _) ↦ rw e
          | inr (e, _) ↦ rw e (rows_for-without_user user other rs ne)
        ],
      )

  -- A message for a recipient whose queue is full after its expired rows are gone is dropped: the
  -- table holds no row that it did not hold before.
  pub enqueue_full :
      (env : EnqueueEnv) (s : Store sql) (user : Text) (msg : QueuedMessage)
      → 500 ≤ length (rows_for user (without_expired user env.sql_now (table sql syntax aead s)))
      → let t = enqueue sql syntax aead env s user msg in
        (table sql syntax aead t ≡ table sql syntax aead s)
        ⊎ (table sql syntax aead t ≡ without_expired user env.sql_now (table sql syntax aead s))
  enqueue_full env s user msg full = elim (enqueue-table sql syntax aead env s user msg).0 [
    | inl e ↦ inl e
    | inr (inl e) ↦ inr e
    | inr (inr (few, _)) ↦ absurd (omega (arith, few, full))
  ]
