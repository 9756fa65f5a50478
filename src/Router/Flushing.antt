-- ===== src/Router/Flushing.antt =====
-- `FlushQueue` of server/router.go: what is sent and what goes back into the queue.
use spectre_relay.Prelude.{
  ℕ, suc, ◌+◌, ◌≡◌, refl, ap, ◌∙◌, ◌⊎◌, inl, inr, some, List, [], ◌∷◌, ◌++◌, length, Text, Bytes,
  Result, ok, err, Error, Option-cases, Result-cases, arith,
}
use spectre_relay.Crypto.{Aead}
use spectre_relay.Json.{Syntax}
use spectre_relay.Store.Database.{Sqlite}
use spectre_relay.Store.Messages.{QueuedMessage}
use spectre_relay.Store.Fifo.{enqueue_all}
use spectre_relay.Store.{Conn, Store, EnqueueEnv, enqueue, drain_queue}
use spectre_relay.Router.{
  Router, FlushEnv, Effect, sent, marshal_queued, requeue, write_step, flush_messages, flush_queue,
}

-- The writes of messages that can be printed, in order.
abbrev pub prepend : Conn → Result Error Bytes → List Effect → List Effect
prepend c (err e) rest = rest
prepend c (ok raw) rest = sent c raw ∷ rest

unfoldable pub writes : Syntax → Conn → List QueuedMessage → List Effect
writes syntax c [] = []
writes syntax c (m ∷ ms) = prepend c (marshal_queued syntax m) (writes syntax c ms)

-- The calls of `Enqueue` for the messages, from the i-th environment on.
abbrev pub calls_from :
    (ℕ → EnqueueEnv) → ℕ → List QueuedMessage → List (EnqueueEnv × QueuedMessage)
calls_from envs i [] = []
calls_from envs i (m ∷ ms) = (envs i, m) ∷ calls_from envs (suc i) ms

module _ (sql : Sqlite) (syntax : Syntax) (aead : Aead) where
  -- A place in the list of messages at which the first write fails, or its end.
  record Split (env : FlushEnv) (i : ℕ) (s : Store sql) (user : Text) (c : Conn)
      (ms : List QueuedMessage) (t : Store sql × List Effect) : Type 0 where
    before : List QueuedMessage
    after : List QueuedMessage
    whole : ms ≡ before ++ after
    written : t.1 ≡ writes syntax c before
    kept : t.0 ≡ requeue sql syntax aead env.store (i + length before) s user after
    stopped : (after ≡ []) ⊎ ((e : Error) × (env.write (i + length before) ≡ some e))

  further :
      (env : FlushEnv) (i : ℕ) (s : Store sql) (user : Text) (c : Conn) (m : QueuedMessage)
      (ms : List QueuedMessage) (t : Store sql × List Effect)
      → Split env (suc i) s user c ms t
      → Split env i s user c (m ∷ ms) (t.0, prepend c (marshal_queued syntax m) t.1)
  unfolding writes
  further env i s user c m ms t p =
      let e : suc i + length p.before ≡ i + length (m ∷ p.before) = omega arith in
      record {
        before = m ∷ p.before;
        after = p.after;
        whole = ap (◌∷◌ m) p.whole;
        written = ap (prepend c (marshal_queued syntax m)) p.written;
        kept = rw e at p.kept;
        stopped = rw e at p.stopped;
      }

  flush_messages-Split :
      (env : FlushEnv) (i : ℕ) (s : Store sql) (user : Text) (c : Conn) (ms : List QueuedMessage)
      → Split env i s user c ms (flush_messages sql syntax aead env i s user c ms)
  unfolding flush_messages writes requeue
  flush_messages-Split env i s user c [] = record {
    before = [];
    after = [];
    whole = refl;
    written = refl;
    kept = refl;
    stopped = inl refl;
  }
  flush_messages-Split env i s user c (m ∷ ms) =
      let ih = further env i s user c m ms _ (flush_messages-Split env (suc i) s user c ms) in
      elim (Result-cases (marshal_queued syntax m)) [
        | inr (e, bad) ↦ rw (bad, flush_messages) (rw bad at ih)
        | inl (raw, good) ↦ elim (Option-cases (env.write i)) [
          | inl fine ↦ rw (good, flush_messages, fine, write_step) (rw good at ih)
          | inr (e, bad) ↦
              rw (good, flush_messages, bad, write_step)
                (record {
                  before = [];
                  after = m ∷ ms;
                  whole = refl;
                  written = refl;
                  kept =
                      ap (λ (j : ℕ). requeue sql syntax aead env.store j s user (m ∷ ms))
                        (omega arith);
                  stopped = inr (e, ap env.write (omega arith) ∙ bad);
                })
        ]
      ]

  requeue-enqueue_all :
      (envs : ℕ → EnqueueEnv) (i : ℕ) (s : Store sql) (user : Text) (ms : List QueuedMessage)
      → requeue sql syntax aead envs i s user ms
        ≡ enqueue_all sql syntax aead user s (calls_from envs i ms)
  unfolding requeue enqueue_all
  requeue-enqueue_all envs i s user [] = refl
  requeue-enqueue_all envs i s user (m ∷ ms) =
      requeue-enqueue_all envs (suc i) (enqueue sql syntax aead (envs i) s user m) user ms

  -- Of the messages that are drained, in their order, a first part is written to the connection,
  -- each printable one once, and exactly the rest is queued again: each of its messages by one call
  -- of `Enqueue`, in the same order. The rest is empty unless the write of its first message failed.
  pub flush_queue-split :
      (env : FlushEnv) (r : Router sql) (user : Text) (c : Conn)
      → let t = flush_queue sql syntax aead env r user c in
        let (s, messages) = drain_queue sql syntax aead env.drain env.now r.store user in
        (before after : List QueuedMessage) × (messages ≡ before ++ after)
        × (t.1 ≡ writes syntax c before)
        × (t.0 ≡ record r {
          store = enqueue_all sql syntax aead user s (calls_from env.store (length before) after);
        })
        × ((after ≡ []) ⊎ ((e : Error) × (env.write (length before) ≡ some e)))
  unfolding flush_queue
  flush_queue-split env r user c =
      let d = drain_queue sql syntax aead env.drain env.now r.store user in
      let p = flush_messages-Split env 0 d.0 user c d.1 in
      let e : 0 + length p.before ≡ length p.before = omega arith in
      (
        p.before,
        p.after,
        p.whole,
        p.written,
        ap (λ (s : Store sql). record r { store = s })
            ((rw e at p.kept) ∙ requeue-enqueue_all env.store (length p.before) d.0 user p.after),
        rw e at p.stopped,
      )
