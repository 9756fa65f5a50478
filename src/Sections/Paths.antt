-- ===== src/Sections/Paths.antt =====
-- What one thread does on any path through its program, whatever the sections return to it: `deliver`
-- and `FlushQueue` of server/router.go while other threads are at work.
use spectre_relay.Prelude.{
  ℕ, suc, ◌+◌, ◌≡◌, refl, ap, ◌∙◌, ◌⊎◌, inl, inr, Option, none, some, List, [], ◌∷◌, ◌++◌, length,
  Text, Bytes, Result, ok, err, Error, arith,
}
use spectre_relay.Crypto.{Aead, Ed25519}
use spectre_relay.Json.{Syntax}
use spectre_relay.Store.Database.{Sqlite}
use spectre_relay.Store.Messages.{QueuedMessage}
use spectre_relay.Store.{Conn, EnqueueEnv}
use spectre_relay.Router.{DeliverEnv, FlushEnv, Effect, sent, marshal_queued}
use spectre_relay.Sections.{
  Section, Reply, Program, done, emit, call, ask, perform, find, put, take,
}
use spectre_relay.Sections.System.{Thread, go}
use spectre_relay.Server.{Server}
use spectre_relay.Sections.Handlers.{
  deliver_found, deliver_here, requeue_program, flush_loop, flush_program,
}

-- A section with what it returned, or effects.
pub data Act : Type 0 where
  does : (a : Section) → Reply a → Act
  writes : List Effect → Act

-- A path from the start of the program to its end.
abbrev pub Runs : {A : Type 0} → Program A → List Act → Type 0
Runs (done a) acts = acts ≡ []
Runs (emit es p) acts = (rest : List Act) × (acts ≡ writes es ∷ rest) × Runs p rest
Runs (call a k) acts =
    (r : Reply a) × (rest : List Act) × (acts ≡ does a r ∷ rest) × Runs (k r) rest

-- The writes of the messages that can be printed.
abbrev pub written : Syntax → Conn → List QueuedMessage → List Act
written syntax c [] = []
written syntax c (m ∷ ms) = elim (marshal_queued syntax m) [
  | err _ ↦ written syntax c ms
  | ok raw ↦ writes (sent c raw ∷ []) ∷ written syntax c ms
]

-- The calls of `Enqueue` that put messages back, from the i-th on.
abbrev pub put_back : (ℕ → EnqueueEnv) → ℕ → Text → List QueuedMessage → List Act
put_back envs i user [] = []
put_back envs i user (m ∷ ms) = does (put (envs i) user m) tt ∷ put_back envs (suc i) user ms

result-Runs :
    {E T A : Type 0} (x : Result E T) (p : Program A) (f : T → Program A) (acts : List Act)
    → Runs (elim x [ err _ ↦ p | ok t ↦ f t ]) acts
    → (((e : E) × (x ≡ err e) × Runs p acts) ⊎ ((t : T) × (x ≡ ok t) × Runs (f t) acts))
result-Runs (err e) p f acts h = inl (e, refl, h)
result-Runs (ok t) p f acts h = inr (t, refl, h)

option-Runs :
    {T A : Type 0} (x : Option T) (p q : Program A) (acts : List Act)
    → Runs (elim x [ some _ ↦ p | none ↦ q ]) acts
    → (((t : T) × (x ≡ some t) × Runs p acts) ⊎ ((x ≡ none) × Runs q acts))
option-Runs (some t) p q acts h = inl (t, refl, h)
option-Runs none p q acts h = inr (refl, h)

module _ (sql : Sqlite) (syntax : Syntax) (aead : Aead) (ed : Ed25519) where
  put-Runs :
      (env : EnqueueEnv) (user : Text) (m : QueuedMessage) (acts : List Act)
      → Runs (ask (put env user m)) acts
      → acts ≡ does (put env user m) tt ∷ []
  put-Runs env user m acts (r, rest, e, h) = e ∙ ap (◌∷◌ (does (put env user m) r)) h

  -- A write of the message, or its storing.
  abbrev Handed : DeliverEnv → Text → QueuedMessage → Option Conn → List Act → Type 0
  Handed env user m found acts =
      (acts ≡ does (put env.store user m) tt ∷ [])
      ⊎ ((c : Conn) × (raw : Bytes) × (found ≡ some c)
          × (marshal_queued syntax m ≡ ok raw)
          × (acts ≡ writes (sent c raw ∷ []) ∷ []))

  deliver_found-Handed :
      (env : DeliverEnv) (user : Text) (m : QueuedMessage) (found : Option Conn) (acts : List Act)
      → Runs (deliver_found sql syntax aead ed env user m found) acts
      → Handed env user m found acts
  deliver_found-Handed env user m none acts h = inl (put-Runs env.store user m acts h)
  deliver_found-Handed env user m (some c) acts h =
      elim (result-Runs (marshal_queued syntax m) _ _ acts h) [
        | inl (e, bad, g) ↦ inl (put-Runs env.store user m acts g)
        | inr (raw, good, g) ↦ elim (option-Runs env.write _ _ acts g) [
          | inl (e, bad, stored) ↦ inl (put-Runs env.store user m acts stored)
          | inr (fine, (rest, first, end)) ↦
              inr (c, raw, refl, good, first ∙ ap (◌∷◌ (writes (sent c raw ∷ []))) end)
        ]
      ]

  -- A message to a name at this relay is either printed and written once, to the connection that the
  -- lookup returned, or stored once for that name, and never both: on every path, so whatever other
  -- threads do between the lookup and the rest.
  pub deliver_here-Runs :
      (env : DeliverEnv) (user : Text) (m : QueuedMessage) (acts : List Act)
      → Runs (deliver_here sql syntax aead ed env user m) acts
      → (found : Option Conn) × ((acts
            ≡ does (find user) found ∷ does (put env.store user m) tt ∷ [])
          ⊎ ((c : Conn) × (raw : Bytes) × (found ≡ some c)
              × (marshal_queued syntax m ≡ ok raw)
              × (acts ≡ does (find user) found ∷ writes (sent c raw ∷ []) ∷ [])))
  unfolding deliver_here
  deliver_here-Runs env user m acts (found, rest, e, h) = (
    found,
    elim (deliver_found-Handed env user m found rest h) [
      | inl stored ↦ inl (e ∙ ap (◌∷◌ (does (find user) found)) stored)
      | inr (c, raw, same, good, wrote) ↦
          inr (c, raw, same, good, e ∙ ap (◌∷◌ (does (find user) found)) wrote)
    ],
  )

  requeue-Runs :
      (envs : ℕ → EnqueueEnv) (i : ℕ) (user : Text) (ms : List QueuedMessage) (acts : List Act)
      → Runs (requeue_program sql syntax aead ed envs i user ms) acts
      → acts ≡ put_back envs i user ms
  unfolding requeue_program
  requeue-Runs envs i user [] acts h = h
  requeue-Runs envs i user (m ∷ ms) acts (r, rest, e, h) =
      e ∙ ap (◌∷◌ (does (put (envs i) user m) r)) (requeue-Runs envs (suc i) user ms rest h)

  -- How a path through the loop divides the messages.
  record Divides (env : FlushEnv) (i : ℕ) (user : Text) (c : Conn) (ms : List QueuedMessage)
      (acts : List Act) : Type 0 where
    before : List QueuedMessage
    after : List QueuedMessage
    whole : ms ≡ before ++ after
    path : acts ≡ written syntax c before ++ put_back env.store (i + length before) user after
    stopped : (after ≡ []) ⊎ ((x : Error) × (env.write (i + length before) ≡ some x))

  written-skips :
      (c : Conn) (m : QueuedMessage) (ms : List QueuedMessage) (e : Error)
      → marshal_queued syntax m ≡ err e
      → written syntax c ms ≡ written syntax c (m ∷ ms)
  written-skips c m ms e bad = rw (written, bad) refl

  written-writes :
      (c : Conn) (m : QueuedMessage) (ms : List QueuedMessage) (raw : Bytes)
      → marshal_queued syntax m ≡ ok raw
      → writes (sent c raw ∷ []) ∷ written syntax c ms ≡ written syntax c (m ∷ ms)
  written-writes c m ms raw good = rw (written, good) refl

  skipped :
      (env : FlushEnv) (i : ℕ) (user : Text) (c : Conn) (m : QueuedMessage)
      (ms : List QueuedMessage) (acts : List Act) (e : Error)
      → marshal_queued syntax m ≡ err e
      → Divides env (suc i) user c ms acts
      → Divides env i user c (m ∷ ms) acts
  skipped env i user c m ms acts e bad p =
      let same : suc i + length p.before ≡ i + length (m ∷ p.before) = omega arith in
      record {
        before = m ∷ p.before;
        after = p.after;
        whole = ap (◌∷◌ m) p.whole;
        path =
            (rw same at p.path)
            ∙ ap
                (λ (l : List Act). l ++ put_back env.store (i + length (m ∷ p.before)) user p.after)
                (written-skips c m p.before e bad);
        stopped = rw same at p.stopped;
      }

  wrote :
      (env : FlushEnv) (i : ℕ) (user : Text) (c : Conn) (m : QueuedMessage)
      (ms : List QueuedMessage) (acts rest : List Act) (raw : Bytes)
      → marshal_queued syntax m ≡ ok raw
      → acts ≡ writes (sent c raw ∷ []) ∷ rest
      → Divides env (suc i) user c ms rest
      → Divides env i user c (m ∷ ms) acts
  wrote env i user c m ms acts rest raw good first p =
      let same : suc i + length p.before ≡ i + length (m ∷ p.before) = omega arith in
      record {
        before = m ∷ p.before;
        after = p.after;
        whole = ap (◌∷◌ m) p.whole;
        path =
            first
            ∙ ap (◌∷◌ (writes (sent c raw ∷ []))) (rw same at p.path)
            ∙ ap
                (λ (l : List Act). l ++ put_back env.store (i + length (m ∷ p.before)) user p.after)
                (written-writes c m p.before raw good);
        stopped = rw same at p.stopped;
      }

  flush_loop-Divides :
      (env : FlushEnv) (i : ℕ) (user : Text) (c : Conn) (ms : List QueuedMessage) (acts : List Act)
      → Runs (flush_loop sql syntax aead ed env i user c ms) acts
      → Divides env i user c ms acts
  unfolding flush_loop
  flush_loop-Divides env i user c [] acts h = record {
    before = [];
    after = [];
    whole = refl;
    path = h;
    stopped = inl refl;
  }
  flush_loop-Divides env i user c (m ∷ ms) acts h =
      elim (result-Runs (marshal_queued syntax m) _ _ acts h) [
        | inl (e, bad, g) ↦
            skipped env i user c m ms acts e bad (flush_loop-Divides env (suc i) user c ms acts g)
        | inr (raw, good, g) ↦ elim (option-Runs (env.write i) _ _ acts g) [
          | inl (e, bad, left) ↦ record {
            before = [];
            after = m ∷ ms;
            whole = refl;
            path =
                requeue-Runs env.store i user (m ∷ ms) acts left
                ∙ ap (λ (j : ℕ). put_back env.store j user (m ∷ ms)) (omega arith);
            stopped = inr (e, ap env.write (omega arith) ∙ bad);
          }
          | inr (fine, (rest, first, later)) ↦
              wrote env i user c m ms acts rest raw good first
                (flush_loop-Divides env (suc i) user c ms rest later)
        ]
      ]

  -- On every path through `FlushQueue`, so whatever other threads do in between: the messages that
  -- the drain returns, in their order, are a first part, whose messages are written to the
  -- connection, each printable one once, and a rest, exactly which is put back after that, in the
  -- same order. The rest is empty unless the write of its first message failed.
  pub flush_program-Runs :
      (env : FlushEnv) (user : Text) (c : Conn) (acts : List Act)
      → Runs (flush_program sql syntax aead ed env user c) acts
      → (before after : List QueuedMessage) × (acts
          ≡ does (take env.drain env.now user) (before ++ after)
            ∷ (written syntax c before ++ put_back env.store (length before) user after))
        × ((after ≡ []) ⊎ ((x : Error) × (env.write (length before) ≡ some x)))
  unfolding flush_program
  flush_program-Runs env user c acts (ms, rest, e, h) =
      let p = flush_loop-Divides env 0 user c ms rest h in
      let none_before : 0 + length p.before ≡ length p.before = omega arith in
      (
        p.before,
        p.after,
        e
            ∙ rw (← p.whole)
                (ap (◌∷◌ (does (take env.drain env.now user) ms)) (rw none_before at p.path)),
        rw none_before at p.stopped,
      )

  -- What a thread does at its turn.
  abbrev act_of : Server sql → Thread → List Act
  act_of s (done r) = []
  act_of s (emit es p) = writes es ∷ []
  act_of s (call a k) = does a (perform sql syntax aead s a).1 ∷ []

  -- A thread of a system stays on the paths of its program, whichever server it meets.
  pub go-Runs :
      (s : Server sql) (p : Thread) (acts : List Act)
      → Runs (go sql syntax aead ed s p).2 acts
      → Runs p (act_of s p ++ acts)
  go-Runs s (done r) acts h = h
  go-Runs s (emit es p) acts h = (acts, refl, h)
  go-Runs s (call a k) acts h = ((perform sql syntax aead s a).1, acts, refl, h)
