-- ===== src/Tests/Threads.antt =====
-- Threads and their orders, at concrete inputs.
use spectre_relay.Prelude.{
  ok, Bytes, ◌⊎◌, Option, length, Error, ◌≡◌, refl, inl, none, some, List, [], ◌∷◌, ◌++◌, text_eq,
  true, arith,
}
use spectre_relay.Prelude.Int.{◌+ℤ◌}
use spectre_relay.Prelude.Assoc.{lookup}
use spectre_relay.Crypto.{new_gcm}
use spectre_relay.Prekeys.Validation.{AreDistinct}
use spectre_relay.Store.Messages.{QueuedMessage}
use spectre_relay.Store.Fifo.{with_expiry, enqueue_all, drain_queue-enqueue_all, Succeeds}
use spectre_relay.Store.{Conn, unix, lookup_client, EnqueueEnv, drain_queue, expiry_of}
use spectre_relay.Router.{sent, marshal_queued}
use spectre_relay.Sections.{find, put, take, call, done, ◌>>=◌, ◌>>◌, serve}
use spectre_relay.Sections.Handlers.{
  leave_if, flush_program, deliver_here, frames_program, flush_loop,
}
use spectre_relay.Sections.System.{Thread, System, goes, fixed_of, turn, turns}
use spectre_relay.Relay.Connection.{is_over}
use spectre_relay.Sections.Handouts.{requests, handouts, handouts-AreDistinct}
use spectre_relay.Sections.Paths.{
  Act, does, writes, written, put_back, deliver_here-Runs, flush_program-Runs,
}
use spectre_relay.Sections.Races.{
  start_of, loop_of, missed, overtaken, turns-unnoticed, turns-overtaken,
}
use spectre_relay.Tests.Handlers.{server}
use spectre_relay.Tests.Pools
use spectre_relay.Tests.Offline.{carol, syntax, flush_env}
use spectre_relay.Tests.{
  toy_sql, toy_sql-IsReliable, toy_aead, toy_ed25519, calm, enqueue_env, deliver_env, envelope,
  message,
}

-- Two threads that are about to fetch the bundle of bob.
abbrev fetching : Thread
fetching = call (serve calm Pools.bob true) (λ r. done none)

abbrev two_fetches : System toy_sql
two_fetches = record {
  server = record server { prekeys = Pools.store };
  threads = fetching ∷ fetching ∷ [];
  sent = [];
}

handouts-AreDistinct_example : AreDistinct (
    handouts toy_sql Pools.syntax toy_aead toy_ed25519 Pools.bob two_fetches (goes 1 ∷ goes 0 ∷ []))
handouts-AreDistinct_example =
    handouts-AreDistinct toy_sql Pools.syntax toy_aead toy_ed25519 Pools.bob two_fetches
      Pools.bundle (goes 1 ∷ goes 0 ∷ []) Pools.bundle-IsWellFormed Pools.found
      (unfold requests turn in tt)

-- A message for carol is about to be delivered, and her connection about to start.
abbrev starting : Thread
starting =
    start_of toy_sql syntax toy_aead toy_ed25519
      (fixed_of toy_sql syntax toy_aead toy_ed25519 server) flush_env 7 [] carol

abbrev delivering : Thread
delivering =
    deliver_here toy_sql syntax toy_aead toy_ed25519 deliver_env carol message >>= λ _. done none

abbrev both : System toy_sql
both = record { server = server; threads = starting ∷ delivering ∷ []; sent = [] }

stored : Succeeds toy_sql syntax toy_aead server.router.store 6 enqueue_env message
unfolding unix ◌+ℤ◌
stored = record {
  nonce = 9 ∷ [];
  drawn = refl;
  sized = refl;
  printable = refl;
  message = inl (envelope, refl, refl, (omega arith, tt));
  early = omega arith;
  live = refl;
}

turns-unnoticed_example :
    let y =
      turns toy_sql syntax toy_aead toy_ed25519 both (missed toy_sql syntax toy_aead toy_ed25519) in
    let store = y.server.router.store in
    (y.threads
      ≡ loop_of toy_sql syntax toy_aead toy_ed25519
          (fixed_of toy_sql syntax toy_aead toy_ed25519 server)
          7
          []
          carol
        ∷ done none
        ∷ [])
    × (y.sent ≡ [])
    × (lookup_client toy_sql store carol ≡ some 7)
    × ((drain_queue toy_sql syntax toy_aead calm 6 store carol).1
        ≡ with_expiry message
            (expiry_of toy_sql syntax toy_aead server.router.store enqueue_env.now)
          ∷ [])
turns-unnoticed_example =
    turns-unnoticed toy_sql syntax toy_aead toy_ed25519 toy_sql-IsReliable both []
      (fixed_of toy_sql syntax toy_aead toy_ed25519 server) deliver_env flush_env carol 7 [] message
      (λ _. done none) calm 6 refl (unfold lookup_client lookup text_eq in refl) refl
      (unfold new_gcm in refl) stored

-- One message waits for carol.
abbrev calls : List (EnqueueEnv × QueuedMessage)
calls = (enqueue_env, message) ∷ []

abbrev behind : System toy_sql
behind = record {
  server = record server {
    router = record server.router {
      store = enqueue_all toy_sql syntax toy_aead carol server.router.store calls;
    };
  };
  threads = starting ∷ delivering ∷ [];
  sent = [];
}

turns-overtaken_example :
    let y =
      turns toy_sql syntax toy_aead toy_ed25519 behind
        (overtaken toy_sql syntax toy_aead toy_ed25519) in
    let k = fixed_of toy_sql syntax toy_aead toy_ed25519 server in
    (y.sent ≡ [] ++ sent 7 (1 ∷ []) ∷ sent 7 (1 ∷ []) ∷ [])
    × (y.threads
        ≡ (flush_loop toy_sql syntax toy_aead toy_ed25519 flush_env 1 carol 7 []
            >>= (λ _.
                frames_program toy_sql syntax toy_aead toy_ed25519 k carol 7 []
                >> leave_if toy_sql syntax toy_aead toy_ed25519 (is_over []) carol 7)
            >>= λ _. done none)
          ∷ done none
          ∷ [])
turns-overtaken_example =
    turns-overtaken toy_sql syntax toy_aead toy_ed25519 behind []
      (fixed_of toy_sql syntax toy_aead toy_ed25519 server) deliver_env flush_env carol 7 [] message
      (with_expiry message (expiry_of toy_sql syntax toy_aead server.router.store enqueue_env.now))
      [] (1 ∷ []) (1 ∷ []) (λ _. done none) refl
      (drain_queue-enqueue_all toy_sql syntax toy_aead toy_sql-IsReliable server.router.store calm 6
        carol calls (unfold new_gcm in refl) (stored, tt) (omega arith) refl).0
      (unfold marshal_queued in refl) refl (unfold marshal_queued in refl) refl

-- The paths on which carol is not connected, and on which one message waits for her.
deliver_here-Runs_example :
    let acts : List Act = does (find carol) none ∷ does (put enqueue_env carol message) tt ∷ [] in
    (found : Option Conn) × ((acts
        ≡ does (find carol) found ∷ does (put enqueue_env carol message) tt ∷ [])
      ⊎ ((c : Conn) × (raw : Bytes) × (found ≡ some c)
          × (marshal_queued syntax message ≡ ok raw)
          × (acts ≡ does (find carol) found ∷ writes (sent c raw ∷ []) ∷ [])))
unfolding deliver_here
deliver_here-Runs_example =
    deliver_here-Runs toy_sql syntax toy_aead toy_ed25519 deliver_env carol message
      (does (find carol) none ∷ does (put enqueue_env carol message) tt ∷ [])
      (none, does (put enqueue_env carol message) tt ∷ [], refl, (tt, [], refl, refl))

flush_program-Runs_example :
    let acts : List Act =
      does (take calm 6 carol) (message ∷ []) ∷ writes (sent 7 (1 ∷ []) ∷ []) ∷ [] in
    (before after : List QueuedMessage) × (acts
      ≡ does (take calm 6 carol) (before ++ after)
        ∷ (written syntax 7 before ++ put_back flush_env.store (length before) carol after))
    × ((after ≡ []) ⊎ ((x : Error) × (flush_env.write (length before) ≡ some x)))
unfolding flush_program flush_loop marshal_queued
flush_program-Runs_example =
    flush_program-Runs toy_sql syntax toy_aead toy_ed25519 flush_env carol 7
      (does (take calm 6 carol) (message ∷ []) ∷ writes (sent 7 (1 ∷ []) ∷ []) ∷ [])
      (message ∷ [], writes (sent 7 (1 ∷ []) ∷ []) ∷ [], refl, ([], refl, refl))
