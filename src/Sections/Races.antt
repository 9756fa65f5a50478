-- ===== src/Sections/Races.antt =====
-- Orders of sections that the mutexes allow: a delivery by server/router.go next to the start of the
-- connection of its recipient, `Register` and `FlushQueue` in `serveConn` of server/server.go.
use spectre_relay.Prelude.{
  ℕ, ◌≡◌, refl, ap, ◌∙◌, none, some, List, [], ◌∷◌, ◌++◌, append-nil, append_assoc, Text, Bytes,
  text_eq_iff, ok, arith,
}
use spectre_relay.Prelude.Assoc.{lookup, insert, lookup-insert}
use spectre_relay.Crypto.{Aead, Ed25519, new_gcm}
use spectre_relay.Json.{Syntax}
use spectre_relay.Files.{WriteEnv}
use spectre_relay.Store.Database.{Sqlite, IsReliable, rows_for}
use spectre_relay.Store.Messages.{QueuedMessage}
use spectre_relay.Store.Rows.{table, enqueue-table}
use spectre_relay.Store.Fifo.{
  Succeeds, with_expiry, enqueue_all, drain_queue-enqueue_all, drain_queue-reliable,
  rows_for-without_user, same_calls,
}
use spectre_relay.Store.{
  Conn, Store, EnqueueEnv, register, lookup_client, enqueue, drain_queue, expiry_of, read_rows,
  persist_locked,
}
use spectre_relay.Router.{DeliverEnv, FlushEnv, sent, marshal_queued}
use spectre_relay.Relay.Connection.{Incoming, is_over}
use spectre_relay.Server.{Server}
use spectre_relay.Server.Offline.{drain_queue-clients}
use spectre_relay.Sections.{done, ◌>>=◌, ◌>>◌, perform, with_store}
use spectre_relay.Sections.Handlers.{
  leave_if, Fixed, deliver_here, flush_loop, flush_program, frames_program, registered,
}
use spectre_relay.Sections.System.{Thread, System, Turn, goes, go, turn, turns}

module _ (sql : Sqlite) (syntax : Syntax) (aead : Aead) (ed : Ed25519) where
  -- The connection of a user who is authenticated, and what is left of it after `FlushQueue`.
  abbrev pub start_of : Fixed → FlushEnv → Conn → List Incoming → Text → Thread
  start_of k flush c l user = registered sql syntax aead ed k flush c l user >>= λ _. done none

  abbrev pub loop_of : Fixed → Conn → List Incoming → Text → Thread
  loop_of k c l user =
      (frames_program sql syntax aead ed k user c l
        >> leave_if sql syntax aead ed (is_over l) user c)
      >>= λ _. done none

  drain_nothing :
      (rel : IsReliable sql) (env : WriteEnv) (now : ℕ) (s : Store sql) (user : Text)
      → rows_for user (table sql syntax aead s) ≡ []
      → (drain_queue sql syntax aead env now s user).1 ≡ []
  unfolding read_rows
  drain_nothing rel env now s user empty =
      (drain_queue-reliable sql syntax aead rel env now s user).1 ∙ rw empty refl

  abbrev pub missed : List Turn
  missed = goes 1 ∷ goes 0 ∷ goes 0 ∷ goes 1 ∷ []

  -- The server after these turns.
  abbrev after_missed :
      DeliverEnv → FlushEnv → Server sql → Text → Conn → QueuedMessage → Server sql
  after_missed env flush s user c m =
      let entered = with_store sql syntax aead s (register sql s.router.store user c).0 in
      let d = drain_queue sql syntax aead flush.drain flush.now entered.router.store user in
      with_store sql syntax aead entered (enqueue sql syntax aead env.store d.0 user m)

  turns-missed :
      (x : System sql) (ps : List Thread) (k : Fixed) (env : DeliverEnv) (flush : FlushEnv)
      (user : Text) (c : Conn) (l : List Incoming) (m : QueuedMessage) (rest : Unit {0} → Thread)
      → x.threads
        ≡ start_of k flush c l user ∷ (deliver_here sql syntax aead ed env user m >>= rest) ∷ ps
      → lookup_client sql x.server.router.store user ≡ none
      → (drain_queue sql syntax aead flush.drain flush.now
          (register sql x.server.router.store user c).0
          user).1
        ≡ []
      → turns sql syntax aead ed x missed ≡ record {
        server = after_missed env flush x.server user c m;
        threads = loop_of k c l user ∷ rest tt ∷ ps;
        sent = x.sent;
      }
  unfolding turns turn perform deliver_here flush_program flush_loop
  turns-missed x ps k env flush user c l m rest e absent nothing =
      let n = append-nil x.sent in rw (e, go, absent, flush_loop, nothing, n, n, n, n) refl

  -- A delivery that finds its recipient not connected, and the start of a connection of that
  -- recipient, whose queue is empty, before the delivery goes on to `Enqueue`. With a database in
  -- which no statement fails, a key that the cipher takes and a storing that succeeds: the
  -- connection is registered, its `FlushQueue` is over and has found nothing, and it only reads from
  -- here on. Nothing has been sent. The message is in the queue: a drain at a time at which it is
  -- still live would return it.
  pub turns-unnoticed :
      (rel : IsReliable sql) (x : System sql) (ps : List Thread) (k : Fixed) (env : DeliverEnv)
      (flush : FlushEnv) (user : Text) (c : Conn) (l : List Incoming) (m : QueuedMessage)
      (rest : Unit {0} → Thread) (drain : WriteEnv) (later : ℕ)
      → x.threads
        ≡ start_of k flush c l user ∷ (deliver_here sql syntax aead ed env user m >>= rest) ∷ ps
      → lookup_client sql x.server.router.store user ≡ none
      → rows_for user (table sql syntax aead x.server.router.store) ≡ []
      → new_gcm x.server.router.store.key ≡ none
      → Succeeds sql syntax aead x.server.router.store later env.store m
      → let y = turns sql syntax aead ed x missed in
        let store = y.server.router.store in
        let expiry = expiry_of sql syntax aead x.server.router.store env.store.now in
        (y.threads ≡ loop_of k c l user ∷ rest tt ∷ ps)
        × (y.sent ≡ x.sent)
        × (lookup_client sql store user ≡ some c)
        × ((drain_queue sql syntax aead drain later store user).1 ≡ with_expiry m expiry ∷ [])
  unfolding register lookup_client enqueue_all drain_queue persist_locked
  turns-unnoticed rel x ps k env flush user c l m rest drain later e absent empty key good =
      let s = x.server.router.store in
      let entered = (register sql s user c).0 in
      let d = drain_queue sql syntax aead flush.drain flush.now entered user in
      let nothing = drain_nothing rel flush.drain flush.now entered user empty in
      let whole = turns-missed x ps k env flush user c l m rest e absent nothing in
      let left : rows_for user (table sql syntax aead d.0) ≡ [] =
        ap (rows_for user)
          (drain_queue-reliable sql syntax aead rel flush.drain flush.now entered user).0
        ∙ rows_for-without_user sql syntax aead user (table sql syntax aead s) in
      let kept : (d.0.key ≡ s.key) × (d.0.ttl ≡ s.ttl) × (d.0.clients ≡ insert user c s.clients) =
        ground arith in
      let calls : List (EnqueueEnv × QueuedMessage) = (env.store, m) ∷ [] in
      let (good', same) = same_calls sql syntax aead s d.0 later calls kept.1 (good, tt) in
      let (got, _) =
        drain_queue-enqueue_all sql syntax aead rel d.0 drain later user calls (rw kept.0 key) good'
          (omega arith) left in
      let settled = (enqueue-table sql syntax aead env.store d.0 user m).1 in
      rw whole (
        refl,
        refl,
        ground
            (arith, kept.2, settled.2, lookup-insert user user c s.clients, text_eq_iff user user),
        got ∙ same,
      )

  abbrev pub overtaken : List Turn
  overtaken = goes 0 ∷ goes 1 ∷ goes 1 ∷ goes 0 ∷ goes 0 ∷ []

  -- A connection that is registered and has not flushed its queue yet, and a delivery that finds
  -- this connection. If both the new message and the first one that waits can be printed, and the two
  -- writes succeed, the new one is written first, and the connection goes on with the rest of the
  -- queue.
  pub turns-overtaken :
      (x : System sql) (ps : List Thread) (k : Fixed) (env : DeliverEnv) (flush : FlushEnv)
      (user : Text) (c : Conn) (l : List Incoming) (m old : QueuedMessage)
      (olds : List QueuedMessage) (raw raw_old : Bytes) (rest : Unit {0} → Thread)
      → x.threads
        ≡ start_of k flush c l user ∷ (deliver_here sql syntax aead ed env user m >>= rest) ∷ ps
      → (drain_queue sql syntax aead flush.drain flush.now x.server.router.store user).1
        ≡ old ∷ olds
      → marshal_queued syntax m ≡ ok raw
      → env.write ≡ none
      → marshal_queued syntax old ≡ ok raw_old
      → flush.write 0 ≡ none
      → let y = turns sql syntax aead ed x overtaken in
        (y.sent ≡ x.sent ++ sent c raw ∷ sent c raw_old ∷ [])
        × (y.threads
            ≡ (flush_loop sql syntax aead ed flush 1 user c olds
                >>= (λ _.
                    frames_program sql syntax aead ed k user c l
                    >> leave_if sql syntax aead ed (is_over l) user c)
                >>= λ _. done none)
              ∷ rest tt
              ∷ ps)
  unfolding turns turn perform deliver_here flush_program flush_loop register lookup_client
  turns-overtaken x ps k env flush user c l m old olds raw raw_old rest e waiting printed written
        printed_old written_old =
      let s = x.server.router.store in
      let entered = (register sql s user c).0 in
      let found : lookup user (insert user c s.clients) ≡ some c =
        ground (arith, lookup-insert user user c s.clients, text_eq_iff user user) in
      let drained =
        (drain_queue-clients sql syntax aead flush.drain flush.now s user
          (insert user c s.clients)).0
        ∙ waiting in
      let n = append-nil x.sent in
      rw
        (
          e,
          go,
          found,
          printed,
          written,
          flush_loop,
          drained,
          printed_old,
          written_old,
          n,
          n,
          append-nil (x.sent ++ (sent c raw ∷ [])),
          append_assoc x.sent (sent c raw ∷ []) (sent c raw_old ∷ []),
        )
        (refl, refl)
