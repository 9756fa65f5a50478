-- ===== src/Server/Offline.antt =====
-- What waits for a user who is not connected, from its delivery to the start of the connection that
-- gets it: `deliver` and `FlushQueue` of server/router.go, and `serveConn` of server/server.go.
use spectre_relay.Prelude.{
  ℕ, ◌≤◌, ◌≡◌, refl, sym, ap, ◌∙◌, inl, inr, false, none, some, List, [], ◌∷◌, ◌++◌, length,
  append-nil, contains, Text, ok, arith,
}
use spectre_relay.Crypto.{Aead, Ed25519, new_gcm}
use spectre_relay.Json.{Syntax}
use spectre_relay.Golib.Strings.Laws.{split_n-plain}
use spectre_relay.Store.Database.{Sqlite, IsReliable, rows_for}
use spectre_relay.Store.Messages.{QueuedMessage}
use spectre_relay.Store.Rows.{table, enqueue-table}
use spectre_relay.Store.Fifo.{enqueue_all, expected, AllSucceed, drain_queue-enqueue_all}
use spectre_relay.Store.{
  Conn, Store, EnqueueEnv, enqueue, drain_queue, lookup_client, register, persist_locked,
}
use spectre_relay.Prelude.Assoc.{Map, lookup, insert}
use spectre_relay.Files.{WriteEnv}
use spectre_relay.Router.{
  Router, DeliverEnv, FlushEnv, deliver, deliver_local, deliver_to, flush_queue,
}
use spectre_relay.Router.Flushing.{writes, flush_queue-split}
use spectre_relay.Auth.{AuthEnv, authenticate, extract_ip}
use spectre_relay.Server.{Server, serve_conn, normalize_user}

-- What the calls of `Enqueue` are.
abbrev pub stores_of : List (DeliverEnv × QueuedMessage) → List (EnqueueEnv × QueuedMessage)
stores_of [] = []
stores_of ((env, m) ∷ l) = (env.store, m) ∷ stores_of l

module _ (sql : Sqlite) (syntax : Syntax) (aead : Aead) where
  -- Deliveries to one user, one after another.
  unfoldable pub deliver_all : Router sql → Text → List (DeliverEnv × QueuedMessage) → Router sql
  deliver_all r user [] = r
  deliver_all r user ((env, m) ∷ l) = deliver_all (deliver sql syntax aead env r user m).0 user l

  enqueue-clients :
      (env : EnqueueEnv) (s : Store sql) (user : Text) (m : QueuedMessage)
      → (enqueue sql syntax aead env s user m).clients ≡ s.clients
  enqueue-clients env s user m =
      let (_, (_, _, same)) = enqueue-table sql syntax aead env s user m in same

  deliver-absent :
      (env : DeliverEnv) (r : Router sql) (user : Text) (m : QueuedMessage)
      → contains b'@' user ≡ false
      → lookup_client sql r.store user ≡ none
      → (deliver sql syntax aead env r user m).0
        ≡ record r { store = enqueue sql syntax aead env.store r.store user m }
  unfolding deliver deliver_local
  deliver-absent env r user m plain absent =
      rw (split_n-plain b'@' user plain, deliver_to, absent, deliver_local) refl

  deliver_all-absent :
      (r : Router sql) (user : Text) (l : List (DeliverEnv × QueuedMessage))
      → contains b'@' user ≡ false
      → lookup_client sql r.store user ≡ none
      → deliver_all r user l
        ≡ record r { store = enqueue_all sql syntax aead user r.store (stores_of l) }
  unfolding deliver_all enqueue_all lookup_client
  deliver_all-absent r user [] plain absent = refl
  deliver_all-absent r user ((env, m) ∷ l) plain absent =
      rw (deliver-absent env r user m plain absent) (
        deliver_all-absent (record r { store = enqueue sql syntax aead env.store r.store user m })
          user l plain (rw (enqueue-clients env.store r.store user m) absent))

  enqueue_all-clients :
      (s : Store sql) (user : Text) (calls : List (EnqueueEnv × QueuedMessage))
      → (enqueue_all sql syntax aead user s calls).clients ≡ s.clients
  unfolding enqueue_all
  enqueue_all-clients s user [] = refl
  enqueue_all-clients s user ((env, m) ∷ calls) =
      enqueue_all-clients (enqueue sql syntax aead env s user m) user calls
      ∙ enqueue-clients env s user m

  -- Who is connected does not matter to the queue.
  pub drain_queue-clients :
      (env : WriteEnv) (now : ℕ) (s : Store sql) (user : Text) (cs : Map Conn)
      → let t = drain_queue sql syntax aead env now (record s { clients = cs }) user in
        let u = drain_queue sql syntax aead env now s user in
        (t.1 ≡ u.1) × (t.0 ≡ record u.0 { clients = cs })
  unfolding drain_queue persist_locked
  drain_queue-clients env now s user cs = ground arith

  -- What a user gets whose connection starts when messages wait, and no write fails.
  flush_queue-waiting :
      (rel : IsReliable sql) (env : FlushEnv) (r : Router sql) (s : Store sql) (user : Text)
      (c : Conn) (calls : List (EnqueueEnv × QueuedMessage)) (cs : Map Conn)
      → r.store ≡ record (enqueue_all sql syntax aead user s calls) { clients = cs }
      → ((i : ℕ) → env.write i ≡ none)
      → new_gcm s.key ≡ none
      → AllSucceed sql syntax aead s env.now calls
      → length calls ≤ 500
      → rows_for user (table sql syntax aead s) ≡ []
      → let t = flush_queue sql syntax aead env r user c in
        (t.1 ≡ writes syntax c (expected sql syntax aead s calls))
        × (rows_for user (table sql syntax aead t.0.store) ≡ [])
  unfolding enqueue_all
  flush_queue-waiting rel env r s user c calls cs same fine key good few empty =
      let w = enqueue_all sql syntax aead user s calls in
      let (got, left) =
        drain_queue-enqueue_all sql syntax aead rel s env.drain env.now user calls key good few
          empty in
      let (same_messages, same_store) = drain_queue-clients env.drain env.now w user cs in
      let messages : (drain_queue sql syntax aead env.drain env.now r.store user).1
          ≡ expected sql syntax aead s calls =
        rw same (same_messages ∙ got) in
      let rows : rows_for user
            (table sql syntax aead (drain_queue sql syntax aead env.drain env.now r.store user).0)
          ≡ [] =
        rw (same, same_store) left in
      let (before, after, whole, written, kept, stopped) =
        flush_queue-split sql syntax aead env r user c in
      let nothing_left : after ≡ [] = elim stopped [
        | inl e ↦ e
        | inr (x, bad) ↦ absurd (ground (arith, fine (length before), bad))
      ] in
      let all : before ≡ expected sql syntax aead s calls =
        sym (ap (◌++◌ before) nothing_left ∙ append-nil before) ∙ sym whole ∙ messages in
      (written ∙ ap (writes syntax c) all, rw (kept, nothing_left) rows)

module _ (sql : Sqlite) (syntax : Syntax) (aead : Aead) (ed : Ed25519) where
  -- Up to 500 messages are delivered to a user who is not connected, whose name has no `@` and whose
  -- queue is empty, and are stored without a failure, in a database in which no statement fails and
  -- under a key that the cipher takes. If the user then authenticates, before any of them expires,
  -- and no write fails, the connection starts with those of these messages that can be printed, in
  -- their order and with the expiry that storing them set, displaces no other connection, and leaves
  -- the queue empty.
  pub serve_conn-waiting :
      (rel : IsReliable sql) (auth : AuthEnv) (now : ℕ) (env : FlushEnv) (s : Server sql)
      (addr name user : Text) (c : Conn) (l : List (DeliverEnv × QueuedMessage))
      → contains b'@' user ≡ false
      → lookup_client sql s.router.store user ≡ none
      → rows_for user (table sql syntax aead s.router.store) ≡ []
      → new_gcm s.router.store.key ≡ none
      → AllSucceed sql syntax aead s.router.store env.now (stores_of l)
      → length (stores_of l) ≤ 500
      → (authenticate ed syntax auth s.auth (extract_ip addr) now).1 ≡ ok name
      → normalize_user s.cfg.relay_id name ≡ user
      → ((i : ℕ) → env.write i ≡ none)
      → let waiting : Server sql = record s {
        router = deliver_all sql syntax aead s.router user l;
      } in
        let (t, session) = serve_conn sql syntax aead ed auth now env waiting addr c in
        (session
          ≡ some (record {
            user = user;
            displaced = none;
            effects = writes syntax c (expected sql syntax aead s.router.store (stores_of l));
          }))
        × (rows_for user (table sql syntax aead t.router.store) ≡ [])
  unfolding serve_conn register lookup_client
  serve_conn-waiting rel auth now env s addr name user c l plain absent empty key good few known
        local fine =
      let calls = stores_of l in
      let q = deliver_all sql syntax aead s.router user l in
      let cs : Map Conn = insert user c q.store.clients in
      let r : Router sql = record q { store = record q.store { clients = cs } } in
      let kept : q.store ≡ enqueue_all sql syntax aead user s.router.store calls =
        ap (λ (x : Router sql). x.store)
          (deliver_all-absent sql syntax aead s.router user l plain absent) in
      let nobody : lookup user q.store.clients ≡ none =
        rw (kept, enqueue_all-clients sql syntax aead s.router.store user calls) absent in
      let (effects, left) =
        flush_queue-waiting sql syntax aead rel env r s.router.store user c calls cs
          (ap (λ (x : Store sql). record x { clients = cs }) kept) fine key good few empty in
      rw (known, serve_conn, local) (ground (arith, nobody, effects), left)
