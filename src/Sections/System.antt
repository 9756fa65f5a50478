-- ===== src/Sections/System.antt =====
-- The goroutines of the process: `handleWS`, `handlePrekeysGet` and `handleFederationDeliver` of
-- server/server.go, which net/http runs one for each request, and `purgeLoop` of server/store.go.
-- Each is at some place of its program. A turn starts one or lets one go on by one section or write.
use spectre_relay.Prelude.{ℕ, zero, suc, Option, none, some, List, [], ◌∷◌, ◌++◌, Text}
use spectre_relay.Crypto.{Aead, Ed25519}
use spectre_relay.Json.{Syntax}
use spectre_relay.Files.{WriteEnv}
use spectre_relay.Store.Database.{Sqlite}
use spectre_relay.Store.{Conn, purge_expired}
use spectre_relay.Router.{DeliverEnv, FlushEnv, Effect}
use spectre_relay.Auth.{AuthEnv}
use spectre_relay.Relay.Connection.{Incoming, whole_conn}
use spectre_relay.Server.{
  Server, FederationRequest, Response, handle_prekeys_get, handle_federation_deliver,
}
use spectre_relay.Sections.{Program, done, emit, call, ◌>>=◌, perform, with_store}
use spectre_relay.Sections.Handlers.{
  Fixed, conn_program, prekeys_program, federation_program, purge_program,
}

-- What a goroutine is started for.
pub data Job : Type 0 where
  connection : AuthEnv → ℕ → FlushEnv → Text → Conn → List Incoming → Job
  fetch : WriteEnv → ℕ → Text → Text → Job
  federation : DeliverEnv → FederationRequest → Job
  purge : ℕ → WriteEnv → Job

-- A goroutine, by what it has left to do. It ends with the response, where it has one.
abbrev pub Thread : Type 0
Thread = Program (Option Response)

pub data Turn : Type 0 where
  starts : Job → Turn
  goes : ℕ → Turn

-- The newest thread is the first.
pub record System (sql : Sqlite) : Type 0 where
  pub server : Server sql
  pub threads : List Thread
  pub sent : List Effect

module _ (sql : Sqlite) (syntax : Syntax) (aead : Aead) (ed : Ed25519) where
  -- What the programs take from a server.
  abbrev pub fixed_of : Server sql → Fixed
  fixed_of s = record {
    cfg = s.cfg;
    max_message_size = s.router.max_message_size;
    relay_id = s.router.relay_id;
    ca = s.sealed_ca;
  }

  abbrev pub program_of : Fixed → Job → Thread
  program_of k (connection auth now flush addr c l) =
      conn_program sql syntax aead ed k auth now flush addr c l >>= λ _. done none
  program_of k (fetch env now method path) =
      prekeys_program sql syntax aead ed env now method path >>= λ r. done (some r)
  program_of k (federation env req) =
      federation_program sql syntax aead ed k env req >>= λ r. done (some r)
  program_of k (purge now env) = purge_program sql syntax aead ed now env >>= λ _. done none

  -- What the job does where it is alone: the handler.
  unfoldable pub handled : Server sql → Job → Server sql × List Effect × Option Response
  handled s (connection auth now flush addr c l) =
      let (t, effects) = whole_conn sql syntax aead ed auth now flush s addr c l in
      (t, effects, none)
  handled s (fetch env now method path) =
      let (t, r) = handle_prekeys_get sql syntax aead ed env now s method path in (t, [], some r)
  handled s (federation env req) =
      let (t, effects, r) = handle_federation_deliver sql syntax aead ed env s req in
      (t, effects, some r)
  handled s (purge now env) = (
    with_store sql syntax aead s (purge_expired sql syntax aead now env s.router.store),
    [],
    none,
  )

  abbrev pub go : Server sql → Thread → Server sql × List Effect × Thread
  go s (done r) = (s, [], done r)
  go s (emit es p) = (s, es, p)
  go s (call a k) = let (t, r) = perform sql syntax aead s a in (t, [], k r)

  abbrev pub go_one : Server sql → List Thread → ℕ → Server sql × List Effect × List Thread
  go_one s [] i = (s, [], [])
  go_one s (p ∷ ps) zero = let (t, es, q) = go s p in (t, es, q ∷ ps)
  go_one s (p ∷ ps) (suc i) = let (t, es, qs) = go_one s ps i in (t, es, p ∷ qs)

  unfoldable pub turn : System sql → Turn → System sql
  turn x (starts j) = record x { threads = program_of (fixed_of x.server) j ∷ x.threads }
  turn x (goes i) =
      let (t, es, ps) = go_one x.server x.threads i in
      record { server = t; threads = ps; sent = x.sent ++ es }

  unfoldable pub turns : System sql → List Turn → System sql
  turns x [] = x
  turns x (t ∷ ts) = turns (turn x t) ts
