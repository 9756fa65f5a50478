-- ===== src/Relay/Connection.antt =====
-- A connection from its handshake to its end: `serveConn` of server/server.go with its loop and its
-- deferred call, alone and as a run of steps of the relay.
use spectre_relay.Prelude.{
  text_eq_iff, Bool, true, false, if◌then◌else◌, ℕ, ◌≡◌, ◌≢◌, refl, sym, ap, ◌∙◌, Option, none,
  some, List, [], ◌∷◌, ◌++◌, Text, Bytes, Error, arith,
}
use spectre_relay.Prelude.Assoc.{lookup-remove}
use spectre_relay.Crypto.{Aead, Ed25519}
use spectre_relay.Json.{Syntax}
use spectre_relay.Store.Database.{Sqlite}
use spectre_relay.Store.{Conn, lookup_client, unregister}
use spectre_relay.Router.{FlushEnv, Effect}
use spectre_relay.Auth.{AuthEnv}
use spectre_relay.Server.{Server, FrameEnv, Session, serve_conn, handle_authed_frame, end_conn}
use spectre_relay.Relay.{Event, connects, sends, disconnects, step, run}

-- What one `Read` returns: a text or binary frame, another type of frame, or an error.
pub data Incoming : Type 0 where
  frame : FrameEnv → Bytes → Incoming
  other_frame : Incoming
  read_error : Error → Incoming

-- Whether the loop ends. If none of the reads fails, it waits in the next one.
abbrev pub is_over : List Incoming → Bool
is_over [] = false
is_over (frame env content ∷ l) = is_over l
is_over (other_frame ∷ l) = is_over l
is_over (read_error e ∷ l) = true

is_over-ends : (l rest : List Incoming) (e : Error) → is_over (l ++ read_error e ∷ rest) ≡ true
is_over-ends [] rest e = refl
is_over-ends (frame env content ∷ l) rest e = is_over-ends l rest e
is_over-ends (other_frame ∷ l) rest e = is_over-ends l rest e
is_over-ends (read_error x ∷ l) rest e = refl

-- The steps that the loop takes.
abbrev pub steps_of : Text → Conn → List Incoming → List Event
steps_of user c [] = []
steps_of user c (frame env content ∷ l) = sends env user c content ∷ steps_of user c l
steps_of user c (other_frame ∷ l) = steps_of user c l
steps_of user c (read_error e ∷ l) = []

module _ (sql : Sqlite) (syntax : Syntax) (aead : Aead) (ed : Ed25519) where
  -- The loop; at the end of the list it waits.
  unfoldable pub read_loop : Server sql → Text → Conn → List Incoming → Server sql × List Effect
  read_loop s user c [] = (s, [])
  read_loop s user c (frame env content ∷ l) =
      let (t, effects) = handle_authed_frame sql syntax aead ed env s user c content in
      let (u, more) = read_loop t user c l in (u, effects ++ more)
  read_loop s user c (other_frame ∷ l) = read_loop s user c l
  read_loop s user c (read_error e ∷ l) = (s, [])

  abbrev after_start : Conn → List Incoming → Server sql × Option Session → Server sql × List Effect
  after_start c l (s, none) = (s, [])
  after_start c l (s, some session) =
      let (t, effects) = read_loop s session.user c l in
      (
        if is_over l then end_conn sql syntax aead ed t session.user c else t,
        session.effects ++ effects,
      )

  unfoldable pub whole_conn :
      AuthEnv → ℕ → FlushEnv → Server sql → Text → Conn → List Incoming → Server sql × List Effect
  whole_conn auth now flush s addr c l =
      after_start c l (serve_conn sql syntax aead ed auth now flush s addr c)

  run_append :
      (s : Server sql) (l m : List Event)
      → run sql syntax aead ed s (l ++ m) ≡ run sql syntax aead ed (run sql syntax aead ed s l) m
  unfolding run
  run_append s [] m = refl
  run_append s (e ∷ l) m = run_append (step sql syntax aead ed s e) l m

  read_loop-run :
      (s : Server sql) (user : Text) (c : Conn) (l : List Incoming)
      → (read_loop s user c l).0 ≡ run sql syntax aead ed s (steps_of user c l)
  unfolding read_loop run step
  read_loop-run s user c [] = refl
  read_loop-run s user c (frame env content ∷ l) =
      read_loop-run (handle_authed_frame sql syntax aead ed env s user c content).0 user c l
  read_loop-run s user c (other_frame ∷ l) = read_loop-run s user c l
  read_loop-run s user c (read_error e ∷ l) = refl

  -- The loop ends at the first error of a read.
  read_loop-ends :
      (s : Server sql) (user : Text) (c : Conn) (l rest : List Incoming) (e : Error)
      → read_loop s user c (l ++ read_error e ∷ rest) ≡ read_loop s user c (l ++ read_error e ∷ [])
  unfolding read_loop
  read_loop-ends s user c [] rest e = refl
  read_loop-ends s user c (frame env content ∷ l) rest e =
      let t = (handle_authed_frame sql syntax aead ed env s user c content).0 in
      rw (read_loop-ends t user c l rest e) refl
  read_loop-ends s user c (other_frame ∷ l) rest e = read_loop-ends s user c l rest e
  read_loop-ends s user c (read_error x ∷ l) rest e = refl

  -- The steps after the start.
  abbrev later_steps : Conn → List Incoming → Option Session → List Event
  later_steps c l none = []
  later_steps c l (some session) = steps_of session.user c l ++ disconnects session.user c ∷ []

  -- What the connection is as steps of the relay.
  abbrev pub whole_steps :
      AuthEnv → ℕ → FlushEnv → Text → Conn → List Incoming → Option Session → List Event
  whole_steps auth now flush addr c l session =
      connects auth now flush addr c ∷ later_steps c l session

  end_conn-gone :
      (s : Server sql) (user : Text) (c : Conn)
      → lookup_client sql (end_conn sql syntax aead ed s user c).router.store user ≢ some c
  unfolding end_conn unregister lookup_client
  end_conn-gone s user c h =
      ground (arith, h, text_eq_iff user user, lookup-remove user user s.router.store.clients)

  after_start-run :
      (c : Conn) (l rest : List Incoming) (e : Error) (t : Server sql × Option Session)
      → let w = after_start c (l ++ read_error e ∷ rest) t in
        (w ≡ after_start c (l ++ read_error e ∷ []) t)
        × (w.0 ≡ run sql syntax aead ed t.0 (later_steps c (l ++ read_error e ∷ rest) t.1))
        × ((x : Session) → t.1 ≡ some x → lookup_client sql w.0.router.store x.user ≢ some c)
  unfolding run step
  after_start-run c l rest e (s, none) = (refl, refl, λ x h. cc)
  after_start-run c l rest e (s, some session) =
      let loop = read_loop s session.user c (l ++ read_error e ∷ rest) in
      rw (is_over-ends l rest e, is_over-ends l [] e)
        (
          ap
              (λ (w : Server sql × List Effect).
                (end_conn sql syntax aead ed w.0 session.user c, session.effects ++ w.1))
              (read_loop-ends s session.user c l rest e),
          ap (λ (x : Server sql). end_conn sql syntax aead ed x session.user c)
                (read_loop-run s session.user c (l ++ read_error e ∷ rest))
              ∙ sym (
                  run_append s (steps_of session.user c (l ++ read_error e ∷ rest))
                    (disconnects session.user c ∷ [])),
          λ x h. let same : x ≡ session = cc in rw same (end_conn-gone loop.0 session.user c),
        )

  -- A connection leaves the server as its steps do, one after another: its start, each text or
  -- binary frame up to the first error of a read, and its end. What would come after the first error
  -- is not looked at. A connection that got in, under a name, is then not registered under it.
  pub whole_conn-run :
      (auth : AuthEnv) (now : ℕ) (flush : FlushEnv) (s : Server sql) (addr : Text) (c : Conn)
      (l rest : List Incoming) (e : Error)
      → let session = (serve_conn sql syntax aead ed auth now flush s addr c).1 in
        let t = whole_conn auth now flush s addr c (l ++ read_error e ∷ rest) in
        (t ≡ whole_conn auth now flush s addr c (l ++ read_error e ∷ []))
        × (t.0
            ≡ run sql syntax aead ed s
                (whole_steps auth now flush addr c (l ++ read_error e ∷ rest) session))
        × ((x : Session) → session ≡ some x → lookup_client sql t.0.router.store x.user ≢ some c)
  unfolding whole_conn run step
  whole_conn-run auth now flush s addr c l rest e =
      after_start-run c l rest e (serve_conn sql syntax aead ed auth now flush s addr c)
