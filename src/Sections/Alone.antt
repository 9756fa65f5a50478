-- ===== src/Sections/Alone.antt =====
-- Whole connections, and jobs as a thread takes them, where nothing comes between the sections.
use spectre_relay.Prelude.{
  Bool, true, false, if◌then◌else◌, ℕ, zero, suc, ◌≡◌, refl, sym, ap, ◌∙◌, inl, inr, none, some,
  List, [], ◌∷◌, ◌++◌, append-nil, append_assoc, Text, Result-cases, arith,
}
use spectre_relay.Crypto.{Aead, Ed25519}
use spectre_relay.Json.{Syntax}
use spectre_relay.Store.Database.{Sqlite}
use spectre_relay.Store.{Conn}
use spectre_relay.Router.{
  Router, DeliverEnv, FlushEnv, Effect, deliver, deliver_local, deliver_to, route, route_decoded,
  requeue, flush_messages, flush_queue, forward_federated, marshal_queued,
}
use spectre_relay.Router
use spectre_relay.Server.{
  Server, Response, serve_conn, end_conn, normalize_user, handle_federation_deliver,
  handle_authed_frame,
}
use spectre_relay.Relay.Connection.{
  is_over, Incoming, frame, other_frame, read_error, read_loop, whole_conn,
}
use spectre_relay.Auth.{AuthEnv, authenticate, handshake, extract_ip}
use spectre_relay.Auth
use spectre_relay.Sections.{
  Program, done, emit, call, ◌>>◌, exec, perform, Section, admit, enter, leave, find, put, take,
  sweep, spend, cert_slot, fetch_slot, replace, serve, key_of,
}
use spectre_relay.Sections.System.{
  Job, connection, fetch, federation, purge, Thread, System, Turn, starts, goes, fixed_of,
  program_of, handled, turn, turns,
}
use spectre_relay.Sections.Handlers.{
  leave_if, Fixed, flush_program, prekeys_program, federation_program, frame_program,
  frames_program, registered, conn_program, purge_program,
}
use spectre_relay.Sections.Uninterrupted.{
  exec-bind, exec-flush, exec-prekeys, exec-federation, exec-frame,
}

module _ (sql : Sqlite) (syntax : Syntax) (aead : Aead) (ed : Ed25519) where
  perform-fixed :
      (s : Server sql) (a : Section)
      → fixed_of sql syntax aead ed (perform sql syntax aead s a).0 ≡ fixed_of sql syntax aead ed s
  unfolding perform Router.allow
  perform-fixed s (admit ip now) = refl
  perform-fixed s (enter user c) = refl
  perform-fixed s (leave user c) = refl
  perform-fixed s (find user) = refl
  perform-fixed s (put env user m) = refl
  perform-fixed s (take env now user) = refl
  perform-fixed s (sweep now env) = refl
  perform-fixed s (spend user now) = refl
  perform-fixed s (cert_slot user now) = refl
  perform-fixed s (fetch_slot user now) = refl
  perform-fixed s (replace env user b) = refl
  perform-fixed s (serve env user consume) = refl
  perform-fixed s (key_of user) = refl

  exec-fixed :
      {A : Type 0} (p : Program A) (s : Server sql)
      → fixed_of sql syntax aead ed (exec sql syntax aead p s).0 ≡ fixed_of sql syntax aead ed s
  unfolding exec
  exec-fixed (done a) s = refl
  exec-fixed (emit es p) s = exec-fixed p s
  exec-fixed (call a k) s =
      exec-fixed (k (perform sql syntax aead s a).1) (perform sql syntax aead s a).0
      ∙ perform-fixed s a

  exec-frames :
      (k : Fixed) (user : Text) (c : Conn) (l : List Incoming) (s : Server sql)
      → fixed_of sql syntax aead ed s ≡ k
      → let t = read_loop sql syntax aead ed s user c l in
        exec sql syntax aead (frames_program sql syntax aead ed k user c l) s ≡ (t.0, t.1, tt)
  unfolding exec frames_program read_loop
  exec-frames k user c [] s same = refl
  exec-frames k user c (frame env content ∷ l) s same =
      let p = frame_program sql syntax aead ed k env user c content in
      let h = handle_authed_frame sql syntax aead ed env s user c content in
      let e : exec sql syntax aead p s ≡ (h.0, h.1, tt) =
        rw same at (exec-frame sql syntax aead ed env user c content s) in
      let later : fixed_of sql syntax aead ed h.0 ≡ k =
        ap (λ (t : Server sql × List Effect × Unit {0}). fixed_of sql syntax aead ed t.0) (sym e)
        ∙ exec-fixed p s
        ∙ same in
      exec-bind sql syntax aead p (λ _. frames_program sql syntax aead ed k user c l) s
      ∙ rw (e, exec-frames k user c l h.0 later) refl
  exec-frames k user c (other_frame ∷ l) s same = exec-frames k user c l s same
  exec-frames k user c (read_error x ∷ l) s same = refl

  exec-leave_if :
      (over : Bool) (user : Text) (c : Conn) (s : Server sql)
      → exec sql syntax aead (leave_if sql syntax aead ed over user c) s
        ≡ (if over then end_conn sql syntax aead ed s user c else s, [], tt)
  unfolding exec perform end_conn
  exec-leave_if true user c s = refl
  exec-leave_if false user c s = refl

  exec-registered :
      (k : Fixed) (flush : FlushEnv) (c : Conn) (l : List Incoming) (user : Text) (s : Server sql)
      → fixed_of sql syntax aead ed s ≡ k
      → let entered = (perform sql syntax aead s (enter user c)).0 in
        let f = flush_queue sql syntax aead flush entered.router user c in
        let t = read_loop sql syntax aead ed (record entered { router = f.0 }) user c l in
        exec sql syntax aead (registered sql syntax aead ed k flush c l user) s
        ≡ (if is_over l then end_conn sql syntax aead ed t.0 user c else t.0, f.1 ++ t.1, tt)
  unfolding exec perform end_conn flush_queue
  exec-registered k flush c l user s same =
      let entered = (perform sql syntax aead s (enter user c)).0 in
      let f = flush_queue sql syntax aead flush entered.router user c in
      let flushed : Server sql = record entered { router = f.0 } in
      let t = read_loop sql syntax aead ed flushed user c l in
      let frames = frames_program sql syntax aead ed k user c l in
      let last =
        exec-bind sql syntax aead frames
          (λ (u : Unit {0}). leave_if sql syntax aead ed (is_over l) user c) flushed in
      let first =
        exec-bind sql syntax aead (flush_program sql syntax aead ed flush user c)
          (λ (u : Unit {0}). frames >> leave_if sql syntax aead ed (is_over l) user c) entered in
      first
      ∙ rw
          (
            exec-flush sql syntax aead ed flush user c entered,
            last,
            exec-frames k user c l flushed same,
            exec-leave_if (is_over l) user c t.0,
            append-nil t.1,
          )
          refl

  exec-conn :
      (auth : AuthEnv) (now : ℕ) (flush : FlushEnv) (addr : Text) (c : Conn) (l : List Incoming)
      (s : Server sql)
      → let t = whole_conn sql syntax aead ed auth now flush s addr c l in
        exec sql syntax aead
          (conn_program sql syntax aead ed (fixed_of sql syntax aead ed s) auth now flush addr c l)
          s
        ≡ (t.0, t.1, tt)
  unfolding exec perform conn_program whole_conn serve_conn authenticate
  exec-conn auth now flush addr c l s =
      let (limiter, allowed) = Auth.allow s.auth (extract_ip addr) now in
      let s' : Server sql = record s { auth = limiter } in
      elim (Result-cases (handshake ed syntax auth)) [
        | inl (user, good) ↦ ground (
          arith,
          good,
          exec-registered (fixed_of sql syntax aead ed s) flush c l
              (normalize_user s.cfg.relay_id user) s' refl,
        )
        | inr (e, bad) ↦ ground (arith, bad)
      ]

  exec-job :
      (s : Server sql) (j : Job)
      → exec sql syntax aead (program_of sql syntax aead ed (fixed_of sql syntax aead ed s) j) s
        ≡ handled sql syntax aead ed s j
  unfolding exec perform handled purge_program
  exec-job s (connection auth now flush addr c l) =
      let t = whole_conn sql syntax aead ed auth now flush s addr c l in
      exec-bind sql syntax aead
        (conn_program sql syntax aead ed (fixed_of sql syntax aead ed s) auth now flush addr c l)
        (λ _. done none) s
      ∙ rw (exec-conn auth now flush addr c l s, append-nil t.1) refl
  exec-job s (fetch env now method path) =
      exec-bind sql syntax aead (prekeys_program sql syntax aead ed env now method path)
        (λ (r : Response). done (some r)) s
      ∙ rw (exec-prekeys sql syntax aead ed env now method path s) refl
  exec-job s (federation env req) =
      let t = handle_federation_deliver sql syntax aead ed env s req in
      exec-bind sql syntax aead
        (federation_program sql syntax aead ed (fixed_of sql syntax aead ed s) env req)
        (λ (r : Response). done (some r)) s
      ∙ rw (exec-federation sql syntax aead ed env req s, append-nil t.1) refl
  exec-job s (purge now env) = refl

  -- The turns of the newest thread.
  abbrev alone : ℕ → List Turn
  alone zero = []
  alone (suc n) = goes 0 ∷ alone n

  turns-exec :
      (p : Thread) (x : System sql) (ps : List Thread)
      → x.threads ≡ p ∷ ps
      → let t = exec sql syntax aead p x.server in
        (n : ℕ) × (turns sql syntax aead ed x (alone n)
          ≡ record { server = t.0; threads = done t.2 ∷ ps; sent = x.sent ++ t.1 })
  unfolding exec turns turn
  turns-exec (done r) x ps e = (0, rw (append-nil x.sent, ← e) refl)
  turns-exec (emit es p) x ps e =
      let y : System sql = record { server = x.server; threads = p ∷ ps; sent = x.sent ++ es } in
      let (n, ih) = turns-exec p y ps refl in (suc n, rw (e) (ih ∙ rw append_assoc refl))
  turns-exec (call a k) x ps e =
      let t = perform sql syntax aead x.server a in
      let y : System sql = record { server = t.0; threads = k t.1 ∷ ps; sent = x.sent ++ [] } in
      let (n, ih) = turns-exec (k t.1) y ps refl in
      (suc n, rw (e) (ih ∙ rw (append-nil x.sent) refl))

  -- A job that is started and then alone takes its turns to an end after finitely many of them. It
  -- has then changed the server, and sent, exactly what its handler does in one step, and answers
  -- what the handler answers. The other threads are where they were.
  job-alone :
      (x : System sql) (j : Job)
      → let (t, es, r) = handled sql syntax aead ed x.server j in
        (n : ℕ) × (turns sql syntax aead ed x (starts j ∷ alone n)
          ≡ record { server = t; threads = done r ∷ x.threads; sent = x.sent ++ es })
  unfolding turns turn
  job-alone x j =
      let p = program_of sql syntax aead ed (fixed_of sql syntax aead ed x.server) j in
      let y : System sql = record x { threads = p ∷ x.threads } in
      let (n, e) = turns-exec p y x.threads refl in (n, rw (← exec-job x.server j) e)
