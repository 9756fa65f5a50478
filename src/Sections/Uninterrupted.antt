-- ===== src/Sections/Uninterrupted.antt =====
-- A handler is its program, where nothing comes between the sections.
use spectre_relay.Prelude.{
  ℕ, suc, ◌≡◌, refl, ◌∙◌, inl, inr, List, [], ◌∷◌, ◌++◌, append-nil, append_assoc, Text, Bytes,
  Bool-cases, Option-cases, arith,
}
use spectre_relay.Golib.Strings.{Parts, one, two, split_n, first}
use spectre_relay.Crypto.{Aead, Ed25519}
use spectre_relay.Json.{Syntax, Stored}
use spectre_relay.Envelope.{SealedEnvelope, OpenEnvelope, decode_sealed, decode_open}
use spectre_relay.Files.{WriteEnv}
use spectre_relay.Store.Database.{Sqlite}
use spectre_relay.Store.Messages.{QueuedMessage, sealed_message, open_message}
use spectre_relay.Store.{Conn, EnqueueEnv, drain_queue}
use spectre_relay.Router.{
  Router, DeliverEnv, FlushEnv, Effect, deliver, deliver_local, deliver_to, route, route_decoded,
  requeue, flush_messages, flush_queue, forward_federated, marshal_queued,
}
use spectre_relay.Router
use spectre_relay.Server.{
  Server, FrameEnv, FederationRequest, stamped, is_remote, accept_federated, status_only,
  issue_sender_cert, build_sender_cert, handle_prekeys_get, handle_federation_deliver,
  handle_authed_frame,
}
use spectre_relay.Sections.{Program, done, emit, call, ◌>>=◌, exec, perform, put}
use spectre_relay.Sections.System.{fixed_of}
use spectre_relay.Sections.Handlers.{
  deliver_here, deliver_parts, deliver_program, route_program, route_usable, requeue_program,
  flush_loop, flush_program, prekeys_program, federated_here, federation_program, frame_program,
}

module _ (sql : Sqlite) (syntax : Syntax) (aead : Aead) where
  pub exec-bind :
      {A B : Type 0} (p : Program A) (f : A → Program B) (s : Server sql)
      → let t = exec sql syntax aead p s in
        let u = exec sql syntax aead (f t.2) t.0 in
        exec sql syntax aead (p >>= f) s ≡ (u.0, t.1 ++ u.1, u.2)
  unfolding exec
  exec-bind (done a) f s = refl
  exec-bind (emit es p) f s =
      let t = exec sql syntax aead p s in
      let u = exec sql syntax aead (f t.2) t.0 in rw (exec-bind p f s, append_assoc es t.1 u.1) refl
  exec-bind (call a k) f s =
      exec-bind (k (perform sql syntax aead s a).1) f (perform sql syntax aead s a).0

  -- What a function of the router does to the server.
  abbrev pub routed : Server sql → Router sql × List Effect → Server sql × List Effect × Unit {0}
  routed s t = (record s { router = t.0 }, t.1, tt)

module _ (sql : Sqlite) (syntax : Syntax) (aead : Aead) (ed : Ed25519) where
  exec-deliver_here :
      (env : DeliverEnv) (user : Text) (m : QueuedMessage) (s : Server sql)
      → exec sql syntax aead (deliver_here sql syntax aead ed env user m) s
        ≡ routed sql syntax aead s (deliver_local sql syntax aead env s.router user m)
  unfolding exec perform deliver_here deliver_local
  exec-deliver_here env user m s = ground arith

  exec-deliver_parts :
      (env : DeliverEnv) (recipient : Text) (m : QueuedMessage) (s : Server sql) (parts : Parts)
      → exec sql syntax aead
          (deliver_parts sql syntax aead ed env s.router.relay_id recipient m parts)
          s
        ≡ routed sql syntax aead s (deliver_to sql syntax aead env s.router recipient m parts)
  unfolding exec
  exec-deliver_parts env recipient m s (one x) = exec-deliver_here env recipient m s
  exec-deliver_parts env recipient m s (two user domain) =
      let here = exec-deliver_here env user m s in
      elim (Option-cases m.sealed) [
        | inl open_one ↦ ground (arith, open_one, here)
        | inr (e, sealed_one) ↦ ground (
          arith,
          sealed_one,
          here,
          append-nil (forward_federated syntax env.request s.router.relay_id domain e),
        )
      ]

  exec-deliver :
      (env : DeliverEnv) (recipient : Text) (m : QueuedMessage) (s : Server sql)
      → exec sql syntax aead
          (deliver_program sql syntax aead ed env s.router.relay_id recipient m)
          s
        ≡ routed sql syntax aead s (deliver sql syntax aead env s.router recipient m)
  unfolding deliver_program deliver
  exec-deliver env recipient m s = exec-deliver_parts env recipient m s (split_n b'@' recipient)

  exec-route_usable :
      (env : DeliverEnv) (s : Server sql) (d : Stored SealedEnvelope) (o : Stored OpenEnvelope)
      → exec sql syntax aead (route_usable sql syntax aead ed env s.router.relay_id d o) s
        ≡ routed sql syntax aead s (route_decoded sql syntax aead env s.router d o)
  unfolding exec
  exec-route_usable env s d o = ground (
    arith,
    exec-deliver env d.value.recipient_id (sealed_message d.value) s,
    exec-deliver env o.value.recipient_id (open_message o.value) s,
  )

  pub exec-route :
      (env : DeliverEnv) (now : ℕ) (sender : Text) (payload : Bytes) (s : Server sql)
      → exec sql syntax aead
          (route_program sql syntax aead ed (fixed_of sql syntax aead ed s) env now sender payload)
          s
        ≡ routed sql syntax aead s (route sql syntax aead env now s.router sender payload)
  unfolding exec perform route_program route Router.allow
  exec-route env now sender payload s =
      let r = (Router.allow sql s.router sender now).0 in
      ground (
        arith,
        exec-route_usable env (record s { router = r }) (decode_sealed (syntax.unmarshal payload))
            (decode_open (syntax.unmarshal payload)),
      )

  exec-requeue :
      (envs : ℕ → EnqueueEnv) (i : ℕ) (user : Text) (ms : List QueuedMessage) (s : Server sql)
      → exec sql syntax aead (requeue_program sql syntax aead ed envs i user ms) s
        ≡ routed sql syntax aead s
            (record s.router { store = requeue sql syntax aead envs i s.router.store user ms }, [])
  unfolding exec perform requeue_program requeue
  exec-requeue envs i user [] s = refl
  exec-requeue envs i user (m ∷ ms) s =
      exec-requeue envs (suc i) user ms (perform sql syntax aead s (put (envs i) user m)).0

  exec-flush_loop :
      (env : FlushEnv) (i : ℕ) (user : Text) (c : Conn) (ms : List QueuedMessage) (s : Server sql)
      → let t = flush_messages sql syntax aead env i s.router.store user c ms in
        exec sql syntax aead (flush_loop sql syntax aead ed env i user c ms) s
        ≡ routed sql syntax aead s (record s.router { store = t.0 }, t.1)
  unfolding exec flush_loop flush_messages
  exec-flush_loop env i user c [] s = refl
  exec-flush_loop env i user c (m ∷ ms) s =
      ground
        (arith, exec-flush_loop env (suc i) user c ms s, exec-requeue env.store i user (m ∷ ms) s)

  pub exec-flush :
      (env : FlushEnv) (user : Text) (c : Conn) (s : Server sql)
      → exec sql syntax aead (flush_program sql syntax aead ed env user c) s
        ≡ routed sql syntax aead s (flush_queue sql syntax aead env s.router user c)
  unfolding exec perform flush_program flush_queue
  exec-flush env user c s =
      let d = drain_queue sql syntax aead env.drain env.now s.router.store user in
      let r : Router sql = record s.router { store = d.0 } in
      exec-flush_loop env 0 user c d.1 (record s { router = r })

  pub exec-prekeys :
      (env : WriteEnv) (now : ℕ) (method path : Text) (s : Server sql)
      → let t = handle_prekeys_get sql syntax aead ed env now s method path in
        exec sql syntax aead (prekeys_program sql syntax aead ed env now method path) s
        ≡ (t.0, [], t.1)
  unfolding exec perform prekeys_program handle_prekeys_get
  exec-prekeys env now method path s = ground arith

  exec-federated :
      (env : DeliverEnv) (relay_header : Text) (e : SealedEnvelope) (s : Server sql)
      → let t = accept_federated sql syntax aead ed env s relay_header e in
        exec sql syntax aead
          (federated_here sql syntax aead ed (fixed_of sql syntax aead ed s) env relay_header e)
          s
        ≡ (t.0, t.1, tt)
  unfolding exec
  exec-federated env relay_header e s =
      let user = first (split_n b'@' e.recipient_id) in
      elim (Bool-cases (is_remote s.cfg.relay_id (split_n b'@' e.recipient_id))) [
        | inl far ↦ rw far refl
        | inr here ↦
            rw here
              (exec-deliver env user (sealed_message (stamped sql syntax aead ed relay_header e)) s)
      ]

  pub exec-federation :
      (env : DeliverEnv) (req : FederationRequest) (s : Server sql)
      → exec sql syntax aead
          (federation_program sql syntax aead ed (fixed_of sql syntax aead ed s) env req)
          s
        ≡ handle_federation_deliver sql syntax aead ed env s req
  unfolding exec federation_program handle_federation_deliver
  exec-federation env req s =
      let e = (decode_sealed req.body).value in
      let p =
        federated_here sql syntax aead ed (fixed_of sql syntax aead ed s) env req.relay_header e in
      let answered = exec-bind sql syntax aead p (λ (u : Unit {0}). done (status_only 204)) s in
      let t = accept_federated sql syntax aead ed env s req.relay_header e in
      let whole : exec sql syntax aead (p >>= (λ (u : Unit {0}). done (status_only 204))) s
          ≡ (t.0, t.1, status_only 204) =
        answered ∙ rw (exec-federated env req.relay_header e s, append-nil t.1) refl in
      ground (arith, whole)

  pub exec-frame :
      (env : FrameEnv) (user : Text) (c : Conn) (content : Bytes) (s : Server sql)
      → let t = handle_authed_frame sql syntax aead ed env s user c content in
        exec sql syntax aead
          (frame_program sql syntax aead ed (fixed_of sql syntax aead ed s) env user c content)
          s
        ≡ (t.0, t.1, tt)
  unfolding exec perform frame_program handle_authed_frame issue_sender_cert build_sender_cert
  exec-frame env user c content s =
      ground (arith, exec-route env.deliver_env env.route_now user content s)
