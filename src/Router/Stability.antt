-- ===== src/Router/Stability.antt =====
-- A property of the store that its own operations keep is kept by all that the router does.
use spectre_relay.Prelude.{
  ℕ, suc, inl, inr, List, [], ◌∷◌, ltb, length, Text, Bytes, Option-cases, Result-cases, Bool-cases,
}
use spectre_relay.Golib.Strings.{Parts, one, two, split_n}
use spectre_relay.Crypto.{Aead}
use spectre_relay.Json.{Syntax, Stored}
use spectre_relay.Envelope.{SealedEnvelope, OpenEnvelope, decode_sealed, decode_open}
use spectre_relay.Files.{WriteEnv}
use spectre_relay.Store.Database.{Sqlite}
use spectre_relay.Store.Messages.{QueuedMessage, sealed_message, open_message}
use spectre_relay.Store.{Conn, Store, EnqueueEnv, enqueue, drain_queue, lookup_client}
use spectre_relay.Router.Addresses.{is_local_relay}
use spectre_relay.Router.{
  Router, DeliverEnv, FlushEnv, marshal_queued, allow, deliver_local, deliver_to, deliver,
  is_usable, route_open, route_decoded, route, requeue, write_step, flush_messages, flush_queue,
}

-- `P` is kept by `Enqueue` and `DrainQueue`, as long as their writes are such as `Q` says.
pub record IsStable (sql : Sqlite) (syntax : Syntax) (aead : Aead) (P : Store sql → Type 0)
    (Q : WriteEnv → Type 0) : Type 0 where
  pub enqueues :
      (env : EnqueueEnv) (s : Store sql) (user : Text) (msg : QueuedMessage)
      → Q env.save_env
      → P s
      → P (enqueue sql syntax aead env s user msg)
  pub drains :
      (env : WriteEnv) (now : ℕ) (s : Store sql) (user : Text)
      → Q env
      → P s
      → P (drain_queue sql syntax aead env now s user).0

module _ (sql : Sqlite) (syntax : Syntax) (aead : Aead) (P : Store sql → Type 0)
    (Q : WriteEnv → Type 0) (st : IsStable sql syntax aead P Q) where
  deliver_local-stable :
      (env : DeliverEnv) (r : Router sql) (user : Text) (m : QueuedMessage)
      → Q env.store.save_env
      → P r.store
      → P (deliver_local sql syntax aead env r user m).0.store
  unfolding deliver_local
  deliver_local-stable env r user m q p =
      let queued = st.enqueues env.store r.store user m q p in
      elim (Option-cases (lookup_client sql r.store user)) [
        | inl e ↦ rw (e, deliver_local) queued
        | inr (c, found) ↦ elim (Result-cases (marshal_queued syntax m)) [
          | inr (e, bad) ↦ rw (found, bad, deliver_local) queued
          | inl (raw, good) ↦ elim (Option-cases env.write) [
            | inr (e, bad) ↦ rw (found, good, bad, deliver_local) queued
            | inl written ↦ rw (found, good, written, deliver_local) p
          ]
        ]
      ]

  deliver_to-stable :
      (env : DeliverEnv) (r : Router sql) (recipient : Text) (m : QueuedMessage) (parts : Parts)
      → Q env.store.save_env
      → P r.store
      → P (deliver_to sql syntax aead env r recipient m parts).0.store
  deliver_to-stable env r recipient m (one s) q p = deliver_local-stable env r recipient m q p
  deliver_to-stable env r recipient m (two user domain) q p =
      elim (Bool-cases (is_local_relay domain r.relay_id)) [
        | inl here ↦ rw here (deliver_local-stable env r user m q p)
        | inr far ↦ elim (Option-cases m.sealed) [
          | inl e ↦ rw (far, e) p
          | inr (s, e) ↦ rw (far, e) p
        ]
      ]

  pub deliver-stable :
      (env : DeliverEnv) (r : Router sql) (recipient : Text) (m : QueuedMessage)
      → Q env.store.save_env
      → P r.store
      → P (deliver sql syntax aead env r recipient m).0.store
  unfolding deliver
  deliver-stable env r recipient m q p =
      deliver_to-stable env r recipient m (split_n b'@' recipient) q p

  route_open-stable :
      (env : DeliverEnv) (r : Router sql) (o : Stored OpenEnvelope)
      → Q env.store.save_env
      → P r.store
      → P (route_open sql syntax aead env r o).0.store
  route_open-stable env r o q p =
      elim (Bool-cases
        (is_usable sql syntax aead o.valid o.value.recipient_id o.value.ciphertext)) [
          | inl e ↦ rw e (deliver-stable env r o.value.recipient_id (open_message o.value) q p)
          | inr e ↦ rw e p
        ]

  route_decoded-stable :
      (env : DeliverEnv) (r : Router sql) (s : Stored SealedEnvelope) (o : Stored OpenEnvelope)
      → Q env.store.save_env
      → P r.store
      → P (route_decoded sql syntax aead env r s o).0.store
  route_decoded-stable env r s o q p =
      elim (Bool-cases
        (is_usable sql syntax aead s.valid s.value.recipient_id s.value.ciphertext)) [
          | inl e ↦ rw e (deliver-stable env r s.value.recipient_id (sealed_message s.value) q p)
          | inr e ↦ rw e (route_open-stable env r o q p)
        ]

  pub route-stable :
      (env : DeliverEnv) (now : ℕ) (r : Router sql) (sender : Text) (payload : Bytes)
      → Q env.store.save_env
      → P r.store
      → P (route sql syntax aead env now r sender payload).0.store
  unfolding route allow
  route-stable env now r sender payload q p =
      elim (Bool-cases (ltb r.max_message_size (length payload))) [
        | inl big ↦ rw (big, route) p
        | inr small ↦ elim (Bool-cases (allow sql r sender now).1) [
          | inr over ↦ rw (small, route, over) p
          | inl fine ↦
              rw (small, route, fine)
                (route_decoded-stable env (allow sql r sender now).0
                  (decode_sealed (syntax.unmarshal payload))
                  (decode_open (syntax.unmarshal payload)) q p)
        ]
      ]

  requeue-stable :
      (envs : ℕ → EnqueueEnv) (i : ℕ) (s : Store sql) (user : Text) (ms : List QueuedMessage)
      → ((j : ℕ) → Q (envs j).save_env)
      → P s
      → P (requeue sql syntax aead envs i s user ms)
  unfolding requeue
  requeue-stable envs i s user [] q p = p
  requeue-stable envs i s user (m ∷ ms) q p =
      requeue-stable envs (suc i) (enqueue sql syntax aead (envs i) s user m) user ms q
        (st.enqueues (envs i) s user m (q i) p)

  flush_messages-stable :
      (env : FlushEnv) (i : ℕ) (s : Store sql) (user : Text) (c : Conn) (ms : List QueuedMessage)
      → ((j : ℕ) → Q (env.store j).save_env)
      → P s
      → P (flush_messages sql syntax aead env i s user c ms).0
  unfolding flush_messages
  flush_messages-stable env i s user c [] q p = p
  flush_messages-stable env i s user c (m ∷ ms) q p =
      let ih = flush_messages-stable env (suc i) s user c ms q p in
      elim (Result-cases (marshal_queued syntax m)) [
        | inr (e, bad) ↦ rw (bad, flush_messages) ih
        | inl (raw, good) ↦ elim (Option-cases (env.write i)) [
          | inl fine ↦ rw (good, flush_messages, fine, write_step) ih
          | inr (e, bad) ↦
              rw (good, flush_messages, bad, write_step)
                (requeue-stable env.store i s user (m ∷ ms) q p)
        ]
      ]

  pub flush_queue-stable :
      (env : FlushEnv) (r : Router sql) (user : Text) (c : Conn)
      → Q env.drain
      → ((j : ℕ) → Q (env.store j).save_env)
      → P r.store
      → P (flush_queue sql syntax aead env r user c).0.store
  unfolding flush_queue
  flush_queue-stable env r user c qd q p =
      let d = drain_queue sql syntax aead env.drain env.now r.store user in
      flush_messages-stable env 0 d.0 user c d.1 q (st.drains env.drain env.now r.store user qd p)
