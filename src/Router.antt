-- ===== src/Router.antt =====
-- server/router.go. What the router does to the outside is a list of effects, in order; the outcome
-- of each write, request and call of the store is an argument. The goroutine that forwards to
-- another relay touches no state of the router, and its response is not read.
pub mod Addresses
pub mod Delivery
pub mod Routing
pub mod Flushing
pub mod Stability
use spectre_relay.Prelude.{
  ℕ, suc, Bool, true, false, not, ◌&&◌, Option, none, some, List, [], ◌∷◌, ◌++◌, if◌then◌else◌, ltb,
  length, is_empty, Text, Bytes, codes, Result, ok, err, Error, other,
}
use spectre_relay.Prelude.Assoc.{Map}
use spectre_relay.Golib.Strings.{Parts, one, two, split_n}
use spectre_relay.RateLimit.{take_slot}
use spectre_relay.Crypto.{Aead}
use spectre_relay.Json.{Json, Syntax, Stored}
use spectre_relay.Envelope.{
  SealedEnvelope, OpenEnvelope, decode_sealed, decode_open, json_of_sealed,
}
use spectre_relay.Files.{WriteEnv}
use spectre_relay.Store.Database.{Sqlite}
use spectre_relay.Store.Messages.{QueuedMessage, sealed_message, open_message, queued_json}
use spectre_relay.Store.{Conn, Store, EnqueueEnv, lookup_client, enqueue, drain_queue}
use Addresses.{is_local_relay}

-- The request of `forwardFederated`: a POST with the JSON content type.
pub record FederationPost : Type 0 where
  pub url : Text
  pub relay_header : Text
  pub body : Bytes

pub data Effect : Type 0 where
  sent : Conn → Bytes → Effect
  posted : FederationPost → Effect

-- What one call of `deliver` meets: the outcomes of `conn.Write` and of `http.NewRequest`, and the
-- call of `Enqueue`.
pub record DeliverEnv : Type 0 where
  pub write : Option Error
  pub request : Option Error
  pub store : EnqueueEnv

-- What one call of `FlushQueue` meets: the call of `DrainQueue`, and by the index of the message
-- the outcome of its write and its call of `Enqueue`.
pub record FlushEnv : Type 0 where
  pub drain : WriteEnv
  pub now : ℕ
  pub write : ℕ → Option Error
  pub store : ℕ → EnqueueEnv

pub record Router (sql : Sqlite) : Type 0 where
  pub store : Store sql
  pub max_message_size : ℕ
  pub rate_per_min : ℕ
  pub relay_id : Text
  pub rate_attempts : Map (List ℕ)

unfoldable pub new_router : (sql : Sqlite) → Store sql → ℕ → ℕ → Text → Router sql
new_router sql store max_message_size rate_per_min relay_id = record {
  store = store;
  max_message_size = max_message_size;
  rate_per_min = rate_per_min;
  relay_id = relay_id;
  rate_attempts = [];
}

-- `allow`, at the time that it reads.
unfoldable pub allow : (sql : Sqlite) → Router sql → Text → ℕ → Router sql × Bool
allow sql r user now =
    let (attempts, allowed) = take_slot r.rate_per_min r.rate_attempts user now in
    (record r { rate_attempts = attempts }, allowed)

module _ (syntax : Syntax) where
  -- `errNoEnvelope`
  abbrev print : Option Json → Result Error Bytes
  print none = err other
  print (some v) = syntax.marshal v

  unfoldable pub marshal_queued : QueuedMessage → Result Error Bytes
  unfolding queued_json
  marshal_queued m = print (queued_json m)

  unfoldable pub forward_federated : Option Error → Text → Text → SealedEnvelope → List Effect
  forward_federated request relay_id domain e = elim (syntax.marshal (json_of_sealed e)) [
    | err _ ↦ []
    | ok body ↦ elim request [
      | some _ ↦ []
      | none ↦
          posted (record {
            url = codes "http://" ++ (domain ++ codes "/federation/deliver");
            relay_header = relay_id;
            body = body;
          })
          ∷ []
    ]
  ]

module _ (sql : Sqlite) (syntax : Syntax) (aead : Aead) where
  abbrev enqueued : EnqueueEnv → Router sql → Text → QueuedMessage → Router sql × List Effect
  enqueued env r user m = (record r { store = enqueue sql syntax aead env r.store user m }, [])

  -- The part of `deliver` below the address: write to the connection, or fall through to `Enqueue`.
  unfoldable pub deliver_local :
      DeliverEnv → Router sql → Text → QueuedMessage → Router sql × List Effect
  deliver_local env r user m = elim (lookup_client sql r.store user) [
    | none ↦ enqueued env.store r user m
    | some c ↦ elim (marshal_queued syntax m) [
      | err _ ↦ enqueued env.store r user m
      | ok raw ↦ elim env.write [
        | some _ ↦ enqueued env.store r user m
        | none ↦ (r, sent c raw ∷ [])
      ]
    ]
  ]

  -- An open envelope does not leave the relay.
  abbrev pub forward : DeliverEnv → Router sql → Text → QueuedMessage → Router sql × List Effect
  forward env r domain m = elim m.sealed [
    | none ↦ (r, [])
    | some e ↦ (r, forward_federated syntax env.request r.relay_id domain e)
  ]

  abbrev pub deliver_to :
      DeliverEnv → Router sql → Text → QueuedMessage → Parts → Router sql × List Effect
  deliver_to env r recipient m (one s) = deliver_local env r recipient m
  deliver_to env r recipient m (two user domain) =
      if not (is_local_relay domain r.relay_id)
      then forward env r domain m
      else deliver_local env r user m

  unfoldable pub deliver : DeliverEnv → Router sql → Text → QueuedMessage → Router sql × List Effect
  deliver env r recipient m = deliver_to env r recipient m (split_n b'@' recipient)

  -- The test behind each of the two `json.Unmarshal`.
  abbrev pub is_usable : Bool → Text → Bytes → Bool
  is_usable valid recipient ciphertext =
      valid && (not (is_empty recipient) && not (is_empty ciphertext))

  abbrev pub route_open : DeliverEnv → Router sql → Stored OpenEnvelope → Router sql × List Effect
  route_open env r o =
      if is_usable o.valid o.value.recipient_id o.value.ciphertext
      then deliver env r o.value.recipient_id (open_message o.value)
      else (r, [])

  abbrev pub route_decoded :
      DeliverEnv
      → Router sql
      → Stored SealedEnvelope
      → Stored OpenEnvelope
      → Router sql × List Effect
  route_decoded env r s o =
      if is_usable s.valid s.value.recipient_id s.value.ciphertext
      then deliver env r s.value.recipient_id (sealed_message s.value)
      else route_open env r o

  -- `now` is the time that `allow` reads.
  unfoldable pub route : DeliverEnv → ℕ → Router sql → Text → Bytes → Router sql × List Effect
  route env now r sender payload =
      if ltb r.max_message_size (length payload)
      then (r, [])
      else let (r', allowed) = allow sql r sender now in
        if not allowed
        then (r', [])
        else route_decoded env r' (decode_sealed (syntax.unmarshal payload))
            (decode_open (syntax.unmarshal payload))

  -- `for _, leftover := range msgs[i:]`
  unfoldable pub requeue : (ℕ → EnqueueEnv) → ℕ → Store sql → Text → List QueuedMessage → Store sql
  requeue envs i s user [] = s
  requeue envs i s user (m ∷ ms) =
      requeue envs (suc i) (enqueue sql syntax aead (envs i) s user m) user ms

  abbrev write_step :
      FlushEnv
      → ℕ
      → Store sql
      → Text
      → Conn
      → List QueuedMessage
      → Bytes
      → Store sql × List Effect
      → Store sql × List Effect
  write_step env i s user c left raw rest = elim (env.write i) [
    | some _ ↦ (requeue env.store i s user left, [])
    | none ↦ (rest.0, sent c raw ∷ rest.1)
  ]

  -- The loop of `FlushQueue`. A message that cannot be printed is skipped.
  unfoldable pub flush_messages :
      FlushEnv → ℕ → Store sql → Text → Conn → List QueuedMessage → Store sql × List Effect
  flush_messages env i s user c [] = (s, [])
  flush_messages env i s user c (m ∷ ms) =
      let rest = flush_messages env (suc i) s user c ms in
      elim (marshal_queued syntax m) [
        | err _ ↦ rest
        | ok raw ↦ write_step env i s user c (m ∷ ms) raw rest
      ]

  unfoldable pub flush_queue : FlushEnv → Router sql → Text → Conn → Router sql × List Effect
  flush_queue env r user c =
      let (s, messages) = drain_queue sql syntax aead env.drain env.now r.store user in
      let (s', effects) = flush_messages env 0 s user c messages in
      (record r { store = s' }, effects)
