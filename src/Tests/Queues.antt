-- ===== src/Tests/Queues.antt =====
-- The queue, the registry and the router, at concrete inputs.
use spectre_relay.Prelude.{
  ◌≡◌, refl, ◌⊎◌, inl, true, none, some, List, [], ◌∷◌, ◌++◌, length, Text, codes, text_eq,
  contains, Error, arith,
}
use spectre_relay.Prelude.Int.{pos, ◌+ℤ◌}
use spectre_relay.Prelude.Assoc.{lookup}
use spectre_relay.Golib.Strings.{split_host_port, cut}
use spectre_relay.Golib.Base64
use spectre_relay.Json.{
  Json, Syntax, Members, store_members, store_struct, store_document, fold_name, store_text,
  store_bytes,
}
use spectre_relay.Crypto.{new_gcm}
use spectre_relay.RateLimit.{take_slot, prune}
use spectre_relay.Envelope.{decode_sealed, decode_open, tag_of, store_open}
use spectre_relay.Envelope.Shapes.{Agrees, RelayField}
use spectre_relay.Store.Database.{rows_for}
use spectre_relay.Store.Messages.{QueuedMessage, json_of_queued, sealed_message}
use spectre_relay.Store.Registry.{
  Session, starts, ends, run_sessions, slot, lookup_client-run_sessions,
}
use spectre_relay.Store.Rows.{table, enqueue-table, drain_queue-table}
use spectre_relay.Store.Fifo.{enqueue_all, expected, with_expiry, drain_queue-enqueue_all}
use spectre_relay.Store.{EnqueueEnv, unix, enqueue, drain_queue, lookup_client}
use spectre_relay.Router.Addresses.{is_local_relay}
use spectre_relay.Router.Delivery.{IsSent, IsQueued, deliver-plain, deliver-address}
use spectre_relay.Router.Routing.{counted, route-open_as_sealed}
use spectre_relay.Router.Flushing.{calls_from, writes, flush_queue-split}
use spectre_relay.Router.{posted, Router, FlushEnv, allow, deliver, route, flush_queue}
use spectre_relay.Tests.{
  toy_sql, toy_sql-IsReliable, toy_aead, toy_syntax, calm, toy_store, toy_router, enqueue_env,
  deliver_env, envelope, message,
}

-- The message as it is stored.
abbrev stored_message : QueuedMessage
stored_message = with_expiry message (pos 6)

abbrev syntax : Syntax
syntax = toy_syntax (json_of_queued stored_message)

abbrev bob : Text
bob = codes "bob"

abbrev calls : List (EnqueueEnv × QueuedMessage)
calls = (enqueue_env, message) ∷ []

drain_queue-enqueue_all_example :
    let r =
      drain_queue toy_sql syntax toy_aead calm 6
        (enqueue_all toy_sql syntax toy_aead bob toy_store calls)
        bob in
    (r.1 ≡ expected toy_sql syntax toy_aead toy_store calls)
    × (rows_for bob (table toy_sql syntax toy_aead r.0) ≡ [])
unfolding unix ◌+ℤ◌
drain_queue-enqueue_all_example =
    drain_queue-enqueue_all toy_sql syntax toy_aead toy_sql-IsReliable toy_store calm 6 bob calls
      (unfold new_gcm in refl)
      (
        record {
          nonce = 9 ∷ [];
          drawn = refl;
          sized = refl;
          printable = refl;
          message = inl (envelope, refl, refl, (omega arith, tt));
          early = omega arith;
          live = refl;
        },
        tt,
      )
      (omega arith) refl

abbrev sessions : List Session
sessions = starts bob 1 ∷ starts bob 2 ∷ ends bob 1 ∷ []

lookup_client-run_sessions_example :
    lookup_client toy_sql (run_sessions toy_sql toy_store sessions) bob
    ≡ slot bob (lookup_client toy_sql toy_store bob) sessions
lookup_client-run_sessions_example = lookup_client-run_sessions toy_sql toy_store bob sessions

deliver-plain_example :
    let t = deliver toy_sql syntax toy_aead deliver_env toy_router bob message in
    IsSent toy_sql syntax toy_aead deliver_env toy_router bob message t
    ⊎ IsQueued toy_sql syntax toy_aead deliver_env toy_router bob message t
deliver-plain_example =
    deliver-plain toy_sql syntax toy_aead deliver_env toy_router bob message
      (unfold contains in refl)

deliver-address_example :
    (deliver toy_sql syntax toy_aead deliver_env toy_router (bob ++ b'@' ∷ codes "there") message).1
    ≡ posted (record {
      url = codes "http://" ++ (codes "there" ++ codes "/federation/deliver");
      relay_header = codes "here";
      body = 0 ∷ [];
    })
      ∷ []
deliver-address_example =
    ((deliver-address toy_sql syntax toy_aead deliver_env toy_router bob (codes "there") message
          (unfold contains in refl)).1
        (unfold is_local_relay split_host_port cut text_eq in refl)).2
      envelope (0 ∷ []) refl refl refl

abbrev silent_router : Router toy_sql
silent_router = record toy_router { max_message_size = 0 }

-- The value that an open envelope is printed as.
abbrev open_json : Json
open_json = Json.object (
    Members.member (codes "sender_id") (Json.string (codes "eve")) (
      Members.member (codes "recipient_id") (Json.string bob)
        (Members.member (codes "ciphertext") (Json.string (codes "AQ==")) Members.nil)))

open_json-RelayField : RelayField (some open_json)
unfolding tag_of text_eq fold_name
open_json-RelayField = ((λ h. cc), ((λ h. cc), ((λ h. cc), tt)))

open_json-valid : (decode_open (some open_json)).valid ≡ true
unfolding decode_open store_document store_struct store_members store_open tag_of text_eq fold_name
    store_text store_bytes Base64.decode Base64.decode_quanta
open_json-valid = refl

abbrev open_syntax : Syntax
open_syntax = toy_syntax open_json

route-open_as_sealed_example :
    Agrees (decode_sealed (some open_json)).value (decode_open (some open_json)).value
    × (route toy_sql open_syntax toy_aead deliver_env 5 toy_router bob (0 ∷ [])
        ≡ deliver toy_sql open_syntax toy_aead deliver_env
            (counted toy_sql open_syntax toy_aead toy_router bob 5)
            (decode_open (some open_json)).value.recipient_id
            (sealed_message (decode_sealed (some open_json)).value))
route-open_as_sealed_example =
    route-open_as_sealed toy_sql open_syntax toy_aead deliver_env 5 toy_router bob (0 ∷ []) refl
      (unfold allow take_slot prune lookup in refl) open_json-RelayField
      (unfold decode_open store_document store_struct store_members store_open tag_of text_eq
          fold_name store_text store_bytes Base64.decode Base64.decode_quanta in
        refl)

abbrev flush_env : FlushEnv
flush_env = record { drain = calm; now = 6; write = λ i. none; store = λ i. enqueue_env }

flush_queue-split_example :
    let t = flush_queue toy_sql syntax toy_aead flush_env toy_router bob 3 in
    let (s, messages) = drain_queue toy_sql syntax toy_aead calm 6 toy_store bob in
    (before after : List QueuedMessage) × (messages ≡ before ++ after)
    × (t.1 ≡ writes syntax 3 before)
    × (t.0 ≡ record toy_router {
      store =
          enqueue_all toy_sql syntax toy_aead bob s
            (calls_from flush_env.store (length before) after);
    })
    × ((after ≡ []) ⊎ ((e : Error) × (flush_env.write (length before) ≡ some e)))
flush_queue-split_example = flush_queue-split toy_sql syntax toy_aead flush_env toy_router bob 3

enqueue-table_example :
    let t = enqueue toy_sql syntax toy_aead enqueue_env toy_store bob message in
    (t.key ≡ toy_store.key) × (t.ttl ≡ toy_store.ttl) × (t.clients ≡ toy_store.clients)
enqueue-table_example = (enqueue-table toy_sql syntax toy_aead enqueue_env toy_store bob message).1

drain_queue-table_example :
    let t = (drain_queue toy_sql syntax toy_aead calm 6 toy_store bob).0 in
    (t.key ≡ toy_store.key) × (t.ttl ≡ toy_store.ttl) × (t.clients ≡ toy_store.clients)
drain_queue-table_example = (drain_queue-table toy_sql syntax toy_aead calm 6 toy_store bob).1
