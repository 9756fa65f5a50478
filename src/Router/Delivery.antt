-- ===== src/Router/Delivery.antt =====
-- `deliver` of server/router.go: by the form of the address.
use spectre_relay.Prelude.{
  ◌≡◌, refl, ◌⊎◌, inl, inr, true, false, none, some, List, [], ◌∷◌, ◌++◌, Text, Bytes, codes,
  contains, ok, err, Error, Option-cases, Result-cases, arith,
}
use spectre_relay.Golib.Strings.Laws.{split_n-join, split_n-plain}
use spectre_relay.Crypto.{Aead}
use spectre_relay.Json.{Syntax}
use spectre_relay.Envelope.{SealedEnvelope, json_of_sealed}
use spectre_relay.Store.Database.{Sqlite}
use spectre_relay.Store.Messages.{QueuedMessage}
use spectre_relay.Store.{Conn, lookup_client, enqueue}
use spectre_relay.Router.Addresses.{is_local_relay}
use spectre_relay.Router.{
  Router, DeliverEnv, Effect, sent, posted, marshal_queued, deliver, deliver_local, deliver_to,
  forward_federated,
}

module _ (sql : Sqlite) (syntax : Syntax) (aead : Aead) where
  -- A message for a user of this relay is written to the user's connection, once.
  abbrev pub IsSent :
      DeliverEnv → Router sql → Text → QueuedMessage → Router sql × List Effect → Type 0
  IsSent env r user m t =
      (c : Conn) × (raw : Bytes) × (lookup_client sql r.store user ≡ some c)
      × (marshal_queued syntax m ≡ ok raw)
      × (env.write ≡ none)
      × (t ≡ (r, sent c raw ∷ []))

  -- Or it is handed to the queue, once, because there is no connection, nothing to print, or the
  -- write failed.
  abbrev pub IsQueued :
      DeliverEnv → Router sql → Text → QueuedMessage → Router sql × List Effect → Type 0
  IsQueued env r user m t =
      ((lookup_client sql r.store user ≡ none)
        ⊎ (((e : Error) × (marshal_queued syntax m ≡ err e))
            ⊎ ((e : Error) × (env.write ≡ some e))))
      × (t ≡ (record r { store = enqueue sql syntax aead env.store r.store user m }, []))

  deliver_local-cases :
      (env : DeliverEnv) (r : Router sql) (user : Text) (m : QueuedMessage)
      → let t = deliver_local sql syntax aead env r user m in
        IsSent env r user m t ⊎ IsQueued env r user m t
  unfolding deliver_local
  deliver_local-cases env r user m = elim (Option-cases (lookup_client sql r.store user)) [
    | inl e ↦ rw (e, deliver_local) (inr (inl refl, refl))
    | inr (c, found) ↦ elim (Result-cases (marshal_queued syntax m)) [
      | inr (e, bad) ↦ rw (found, bad, deliver_local) (inr (inr (inl (e, refl)), refl))
      | inl (raw, good) ↦ elim (Option-cases env.write) [
        | inr (e, bad) ↦ rw (found, good, bad, deliver_local) (inr (inr (inr (e, refl)), refl))
        | inl written ↦
            rw (found, good, written, deliver_local) (inl (c, raw, refl, refl, refl, refl))
      ]
    ]
  ]

  -- A message for a name without an `@` is either written to the connection of that user, once,
  -- with the store as it was, or handed to the queue of that user, once, with nothing sent; the
  -- latter only where there is no connection, no envelope to print, or a failed write.
  pub deliver-plain :
      (env : DeliverEnv) (r : Router sql) (user : Text) (m : QueuedMessage)
      → contains b'@' user ≡ false
      → let t = deliver sql syntax aead env r user m in
        IsSent env r user m t ⊎ IsQueued env r user m t
  unfolding deliver
  deliver-plain env r user m h =
      rw (split_n-plain b'@' user h, deliver_to) (deliver_local-cases env r user m)

  -- An address at this relay is the same as the bare name. For an address elsewhere the router
  -- keeps its state. An open envelope goes nowhere. A sealed one is posted once, as JSON, to
  -- `/federation/deliver` of the domain, with the name of this relay in the header; only where it
  -- cannot be printed, or the request fails, nothing is posted, and it is not queued either.
  pub deliver-address :
      (env : DeliverEnv) (r : Router sql) (user domain : Text) (m : QueuedMessage)
      → contains b'@' user ≡ false
      → let t = deliver sql syntax aead env r (user ++ b'@' ∷ domain) m in
        (is_local_relay domain r.relay_id ≡ true → t ≡ deliver sql syntax aead env r user m)
        × (is_local_relay domain r.relay_id ≡ false
            → (t.0 ≡ r)
              × (m.sealed ≡ none → t.1 ≡ [])
              × ((e : SealedEnvelope) (body : Bytes)
                  → m.sealed ≡ some e
                  → syntax.marshal (json_of_sealed e) ≡ ok body
                  → env.request ≡ none
                  → t.1
                    ≡ posted (record {
                      url = codes "http://" ++ (domain ++ codes "/federation/deliver");
                      relay_header = r.relay_id;
                      body = body;
                    })
                      ∷ [])
              × ((e : SealedEnvelope) (x : Error)
                  → m.sealed ≡ some e
                  → (syntax.marshal (json_of_sealed e) ≡ err x) ⊎ (env.request ≡ some x)
                  → t.1 ≡ []))
  unfolding deliver forward_federated
  deliver-address env r user domain m h =
      rw (split_n-join b'@' user domain h, split_n-plain b'@' user h)
        (
          λ l. rw l,
          λ far. (
            elim (Option-cases m.sealed) [
              | inl none_there ↦ ground (arith, far, none_there)
              | inr (e, there) ↦ ground (arith, far, there)
            ],
            λ open_one. ground (arith, far, open_one),
            λ e body there printed fine. ground (arith, far, there, printed, fine),
            λ e x there bad. elim (Result-cases (syntax.marshal (json_of_sealed e))) [
              | inl (body, printed) ↦ elim bad [
                | inl unprinted ↦ ground (arith, far, there, unprinted)
                | inr failed ↦ ground (arith, far, there, printed, failed)
              ]
              | inr (y, unprinted) ↦ ground (arith, far, there, unprinted)
            ],
          ),
        )
