-- ===== src/Store/Registry.antt =====
-- The registry of connections: one slot for each user.
use spectre_relay.Prelude.{
  ◌≡◌, ◌≢◌, refl, ◌&&◌, Option, none, some, List, [], ◌∷◌, if◌then◌else◌, ◌==◌, Text, text_eq,
  text_eq_iff, arith,
}
use spectre_relay.Prelude.Assoc.{lookup, insert, lookup-insert, lookup-remove}
use spectre_relay.Store.Database.{Sqlite}
use spectre_relay.Store.{Conn, Store, register, unregister, lookup_client}

-- A session starts with `Register`, and its deferred call is `Unregister` with the same connection.
pub data Session : Type 0 where
  starts : Text → Conn → Session
  ends : Text → Conn → Session

-- The slot of one user, which knows nothing of the others.
abbrev slot_step : Text → Option Conn → Session → Option Conn
slot_step user old (starts u c) = if text_eq u user then some c else old
slot_step user none (ends u c) = none
slot_step user (some d) (ends u c) = if text_eq u user && (d == c) then none else some d

unfoldable pub slot : Text → Option Conn → List Session → Option Conn
slot user old [] = old
slot user old (e ∷ es) = slot user (slot_step user old e) es

module _ (sql : Sqlite) where
  unfoldable pub run_sessions : Store sql → List Session → Store sql
  run_sessions s [] = s
  run_sessions s (starts u c ∷ es) = run_sessions (register sql s u c).0 es
  run_sessions s (ends u c ∷ es) = run_sessions (unregister sql s u c) es

  lookup-register :
      (s : Store sql) (u user : Text) (c : Conn)
      → lookup user (register sql s u c).0.clients
        ≡ slot_step user (lookup user s.clients) (starts u c)
  unfolding register
  lookup-register s u user c = lookup-insert u user c s.clients

  lookup-unregister :
      (s : Store sql) (u user : Text) (c : Conn)
      → lookup user (unregister sql s u c).clients
        ≡ slot_step user (lookup user s.clients) (ends u c)
  unfolding unregister
  lookup-unregister s u user c = ground (arith, text_eq_iff u user, lookup-remove u user s.clients)

  -- Over any history of sessions the registry gives each user the slot that its own sessions
  -- leave: a new session takes the place of the old one, and a session that ends late, after its
  -- user has connected again, does not remove the newer connection.
  pub lookup_client-run_sessions :
      (s : Store sql) (user : Text) (es : List Session)
      → lookup_client sql (run_sessions s es) user ≡ slot user (lookup_client sql s user) es
  unfolding lookup_client run_sessions slot
  lookup_client-run_sessions s user [] = refl
  lookup_client-run_sessions s user (starts u c ∷ es) =
      rw (← lookup-register s u user c) (lookup_client-run_sessions (register sql s u c).0 user es)
  lookup_client-run_sessions s user (ends u c ∷ es) =
      rw (← lookup-unregister s u user c)
        (lookup_client-run_sessions (unregister sql s u c) user es)

  -- `Register` returns the connection that it displaces, and nothing else is displaced.
  pub register-unregister_stale :
      (s : Store sql) (user : Text) (old new : Conn)
      → old ≢ new
      → let first = (register sql s user old).0 in
        let second = register sql first user new in
        (second.1 ≡ some old)
        × (lookup_client sql (unregister sql second.0 user old) user ≡ some new)
        × (lookup_client sql (unregister sql second.0 user new) user ≡ none)
  unfolding register unregister lookup_client
  register-unregister_stale s user old new ne =
      let m = insert user old s.clients in
      ground (
        arith,
        text_eq_iff user user,
        lookup-insert user user old s.clients,
        lookup-insert user user new m,
        lookup-remove user user (insert user new m),
      )
