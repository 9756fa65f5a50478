-- ===== src/Sections/Handouts.antt =====
-- One-time prekeys among interleaved threads: `getBundleWithOTPK` and `registerBundle` of
-- server/prekey_store.go as sections that several threads enter.
use spectre_relay.Prelude.{
  ℕ, zero, suc, ◌≡◌, refl, Option, none, some, List, [], ◌∷◌, ◌++◌, append_assoc, if◌then◌else◌,
  Text, text_eq, arith,
}
use spectre_relay.Prelude.Assoc.{lookup}
use spectre_relay.Crypto.{Aead, Ed25519}
use spectre_relay.Json.{Syntax}
use spectre_relay.Prekeys.Bundle.{OneTimePrekey, PrekeyBundle}
use spectre_relay.Prekeys.Validation.{AreDistinct, IsWellFormed}
use spectre_relay.Prekeys.{PrekeyStore}
use spectre_relay.Prekeys.Serving
use spectre_relay.Prekeys.Serving.{Request, NotPublished, prekey_of, served-AreDistinct}
use spectre_relay.Store.Database.{Sqlite}
use spectre_relay.Router
use spectre_relay.Server.{Server}
use spectre_relay.Sections.{
  Section, admit, enter, leave, find, put, take, sweep, spend, cert_slot, fetch_slot, replace,
  serve, key_of, Reply, done, emit, call, perform,
}
use spectre_relay.Sections.System.{Thread, System, Turn, starts, goes, go, go_one, turn}

-- The section that a thread enters at its next turn.
abbrev pub next_of : Thread → Option Section
next_of (done r) = none
next_of (emit es p) = none
next_of (call a k) = some a

abbrev pub next_at : List Thread → ℕ → Option Section
next_at [] i = none
next_at (p ∷ ps) zero = next_of p
next_at (p ∷ ps) (suc i) = next_at ps i

-- The request to the prekey store that a section is.
abbrev pub request_of : Option Section → List Request
request_of (some (replace env user b)) = Serving.publish env user b ∷ []
request_of (some (serve env user consume)) = Serving.fetch env user consume ∷ []
request_of _ = []

-- The one-time prekey of the user that a section returns.
abbrev pub one_of : Text → (a : Section) → Reply a → List OneTimePrekey
one_of user (serve env target consume) (some r) = elim r.one_time_prekey [
  | none ↦ []
  | some k ↦ if text_eq target user then k ∷ [] else []
]
one_of user _ _ = []

module _ (sql : Sqlite) (syntax : Syntax) (aead : Aead) (ed : Ed25519) where
  abbrev pub one_from : Text → Server sql → Option Section → List OneTimePrekey
  one_from user s none = []
  one_from user s (some a) = one_of user a (perform sql syntax aead s a).1

  abbrev pub entered : System sql → Turn → Option Section
  entered x (starts j) = none
  entered x (goes i) = next_at x.threads i

  -- The requests to the prekey store, in the order in which the threads come to them.
  unfoldable pub requests : System sql → List Turn → List Request
  requests x [] = []
  requests x (t ∷ ts) = request_of (entered x t) ++ requests (turn sql syntax aead ed x t) ts

  -- All one-time prekeys of the user that the sections return, to any thread.
  unfoldable pub handouts : Text → System sql → List Turn → List OneTimePrekey
  handouts user x [] = []
  handouts user x (t ∷ ts) =
      one_from user x.server (entered x t) ++ handouts user (turn sql syntax aead ed x t) ts

  -- What a list of requests does before others.
  served-append :
      (user : Text) (p : PrekeyStore) (l m : List Request)
      → let q = Serving.run syntax aead p l in
        (Serving.run syntax aead p (l ++ m) ≡ Serving.run syntax aead q m)
        × (Serving.served syntax aead user p (l ++ m)
            ≡ Serving.served syntax aead user p l ++ Serving.served syntax aead user q m)
  unfolding Serving.run Serving.served
  served-append user p [] m = (refl, refl)
  served-append user p (r ∷ l) m =
      let (q, key) = Serving.step syntax aead p r in
      let (same, all) = served-append user q l m in (same, rw (all, append_assoc) refl)

  -- A section is its request.
  abbrev IsRequest : Text → Server sql → Option Section → Server sql → Type 0
  IsRequest user s o t =
      (t.prekeys ≡ Serving.run syntax aead s.prekeys (request_of o))
      × (one_from user s o ≡ Serving.served syntax aead user s.prekeys (request_of o))

  perform-IsRequest :
      (user : Text) (s : Server sql) (a : Section)
      → IsRequest user s (some a) (perform sql syntax aead s a).0
  unfolding perform Serving.run Serving.served Serving.step Router.allow
  perform-IsRequest user s (admit ip now) = (refl, refl)
  perform-IsRequest user s (enter u c) = (refl, refl)
  perform-IsRequest user s (leave u c) = (refl, refl)
  perform-IsRequest user s (find u) = (refl, refl)
  perform-IsRequest user s (put env u m) = (refl, refl)
  perform-IsRequest user s (take env now u) = (refl, refl)
  perform-IsRequest user s (sweep now env) = (refl, refl)
  perform-IsRequest user s (spend u now) = (refl, refl)
  perform-IsRequest user s (cert_slot u now) = (refl, refl)
  perform-IsRequest user s (fetch_slot u now) = (refl, refl)
  perform-IsRequest user s (replace env u b) = (refl, refl)
  perform-IsRequest user s (serve env u consume) = (refl, ground arith)
  perform-IsRequest user s (key_of u) = (refl, refl)

  go-IsRequest :
      (user : Text) (s : Server sql) (p : Thread)
      → IsRequest user s (next_of p) (go sql syntax aead ed s p).0
  unfolding Serving.run Serving.served
  go-IsRequest user s (done r) = (refl, refl)
  go-IsRequest user s (emit es p) = (refl, refl)
  go-IsRequest user s (call a k) = perform-IsRequest user s a

  go_one-IsRequest :
      (user : Text) (s : Server sql) (ps : List Thread) (i : ℕ)
      → IsRequest user s (next_at ps i) (go_one sql syntax aead ed s ps i).0
  unfolding Serving.run Serving.served
  go_one-IsRequest user s [] i = (refl, refl)
  go_one-IsRequest user s (p ∷ ps) zero = go-IsRequest user s p
  go_one-IsRequest user s (p ∷ ps) (suc i) = go_one-IsRequest user s ps i

  turn-IsRequest :
      (user : Text) (x : System sql) (t : Turn)
      → IsRequest user x.server (entered x t) (turn sql syntax aead ed x t).server
  unfolding turn Serving.run Serving.served
  turn-IsRequest user x (starts j) = (refl, refl)
  turn-IsRequest user x (goes i) = go_one-IsRequest user x.server x.threads i

  handouts-served :
      (user : Text) (x : System sql) (ts : List Turn)
      → handouts user x ts ≡ Serving.served syntax aead user x.server.prekeys (requests x ts)
  unfolding handouts requests Serving.served
  handouts-served user x [] = refl
  handouts-served user x (t ∷ ts) =
      let y = turn sql syntax aead ed x t in
      let (same, one) = turn-IsRequest user x t in
      let (_, all) =
        served-append user x.server.prekeys (request_of (entered x t)) (requests y ts) in
      rw (all, ← same, ← one, handouts-served user y ts) refl

  -- Whatever threads run, started before or in between, and in whatever order their sections come:
  -- as long as none of these sections replaces the bundle of the user, which is well formed at the
  -- start, no id of its one-time prekeys is returned twice, to the same thread or to two.
  pub handouts-AreDistinct :
      (user : Text) (x : System sql) (b : PrekeyBundle) (ts : List Turn)
      → IsWellFormed b
      → lookup user x.server.prekeys.bundles ≡ some b
      → NotPublished user (requests x ts)
      → AreDistinct (handouts user x ts)
  handouts-AreDistinct user x b ts w e n =
      rw (handouts-served user x ts)
        (served-AreDistinct syntax aead user x.server.prekeys b (requests x ts) w e n)
