-- ===== src/Router/Routing.antt =====
-- `Route` of server/router.go: what is refused, and what becomes of an open envelope.
use spectre_relay.Prelude.{ℕ, ◌<◌, ◌≡◌, ◌⊎◌, true, false, none, ltb, length, Text, Bytes, arith}
use spectre_relay.Crypto.{Aead}
use spectre_relay.Json.{Syntax}
use spectre_relay.Envelope.{decode_sealed, decode_open}
use spectre_relay.Envelope.Shapes.{Agrees, RelayField, decode_open-decode_sealed}
use spectre_relay.Store.Database.{Sqlite}
use spectre_relay.Store.Messages.{sealed_message}
use spectre_relay.Router.{Router, DeliverEnv, allow, is_usable, route, deliver}

module _ (sql : Sqlite) (syntax : Syntax) (aead : Aead) where
  -- The router after the rate limiter has seen the sender.
  abbrev pub counted : Router sql → Text → ℕ → Router sql
  counted r sender now = (allow sql r sender now).0

  -- What makes `Route` return at once.
  abbrev pub IsRefused : ℕ → Router sql → Text → Bytes → Type 0
  IsRefused now r sender payload =
      (r.max_message_size < length payload)
      ⊎ (((allow sql r sender now).1 ≡ false) ⊎ (syntax.unmarshal payload ≡ none))

  -- A payload within the size limit, from a sender within the budget, that is an open envelope with
  -- a recipient and a ciphertext and without a relay field of another type, is delivered as a
  -- sealed envelope with the same recipient, ciphertext, time and id.
  pub route-open_as_sealed :
      (env : DeliverEnv) (now : ℕ) (r : Router sql) (sender : Text) (payload : Bytes)
      → ltb r.max_message_size (length payload) ≡ false
      → (allow sql r sender now).1 ≡ true
      → RelayField (syntax.unmarshal payload)
      → let o = decode_open (syntax.unmarshal payload) in
        let s = decode_sealed (syntax.unmarshal payload) in
        is_usable sql syntax aead o.valid o.value.recipient_id o.value.ciphertext ≡ true
        → Agrees s.value o.value
          × (route sql syntax aead env now r sender payload
              ≡ deliver sql syntax aead env
                  (counted r sender now)
                  o.value.recipient_id
                  (sealed_message s.value))
  unfolding route
  route-open_as_sealed env now r sender payload small fine field usable =
      let o = decode_open (syntax.unmarshal payload) in
      let good : o.valid ≡ true = ground arith in
      let (a, valid) = decode_open-decode_sealed (syntax.unmarshal payload) field good in
      (a, ground (arith, small, fine, valid, usable, a.recipients, a.ciphertexts))
