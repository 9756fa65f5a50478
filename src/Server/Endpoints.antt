-- ===== src/Server/Endpoints.antt =====
-- The public endpoints.
use spectre_relay.Prelude.{
  ℕ, ◌≡◌, ◌≢◌, refl, ◌⊎◌, inl, inr, ◌↔◌, true, false, none, some, [], is_empty, Text, codes,
  text_eq, text_eq_iff, Option-cases, Bool-cases, arith,
}
use spectre_relay.Prelude.Assoc.{lookup}
use spectre_relay.Golib.Strings.{split_n, first, trim_prefix, contains_any}
use spectre_relay.Golib.Strings.Laws.{first-contains}
use spectre_relay.Crypto.{Aead, Ed25519}
use spectre_relay.Json.{Syntax, Json, Members, Number}
use spectre_relay.Prelude.Int.{pos}
use spectre_relay.Prekeys.Bundle.{PrekeyBundle}
use spectre_relay.Envelope.{decode_sealed}
use spectre_relay.Files.{WriteEnv}
use spectre_relay.RateLimit
use spectre_relay.Prekeys.{static_response, get_bundle_with_otpk}
use spectre_relay.Prekeys.Serving.{get_bundle_throttled}
use spectre_relay.Store.Database.{Sqlite}
use spectre_relay.Store.Messages.{sealed_message}
use spectre_relay.Router.{DeliverEnv, deliver}
use spectre_relay.Router.Delivery.{IsSent, IsQueued, deliver-plain}
use spectre_relay.Server.Responses.{json_of_response}
use spectre_relay.Server.{
  Server, FederationRequest, stamped, is_remote, status_only, fetch_for, handle_federation_deliver,
  handle_prekeys_get,
}

-- A request that the endpoint takes: a POST with the name of a relay and an envelope with a
-- ciphertext for a user here.
pub record IsAccepted (relay_id : Text) (req : FederationRequest) : Type 0 where
  pub posts : req.method ≡ codes "POST"
  pub named : req.relay_header ≢ []
  pub valid : (decode_sealed req.body).valid ≡ true
  pub recipient : (decode_sealed req.body).value.recipient_id ≢ []
  pub ciphertext : (decode_sealed req.body).value.ciphertext ≢ []
  pub here : is_remote relay_id (split_n b'@' (decode_sealed req.body).value.recipient_id) ≡ false

module _ (sql : Sqlite) (syntax : Syntax) (aead : Aead) (ed : Ed25519) where
  -- A POST is answered with 204 and nothing else, whatever becomes of it, and any other method
  -- with 405. An envelope that is accepted is written, once, to the connection of the local user
  -- that it names, or handed to that user's queue, once; it bears the name in the header of the
  -- request, and it is not forwarded again. Any other request leaves the relay as it is.
  pub handle_federation_deliver-local :
      (env : DeliverEnv) (s : Server sql) (req : FederationRequest)
      → let t = handle_federation_deliver sql syntax aead ed env s req in
        let e = (decode_sealed req.body).value in
        let user = first (split_n b'@' e.recipient_id) in
        (req.method ≡ codes "POST" → t.2 ≡ status_only 204)
        × (req.method ≢ codes "POST" → (t.2.status ≡ 405) × (t.0 ≡ s) × (t.1 ≡ []))
        × (IsAccepted s.cfg.relay_id req
            → (t.0 ≡ record s { router = t.0.router })
              × (let m = sealed_message (record e { federation_sender_relay = req.relay_header }) in
                  IsSent sql syntax aead env s.router user m (t.0.router, t.1)
                  ⊎ IsQueued sql syntax aead env s.router user m (t.0.router, t.1)))
        × ((IsAccepted s.cfg.relay_id req → ⊥) → (t.0 ≡ s) × (t.1 ≡ []))
  unfolding handle_federation_deliver
  handle_federation_deliver-local env s req =
      let d = decode_sealed req.body in
      let user = first (split_n b'@' d.value.recipient_id) in
      let m = sealed_message (stamped sql syntax aead ed req.relay_header d.value) in
      let posted = text_eq_iff req.method (codes "POST") in
      (
        λ h. ground (arith, posted.1 h),
        λ h. ground (arith, posted),
        λ a.
            let e : handle_federation_deliver sql syntax aead ed env s req ≡ (
                let t = deliver sql syntax aead env s.router user m in
                (record s { router = t.0 }, t.1, status_only 204)) =
              ground
                (arith, posted.1 a.posts, a.named, a.valid, a.recipient, a.ciphertext, a.here) in
            rw e (
              refl,
              deliver-plain sql syntax aead env s.router user m
                  (first-contains b'@' d.value.recipient_id),
            ),
        λ n. elim (Bool-cases (text_eq req.method (codes "POST"))) [
          | inr bad ↦ ground (arith, bad)
          | inl good ↦ ground (arith, good, n)
        ],
      )

  -- The bundle of a user as it is printed without a one-time prekey.
  abbrev pub static_json : PrekeyBundle → Json
  static_json b = Json.object (
      Members.member (codes "identity_key") (Json.string b.identity_key) (
        Members.member (codes "signed_prekey") (Json.string b.signed_prekey) (
          Members.member (codes "signed_prekey_sig") (Json.string b.signed_prekey_sig) (
            Members.member (codes "signed_prekey_id")
              (Json.number (Number.int64 (pos b.signed_prekey_id))) Members.nil))))

  -- The user that a path asks for.
  abbrev pub asked : Text → Text
  asked path = trim_prefix path (codes "/prekeys/")

  pub fetch_for-status :
      (env : WriteEnv) (now : ℕ) (s : Server sql) (user : Text)
      → let t = fetch_for sql syntax aead ed env now s user in
        ((t.1.status ≡ 404) ↔ (lookup user s.prekeys.bundles ≡ none))
        × ((t.1.status ≡ 404) ⊎ (t.1.status ≡ 200))
        × ((RateLimit.allow s.prekey_limiter user now).1 ≡ false
            → (t.0.prekeys ≡ s.prekeys)
              × ((b : PrekeyBundle)
                  → lookup user s.prekeys.bundles ≡ some b
                  → t.1 ≡ record { status = 200; allow_header = []; body = some (static_json b) }))
  unfolding json_of_response static_response
  fetch_for-status env now s user =
      let consume = (RateLimit.allow s.prekey_limiter user now).1 in
      let (throttled, _, missing) = get_bundle_throttled syntax aead env s.prekeys user in
      let there = missing consume in
      let answer = (get_bundle_with_otpk syntax aead env s.prekeys user consume).1 in
      (
        elim (Option-cases answer) [
          | inl e ↦ (λ _. there.0 e, λ _. ground (arith, e))
          | inr (r, e) ↦
              (λ h. absurd (ground (arith, e, h)), λ h. absurd (ground (arith, e, there.1 h)))
        ],
        elim (Option-cases answer) [ inl e ↦ ground (arith, e) | inr (r, e) ↦ ground (arith, e) ],
        λ over.
            (ground (arith, over, throttled), λ b found. ground (arith, over, throttled, found)),
      )

  -- A name that `handlePrekeysGet` looks up.
  abbrev pub IsAskable : Text → Type 0
  IsAskable user = (is_empty user ≡ false) × (contains_any user (codes "/?#") ≡ false)

  -- A GET for a name that is not empty and has no `/`, `?` or `#` is answered with 404 exactly where
  -- the name has no bundle, and with 200 otherwise, however often it was asked. Over the budget of
  -- that name the answer is the four static fields of the bundle and nothing else, so no one-time
  -- prekey, and no bundle changes. A GET for any other name is answered with 404, also where the
  -- name has a bundle, and any other method with 405; neither changes anything.
  pub handle_prekeys_get-status :
      (env : WriteEnv) (now : ℕ) (s : Server sql) (method path : Text)
      → let t = handle_prekeys_get sql syntax aead ed env now s method path in
        let user = asked path in
        (method ≡ codes "GET"
          → IsAskable user
          → ((t.1.status ≡ 404) ↔ (lookup user s.prekeys.bundles ≡ none))
            × ((t.1.status ≡ 404) ⊎ (t.1.status ≡ 200))
            × ((RateLimit.allow s.prekey_limiter user now).1 ≡ false
                → (t.0.prekeys ≡ s.prekeys)
                  × ((b : PrekeyBundle)
                      → lookup user s.prekeys.bundles ≡ some b
                      → t.1
                        ≡ record { status = 200; allow_header = []; body = some (static_json b) })))
        × (method ≡ codes "GET" → (IsAskable user → ⊥) → (t.0 ≡ s) × (t.1.status ≡ 404))
        × (method ≢ codes "GET" → (t.0 ≡ s) × (t.1.status ≡ 405))
  unfolding handle_prekeys_get
  handle_prekeys_get-status env now s method path =
      let get = text_eq_iff method (codes "GET") in
      (
        λ is_get askable.
            let e : handle_prekeys_get sql syntax aead ed env now s method path
                ≡ fetch_for sql syntax aead ed env now s (asked path) =
              ground (arith, get.1 is_get, askable) in
            rw e (fetch_for-status env now s (asked path)),
        λ is_get other. elim (Bool-cases (is_empty (asked path))) [
          | inl empty ↦ ground (arith, get.1 is_get, empty)
          | inr there ↦ elim (Bool-cases (contains_any (asked path) (codes "/?#"))) [
            | inl odd ↦ ground (arith, get.1 is_get, there, odd)
            | inr plain ↦ absurd (other (there, plain))
          ]
        ],
        λ no_get. ground (arith, get, no_get),
      )
