-- ===== src/Server/Frames.antt =====
-- The frames of an authenticated connection, and the certificates of senders.
use spectre_relay.Prelude.{
  ℕ, ◌+◌, ◌/◌, ◌≡◌, ◌≢◌, refl, true, false, none, some, [], ◌∷◌, ◌++◌, Text, Bytes, contains, codes,
  arith,
}
use spectre_relay.Prelude.Assoc.{lookup}
use spectre_relay.Golib.Strings.Laws.{split_n-join, split_n-plain}
use spectre_relay.Crypto.{Aead, Ed25519}
use spectre_relay.Json.{Syntax, Json, Members, Number}
use spectre_relay.Prelude.Int.{pos}
use spectre_relay.Prekeys.Bundle.{PrekeyBundle}
use spectre_relay.Prekeys.Serving.{lookup-register_ne}
use spectre_relay.Prekeys.{identity_key_of}
use spectre_relay.Store.Database.{Sqlite}
use spectre_relay.Store.{Conn}
use spectre_relay.Router.Addresses.{is_local_relay}
use spectre_relay.SealedCa.{json_of_cert}
use spectre_relay.SealedCa.Certificates.{issue_cert-verifies}
use spectre_relay.Server.{
  Server, FrameEnv, decode_registration, build_sender_cert, issue_sender_cert, handle_authed_frame,
  normalize_user,
}

-- The certificate as it is signed: it expires 24 hours after `now`, in milliseconds.
abbrev pub certificate : Text → Text → Text → ℕ → Json
certificate relay user key now = Json.object (
    Members.member (codes "iss") (Json.string relay) (
      Members.member (codes "uid") (Json.string user) (
        Members.member (codes "ik") (Json.string key) (
          Members.member (codes "exp")
            (Json.number (Number.int64 (pos ((now + 86400000000000) / 1000000)))) Members.nil))))

module _ (sql : Sqlite) (syntax : Syntax) (aead : Aead) (ed : Ed25519) where
  -- Whatever a frame holds, it changes no bundle but that of the user whom its connection is
  -- authenticated as, and it does not change the signing key, the budget of the addresses or that
  -- of the bundles.
  pub handle_authed_frame-own :
      (env : FrameEnv) (s : Server sql) (user other : Text) (c : Conn) (content : Bytes)
      → user ≢ other
      → let t = (handle_authed_frame sql syntax aead ed env s user c content).0 in
        (lookup other t.prekeys.bundles ≡ lookup other s.prekeys.bundles)
        × (t.sealed_ca ≡ s.sealed_ca)
        × (t.auth ≡ s.auth)
        × (t.prekey_limiter ≡ s.prekey_limiter)
  unfolding handle_authed_frame issue_sender_cert
  handle_authed_frame-own env s user other c content ne = ground (
    arith,
    lookup-register_ne syntax aead env.save_env s.prekeys other user
        (decode_registration (syntax.unmarshal content)).value ne,
  )

  -- For an authority whose public key belongs to its genuine private key: a user who has registered
  -- a bundle, and whose certificate can be printed, gets one that names this relay as the issuer,
  -- this user, the identity key of that bundle and a time 24 hours later, and that the public key
  -- verifies. A user without a bundle gets none.
  pub build_sender_cert-own :
      (s : Server sql) (user stranger : Text) (b : PrekeyBundle) (now : ℕ)
      → ed.IsPrivate s.sealed_ca.priv
      → s.sealed_ca.pub_key ≡ ed.public s.sealed_ca.priv
      → lookup user s.prekeys.bundles ≡ some b
      → lookup stranger s.prekeys.bundles ≡ none
      → syntax.IsPrintable (certificate s.cfg.relay_id user b.identity_key now)
      → ((cert sig : Bytes) × (build_sender_cert sql syntax aead ed s user now ≡ some (cert, sig))
          × (syntax.unmarshal cert ≡ some (certificate s.cfg.relay_id user b.identity_key now))
          × (ed.verify s.sealed_ca.pub_key cert sig ≡ true))
        × (build_sender_cert sql syntax aead ed s stranger now ≡ none)
  unfolding build_sender_cert identity_key_of json_of_cert
  build_sender_cert-own s user stranger b now own key there missing printable =
      let (cert, sig, issued, parsed, verified) =
        issue_cert-verifies ed syntax s.sealed_ca user b.identity_key s.cfg.relay_id now own key
          printable in
      ((cert, sig, ground (arith, there, issued), parsed, verified), ground (arith, missing))

-- A bare name without an `@` is registered as it is. In front of the domain of this relay it is
-- registered as the bare name, and an address that is nothing but that domain as the empty name; in
-- front of any other domain the whole address is kept.
pub normalize_user-cases :
    (relay_id user domain : Text)
    → contains b'@' user ≡ false
    → (normalize_user relay_id user ≡ user)
      × (is_local_relay domain relay_id ≡ true
          → (normalize_user relay_id (user ++ b'@' ∷ domain) ≡ user)
            × (normalize_user relay_id (b'@' ∷ domain) ≡ []))
      × (is_local_relay domain relay_id ≡ false
          → normalize_user relay_id (user ++ b'@' ∷ domain) ≡ user ++ b'@' ∷ domain)
unfolding normalize_user
normalize_user-cases relay_id user domain h =
    let joined = split_n-join b'@' user domain h in
    (
      ground (arith, split_n-plain b'@' user h),
      λ l. (
        ground (arith, joined, l),
        ground (arith, split_n-join b'@' [] domain (unfold contains in refl), l),
      ),
      λ far. ground (arith, joined, far),
    )
