-- ===== src/Auth/Handshake.antt =====
-- Who gets through the handshake.
use spectre_relay.Prelude.{
  ℕ, ◌≡◌, ◌≢◌, inl, inr, ◌↔◌, true, false, Option, none, [], ◌∷◌, ◌++◌, length, Text, Bytes, ok,
  Error, Option-cases, Result-cases, Bool-cases, arith,
}
use spectre_relay.Golib.Base64
use spectre_relay.Golib.Base64.Laws.{AreBytes, decode-encode, decode-encode_junk}
use spectre_relay.Crypto.{Ed25519}
use spectre_relay.Json.{Syntax}
use spectre_relay.Envelope.{AuthRequest, decode_auth_request}
use spectre_relay.Auth.{
  AuthLimiter, AuthEnv, allow, key_of, signature_of, check_request, answer, handshake, authenticate,
}

-- A request that passes: a key of 32 bytes, a signature of 64 that it verifies over the nonce, and
-- a name.
pub record IsProof (ed : Ed25519) (nonce : Bytes) (req : AuthRequest) : Type 0 where
  pub key_size : length (key_of ed req) ≡ 32
  pub signature_size : length (signature_of ed req) ≡ 64
  pub verified : ed.verify (key_of ed req) nonce (signature_of ed req) ≡ true
  pub named : req.user_id ≢ []

-- Everything that has to go well.
pub record Passes (ed : Ed25519) (syntax : Syntax) (env : AuthEnv) (user : Text) : Type 0 where
  pub nonce : Bytes
  pub frame : Bytes
  pub req : AuthRequest
  pub drawn : env.nonce ≡ ok nonce
  pub challenged : env.challenge ≡ none
  pub read : env.request ≡ ok frame
  pub decoded : decode_auth_request (syntax.unmarshal frame) ≡ record { value = req; valid = true }
  pub proof : IsProof ed nonce req
  pub told : env.success ≡ none
  pub own : req.user_id ≡ user

module _ (ed : Ed25519) where
  check_request_sound :
      (nonce : Bytes) (success : Option Error) (req : AuthRequest) (user : Text)
      → check_request ed nonce success req ≡ ok user
      → IsProof ed nonce req × (success ≡ none) × (req.user_id ≡ user)
  unfolding check_request
  check_request_sound nonce success req user h = ground arith

  check_request_complete :
      (nonce : Bytes) (req : AuthRequest)
      → IsProof ed nonce req
      → check_request ed nonce none req ≡ ok req.user_id
  unfolding check_request
  check_request_complete nonce req p =
      ground (arith, p.key_size, p.signature_size, p.verified, p.named)

  handshake_sound :
      (syntax : Syntax) (env : AuthEnv) (user : Text)
      → handshake ed syntax env ≡ ok user
      → Passes ed syntax env user
  unfolding handshake
  handshake_sound syntax env user h = elim (Result-cases env.nonce) [
    | inr (_, bad) ↦ absurd (ground (arith, bad, h))
    | inl (nonce, drawn) ↦ elim (Option-cases env.challenge) [
      | inr (_, bad) ↦ absurd (ground (arith, drawn, bad, h))
      | inl challenged ↦ elim (Result-cases env.request) [
        | inr (_, bad) ↦ absurd (ground (arith, drawn, challenged, bad, h))
        | inl (frame, got) ↦
            let d = decode_auth_request (syntax.unmarshal frame) in
            elim (Bool-cases d.valid) [
              | inr bad ↦ absurd (ground (arith, drawn, challenged, got, bad, h))
              | inl good ↦
                  let e : check_request ed nonce env.success d.value ≡ ok user =
                    ground (arith, drawn, challenged, got, good, h) in
                  let (proof, told, own) = check_request_sound nonce env.success d.value user e in
                  record {
                    nonce = nonce;
                    frame = frame;
                    req = d.value;
                    drawn = drawn;
                    challenged = challenged;
                    read = got;
                    decoded = ground (arith, good);
                    proof = proof;
                    told = told;
                    own = own;
                  }
            ]
      ]
    ]
  ]

  handshake_complete :
      (syntax : Syntax) (env : AuthEnv) (user : Text)
      → Passes ed syntax env user
      → handshake ed syntax env ≡ ok user
  unfolding handshake
  handshake_complete syntax env user p = rw (
    p.drawn,
    p.challenged,
    p.read,
    p.decoded,
    answer,
    p.told,
    check_request_complete p.nonce p.req p.proof,
    p.own,
  )

  -- A connection is authenticated as a user exactly when the limiter admits its address, nothing
  -- fails, and its answer names that user, with a name that is not empty, and holds a key of 32
  -- bytes and a signature of 64 that the key verifies over the nonce of this handshake.
  pub authenticate-ok_iff :
      (syntax : Syntax) (env : AuthEnv) (l : AuthLimiter) (ip : Text) (now : ℕ) (user : Text)
      → ((authenticate ed syntax env l ip now).1 ≡ ok user)
        ↔ (((allow l ip now).1 ≡ true) × Passes ed syntax env user)
  unfolding authenticate
  authenticate-ok_iff syntax env l ip now user = elim (Bool-cases (allow l ip now).1) [
    | inl fine ↦ (
      λ h. (fine, handshake_sound syntax env user (ground (arith, fine, h))),
      λ p. ground (arith, fine, handshake_complete syntax env user p.1),
    )
    | inr over ↦ (λ h. absurd (ground (arith, over, h)), λ p. absurd (ground (arith, over, p.0)))
  ]

  -- Nothing ties a key to a name: with the key and the signature of any private key that was
  -- generated, a request passes under every name that is not empty. The text of the key does not
  -- have to be base64: behind its padding a character of the alphabet may stand, and anything after
  -- it.
  pub check_request-any_key :
      (priv nonce user : Bytes) (c : ℕ) (junk : Text)
      → ed.IsPrivate priv
      → user ≢ []
      → AreBytes (ed.public priv)
      → AreBytes (ed.sign priv nonce)
      → Base64.is_text c ≡ true
      → let req : Text → AuthRequest = λ key. record {
        user_id = user;
        identity_public_key = key;
        signature = Base64.encode (ed.sign priv nonce);
      } in
        let key = Base64.encode (ed.public priv) in
        (check_request ed nonce none (req key) ≡ ok user)
        × (check_request ed nonce none (req (key ++ c ∷ junk)) ≡ ok user)
        × ((Base64.decode (key ++ c ∷ junk)).valid ≡ false)
  unfolding check_request
  check_request-any_key priv nonce user c junk own named kb sb text =
      let full = ed.length-private priv own in
      let size = ed.length-public priv full in
      let extra = decode-encode_junk (ed.public priv) c junk kb (omega (arith, size)) text in
      ground (
        arith,
        size,
        extra,
        decode-encode (ed.public priv) kb,
        decode-encode (ed.sign priv nonce) sb,
        ed.length-sign priv nonce full,
        ed.verify-sign priv nonce own,
      )
