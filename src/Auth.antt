-- ===== src/Auth.antt =====
-- server/auth.go: the challenge and response of a connection, and the limiter of the addresses. The
-- outcome of each call that may fail is an argument. The time limit of the handshake shows as a failed
-- read or write. The debug lines are in Logs.Handshake.
pub mod Handshake
use spectre_relay.Prelude.{
  ℕ, Bool, true, false, not, Option, none, some, List, [], ◌∷◌, if◌then◌else◌, ◌==◌, length,
  is_empty, Text, Bytes, Result, ok, err, Error,
}
use spectre_relay.Prelude.Assoc.{Map}
use spectre_relay.Golib.Base64
use spectre_relay.Golib.Strings.{split_host_port}
use spectre_relay.RateLimit.{take_slot}
use spectre_relay.Crypto.{Ed25519}
use spectre_relay.Json.{Syntax, Stored}
use spectre_relay.Envelope.{AuthRequest, decode_auth_request}

pub record AuthLimiter : Type 0 where
  pub attempts : Map (List ℕ)

abbrev pub max_attempts : ℕ
max_attempts = 5

unfoldable pub new_auth_limiter : AuthLimiter
new_auth_limiter = record { attempts = [] }

unfoldable pub allow : AuthLimiter → Text → ℕ → AuthLimiter × Bool
allow l ip now =
    let (attempts, allowed) = take_slot max_attempts l.attempts ip now in
    (record l { attempts = attempts }, allowed)

-- `ErrAuthFailed`, the only error.
pub data AuthError : Type 0 where
  auth_failed : AuthError

-- The nonce that is drawn, the outcomes of the two writes, and the text frame that is read.
pub record AuthEnv : Type 0 where
  pub nonce : Result Error Bytes
  pub challenge : Option Error
  pub request : Result Error Bytes
  pub success : Option Error

module _ (ed : Ed25519) where
  -- Errors of the decoding are dropped: what was decoded before them is used.
  abbrev pub key_of : AuthRequest → Bytes
  key_of req = (Base64.decode req.identity_public_key).bytes

  abbrev pub signature_of : AuthRequest → Bytes
  signature_of req = (Base64.decode req.signature).bytes

  -- From the decoded request on.
  unfoldable pub check_request : Bytes → Option Error → AuthRequest → Result AuthError Text
  check_request nonce success req =
      if not (length (key_of req) == 32)
      then err auth_failed
      else if not (length (signature_of req) == 64)
      then err auth_failed
      else if not (ed.verify (key_of req) nonce (signature_of req))
      then err auth_failed
      else if is_empty req.user_id
      then err auth_failed
      else elim success [ some _ ↦ err auth_failed | none ↦ ok req.user_id ]

  abbrev pub answer : Bytes → Option Error → Stored AuthRequest → Result AuthError Text
  answer nonce success d = if d.valid then check_request nonce success d.value else err auth_failed

  -- From `rand.Read` on.
  unfoldable pub handshake : Syntax → AuthEnv → Result AuthError Text
  handshake syntax env = elim env.nonce [
    | err _ ↦ err auth_failed
    | ok nonce ↦ elim env.challenge [
      | some _ ↦ err auth_failed
      | none ↦ elim env.request [
        | err _ ↦ err auth_failed
        | ok frame ↦ answer nonce env.success (decode_auth_request (syntax.unmarshal frame))
      ]
    ]
  ]

  unfoldable pub authenticate :
      Syntax → AuthEnv → AuthLimiter → Text → ℕ → AuthLimiter × Result AuthError Text
  authenticate syntax env l ip now =
      let (l', allowed) = allow l ip now in
      let result = handshake syntax env in
      if not allowed then (l', err auth_failed) else (l', result)

unfoldable pub extract_ip : Text → Text
extract_ip addr = elim (split_host_port addr) [ none ↦ addr | some (host, port) ↦ host ]
