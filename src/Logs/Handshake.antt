-- ===== src/Logs/Handshake.antt =====
-- The debug trace of `Authenticate` in server/auth.go, and the line of `serveConn` in
-- server/server.go on a handshake that fails.
use spectre_relay.Prelude.{
  ℕ, ◌≡◌, refl, inl, inr, true, not, none, some, List, [], ◌∷◌, ◌++◌, if◌then◌else◌, ◌==◌, length,
  Text, Bytes, codes, Result, ok, err, Error, Bool-cases, Result-cases, arith,
}
use spectre_relay.Config.{Env}
use spectre_relay.Crypto.{Ed25519}
use spectre_relay.Json.{Syntax}
use spectre_relay.Envelope.{AuthRequest, decode_auth_request}
use spectre_relay.Auth.{AuthEnv, AuthError, AuthLimiter, key_of, signature_of, allow, authenticate}
use spectre_relay.Logs.{Level, debug, info, warn, error, number, Line, is_debug, shown, printed}

abbrev step_line : Text → Line
step_line message = record { level = debug; message = message; attrs = [] }

shown_all : (level : Level) → shown true level ≡ true
shown_all debug = refl
shown_all info = refl
shown_all warn = refl
shown_all error = refl

printed_all : (env : Env) (lines : List Line) → is_debug env ≡ true → printed env lines ≡ lines
printed_all env [] h = refl
printed_all env (l ∷ lines) h = ground (arith, h, shown_all l.level, printed_all env lines h)

module _ (ed : Ed25519) where
  abbrev received_line : AuthRequest → Line
  received_line req = record {
    level = debug;
    message = codes "auth: request received";
    attrs =
        (codes "user_id_len", number (length req.user_id))
        ∷ (codes "pub_key_len", number (length (key_of ed req)))
        ∷ (codes "sig_len", number (length (signature_of ed req)))
        ∷ [];
  }

  abbrev verified_lines : Bytes → AuthRequest → List Line
  verified_lines nonce req =
      if not (ed.verify (key_of ed req) nonce (signature_of ed req))
      then step_line (codes "auth: signature FAILED") ∷ []
      else step_line (codes "auth: signature verified") ∷ []

  abbrev signed_lines : Bytes → AuthRequest → List Line
  signed_lines nonce req =
      if not (length (signature_of ed req) == 64)
      then []
      else step_line (codes "auth: sig decoded") ∷ verified_lines nonce req

  -- The trace from the decoded request on.
  unfoldable pub request_lines : Bytes → AuthRequest → List Line
  request_lines nonce req =
      received_line req
      ∷ (if not (length (key_of ed req) == 32)
          then []
          else step_line (codes "auth: pub key decoded") ∷ signed_lines nonce req)

  abbrev read_lines : Syntax → Bytes → Result Error Bytes → List Line
  read_lines syntax nonce (err e) = []
  read_lines syntax nonce (ok frame) =
      let d = decode_auth_request (syntax.unmarshal frame) in
      if d.valid then request_lines nonce d.value else []

  abbrev challenge_lines : Syntax → AuthEnv → Bytes → List Line
  challenge_lines syntax auth nonce = elim auth.challenge [
    | some e ↦ []
    | none ↦ step_line (codes "auth: challenge sent") ∷ read_lines syntax nonce auth.request
  ]

  -- The calls of `dbg`.
  unfoldable pub handshake_lines : Syntax → AuthEnv → List Line
  handshake_lines syntax auth =
      step_line (codes "auth: rate limit check passed") ∷ elim auth.nonce [
        | err e ↦ []
        | ok nonce ↦ step_line (codes "auth: nonce generated") ∷ challenge_lines syntax auth nonce
      ]

  -- `dbg` itself: without the variable it logs nothing.
  abbrev traced : Env → List Line → List Line
  traced env lines = if is_debug env then lines else []

  abbrev failure_lines : Result AuthError Text → List Line
  failure_lines (err e) = record { level = warn; message = codes "auth failed"; attrs = [] } ∷ []
  failure_lines (ok user) = []

  -- All that a connection logs until it is authenticated or refused.
  unfoldable pub start_lines : Env → Syntax → AuthEnv → AuthLimiter → Text → ℕ → List Line
  start_lines env syntax auth l ip now =
      (if (allow l ip now).1 then traced env (handshake_lines syntax auth) else [])
      ++ failure_lines (authenticate ed syntax auth l ip now).1

  -- What is printed of the start of a connection without `SPECTRE_DEBUG=true` is one constant
  -- warning if the handshake fails, for whatever reason, and nothing if it succeeds: neither the
  -- address nor the user nor the reason can be told from it. With the variable, every line of the
  -- trace is printed.
  pub start_lines-printed :
      (env : Env) (syntax : Syntax) (auth : AuthEnv) (l : AuthLimiter) (ip : Text) (now : ℕ)
      → printed env (start_lines env syntax auth l ip now) ≡ (
          if is_debug env
          then start_lines env syntax auth l ip now
          else elim (authenticate ed syntax auth l ip now).1 [
            | err _ ↦ record { level = warn; message = codes "auth failed"; attrs = [] } ∷ []
            | ok _ ↦ []
          ])
  unfolding start_lines
  start_lines-printed env syntax auth l ip now = elim (Bool-cases (is_debug env)) [
    | inl on ↦ ground (arith, on, printed_all env (start_lines env syntax auth l ip now) on)
    | inr off ↦ elim (Result-cases (authenticate ed syntax auth l ip now).1) [
      | inl (user, good) ↦ ground (arith, off, good)
      | inr (e, bad) ↦ ground (arith, off, bad)
    ]
  ]
