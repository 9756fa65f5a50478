-- ===== src/Relay/Process.antt =====
-- main.go, and `Run` of server/server.go: how the process listens, what ends it, and how it exits.
use spectre_relay.Prelude.{
  ℕ, ◌≡◌, ◌≢◌, ◌↔◌, ◌⊎◌, refl, inl, inr, true, ◌&&◌, ◌||◌, Option, none, some, List, [],
  if◌then◌else◌, is_empty, Text, codes, text_eq_iff, Bool-cases, Result, ok, err, Error,
  Result-cases, arith,
}
use spectre_relay.Config.{Config, load, read_config}
use spectre_relay.Config.Checks.{load-ok_iff}
use spectre_relay.Crypto.{Aead, Ed25519}
use spectre_relay.Json.{Syntax}
use spectre_relay.Store.Database.{Sqlite}
use spectre_relay.Server.{Server, new_server}
use spectre_relay.Relay.{Event, StartEnv, StartError, Disks, start, run}
use spectre_relay.Relay.Starting.{start-Parts}
use spectre_relay.Relay.Durability.{left_by}

-- An address with plain HTTP, or with TLS and the names of the two files.
pub data Listening : Type 0 where
  plain_http : Text → Listening
  tls : Text → Text → Text → Listening

unfoldable pub listening : Config → Listening
listening cfg =
    if cfg.dev_mode && (is_empty cfg.tls_cert_file || is_empty cfg.tls_key_file)
    then plain_http cfg.listen_addr
    else tls cfg.listen_addr cfg.tls_cert_file cfg.tls_key_file

-- The error with which `ListenAndServe` and `ListenAndServeTLS` end.
pub data ServeEnd : Type 0 where
  server_closed : ServeEnd
  failed : Error → ServeEnd

-- What `Run` waits for: a signal, with the outcome of `Shutdown`, or the end of the listener.
pub data RunEnd : Type 0 where
  signalled : Option Error → RunEnd
  listener_ended : ServeEnd → RunEnd

unfoldable pub run_error : RunEnd → Option Error
run_error (signalled e) = e
run_error (listener_ended server_closed) = none
run_error (listener_ended (failed e)) = some e

abbrev exit_code : Option Error → ℕ
exit_code none = 0
exit_code (some e) = 1

-- What makes the exit code 0.
run_ends :
    (ended : RunEnd)
    → (exit_code (run_error ended) ≡ 0)
      ↔ ((ended ≡ signalled none) ⊎ (ended ≡ listener_ended server_closed))
unfolding run_error
run_ends (signalled none) = (λ h. inl refl, λ h. refl)
run_ends (signalled (some e)) =
    (λ h. absurd (omega (arith, h)), λ h. elim h [ inl x ↦ absurd (cc) | inr x ↦ absurd (cc) ])
run_ends (listener_ended server_closed) = (λ h. inr refl, λ h. refl)
run_ends (listener_ended (failed e)) =
    (λ h. absurd (omega (arith, h)), λ h. elim h [ inl x ↦ absurd (cc) | inr x ↦ absurd (cc) ])

-- What a process leaves: the disk, how it listened if it did, the exit code.
pub record Life : Type 0 where
  pub disks : Disks
  pub listened : Option Listening
  pub code : ℕ

module _ (sql : Sqlite) (syntax : Syntax) (aead : Aead) (ed : Ed25519) where
  abbrev serve : Disks → List Event → RunEnd → Server sql → Life
  serve after es ended s = record {
    disks = left_by sql syntax aead ed after (run sql syntax aead ed s es);
    listened = some (listening s.cfg);
    code = exit_code (run_error ended);
  }

  abbrev after_new : List Event → RunEnd → Disks × Result StartError (Server sql) → Life
  after_new es ended (after, err e) = record { disks = after; listened = none; code = 1 }
  after_new es ended (after, ok s) = serve after es ended s

  -- `main`, with the steps that the relay takes until it ends.
  unfoldable pub main : StartEnv → Disks → List Event → RunEnd → Life
  main env disks es ended = after_new es ended (start sql syntax aead ed env disks)

  -- How a process listens.
  abbrev pub IsAllowed : StartEnv → Option Listening → Type 0
  IsAllowed env none = Unit {0}
  IsAllowed env (some (plain_http addr)) = env.vars (codes "SPECTRE_DEV") ≡ codes "true"
  IsAllowed env (some (tls addr cert key)) = (cert ≢ []) × (key ≢ [])

  listening-IsAllowed :
      (env : StartEnv) (cfg : Config)
      → load env.vars ≡ ok cfg
      → IsAllowed env (some (listening cfg))
  unfolding listening
  listening-IsAllowed env cfg h =
      let (same, usable) = (load-ok_iff env.vars cfg).0 h in
      elim (Bool-cases
        (cfg.dev_mode && (is_empty cfg.tls_cert_file || is_empty cfg.tls_key_file))) [
          | inl plain ↦
              let dev : (read_config env.vars).dev_mode ≡ true = ground (arith, plain, same) in
              rw (plain, listening)
                ((text_eq_iff (env.vars (codes "SPECTRE_DEV")) (codes "true")).0
                  (unfold read_config in dev))
          | inr secure ↦
              rw (secure, listening)
                (elim (Bool-cases cfg.dev_mode) [
                  | inr strict ↦ usable.secure strict
                  | inl dev ↦
                      (λ p. ground (arith, secure, dev, p), λ p. ground (arith, secure, dev, p))
                ])
        ]

  -- A process that serves without TLS was told so by `SPECTRE_DEV=true`; one that serves with TLS
  -- has the names of a certificate and a key. One whose start fails does not listen, leaves the disk
  -- as the start does, and exits with code 1. One whose start succeeds listens, and exits with code 0
  -- exactly when a signal ends it and `Shutdown` returns no error, or the listener is closed.
  pub main-listens :
      (env : StartEnv) (disks : Disks) (es : List Event) (ended : RunEnd)
      → let life = main env disks es ended in
        IsAllowed env life.listened
        × ((x : StartError)
            → (start sql syntax aead ed env disks).1 ≡ err x
            → (life.listened ≡ none)
              × (life.disks ≡ (start sql syntax aead ed env disks).0)
              × (life.code ≡ 1))
        × ((s : Server sql)
            → (start sql syntax aead ed env disks).1 ≡ ok s
            → (life.listened ≢ none)
              × ((life.code ≡ 0)
                  ↔ ((ended ≡ signalled none) ⊎ (ended ≡ listener_ended server_closed))))
  unfolding main new_server
  main-listens env disks es ended = elim (Result-cases (start sql syntax aead ed env disks).1) [
    | inr (x, bad) ↦ rw bad (tt, λ y e. (refl, refl, refl), λ s h. absurd (cc))
    | inl (s, good) ↦
        let p = start-Parts sql syntax aead ed env disks s good in
        let cfg : s.cfg ≡ p.cfg = ground (arith, p.made) in
        rw good (
          rw cfg (listening-IsAllowed env p.cfg p.loaded),
          λ y h. absurd (cc),
          λ t h. (λ e. absurd (ground (arith, e)), run_ends ended),
        )
  ]
