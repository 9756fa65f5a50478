-- ===== src/Relay/Draining.antt =====
-- How fast the public endpoint can take one-time prekeys away, among all that the relay does.
use spectre_relay.Prelude.{
  ℕ, ◌≤◌, ◌≡◌, refl, ap, inl, inr, Bool, true, false, not, ◌&&◌, Option, none, some, List, [], ◌∷◌,
  length, ltb, if◌then◌else◌, is_empty, text_eq, Text, codes, Bool-cases, arith,
}
use spectre_relay.Prelude.Assoc.{lookup}
use spectre_relay.Golib.Strings.{contains_any}
use spectre_relay.Crypto.{Aead, Ed25519}
use spectre_relay.Json.{Syntax}
use spectre_relay.Files.{WriteEnv}
use spectre_relay.RateLimit
use spectre_relay.RateLimit.{take_slot}
use spectre_relay.RateLimit.Window
use spectre_relay.RateLimit.Window.{Log, granted, note}
use spectre_relay.Prekeys.Bundle.{PrekeyBundle}
use spectre_relay.Prekeys.{PrekeyStore}
use spectre_relay.Store.Database.{Sqlite}
use spectre_relay.Server.Endpoints.{asked, fetch_for-status}
use spectre_relay.Server.{
  Server, serve_conn, end_conn, handle_authed_frame, handle_prekeys_get, handle_federation_deliver,
  issue_sender_cert, fetch_for,
}
use spectre_relay.Relay.{Event, connects, sends, disconnects, fetches, federates, purges, step}

abbrev size_of : Option PrekeyBundle → ℕ
size_of none = 0
size_of (some b) = length b.one_time_prekeys

-- The one-time prekeys of a user.
abbrev pub pool : Text → PrekeyStore → ℕ
pool user ps = size_of (lookup user ps.bundles)

-- The fetches come in the order of their times.
abbrev pub AreOrdered : ℕ → List Event → Type 0
AreOrdered last [] = Unit {0}
AreOrdered last (fetches env now method path ∷ es) = (last ≤ now) × AreOrdered now es
AreOrdered last (_ ∷ es) = AreOrdered last es

noted_fewer :
    (c a : Bool) (r : Text × ℕ) (log allowed : Log) (user : Text) (t : ℕ)
    → (a ≡ false → c ≡ false)
    → granted user t log ≤ granted user t allowed
    → granted user t (if c then r ∷ log else log)
      ≤ granted user t (if a then r ∷ allowed else allowed)
noted_fewer true true r log allowed user t h le = ground (arith, le)
noted_fewer true false r log allowed user t h le = absurd (ground (arith, h refl))
noted_fewer false true r log allowed user t h le = ground (arith, le)
noted_fewer false false r log allowed user t h le = le

later-Inv :
    (last now : ℕ) (s : Window.Trace) → last ≤ now → Window.Inv 10 last s → Window.Inv 10 now s
later-Inv last now s le v = record {
  matches = λ key t later. v.matches key t (omega (arith, le, later));
  within = v.within;
  past = λ key t later. v.past key t (omega (arith, le, later));
}

module _ (sql : Sqlite) (syntax : Syntax) (aead : Aead) (ed : Ed25519) where
  -- A fetch after which its target has fewer one-time prekeys is noted.
  abbrev pub noted : Server sql → Event → Log → Log
  noted s (fetches env now method path) log =
      if ltb
        (pool (asked sql syntax aead ed path)
          (step sql syntax aead ed s (fetches env now method path)).prekeys)
        (pool (asked sql syntax aead ed path) s.prekeys)
      then (asked sql syntax aead ed path, now) ∷ log
      else log
  noted s _ log = log

  unfoldable pub drains : Server sql → Log → List Event → Log
  drains s log [] = log
  drains s log (e ∷ es) = drains (step sql syntax aead ed s e) (noted s e log) es

  -- What the limiter knows, against the log of the fetches that it allowed.
  record Limits (last : ℕ) (s : Server sql) (log : Log) : Type 0 where
    per_min : s.prekey_limiter.per_min ≡ 10
    allowed : Log
    inv : Window.Inv 10 last (record { attempts = s.prekey_limiter.attempts; log = allowed })
    fewer : (user : Text) (t : ℕ) → granted user t log ≤ granted user t allowed

  other-Limits :
      (last : ℕ) (s t : Server sql) (log : Log)
      → t.prekey_limiter ≡ s.prekey_limiter
      → Limits last s log
      → Limits last t log
  other-Limits last s t log same h = record {
    per_min = rw same h.per_min;
    allowed = h.allowed;
    inv = rw same h.inv;
    fewer = h.fewer;
  }

  fetched-Limits :
      (last : ℕ) (s : Server sql) (log : Log) (env : WriteEnv) (now : ℕ) (user : Text)
      → last ≤ now
      → Limits last s log
      → let t = (fetch_for sql syntax aead ed env now s user).0 in
        Limits now t
          (if ltb (pool user t.prekeys) (pool user s.prekeys) then (user, now) ∷ log else log)
  unfolding RateLimit.allow note
  fetched-Limits last s log env now user le h =
      let old : Window.Trace = record { attempts = s.prekey_limiter.attempts; log = h.allowed } in
      let t = (fetch_for sql syntax aead ed env now s user).0 in
      let (_, _, over) = fetch_for-status sql syntax aead ed env now s user in
      record {
        per_min = h.per_min;
        allowed = (note 10 old (user, now)).log;
        inv = rw h.per_min (Window.note-Inv 10 last old user now h.inv le);
        fewer = λ u w.
            noted_fewer (ltb (pool user t.prekeys) (pool user s.prekeys))
              (take_slot 10 s.prekey_limiter.attempts user now).1 (user, now) log h.allowed u w
              (λ refused. ground (arith, ap (pool user) (over (rw h.per_min refused)).0))
              (h.fewer u w);
      }

  fetch-Limits :
      (last : ℕ) (s : Server sql) (log : Log) (env : WriteEnv) (now : ℕ) (method path : Text)
      → last ≤ now
      → Limits last s log
      → Limits now
          (step sql syntax aead ed s (fetches env now method path))
          (noted s (fetches env now method path) log)
  unfolding step handle_prekeys_get
  fetch-Limits last s log env now method path le h =
      let user = asked sql syntax aead ed path in
      let good =
        text_eq method (codes "GET")
        && (not (is_empty user) && not (contains_any user (codes "/?#"))) in
      elim (Bool-cases good) [
        | inl taken ↦
            let e : (handle_prekeys_get sql syntax aead ed env now s method path).0
                ≡ (fetch_for sql syntax aead ed env now s user).0 =
              ground (arith, taken) in
            rw e (fetched-Limits last s log env now user le h)
        | inr ignored ↦
            let e : (handle_prekeys_get sql syntax aead ed env now s method path).0 ≡ s =
              ground (arith, ignored) in
            let same : ltb (pool user s.prekeys) (pool user s.prekeys) ≡ false = ground arith in
            rw (e, same)
              (record {
                per_min = h.per_min;
                allowed = h.allowed;
                inv = later-Inv last now _ le h.inv;
                fewer = h.fewer;
              })
      ]

  step-Limits :
      (last : ℕ) (s : Server sql) (log : Log) (e : Event) (es : List Event)
      → AreOrdered last (e ∷ es)
      → Limits last s log
      → (next : ℕ) × Limits next (step sql syntax aead ed s e) (noted s e log) × AreOrdered next es
  unfolding step serve_conn end_conn handle_authed_frame issue_sender_cert handle_federation_deliver
  step-Limits last s log (fetches env now method path) es o h =
      (now, fetch-Limits last s log env now method path o.0 h, o.1)
  step-Limits last s log (connects auth now flush addr c) es o h =
      (last, other-Limits last s _ log (ground arith) h, o)
  step-Limits last s log (sends env user c content) es o h =
      (last, other-Limits last s _ log (ground arith) h, o)
  step-Limits last s log (disconnects user c) es o h = (last, other-Limits last s _ log refl h, o)
  step-Limits last s log (federates env req) es o h =
      (last, other-Limits last s _ log (ground arith) h, o)
  step-Limits last s log (purges now env) es o h = (last, other-Limits last s _ log refl h, o)

  drains-Limits :
      (last : ℕ) (s : Server sql) (log : Log) (es : List Event) (user : Text) (t : ℕ)
      → AreOrdered last es
      → Limits last s log
      → granted user t (drains s log es) ≤ 10
  unfolding drains
  drains-Limits last s log [] user t o h = omega (arith, h.fewer user t, h.inv.within user t)
  drains-Limits last s log (e ∷ es) user t o h =
      let (next, limits, rest) = step-Limits last s log e es o h in
      drains-Limits next (step sql syntax aead ed s e) (noted s e log) es user t rest limits

  -- A relay whose limiter of fetches is new, with a budget of 10: over any history of what the relay
  -- does, with the fetches in the order of their times, no minute holds more than 10 fetches of
  -- bundles after which their target has fewer one-time prekeys, for each target.
  pub drains_within_budget :
      (s : Server sql) (es : List Event) (user : Text) (last t : ℕ)
      → s.prekey_limiter ≡ RateLimit.new_rate_limiter 10
      → AreOrdered last es
      → granted user t (drains s [] es) ≤ 10
  unfolding RateLimit.new_rate_limiter
  drains_within_budget s es user last t fresh o = drains-Limits last s [] es user t o (record {
    per_min = rw fresh refl;
    allowed = [];
    inv = rw fresh (Window.start-Inv 10 last);
    fewer = λ u w. omega arith;
  })
