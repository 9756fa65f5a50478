-- ===== src/RateLimit.antt =====
-- server/ratelimit.go: the per-key sliding window. A time is a number of nanoseconds. The
-- limiter of the authenticator (server/auth.go) and that of the router (server/router.go) are
-- further copies of the same loop over their own maps; they stand in `Auth` and `Router` and share
-- `prune` and `take_slot` with this one. `t.After(now.Add(-time.Minute))` is written as
-- `now < t + minute`. The mutex makes each call one step.
pub mod Window
use spectre_relay.Prelude.{
  ℕ, ◌+◌, Bool, true, false, Option, none, some, List, [], ◌∷◌, ◌++◌, ltb, leb, length, keep_if,
  if◌then◌else◌, Text,
}
use spectre_relay.Prelude.Assoc.{Map, lookup, insert}

-- time.Minute
abbrev pub minute : ℕ
minute = 60000000000

-- `t.After(cutoff)`
abbrev pub is_fresh : ℕ → ℕ → Bool
is_fresh now t = ltb now (t + minute)

-- The loop that fills `kept`.
unfoldable pub prune : ℕ → List ℕ → List ℕ
prune now xs = keep_if (is_fresh now) xs

-- A read of a Go map: a missing key reads as the empty slice.
abbrev pub or_empty : Option (List ℕ) → List ℕ
or_empty none = []
or_empty (some xs) = xs

abbrev pub attempts_of : Map (List ℕ) → Text → List ℕ
attempts_of m key = or_empty (lookup key m)

-- From the read of the map to the end of `allow`.
unfoldable pub take_slot : ℕ → Map (List ℕ) → Text → ℕ → Map (List ℕ) × Bool
take_slot per_min attempts key now =
    let kept = prune now (attempts_of attempts key) in
    if leb per_min (length kept)
    then (insert key kept attempts, false)
    else (insert key (kept ++ now ∷ []) attempts, true)

pub record RateLimiter : Type 0 where
  pub per_min : ℕ
  pub attempts : Map (List ℕ)

unfoldable pub new_rate_limiter : ℕ → RateLimiter
new_rate_limiter per_min = record { per_min = per_min; attempts = [] }

unfoldable pub allow : RateLimiter → Text → ℕ → RateLimiter × Bool
allow l key now =
    let (attempts, allowed) = take_slot l.per_min l.attempts key now in
    (record l { attempts = attempts }, allowed)
