-- ===== src/Config/Checks.antt =====
-- What `Load` accepts and refuses.
use spectre_relay.Prelude.{
  ℕ, ◌*◌, ◌-◌, ◌^◌, ◌≤◌, ◌<◌, ◌≡◌, ◌≢◌, ◌⊎◌, ◌↔◌, refl, false, none, some, [], Text, ok, arith,
}
use spectre_relay.Prelude.Int.{ℤ, pos, negsuc, pos_part}
use spectre_relay.Golib.Numbers.{atoi, to_int64}
use spectre_relay.Config.{
  Config, Env, get_env_int, read_config, check_config, load, duration_of_seconds,
}

-- A configuration that the relay may start with.
pub record IsUsable (cfg : Config) : Type 0 where
  pub secure : cfg.dev_mode ≡ false → (cfg.tls_cert_file ≢ []) × (cfg.tls_key_file ≢ [])
  pub clients : 0 < pos_part cfg.max_clients
  pub size : 0 < pos_part cfg.max_message_size
  pub rate : 0 < pos_part cfg.rate_limit_per_min
  pub ttl : 0 < pos_part cfg.message_ttl_seconds

check_sound : (cfg c : Config) → check_config cfg ≡ ok c → (c ≡ cfg) × IsUsable cfg
unfolding check_config
check_sound cfg c h = ground arith

check_complete : (cfg : Config) → IsUsable cfg → check_config cfg ≡ ok cfg
unfolding check_config
check_complete cfg h = ground (arith, h.secure)

-- `Load` returns what it has read exactly when that is usable: outside dev mode both TLS files are
-- named, and the four limits are positive.
pub load-ok_iff :
    (env : Env) (cfg : Config) → (load env ≡ ok cfg) ↔ ((cfg ≡ read_config env) × IsUsable cfg)
unfolding load
load-ok_iff env cfg = (
  λ h. let (e, usable) = check_sound (read_config env) cfg h in (e, rw e usable),
  λ h. rw (h.0) (check_complete (read_config env) (rw h.0 at h.1)),
)

atoi-nil : atoi [] ≡ none
unfolding atoi
atoi-nil = refl

-- Where a numeric variable is not set, or holds no decimal int64, the default is taken and nothing
-- is reported; otherwise the number is taken, also when it is negative.
pub get_env_int-atoi :
    (env : Env) (k : Text) (default : ℤ)
    → ((env k ≡ []) ⊎ (atoi (env k) ≡ none) → get_env_int env k default ≡ default)
      × ((n : ℤ) → atoi (env k) ≡ some n → get_env_int env k default ≡ n)
unfolding get_env_int
get_env_int-atoi env k default = (λ h. ground arith, λ n h. ground (arith, atoi-nil))

-- Lifetimes of up to 9223372036 seconds are converted exactly. From there to 18446744073 seconds
-- the product wraps around to a negative duration.
pub duration_of_seconds_range :
    (n : ℕ)
    → (n ≤ 9223372036 → duration_of_seconds (pos n) ≡ pos (n * 1000000000))
      × (9223372036 < n
          → n ≤ 18446744073
          → duration_of_seconds (pos n) ≡ negsuc (2 ^ 64 - n * 1000000000 - 1))
unfolding duration_of_seconds to_int64
duration_of_seconds_range n = (λ h. ground arith, λ h k. ground arith)
