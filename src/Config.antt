-- ===== src/Config.antt =====
-- config/config.go. The environment is a function: a variable that is not set reads as the empty
-- text. `int` and `int64` are 64 bits wide, and hold what `strconv.Atoi` returns.
pub mod Checks
use spectre_relay.Prelude.{
  ℕ, suc, ◌*◌, ◌-◌, ◌%◌, ◌^◌, Bool, true, false, ◌||◌, ◌&&◌, not, Option, none, some, List, [], ◌∷◌,
  ◌++◌, if◌then◌else◌, Text, codes, text_eq, is_empty, Result, ok, err,
}
use spectre_relay.Prelude.Int.{ℤ, pos, negsuc, ltb_ℤ}
use spectre_relay.Golib.Numbers.{atoi, to_int64}

pub record Config : Type 0 where
  pub listen_addr : Text
  pub tls_cert_file : Text
  pub tls_key_file : Text
  pub max_clients : ℤ
  pub message_ttl_seconds : ℤ
  pub max_message_size : ℤ
  pub rate_limit_per_min : ℤ
  pub offline_queue_path : Text
  pub prekey_store_path : Text
  pub sealed_ca_path : Text
  pub dev_mode : Bool
  pub relay_id : Text
  pub federation_addr : Text

-- The two errors of `Load`.
pub data ConfigError : Type 0 where
  tls_required not_positive : ConfigError

abbrev pub Env : Type 0
Env = Text → Text

unfoldable pub get_env : Env → Text → Text → Text
get_env env k default = if is_empty (env k) then default else env k

abbrev parsed_or : ℤ → Option ℤ → ℤ
parsed_or default none = default
parsed_or default (some n) = n

unfoldable pub get_env_int : Env → Text → ℤ → ℤ
get_env_int env k default = if is_empty (env k) then default else parsed_or default (atoi (env k))

-- The composite literal of `Load`.
unfoldable pub read_config : Env → Config
unfolding get_env get_env_int
read_config env = record {
  listen_addr = get_env env (codes "SPECTRE_LISTEN_ADDR") (codes ":443");
  tls_cert_file = env (codes "SPECTRE_TLS_CERT");
  tls_key_file = env (codes "SPECTRE_TLS_KEY");
  max_clients = get_env_int env (codes "SPECTRE_MAX_CLIENTS") (pos 10000);
  message_ttl_seconds = get_env_int env (codes "SPECTRE_MESSAGE_TTL") (pos 604800);
  max_message_size = get_env_int env (codes "SPECTRE_MAX_MESSAGE_SIZE") (pos 65536);
  rate_limit_per_min = get_env_int env (codes "SPECTRE_RATE_LIMIT_PER_MIN") (pos 60);
  offline_queue_path = get_env env (codes "SPECTRE_QUEUE_PATH") (codes "/data/offline_queue.enc");
  prekey_store_path = get_env env (codes "SPECTRE_PREKEY_PATH") (codes "/data/prekeys.enc");
  sealed_ca_path = get_env env (codes "SPECTRE_SEALED_CA_PATH") (codes "/data/sealed_ca.key");
  dev_mode = text_eq (env (codes "SPECTRE_DEV")) (codes "true");
  relay_id = get_env env (codes "RELAY_ID") [];
  federation_addr = get_env env (codes "FEDERATION_ADDR") [];
}

-- `n <= 0`
abbrev pub not_positive? : ℤ → Bool
not_positive? n = not (ltb_ℤ (pos 0) n)

-- The two checks of `Load` on what it has read.
unfoldable pub check_config : Config → Result ConfigError Config
check_config cfg =
    if not cfg.dev_mode && (is_empty cfg.tls_cert_file || is_empty cfg.tls_key_file)
    then err tls_required
    else if not_positive? cfg.max_clients
        || (not_positive? cfg.max_message_size
            || (not_positive? cfg.rate_limit_per_min || not_positive? cfg.message_ttl_seconds))
    then err not_positive
    else ok cfg

unfoldable pub load : Env → Result ConfigError Config
load env = check_config (read_config env)

-- `time.Duration(seconds) * time.Second`, as `NewStore` (server/store.go) computes it from the
-- configured seconds: nanoseconds in an int64, which wraps around.
unfoldable pub duration_of_seconds : ℤ → ℤ
duration_of_seconds (pos n) = to_int64 (n * 1000000000)
duration_of_seconds (negsuc n) = to_int64 (2 ^ 64 - suc n * 1000000000 % 2 ^ 64)

abbrev bool_text : Bool → Text
bool_text true = codes "true"
bool_text false = codes "false"

-- `decimal` is what `%d` prints.
unfoldable pub safe_summary : (ℤ → Text) → Config → Text
safe_summary decimal c =
    codes "listen="
    ++ c.listen_addr
    ++ codes " max_clients="
    ++ decimal c.max_clients
    ++ codes " msg_ttl_s="
    ++ decimal c.message_ttl_seconds
    ++ codes " max_msg_size="
    ++ decimal c.max_message_size
    ++ codes " rate_limit_per_min="
    ++ decimal c.rate_limit_per_min
    ++ codes " dev="
    ++ bool_text c.dev_mode
    ++ codes " relay_id="
    ++ c.relay_id
    ++ codes " fed_addr="
    ++ c.federation_addr
