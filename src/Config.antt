-- ===== src/Config.antt =====
-- internal/config/config.go, and the policy that cmd/server/main.go makes of it. `env` is os.Getenv: the empty text where a variable is not set.
pub mod Numbers
use sleigh.Prelude.{
  Text, Bool, true, false, ◌||◌, Option, none, some, [], ◌∷◌, codes, trim_space, to_lower, ◌==◌,
  if◌then◌else◌,
}
use sleigh.Prelude.Int.{ℤ, pos}
use sleigh.Prelude.Decimal.{parse_int64}
use sleigh.Service.Types.{Policy}

-- Times are nanoseconds.
pub record Config : Type 0 where
  pub http_addr : Text
  pub read_timeout : ℤ
  pub write_timeout : ℤ
  pub shutdown_timeout : ℤ
  pub version : Text
  pub db_path : Text
  pub min_expand_mb : ℤ
  pub max_expand_mb : ℤ
  pub max_expand_step_mb : ℤ
  pub exec_memory_poll_interval_seconds : ℤ
  pub exec_ttl_days : ℤ
  pub warm_pool_size : ℤ
  pub warm_pool_image : Text
  pub warm_pool_memory_mb : ℤ
  pub snapshot_root_dir : Text
  pub image_pull_timeout_seconds : ℤ
  pub sandbox_idle_ttl_days : ℤ
  pub otel_endpoint : Text
  pub webhook_hmac_secret : Text
  pub cursor_token_secret : Text
  pub cursor_token_ttl_seconds : ℤ
  pub exec_cleanup_interval_seconds : ℤ
  pub mount_allowed_root : Text
  pub environment_allowed_root : Text
  pub snapshot_retention_days : ℤ
  pub docker_image_prune_dangling : Bool

abbrev pub or_fallback : ℤ → Option ℤ → ℤ
or_fallback fallback none = fallback
or_fallback fallback (some n) = n

module _ (env : Text → Text) where
  unfoldable pub get_env : Text → Text → Text
  get_env key fallback = if env key == [] then fallback else env key

  unfoldable pub get_env_int64 : Text → ℤ → ℤ
  unfolding parse_int64
  get_env_int64 key fallback =
      if env key == [] then fallback else or_fallback fallback (parse_int64 (env key))

  unfoldable pub get_env_int : Text → ℤ → ℤ
  unfolding parse_int64
  get_env_int key fallback =
      if env key == [] then fallback else or_fallback fallback (parse_int64 (env key))

  abbrev says : Text → Bool → Bool
  says lower fallback =
      if lower == codes "1" || lower == codes "true" || lower == codes "yes" || lower == codes "on"
      then true
      else if lower == codes "0"
          || lower == codes "false"
          || lower == codes "no"
          || lower == codes "off"
      then false
      else fallback

  unfoldable pub get_env_bool : Text → Bool → Bool
  get_env_bool key fallback =
      let value = trim_space (env key) in
      if value == [] then fallback else says (to_lower value) fallback

  unfoldable pub from_env : Config
  unfolding get_env get_env_int64 get_env_int get_env_bool
  from_env = record {
    http_addr = get_env (codes "SERVER_ADDR") (codes ":10122");
    read_timeout = pos 10000000000;
    write_timeout = pos 360000000000;
    shutdown_timeout = pos 10000000000;
    version = get_env (codes "SERVER_VERSION") (codes "dev");
    db_path = get_env (codes "SERVER_DB_PATH") (codes "./data/runtime.db");
    min_expand_mb = get_env_int64 (codes "MEMORY_EXPAND_MIN_MB") (pos 64);
    max_expand_mb = get_env_int64 (codes "MEMORY_EXPAND_MAX_MB") (pos 0);
    max_expand_step_mb = get_env_int64 (codes "MEMORY_EXPAND_MAX_STEP_MB") (pos 2048);
    exec_memory_poll_interval_seconds =
        get_env_int (codes "MEMORY_EXPAND_EXEC_POLL_SECONDS") (pos 3);
    exec_ttl_days = get_env_int (codes "EXEC_TASK_TTL_DAYS") (pos 14);
    warm_pool_size = get_env_int (codes "WARM_POOL_SIZE") (pos 1);
    warm_pool_image = get_env (codes "WARM_POOL_IMAGE") (codes "python:3.11-slim");
    warm_pool_memory_mb = get_env_int64 (codes "WARM_POOL_MEMORY_MB") (pos 256);
    snapshot_root_dir = get_env (codes "SNAPSHOT_ROOT_DIR") (codes "./data/snapshots");
    image_pull_timeout_seconds = get_env_int (codes "IMAGE_PULL_TIMEOUT_SECONDS") (pos 120);
    sandbox_idle_ttl_days = get_env_int (codes "SANDBOX_IDLE_TTL_DAYS") (pos 14);
    otel_endpoint = get_env (codes "SERVER_OTEL_EXPORTER_OTLP_ENDPOINT") [];
    webhook_hmac_secret = get_env (codes "WEBHOOK_HMAC_SECRET") (codes "dev-webhook-secret");
    cursor_token_secret = get_env (codes "CURSOR_TOKEN_SECRET") (codes "dev-cursor-secret");
    cursor_token_ttl_seconds = get_env_int (codes "CURSOR_TOKEN_TTL_SECONDS") (pos 3600);
    exec_cleanup_interval_seconds = get_env_int (codes "EXEC_CLEANUP_INTERVAL_SECONDS") (pos 3600);
    mount_allowed_root =
        get_env (codes "SERVER_MOUNT_ALLOWED_ROOT")
          (codes "/opt/sleigh-runtime/mount-root-default");
    environment_allowed_root =
        get_env (codes "SERVER_ENV_ALLOWED_ROOT")
          (codes "/opt/sleigh-runtime/environment-root-default");
    snapshot_retention_days = get_env_int (codes "SNAPSHOT_RETENTION_DAYS") (pos 14);
    docker_image_prune_dangling = get_env_bool (codes "DOCKER_IMAGE_PRUNE_DANGLING") true;
  }

-- main.go: the settings that the service uses.
unfoldable pub policy_of : Config → Policy
policy_of cfg = record {
  min_expand_mb = cfg.min_expand_mb;
  max_expand_mb = cfg.max_expand_mb;
  max_expand_step_mb = cfg.max_expand_step_mb;
  exec_memory_poll_interval_seconds = cfg.exec_memory_poll_interval_seconds;
  exec_ttl_days = cfg.exec_ttl_days;
  mount_allowed_root = cfg.mount_allowed_root;
  warm_pool_size = cfg.warm_pool_size;
  warm_pool_image = cfg.warm_pool_image;
  warm_pool_memory_mb = cfg.warm_pool_memory_mb;
  snapshot_root_dir = cfg.snapshot_root_dir;
  cursor_token_secret = cfg.cursor_token_secret;
  cursor_token_ttl_seconds = cfg.cursor_token_ttl_seconds;
  sandbox_idle_ttl_days = cfg.sandbox_idle_ttl_days;
  snapshot_retention_days = cfg.snapshot_retention_days;
  prune_dangling_images = cfg.docker_image_prune_dangling;
}
