-- ===== src/Env/Config.antt =====
-- AppConfig of Infrastructure/src/Config/EnvLoader.cpp.
use cppbackend_api.Base.{
  ℕ, ◌+◌, ◌-◌, ◌%◌, ◌^◌, ◌<◌, ◌≤◌, ◌≡◌, [], ◌∷◌, ◌++◌, bytes, to_string, ℤ, pos, negsuc, arith,
}
use cppbackend_api.Env.{Text, Environment, get, get_int}

pub record AppConfig : Type 0 where
  pub server_host : Text
  pub server_port : ℕ
  pub log_level : Text
  pub server_threads : ℤ
  pub db_host : Text
  pub db_port : Text
  pub db_name : Text
  pub db_user : Text
  pub db_password : Text
  pub db_max_pool_size : ℕ
  pub db_connect_timeout : ℤ
  pub jwt_key_id : Text
  pub jwt_access_token_ttl_seconds : ℤ
  pub jwt_refresh_token_ttl_days : ℤ
  pub auth_max_failed_attempts : ℤ
  pub auth_lockout_minutes : ℤ
  pub google_client_id : Text
  pub google_client_secret : Text
  pub google_redirect_uri : Text

-- static_cast of an int to an unsigned type of `w` bits.
abbrev pub to_unsigned : ℕ → ℤ → ℕ
to_unsigned w (pos n) = n % 2 ^ w
to_unsigned w (negsuc n) = 2 ^ w - 1 - n % 2 ^ w

unfoldable pub from_env : Environment → AppConfig
from_env env = record {
  server_host = get (bytes "SERVER_HOST") (bytes "0.0.0.0") env;
  server_port = to_unsigned 16 (get_int (bytes "SERVER_PORT") (pos 8080) env);
  log_level = get (bytes "LOG_LEVEL") (bytes "info") env;
  server_threads = get_int (bytes "SERVER_THREADS") (pos 16) env;
  db_host = get (bytes "DB_HOST") (bytes "localhost") env;
  db_port = get (bytes "DB_PORT") (bytes "5432") env;
  db_name = get (bytes "DB_NAME") (bytes "crowapi_db") env;
  db_user = get (bytes "DB_USER") (bytes "postgres") env;
  db_password = get (bytes "DB_PASSWORD") (bytes "postgres") env;
  db_max_pool_size = to_unsigned 64 (get_int (bytes "DB_MAX_POOL_SIZE") (pos 20) env);
  db_connect_timeout = get_int (bytes "DB_CONNECT_TIMEOUT") (pos 5) env;
  jwt_key_id = get (bytes "JWT_KEY_ID") (bytes "key-2026-prod-01") env;
  jwt_access_token_ttl_seconds = get_int (bytes "JWT_ACCESS_TOKEN_TTL_SECONDS") (pos 900) env;
  jwt_refresh_token_ttl_days = get_int (bytes "JWT_REFRESH_TOKEN_TTL_DAYS") (pos 30) env;
  auth_max_failed_attempts = get_int (bytes "AUTH_MAX_FAILED_ATTEMPTS") (pos 5) env;
  auth_lockout_minutes = get_int (bytes "AUTH_LOCKOUT_MINUTES") (pos 15) env;
  google_client_id = get (bytes "GOOGLE_CLIENT_ID") [] env;
  google_client_secret = get (bytes "GOOGLE_CLIENT_SECRET") [] env;
  google_redirect_uri = get (bytes "GOOGLE_REDIRECT_URI") [] env;
}

-- The print of an int.
abbrev pub int_text : ℤ → Text
int_text (pos n) = bytes (to_string n)
int_text (negsuc n) = b'-' ∷ bytes (to_string (n + 1))

unfoldable pub to_db_connection_string : AppConfig → Text
to_db_connection_string cfg =
    bytes "host="
    ++ (cfg.db_host
        ++ (bytes " port="
            ++ (cfg.db_port
                ++ (bytes " dbname="
                    ++ (cfg.db_name
                        ++ (bytes " user="
                            ++ (cfg.db_user
                                ++ (bytes " password="
                                    ++ (cfg.db_password
                                        ++ (bytes " connect_timeout="
                                            ++ int_text cfg.db_connect_timeout))))))))))

-- A negative DB_MAX_POOL_SIZE becomes a pool of nearly 2^64 connections.
pub negative_pool_size :
    (env : Environment) (n : ℕ)
    → n < 2 ^ 31
    → get_int (bytes "DB_MAX_POOL_SIZE") (pos 20) env ≡ negsuc n
    → 2 ^ 63 ≤ (from_env env).db_max_pool_size
unfolding from_env
negative_pool_size env n h e = rw e (omega arith)
