-- ===== src/Config.antt =====
-- internal/config/config.go: the settings that the process reads from its environment. Looking up a
-- variable is a parameter, as is `strconv.Atoi`.
use todo_chat_app.Prelude.{String, Option, none, some, if◌then◌else◌}
use todo_chat_app.Prelude.Int.{ℤ, pos}
use todo_chat_app.Prelude.Text.{is_empty}
use todo_chat_app.Service.Libs.{Formats}

pub record Config : Type 0 where
  pub server_port : String
  pub gin_mode : String
  pub db_host : String
  pub db_port : String
  pub db_user : String
  pub db_password : String
  pub db_name : String
  pub db_ssl_mode : String
  pub db_max_open_conns : ℤ
  pub db_max_idle_conns : ℤ
  pub db_conn_max_lifetime : ℤ
  pub redis_host : String
  pub redis_port : String
  pub redis_password : String
  pub redis_db : ℤ
  pub kafka_brokers : String
  pub auth0_domain : String
  pub auth0_audience : String
  pub webhook_secret : String
  pub jwt_secret : String
  pub jwt_access_expiry_min : ℤ
  pub jwt_refresh_expiry_day : ℤ
  pub allowed_origins : String
  pub email_transport : String
  pub smtp_host : String
  pub smtp_port : String
  pub smtp_user : String
  pub smtp_password : String
  pub smtp_from : String
  pub app_base_url : String

module _ (f : Formats) (lookup_env : String → Option String) where
  unfoldable pub get_env : String → String → String
  get_env key fallback = elim (lookup_env key) [ none ↦ fallback | some val ↦ val ]

  -- `strconv.Atoi(raw)`, and the fallback where the variable is empty or no number
  unfoldable pub get_env_as_int : String → ℤ → ℤ
  get_env_as_int key fallback =
      if is_empty (get_env key "")
      then fallback
      else if (f.atoi (get_env key "")).1
      then (f.atoi (get_env key "")).0
      else fallback

  unfoldable pub new_config : Config
  new_config = record {
    server_port = get_env "SERVER_PORT" "8080";
    gin_mode = get_env "GIN_MODE" "release";
    db_host = get_env "DB_HOST" "localhost";
    db_port = get_env "DB_PORT" "5432";
    db_user = get_env "DB_USERNAME" "postgres";
    db_password = get_env "DB_PASSWORD" "postgres";
    db_name = get_env "DB_DATABASE" "todo_chat_app";
    db_ssl_mode = get_env "DB_SSLMODE" "disable";
    db_max_open_conns = get_env_as_int "DB_MAX_OPEN_CONNS" (pos 50);
    db_max_idle_conns = get_env_as_int "DB_MAX_IDLE_CONNS" (pos 10);
    db_conn_max_lifetime = get_env_as_int "DB_CONN_MAX_LIFETIME_SECONDS" (pos 1800);
    redis_host = get_env "REDIS_HOST" "localhost";
    redis_port = get_env "REDIS_PORT" "6379";
    redis_password = get_env "REDIS_PASSWORD" "";
    redis_db = (f.atoi (get_env "REDIS_DB" "0")).0;
    kafka_brokers = get_env "KAFKA_BROKERS" "localhost:9092";
    auth0_domain = get_env "AUTH0_DOMAIN" "";
    auth0_audience = get_env "AUTH0_AUDIENCE" "";
    webhook_secret = get_env "WEBHOOK_SECRET" "";
    jwt_secret = get_env "JWT_SECRET" "";
    jwt_access_expiry_min = get_env_as_int "JWT_ACCESS_EXPIRY_MIN" (pos 15);
    jwt_refresh_expiry_day = get_env_as_int "JWT_REFRESH_EXPIRY_DAY" (pos 7);
    allowed_origins = get_env "ALLOWED_ORIGINS" "";
    email_transport = get_env "EMAIL_TRANSPORT" "log";
    smtp_host = get_env "SMTP_HOST" "";
    smtp_port = get_env "SMTP_PORT" "";
    smtp_user = get_env "SMTP_USER" "";
    smtp_password = get_env "SMTP_PASSWORD" "";
    smtp_from = get_env "SMTP_FROM" "";
    app_base_url = get_env "APP_BASE_URL" "";
  }
