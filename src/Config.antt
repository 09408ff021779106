-- ===== src/Config.antt =====
-- backend/internal/config/config.go: `Load`. The environment is a function from names to values;
-- `url.Parse`, `uuid.Parse` and the random salt are parameters.
pub mod Load
use Prim.Native.Char.{code}
use Prim.Native.Nat.{◌%◌}
use focus_flow.Common.{
  ℕ, ◌+◌, ◌*◌, ◌/◌, ◌==◌, leb, ltb, if◌then◌else◌, String, Bool, true, false, not, ◌&&◌, ◌||◌,
  Option, none, some, List, [], ◌∷◌, ◌++◌, str_eq, split, trim_space, is_empty, length,
}
use focus_flow.Model.{Uuid, nil_id}
use focus_flow.Model.Int.{ℤ, pos, negsuc}
use focus_flow.Auth
use focus_flow.Auth.{Bytes, Library, PasswordCredential, Result, ok, err, other}
use focus_flow.Api.Handler.{atoi, in_bounds}

-- What the code reads of a `url.URL`; `has_user` is `u.User != nil`.
pub record Url : Type 0 where
  pub scheme : String
  pub hostname : String
  pub has_user : Bool
  pub path : String
  pub raw_query : String
  pub fragment : String

pub record AuthConfig : Type 0 where
  pub user_id : Uuid
  pub username : String
  pub credential : PasswordCredential
  pub token_secret : Bytes
  pub session_ttl : ℤ

pub record Config : Type 0 where
  pub environment : String
  pub port : ℤ
  pub database_url : String
  pub allowed_origins : List String
  pub auth : AuthConfig

-- `2 * time.Hour`, in nanoseconds.
abbrev pub default_session_ttl : ℤ
default_session_ttl = pos 7200000000000

-- `[]byte(s)`: the UTF-8 of one character, and of a text.
abbrev pub utf8 : ℕ → Bytes → Bytes
utf8 n rest =
    if ltb n 128
    then n ∷ rest
    else (if ltb n 2048
        then (192 + n / 64) ∷ (128 + n % 64) ∷ rest
        else (if ltb n 65536
            then (224 + n / 4096) ∷ (128 + (n / 64) % 64) ∷ (128 + n % 64) ∷ rest
            else (240 + n / 262144)
              ∷ (128 + (n / 4096) % 64)
              ∷ (128 + (n / 64) % 64)
              ∷ (128 + n % 64)
              ∷ rest))

abbrev pub to_bytes : String → Bytes
to_bytes String.[] = []
to_bytes (String.◌∷◌ c s) = utf8 (code c) (to_bytes s)

abbrev pub known_environment : String → Bool
known_environment name = str_eq name "local" || str_eq name "test" || str_eq name "production"

abbrev pub port_text : String → String
port_text value = if is_empty value then "8080" else value

-- `err == nil && c.Port >= 1 && c.Port <= 65535`
abbrev pub read_port : Option ℤ → Option ℤ
read_port port = if in_bounds 1 65535 port then port else none

-- A URL of a PostgreSQL database.
abbrev pub valid_database : Option Url → Bool
valid_database none = false
valid_database (some u) =
    (str_eq u.scheme "postgres" || str_eq u.scheme "postgresql") && not (is_empty u.hostname)

-- An origin: a scheme and a host, and nothing else.
abbrev pub valid_origin : Option Url → Bool
valid_origin none = false
valid_origin (some u) =
    (str_eq u.scheme "http" || str_eq u.scheme "https")
    && not (is_empty u.hostname)
    && not u.has_user
    && is_empty u.path
    && is_empty u.raw_query
    && is_empty u.fragment

abbrev pub is_https : Option Url → Bool
is_https none = false
is_https (some u) = str_eq u.scheme "https"

abbrev pub prepend_origin : String → Result (List String) → Result (List String)
prepend_origin origin (err e) = err e
prepend_origin origin (ok origins) = ok (origin ∷ origins)

module _ (url_parse : String → Option Url) (uuid_parse : String → Option Uuid) (lib : Library)
    (random : Option Bytes) where
  -- The loop over CORS_ALLOWED_ORIGINS.
  unfoldable pub load_origins : String → List String → Result (List String)
  load_origins environment [] = ok []
  load_origins environment (value ∷ values) =
      let origin = trim_space value in
      let rest = load_origins environment values in
      if not (valid_origin (url_parse origin))
      then err (other "CORS_ALLOWED_ORIGINS must contain explicit HTTP origins without paths")
      else (if str_eq environment "production" && not (is_https (url_parse origin))
          then err (other "production CORS origins must use HTTPS")
          else prepend_origin origin rest)

  -- The rest of loadAuth, with the identifier.
  abbrev pub load_auth_for : (String → String) → Uuid → Result AuthConfig
  load_auth_for getenv id =
      let username = trim_space (getenv "APP_USERNAME") in
      let secret = to_bytes (getenv "APP_TOKEN_SECRET") in
      if id == nil_id
      then err (other "APP_USER_ID must be a non-empty UUID")
      else (if is_empty username
          then err (other "APP_USERNAME must not be empty")
          else elim (Auth.new_password_credential lib (getenv "APP_PASSWORD") random) [
            | err e ↦ err (other "APP_PASSWORD must not be empty")
            | ok credential ↦
                if ltb (length secret) 32
                then err (other "APP_TOKEN_SECRET must be at least 32 bytes")
                else ok (record {
                  user_id = id;
                  username = username;
                  credential = credential;
                  token_secret = [] ++ secret;
                  session_ttl = default_session_ttl;
                })
          ])

  unfoldable pub load_auth : (String → String) → Result AuthConfig
  load_auth getenv = elim (uuid_parse (trim_space (getenv "APP_USER_ID"))) [
    | none ↦ err (other "APP_USER_ID must be a non-empty UUID")
    | some id ↦ load_auth_for getenv id
  ]

  unfoldable pub load : (String → String) → Result Config
  unfolding load_origins load_auth
  load getenv =
      let environment = getenv "APP_ENV" in
      let database = getenv "DATABASE_URL" in
      if not (known_environment environment)
      then err (other "APP_ENV must be local, test, or production")
      else elim (read_port (atoi (port_text (getenv "PORT")))) [
        | none ↦ err (other "PORT must be between 1 and 65535")
        | some port ↦
            if not (valid_database (url_parse database))
            then err (other "DATABASE_URL must be a PostgreSQL connection URL")
            else elim (load_origins environment (split 44 (getenv "CORS_ALLOWED_ORIGINS"))) [
              | err e ↦ err e
              | ok origins ↦ elim (load_auth getenv) [
                | err e ↦ err e
                | ok auth ↦ ok (record {
                  environment = environment;
                  port = port;
                  database_url = database;
                  allowed_origins = origins;
                  auth = auth;
                })
              ]
            ]
      ]
