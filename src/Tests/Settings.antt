-- ===== src/Tests/Settings.antt =====
-- A configuration.
use focus_flow.Common.{refl, String, false, Option, none, some, [], ◌∷◌, str_eq, if◌then◌else◌}
use focus_flow.Model.{Uuid}
use focus_flow.Model.Int.{pos}
use focus_flow.Auth.{new_password_credential, credential_with_salt}
use focus_flow.Config.{Url, Config, default_session_ttl, to_bytes, load, load_auth, load_origins}
use focus_flow.Config.Load.{IsLoaded, load-IsLoaded}
use focus_flow.Tests.Codecs.{simple}
use focus_flow.Tests.Sessions.{ada_password}

-- Two URLs.
abbrev parse_url : String → Option Url
parse_url s =
    if str_eq s "postgres://db/focus"
    then some (record {
      scheme = "postgres";
      hostname = "db";
      has_user = false;
      path = "/focus";
      raw_query = "";
      fragment = "";
    })
    else (if str_eq s "https://app.example"
        then some (record {
          scheme = "https";
          hostname = "app.example";
          has_user = false;
          path = "";
          raw_query = "";
          fragment = "";
        })
        else none)

abbrev parse_uuid : String → Option Uuid
parse_uuid s = if str_eq s "7" then some 7 else none

abbrev secret : String
secret = "0123456789abcdef0123456789abcdef"

abbrev getenv : String → String
getenv name =
    if str_eq name "APP_ENV"
    then "production"
    else (if str_eq name "DATABASE_URL"
        then "postgres://db/focus"
        else (if str_eq name "CORS_ALLOWED_ORIGINS"
            then " https://app.example "
            else (if str_eq name "APP_USER_ID"
                then "7"
                else (if str_eq name "APP_USERNAME"
                    then "ada"
                    else (if str_eq name "APP_PASSWORD"
                        then "secret"
                        else (if str_eq name "APP_TOKEN_SECRET" then secret else ""))))))

abbrev loaded : Config
loaded = record {
  environment = "production";
  port = pos 8080;
  database_url = "postgres://db/focus";
  allowed_origins = "https://app.example" ∷ [];
  auth = record {
    user_id = 7;
    username = "ada";
    credential = ada_password;
    token_secret = to_bytes secret;
    session_ttl = default_session_ttl;
  };
}

load-IsLoaded_example : IsLoaded parse_url parse_uuid simple (some (3 ∷ [])) loaded
unfolding load load_origins load_auth new_password_credential credential_with_salt
load-IsLoaded_example = load-IsLoaded parse_url parse_uuid simple (some (3 ∷ [])) getenv loaded refl
