-- ===== src/Config/Load.antt =====
-- What holds of a configuration that `Load` accepts.
use focus_flow.Common.{
  ℕ, ◌≤◌, ◌≡◌, refl, sym, subst, inl, inr, ◌⊎◌, String, true, false, not, ◌&&◌, Option, none, some,
  List, [], ◌∷◌, arith, str_eq, split, trim_space, is_empty, length, All, Bool-cases, Option-cases,
}
use focus_flow.Model.{Uuid, nil_id}
use focus_flow.Model.Int.{ℤ, pos, negsuc}
use focus_flow.Auth.{
  Bytes, Library, CredentialVerifier, Service, Result, ok, err, new_service, is_positive,
}
use focus_flow.Auth
use focus_flow.Api.Handler.{atoi}
use focus_flow.Config.{
  Url, Config, AuthConfig, default_session_ttl, known_environment, port_text, read_port,
  valid_database, valid_origin, is_https, prepend_origin, load_origins, load_auth, load_auth_for,
  load,
}

ok_injective : {A : Type 0} {a b : A} → ok a ≡ ok b → a ≡ b
ok_injective h = cc

Result-cases :
    {A : Type 0} (r : Result A) → ((e : Auth.Error) × (r ≡ err e)) ⊎ ((a : A) × (r ≡ ok a))
Result-cases (err e) = inl (e, refl)
Result-cases (ok a) = inr (a, refl)

module _ (url_parse : String → Option Url) (uuid_parse : String → Option Uuid) (lib : Library)
    (random : Option Bytes) where
  -- What an origin is, and in production.
  abbrev pub IsOrigin : String → String → Type 0
  IsOrigin environment origin =
      (valid_origin (url_parse origin) ≡ true)
      × ((str_eq environment "production" && not (is_https (url_parse origin))) ≡ false)

  prepended :
      (origin : String) (r : Result (List String)) (origins : List String)
      → prepend_origin origin r ≡ ok origins
      → (rest : List String) × (r ≡ ok rest) × (origins ≡ origin ∷ rest)
  prepended origin (ok rest) origins h = (rest, refl, ground arith)
  prepended origin (err e) origins h = absurd (ground arith)

  load_origins-IsOrigin :
      (environment : String) (values origins : List String)
      → load_origins url_parse uuid_parse lib random environment values ≡ ok origins
      → All (IsOrigin environment) origins
  unfolding load_origins
  load_origins-IsOrigin environment [] origins h =
      subst (All (IsOrigin environment)) (ok_injective h) tt
  load_origins-IsOrigin environment (value ∷ values) origins h =
      let origin = trim_space value in
      elim (Bool-cases (valid_origin (url_parse origin))) [
        | inr bad ↦ absurd (ground arith)
        | inl good ↦
            elim (Bool-cases
              (str_eq environment "production" && not (is_https (url_parse origin)))) [
                | inl plain ↦ absurd (ground arith)
                | inr secure ↦
                    let (rest, e, same) =
                      prepended origin
                        (load_origins url_parse uuid_parse lib random environment values) origins
                        (ground arith) in
                    subst (All (IsOrigin environment)) (sym same)
                      ((good, secure), load_origins-IsOrigin environment values rest e)
              ]
      ]

  -- What the part for sessions of an accepted configuration is.
  pub record IsAuthLoaded (auth : AuthConfig) : Type 0 where
    pub known_user : ¬ (auth.user_id ≡ nil_id)
    pub named : is_empty auth.username ≡ false
    pub long_secret : 32 ≤ length auth.token_secret
    pub two_hours : auth.session_ttl ≡ default_session_ttl

  load_auth_for-IsAuthLoaded :
      (getenv : String → String) (id : Uuid) (auth : AuthConfig)
      → load_auth_for url_parse uuid_parse lib random getenv id ≡ ok auth
      → IsAuthLoaded auth
  load_auth_for-IsAuthLoaded getenv id auth h = record {
    known_user = λ same. ground arith;
    named = ground arith;
    long_secret = ground arith;
    two_hours = ground arith;
  }

  load_auth-IsAuthLoaded :
      (getenv : String → String) (auth : AuthConfig)
      → load_auth url_parse uuid_parse lib random getenv ≡ ok auth
      → IsAuthLoaded auth
  unfolding load_auth
  load_auth-IsAuthLoaded getenv auth h =
      elim (Option-cases (uuid_parse (trim_space (getenv "APP_USER_ID")))) [
        | inl missing ↦ absurd (ground arith)
        | inr (id, found) ↦ load_auth_for-IsAuthLoaded getenv id auth (ground arith)
      ]

  -- What an accepted configuration is.
  pub record IsLoaded (c : Config) : Type 0 where
    pub environment : known_environment c.environment ≡ true
    pub port : (n : ℕ) × (c.port ≡ pos n) × (1 ≤ n) × (n ≤ 65535)
    pub database : valid_database (url_parse c.database_url) ≡ true
    pub origins : All (IsOrigin c.environment) c.allowed_origins
    pub auth : IsAuthLoaded c.auth

  port_bounds :
      (o : Option ℤ) (port : ℤ)
      → read_port o ≡ some port
      → (n : ℕ) × (port ≡ pos n) × (1 ≤ n) × (n ≤ 65535)
  port_bounds none port h = absurd (ground arith)
  port_bounds (some (pos n)) port h = (n, ground arith, ground arith, ground arith)
  port_bounds (some (negsuc n)) port h = absurd (ground arith)

  -- A configuration that Load accepts has a known environment, a port between 1 and 65535, the
  -- URL of a PostgreSQL database, only origins without a path, in production only HTTPS ones, and
  -- for the sessions a user with an identifier and a name, a secret of at least 32 bytes and a
  -- life of two hours.
  pub load-IsLoaded :
      (getenv : String → String) (c : Config)
      → load url_parse uuid_parse lib random getenv ≡ ok c
      → IsLoaded c
  unfolding load
  load-IsLoaded getenv c h =
      let port = read_port (atoi (port_text (getenv "PORT"))) in
      let origins =
        load_origins url_parse uuid_parse lib random (getenv "APP_ENV")
          (split 44 (getenv "CORS_ALLOWED_ORIGINS")) in
      elim (Option-cases port) [
        | inl missing ↦ absurd (ground arith)
        | inr (p, read) ↦ elim (Result-cases origins) [
          | inl (e, bad) ↦ absurd (ground arith)
          | inr (os, good) ↦
              elim (Result-cases (load_auth url_parse uuid_parse lib random getenv)) [
                | inl (e, bad) ↦ absurd (ground arith)
                | inr (auth, loaded) ↦
                    let made : c ≡ record {
                      environment = getenv "APP_ENV";
                      port = p;
                      database_url = getenv "DATABASE_URL";
                      allowed_origins = os;
                      auth = auth;
                    } =
                      ground arith in
                    rw made (record {
                      environment = ground arith;
                      port = port_bounds (atoi (port_text (getenv "PORT"))) p read;
                      database = ground arith;
                      origins =
                          load_origins-IsOrigin (getenv "APP_ENV")
                            (split 44 (getenv "CORS_ALLOWED_ORIGINS")) os good;
                      auth = load_auth-IsAuthLoaded getenv auth loaded;
                    })
              ]
        ]
      ]

  -- With a configuration that Load accepts, NewService makes a service for every verifier, with
  -- the secret and the life of sessions that the configuration has.
  new_service-load :
      (getenv : String → String) (c : Config) (verifier : CredentialVerifier)
      → load url_parse uuid_parse lib random getenv ≡ ok c
      → new_service (some verifier) c.auth.token_secret c.auth.session_ttl
        ≡ ok (record {
          verifier = verifier;
          secret = c.auth.token_secret;
          ttl = default_session_ttl;
        })
  unfolding new_service
  new_service-load getenv c verifier h =
      let auth = (load-IsLoaded getenv c h).auth in
      let long = auth.long_secret in rw auth.two_hours (ground arith)
