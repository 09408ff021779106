-- ===== src/Api/Public.antt =====
-- backend/internal/api/public.go and authMiddleware of handler.go: login, logout, refresh, and the
-- check of the session token. The text of a cookie is what `http.Cookie` makes of these fields.
pub mod Session
use focus_flow.Common.{
  ℕ, if◌then◌else◌, String, Bool, true, false, not, Option, none, some, str_eq, is_empty,
}
use focus_flow.Model
use focus_flow.Model.Int.{ℤ, pos, negsuc}
use focus_flow.Auth
use focus_flow.Auth.{Library, ok, err, invalid_credentials, invalid_token, expired_token, other}
use focus_flow.Api.Wire
use focus_flow.Api.Mappers
use focus_flow.Api.Outgoing
use focus_flow.Api.User.{unauthorized}
use focus_flow.Api.Handler.{protected_operation}

pub data SameSite : Type 0 where
  lax none_mode : SameSite

pub record CookieConfig : Type 0 where
  pub secure : Bool
  pub same_site : SameSite

unfoldable pub cookie_config_for_environment : String → CookieConfig
cookie_config_for_environment environment =
    if str_eq environment "production"
    then record { secure = true; same_site = none_mode }
    else record { secure = false; same_site = lax }

pub record Cookie : Type 0 where
  pub name : String
  pub value : String
  pub path : String
  pub expires : Model.Time
  pub max_age : ℤ
  pub http_only : Bool
  pub secure : Bool
  pub same_site : SameSite

abbrev pub session_cookie_name : String
session_cookie_name = "focusflow_session"

abbrev pub session_cookie : CookieConfig → String → Model.Time → Cookie
session_cookie cookies token expires_at = record {
  name = session_cookie_name;
  value = token;
  path = "/";
  expires = expires_at;
  max_age = pos 0;
  http_only = true;
  secure = cookies.secure;
  same_site = cookies.same_site;
}

abbrev pub expired_session_cookie : CookieConfig → Cookie
expired_session_cookie cookies = record {
  name = session_cookie_name;
  value = "";
  path = "/";
  expires = 0;
  max_age = negsuc 0;
  http_only = true;
  secure = cookies.secure;
  same_site = cookies.same_site;
}

-- A response of the public operations: a session with its cookie, a cookie alone (204), an error
-- body with its status, or an error.
pub data Response : Type 0 where
  session_set : Wire.AuthSession → Cookie → Response
  cookie_only : Cookie → Response
  problem : ℕ → Wire.ErrorResponse → Response
  failed : Auth.Error → Response

-- The response that sets the cookie of an issued session.
abbrev pub with_cookie : CookieConfig → Auth.IssuedSession → Response
with_cookie cookies issued =
    session_set (Outgoing.session_from_internal issued.session)
      (session_cookie cookies issued.token issued.session.expires_at)

abbrev pub is_auth_failure : Auth.Error → Bool
is_auth_failure (other text) = false
is_auth_failure _ = true

abbrev pub login_response : CookieConfig → Auth.Result Auth.IssuedSession → Response
login_response cookies (ok issued) = with_cookie cookies issued
login_response cookies (err invalid_credentials) = problem 401 unauthorized
login_response cookies (err e) = failed e

abbrev pub refresh_response : CookieConfig → Auth.Result Auth.IssuedSession → Response
refresh_response cookies (ok issued) = with_cookie cookies issued
refresh_response cookies (err e) = if is_auth_failure e then problem 401 unauthorized else failed e

-- What authMiddleware makes of a request: refused, or passed on with a session or with none.
pub data Passed : Type 0 where
  refused : Passed
  passed : Option Model.Session → Passed

abbrev pub pass_session : Auth.Result Model.Session → Passed
pass_session (ok session) = passed (some session)
pass_session (err e) = refused

module _ (lib : Library) (service : Auth.Service) (cookies : CookieConfig) where
  unfoldable pub login : Model.Time → Option Wire.LoginRequest → Response
  login now none = problem 401 unauthorized
  login now (some body) =
      login_response cookies (Auth.login lib service now (Mappers.login_to_internal body))

  unfoldable pub logout : Response
  logout = cookie_only (expired_session_cookie cookies)

  unfoldable pub refresh_session : Model.Time → Option Model.Session → Response
  refresh_session now none = problem 401 unauthorized
  refresh_session now (some session) =
      refresh_response cookies (Auth.refresh lib service now session)

  -- `err != nil || cookie.Value == ""`, and the check of the token.
  abbrev pub check_cookie : Model.Time → Option String → Passed
  check_cookie now none = refused
  check_cookie now (some value) =
      if is_empty value then refused else pass_session (Auth.verify_token lib service now value)

  unfoldable pub auth_middleware : Model.Time → String → Option String → Passed
  auth_middleware now operation cookie =
      if not (protected_operation operation) then passed none else check_cookie now cookie
