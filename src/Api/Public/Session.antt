-- ===== src/Api/Public/Session.antt =====
-- A session from its login to its use.
use focus_flow.Common.{
  ◌<◌, ◌≡◌, refl, sym, ◌∙◌, inl, inr, String, true, false, Option, none, some, arith, is_empty,
}
use focus_flow.Model
use focus_flow.Auth
use focus_flow.Auth.{Library, ok, err, from_unix, unix, add}
use focus_flow.Auth.Token.{Laws, Signed, verify_token-issue, verify_token-Signed}
use focus_flow.Auth.Password.{login-cases}
use focus_flow.Api.Wire
use focus_flow.Api.Mappers
use focus_flow.Api.Handler.{protected_operation}
use focus_flow.Api.Public.{
  CookieConfig, Cookie, session_set, login_response, passed, pass_session, login, auth_middleware,
}

verified_by :
    (found : Option Model.Session) (r : Auth.Result Model.Session)
    → pass_session r ≡ passed found
    → (session : Model.Session) × (r ≡ ok session) × (found ≡ some session)
verified_by found (ok session) h = (session, refl, ground arith)
verified_by found (err e) h = absurd (ground arith)

module _ (lib : Library) (laws : Laws lib) (service : Auth.Service) (cookies : CookieConfig) where
  issued_by :
      (r : Auth.Result Auth.IssuedSession) (body : Wire.AuthSession) (cookie : Cookie)
      → login_response cookies r ≡ session_set body cookie
      → (issued : Auth.IssuedSession) × (r ≡ ok issued) × (cookie.value ≡ issued.token)
  issued_by (ok issued) body cookie h = (issued, refl, ground arith)
  issued_by (err Auth.invalid_credentials) body cookie h = absurd (ground arith)
  issued_by (err e) body cookie h = absurd (ground arith)

  -- An empty token is not accepted.
  accepted_full :
      (now : Model.Time) (token : String) (session : Model.Session)
      → Auth.verify_token lib service now token ≡ ok session
      → is_empty token ≡ false
  unfolding Auth.verify_token
  accepted_full now String.[] session h = absurd (ground arith)
  accepted_full now (String.◌∷◌ c rest) session h = refl

  passes :
      (now : Model.Time) (operation token : String) (session : Model.Session)
      → protected_operation operation ≡ true
      → Auth.verify_token lib service now token ≡ ok session
      → auth_middleware lib service cookies now operation (some token) ≡ passed (some session)
  unfolding auth_middleware
  passes now operation token session protected h =
      let full = accepted_full now token session h in ground arith

  -- After a login that sets a cookie, with a configured user who has a name, a protected
  -- operation with that cookie passes authMiddleware at every time before the expiry in whole
  -- seconds, with that user and expiry, if the codecs keep their laws.
  pub auth_middleware-login :
      (user : Model.User) (credential : Auth.PasswordCredential)
      → service.verifier ≡ Auth.configured_user_verifier lib user credential
      → is_empty user.username ≡ false
      → (now later : Model.Time) (request : Wire.LoginRequest) (body : Wire.AuthSession)
        (cookie : Cookie) (operation : String)
      → login lib service cookies now (some request) ≡ session_set body cookie
      → later < from_unix (unix (add now service.ttl))
      → protected_operation operation ≡ true
      → auth_middleware lib service cookies later operation (some cookie.value)
        ≡ passed
            (some (record { user = user; expires_at = from_unix (unix (add now service.ttl)) }))
  unfolding login
  auth_middleware-login user credential configured named now later request body cookie operation set
        before protected =
      let credentials = Mappers.login_to_internal request in
      let (issued, logged_in, value) =
        issued_by (Auth.login lib service now credentials) body cookie set in
      elim (login-cases lib service user credential configured now credentials) [
        | inr (wrong, e) ↦ absurd (ground arith)
        | inl (name, password, e) ↦ rw value (
            passes later operation issued.token
              (record { user = user; expires_at = from_unix (unix (add now service.ttl)) })
              protected
              (verify_token-issue lib laws service now later user issued (sym e ∙ logged_in) named
                before))
      ]

  -- If the codecs keep their laws, a protected operation passes authMiddleware only with a cookie
  -- whose value is a token signed with the secret of the service and not expired, and then with
  -- the session of its claims.
  pub auth_middleware-Signed :
      (now : Model.Time) (operation : String) (cookie : Option String)
      (found : Option Model.Session)
      → protected_operation operation ≡ true
      → auth_middleware lib service cookies now operation cookie ≡ passed found
      → (token : String) × (session : Model.Session) × (cookie ≡ some token)
        × (found ≡ some session)
        × Signed lib laws service now token session
  unfolding auth_middleware
  auth_middleware-Signed now operation none found protected h = absurd (ground arith)
  auth_middleware-Signed now operation (some token) found protected h =
      let (session, verified, same) =
        verified_by found (Auth.verify_token lib service now token) (ground arith) in
      (token, session, refl, same, verify_token-Signed lib laws service now token session verified)
