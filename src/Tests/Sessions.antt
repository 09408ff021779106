-- ===== src/Tests/Sessions.antt =====
-- Sessions and passwords.
use focus_flow.Common.{◌≡◌, ◌↔◌, ◌⊎◌, refl, String, true, false, some, [], ◌∷◌, arith, is_empty}
use Prim.Native.String.{◌++◌ as append}
use focus_flow.Model.{Session, User, LoginCredentials}
use focus_flow.Model.Int.{pos}
use focus_flow.Auth.{
  Service, IssuedSession, PasswordCredential, ok, err, invalid_credentials, credential_with_salt,
  verify_password, configured_user_verifier, issue, login, refresh, verify_token, valid_signature,
  from_unix, unix, add,
}
use focus_flow.Auth.Token.{Signed, verify_token-issue, verify_token-Signed, refresh-verify_token}
use focus_flow.Auth.Password.{verify_password_iff, login-cases}
use focus_flow.Api.Wire
use focus_flow.Api.Public
use focus_flow.Api.Public.{CookieConfig, lax, passed, session_cookie, auth_middleware}
use focus_flow.Api.Public.Session.{auth_middleware-login, auth_middleware-Signed}
use focus_flow.Tests.Codecs.{simple, simple-Laws, encode, codes}

abbrev pub ada : User
ada = record { id = 7; username = "ada" }

abbrev pub ada_password : PasswordCredential
ada_password = record { salt = 3 ∷ []; hash = codes "secret" (3 ∷ []) }

-- Tokens live for three seconds.
abbrev service : Service
service = record {
  verifier = configured_user_verifier simple ada ada_password;
  secret = 5 ∷ [];
  ttl = pos 3000000000;
}

abbrev issued : IssuedSession
issued = record {
  token = append (encode (2 ∷ 5 ∷ [])) (append "." (encode (1 ∷ 2 ∷ 5 ∷ [])));
  session = record { user = ada; expires_at = 5000000000 };
}

verify_token-issue_example :
    verify_token simple service 4999999999 issued.token
    ≡ ok (record { user = ada; expires_at = from_unix (unix (add 2000000000 (pos 3000000000))) })
unfolding issue
verify_token-issue_example =
    verify_token-issue simple simple-Laws service 2000000000 4999999999 ada issued refl refl
      (omega arith)

verify_token-Signed_example :
    Signed simple simple-Laws service 4999999999 issued.token
      (record { user = ada; expires_at = 5000000000 })
unfolding verify_token valid_signature
verify_token-Signed_example =
    verify_token-Signed simple simple-Laws service 4999999999 issued.token
      (record { user = ada; expires_at = 5000000000 }) refl

refresh-verify_token_example :
    refresh simple service 4999999999 (record { user = ada; expires_at = 5000000000 })
    ≡ issue simple service 4999999999 ada
unfolding verify_token valid_signature
refresh-verify_token_example =
    refresh-verify_token simple simple-Laws service 4999999999 issued.token
      (record { user = ada; expires_at = 5000000000 }) refl (λ e. cc)

verify_password_iff_example :
    (verify_password simple (credential_with_salt simple "secret" (3 ∷ [])) "secret" ≡ true)
    ↔ ((is_empty "secret" ≡ false) × (codes "secret" (3 ∷ []) ≡ codes "secret" (3 ∷ [])))
verify_password_iff_example = verify_password_iff simple "secret" "secret" (3 ∷ []) refl refl

abbrev attempt : LoginCredentials
attempt = record { username = "ada"; password = "secret" }

login-cases_example :
    ((attempt.username ≡ ada.username)
      × (verify_password simple ada_password attempt.password ≡ true)
      × (login simple service 2000000000 attempt ≡ issue simple service 2000000000 ada))
    ⊎ ((¬ (
          (attempt.username ≡ ada.username)
          × (verify_password simple ada_password attempt.password ≡ true)))
        × (login simple service 2000000000 attempt ≡ err invalid_credentials))
login-cases_example = login-cases simple service ada ada_password refl 2000000000 attempt

abbrev plain : CookieConfig
plain = record { secure = false; same_site = lax }

abbrev request : Wire.LoginRequest
request = record { username = "ada"; password = "secret" }

abbrev body : Wire.AuthSession
body = record { expires_at = 5000000000; user = record { id = 7; username = "ada" } }

auth_middleware-login_example :
    auth_middleware simple service plain 4999999999 "ListFlows" (some issued.token)
    ≡ passed (
        some
          (record { user = ada; expires_at = from_unix (unix (add 2000000000 (pos 3000000000))) }))
unfolding login Public.login configured_user_verifier verify_password issue
auth_middleware-login_example =
    auth_middleware-login simple simple-Laws service plain ada ada_password refl refl 2000000000
      4999999999 request body (session_cookie plain issued.token 5000000000) "ListFlows" refl
      (omega arith) refl

auth_middleware-Signed_example :
    (token : String) × (session : Session) × (some issued.token ≡ some token)
    × (some (record { user = ada; expires_at = 5000000000 }) ≡ some session)
    × Signed simple simple-Laws service 4999999999 token session
unfolding auth_middleware verify_token valid_signature
auth_middleware-Signed_example =
    auth_middleware-Signed simple simple-Laws service plain 4999999999 "ListFlows"
      (some issued.token) (some (record { user = ada; expires_at = 5000000000 })) refl refl
