-- ===== src/Auth.antt =====
-- backend/internal/auth/auth.go: password credentials and signed session tokens.
--
-- `[]byte` is a list of numbers. The time of `service.now` is an argument, in nanoseconds since
-- 1970, and so is what `rand.Read` gave. The codecs and the hash functions that the code calls are
-- the fields of `Library`.
pub mod Token
pub mod Password
use focus_flow.Common.{
  ℕ, ◌+◌, ◌-◌, ◌*◌, ◌/◌, ◌==◌, ltb, if◌then◌else◌, String, Bool, true, false, not, ◌&&◌, ◌||◌,
  Option, none, some, List, [], ◌∷◌, ◌++◌, str_eq, split, is_empty, length,
}
use Prim.Native.String.{◌++◌ as append}
use focus_flow.Model.{Uuid, nil_id, Time, User, Session, LoginCredentials}
use focus_flow.Model.Int.{ℤ, pos, negsuc}

abbrev pub Bytes : Type 0
Bytes = List ℕ

pub record TokenClaims : Type 0 where
  pub subject : String
  pub username : String
  pub issued_at : ℤ
  pub expires_at : ℤ

-- `argon2.IDKey` with the arguments of hashPassword, HMAC with SHA-256, the raw URL encoding of
-- base64, JSON for the claims, and the text of a UUID.
pub record Library : Type 0 where
  pub hash_password : String → Bytes → Bytes
  pub hmac : Bytes → Bytes → Bytes
  pub encode64 : Bytes → String
  pub decode64 : String → Option Bytes
  pub marshal : TokenClaims → Option Bytes
  pub unmarshal : Bytes → Option TokenClaims
  pub id_string : Uuid → String
  pub parse_id : String → Option Uuid

-- ErrInvalidCredentials, ErrInvalidToken, ErrExpiredToken, and any other error.
pub data Error : Type 0 where
  invalid_credentials invalid_token expired_token : Error
  other : String → Error

pub data Result (Value : Type 0) : Type 0 where
  err : Error → Result Value
  ok : Value → Result Value

-- `subtle.ConstantTimeCompare(a, b) == 1`, and `hmac.Equal`.
abbrev pub bytes_eq : Bytes → Bytes → Bool
bytes_eq [] [] = true
bytes_eq (x ∷ xs) (y ∷ ys) = let rest = bytes_eq xs ys in if x == y then rest else false
bytes_eq _ _ = false

abbrev pub no_bytes : Bytes → Bool
no_bytes [] = true
no_bytes (b ∷ bs) = false

pub record PasswordCredential : Type 0 where
  pub salt : Bytes
  pub hash : Bytes

pub record CredentialVerifier : Type 0 where
  pub verify : LoginCredentials → Result User

pub record IssuedSession : Type 0 where
  pub token : String
  pub session : Session

pub record Service : Type 0 where
  pub verifier : CredentialVerifier
  pub secret : Bytes
  pub ttl : ℤ

-- `len(secret) < 32` and `ttl <= 0`.
abbrev pub is_positive : ℤ → Bool
is_positive (pos n) = not (n == 0)
is_positive (negsuc n) = false

unfoldable pub new_service : Option CredentialVerifier → Bytes → ℤ → Result Service
new_service none secret ttl = err (other "auth verifier is required")
new_service (some verifier) secret ttl =
    if ltb (length secret) 32
    then err (other "auth token secret must be at least 32 bytes")
    else (if is_positive ttl
        then ok (record { verifier = verifier; secret = [] ++ secret; ttl = ttl })
        else err (other "auth token ttl must be positive"))

-- `t.Add(d)`; a time before 1970 is 1970.
abbrev pub add : Time → ℤ → Time
add t (pos d) = t + d
add t (negsuc d) = t - (d + 1)

-- `t.Unix()`
abbrev pub unix : Time → ℤ
unix t = pos (t / 1000000000)

-- `time.Unix(seconds, 0)`
abbrev pub from_unix : ℤ → Time
from_unix (pos seconds) = seconds * 1000000000
from_unix (negsuc seconds) = 0

module _ (lib : Library) where
  unfoldable pub credential_with_salt : String → Bytes → PasswordCredential
  credential_with_salt password salt = record {
    salt = [] ++ salt;
    hash = lib.hash_password password ([] ++ salt);
  }

  -- What `rand.Read` gave is the second argument.
  unfoldable pub new_password_credential : String → Option Bytes → Result PasswordCredential
  unfolding credential_with_salt
  new_password_credential password random =
      if is_empty password then err (other "password must not be empty") else elim random [
        | none ↦ err (other "generate password salt")
        | some salt ↦ ok (credential_with_salt password salt)
      ]

  unfoldable pub verify_password : PasswordCredential → String → Bool
  verify_password credential password =
      if is_empty password || no_bytes credential.salt || no_bytes credential.hash
      then false
      else bytes_eq (lib.hash_password password credential.salt) credential.hash

  -- ConfiguredUserVerifier
  unfoldable pub configured_user_verifier : User → PasswordCredential → CredentialVerifier
  unfolding verify_password
  configured_user_verifier user credential = record {
    verify = λ credentials.
        if not (str_eq credentials.username user.username)
          || not (verify_password credential credentials.password)
        then err invalid_credentials
        else ok user;
  }

  unfoldable pub valid_signature : Service → Bytes → Bytes → Bool
  valid_signature service payload signature = bytes_eq signature (lib.hmac service.secret payload)

  unfoldable pub issue : Service → Time → User → Result IssuedSession
  issue service now user =
      let session : Session = record { user = user; expires_at = add now service.ttl } in
      let claims : TokenClaims = record {
        subject = lib.id_string user.id;
        username = user.username;
        issued_at = unix now;
        expires_at = unix session.expires_at;
      } in
      elim (lib.marshal claims) [
        | none ↦ err (other "encode token claims")
        | some payload ↦ ok (record {
          token =
              append (lib.encode64 payload)
                (append "." (lib.encode64 (lib.hmac service.secret payload)));
          session = session;
        })
      ]

  unfoldable pub login : Service → Time → LoginCredentials → Result IssuedSession
  unfolding issue
  login service now credentials = elim (service.verifier.verify credentials) [
    | err e ↦ err e
    | ok user ↦ issue service now user
  ]

  unfoldable pub refresh : Service → Time → Session → Result IssuedSession
  unfolding issue
  refresh service now session =
      if (session.user.id == nil_id) || is_empty session.user.username
      then err invalid_token
      else (if not (ltb now session.expires_at)
          then err expired_token
          else issue service now session.user)

  -- What VerifyToken does with the decoded claims.
  abbrev pub check_claims : Time → TokenClaims → Result Session
  check_claims now claims = elim (lib.parse_id claims.subject) [
    | none ↦ err invalid_token
    | some id ↦
        if is_empty claims.username || not (is_positive claims.expires_at)
        then err invalid_token
        else (if not (ltb now (from_unix claims.expires_at))
            then err expired_token
            else ok (record {
              user = record { id = id; username = claims.username };
              expires_at = from_unix claims.expires_at;
            }))
  ]

  -- And with the decoded payload and signature.
  abbrev pub check_payload : Service → Time → Option Bytes → Option Bytes → Result Session
  check_payload service now (some payload) (some signature) =
      if valid_signature service payload signature
      then elim (lib.unmarshal payload) [
        | none ↦ err invalid_token
        | some claims ↦ check_claims now claims
      ]
      else err invalid_token
  check_payload service now _ _ = err invalid_token

  abbrev pub check_parts : Service → Time → List String → Result Session
  check_parts service now (first ∷ second ∷ []) =
      if is_empty first || is_empty second
      then err invalid_token
      else check_payload service now (lib.decode64 first) (lib.decode64 second)
  check_parts service now _ = err invalid_token

  -- 46 is the dot.
  unfoldable pub verify_token : Service → Time → String → Result Session
  unfolding valid_signature
  verify_token service now token = check_parts service now (split 46 token)
